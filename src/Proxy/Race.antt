-- ===== src/Proxy/Race.antt =====
-- A race in src/rpc_proxy.c: the timeout callback and the handler of a complete response.
use rpcracer.Prelude.{
  ℕ, ◌-◌, ◌/◌, Bool, true, false, not, ◌&&◌, ◌||◌, none, some, ltb, leb, ◌==◌, if◌then◌else◌,
  get_elem?, is_some, sub64, ℤ, pos, ◌+ℤ◌, ltb_ℤ, leb_ℤ, eqb_ℤ,
}
use rpcracer.EventLoop.{Slot, Kernel}
use rpcracer.Framing.{str_eq}
use rpcracer.Conn.{Conn, ConnState, receiving, is_busy, is_connected}
use rpcracer.Pair.{same}
use rpcracer.Stats.{Stats, stats_record_gbt, stats_record_race_win, stats_record_notify_to_gbt}
use rpcracer.Proxy.{
  Proxy, Env, race_idle, is_idle, is_fanout, close_client, send_upstream_response_to_client,
  cancel_rpc_timeout, reset_active, race_complete, active_at, conn_at, put_conn, reset_conn, drain,
}
use rpcracer.Proxy.Response.{
  Json, response_is_error, parse_gbt_height, parse_gbt_tx_count, parse_rpc_error_code,
}
use rpcracer.Proxy.Request.{method_gbt}

abbrev pub is_receiving : ConnState → Bool
is_receiving receiving = true
is_receiving _ = false

-- `strcmp(method, METHOD_GBT) == 0 && state == RACE_FANOUT`.
abbrev pub is_gbt_race : Proxy → Bool
is_gbt_race p = str_eq p.method method_gbt && is_fanout p.state

-- last_block_height only grows.
abbrev pub raise_height : ℤ → ℤ → ℤ
raise_height height last = if ltb_ℤ last height then height else last

-- ---- Timeout ----

-- rpc_timeout_cb while the proxy is idle: the safety net for connections that still drain.
unfoldable pub drain_timeout : Kernel → Proxy → Proxy
unfolding cancel_rpc_timeout
drain_timeout k p =
    let (qs, l) = reset_active k (λ c. is_busy c.state) p.pairs p.loop in
    cancel_rpc_timeout (record p { pairs = qs; loop = l })

-- The fallback of rpc_timeout_cb to the best height, if that response is still there.
unfoldable pub timeout_fallback : Env → Proxy → Proxy
timeout_fallback env p = elim p.best_gbt_node_idx [
  | none ↦ p
  | some best ↦ elim (active_at p best) [
    | none ↦ p
    | some c ↦
        if is_gbt_race p && (is_connected c.state || is_receiving c.state)
        then send_upstream_response_to_client env c (record p {
          winner_idx = some best;
          sticky_node_idx = some best;
          last_block_height = raise_height p.best_gbt_height p.last_block_height;
        })
        else p
  ]
]

-- rpc_timeout_cb in a race.
unfoldable pub race_timeout : Env → Proxy → Proxy
unfolding timeout_fallback
race_timeout env p0 =
    let p : Proxy = record p0 { responses_pending = 0 } in
    let q = if is_some p.winner_idx then p else timeout_fallback env p in
    race_complete env.kernel (if is_some q.winner_idx then q else close_client q)

-- rpc_timeout_cb.
unfoldable pub on_rpc_timeout : Env → Proxy → Proxy
on_rpc_timeout env p = if is_idle p.state then drain_timeout env.kernel p else race_timeout env p

-- ---- Responses ----

-- The time of a response, in microseconds.
abbrev pub elapsed_us : ℕ → Conn → ℕ
elapsed_us now c = (if ltb 0 c.request_start_ns then sub64 now c.request_start_ns else 0) / 1000

-- Microseconds since the last block notify, 0 for a request from before it.
abbrev pub since_notify_us : ℕ → Conn → Proxy → ℕ
since_notify_us now c p =
    if ltb 0 p.last_notify_ns && leb p.last_notify_ns c.request_start_ns
    then sub64 now p.last_notify_ns / 1000
    else 0

-- The three calls that record a won GBT race.
unfoldable pub record_win : ℕ → ℕ → ℕ → ℕ → Stats → Stats
record_win node time tx since s =
    stats_record_notify_to_gbt since
      (stats_record_race_win (some node) (stats_record_gbt (some node) time tx since s))

module _ {V : Type 0} (json : Json V) (env : Env) where
  -- A GBT response becomes the winner: sticky, height, stats, and the answer to the client.
  unfoldable pub gbt_winner : ℕ → ℤ → ℕ → Conn → Proxy → Proxy
  unfolding record_win
  gbt_winner node height time c p = send_upstream_response_to_client env c (record p {
    winner_idx = some node;
    sticky_node_idx = some node;
    last_block_height = raise_height height p.last_block_height;
    stats = elim p.stats [
      | none ↦ none
      | some s ↦
          some (
            record_win node time (parse_gbt_tx_count json c) (since_notify_us env.kernel.now c p) s)
    ];
  })

  -- The height validation of a successful GBT response from this node. The sum of the code is an
  -- int64_t, which overflows behind a height of INT64_MAX; here it does not.
  unfoldable pub gbt_response : ℕ → Conn → Proxy → Proxy
  unfolding gbt_winner
  gbt_response node c p =
      let height = parse_gbt_height json c in
      let time = elapsed_us env.kernel.now c in
      if p.gbt_height_matched
      then p
      else (if eqb_ℤ height (p.last_block_height +ℤ pos 1)
          then gbt_winner node height time c (record p { gbt_height_matched = true })
          else (let q : Proxy =
                if leb_ℤ p.best_gbt_height height
                then record p { best_gbt_height = height; best_gbt_node_idx = some node }
                else p in
              if is_some p.winner_idx then q else gbt_winner node height time c q))

  -- A successful response to any other request: the first one wins.
  unfoldable pub generic_response : ℕ → Conn → Proxy → Proxy
  generic_response node c p =
      if is_some p.winner_idx
      then p
      else send_upstream_response_to_client env c (record p { winner_idx = some node })

  -- What on_upstream_response does to in_ibd of the connection.
  unfoldable pub new_ibd : Conn → Proxy → Bool
  new_ibd c p =
      if response_is_error json c
      then c.in_ibd || (is_gbt_race p && eqb_ℤ (parse_rpc_error_code json c) (ℤ.negsuc 9))
      else c.in_ibd && not (is_gbt_race p)

  -- The part of on_upstream_response from the pending count to the end of the race logic.
  unfoldable pub judge_response : ℕ → Slot → Conn → Proxy → Proxy
  unfolding gbt_response generic_response new_ibd
  judge_response i s c p0 =
      let p : Proxy = record (put_conn i s (record c { in_ibd = new_ibd c p0 }) p0) {
        responses_pending = p0.responses_pending - 1;
      } in
      if response_is_error json c
      then record p { last_error_idx = some c.node_index }
      else (if is_gbt_race p0
          then gbt_response c.node_index c p
          else generic_response c.node_index c p)

  -- The fallbacks when every node has answered and none has won.
  unfoldable pub best_height_fallback : ℕ → ℕ → Proxy → Proxy
  unfolding gbt_winner
  best_height_fallback time best p = elim (active_at p best) [
    | none ↦ p
    | some c ↦ if ltb 0 c.recv_len then gbt_winner best p.best_gbt_height time c p else p
  ]

  unfoldable pub last_error_fallback : Proxy → Proxy
  last_error_fallback p = elim p.last_error_idx [
    | none ↦ p
    | some i ↦ elim (active_at p i) [
      | none ↦ p
      | some c ↦ if ltb 0 c.recv_len then send_upstream_response_to_client env c p else p
    ]
  ]

  unfoldable pub no_winner : ℕ → Bool → Proxy → Proxy
  unfolding best_height_fallback last_error_fallback
  no_winner time gbt p = elim p.best_gbt_node_idx [
    | none ↦ last_error_fallback p
    | some best ↦ if gbt then best_height_fallback time best p else last_error_fallback p
  ]

  -- A winner that need not wait for the others: idle at once, with the winner's connection and
  -- this one reset.
  unfoldable pub reset_if_busy : ℕ → Slot → Proxy → Proxy
  unfolding reset_conn
  reset_if_busy i s p = elim (conn_at p i s) [
    | none ↦ p
    | some c ↦ if is_busy c.state then reset_conn env.kernel i s p else p
  ]

  unfoldable pub leave_race : ℕ → Slot → ℕ → Proxy → Proxy
  unfolding reset_if_busy
  leave_race i s winner p0 =
      let p : Proxy = record p0 { state = race_idle } in
      elim (get_elem? p.pairs winner) [
        | none ↦ reset_if_busy i s p
        | some q ↦
            if winner == i && same q.active_idx s
            then reset_if_busy i s p
            else reset_if_busy i s (reset_if_busy winner q.active_idx p)
      ]

  -- The end of on_upstream_response: complete the race, leave it early, or wait on.
  unfoldable pub settle : ℕ → Slot → Conn → Bool → Proxy → Proxy
  settle i s c gbt p =
      if p.responses_pending == 0
      then race_complete env.kernel
          (if is_some p.winner_idx then p else no_winner (elapsed_us env.kernel.now c) gbt p)
      else (if p.all_must_complete
          then p
          else elim p.winner_idx [ none ↦ p | some w ↦ leave_race i s w p ])

  -- on_upstream_response for the connection c in slot s of pair i.
  unfoldable pub respond : ℕ → Slot → Conn → Proxy → Proxy
  respond i s c p =
      if is_idle p.state && is_receiving c.state
      then drain env.kernel i s p
      else settle i s c (is_gbt_race p) (judge_response i s c p)

  unfoldable pub on_upstream_response : ℕ → Slot → Proxy → Proxy
  unfolding respond
  on_upstream_response i s p = elim (conn_at p i s) [ none ↦ p | some c ↦ respond i s c p ]
