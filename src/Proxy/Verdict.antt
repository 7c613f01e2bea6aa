-- ===== src/Proxy/Verdict.antt =====
-- What on_upstream_response makes of a response (src/rpc_proxy.c), case by case: a rule for each
-- part of it, to prove a property of the proxy behind it.
use rpcracer.Prelude.{
  ℕ, ◌-◌, ◌+◌, ◌≤◌, ◌≡◌, ◌⊎◌, inl, inr, refl, arith, Bool, true, false, Option, none, some, is_some,
  List, length, ℤ, ◌≤ℤ◌, if_rule, Option-cases, get_elem?, add64, take, ltb, leb_ℤ, eqb_ℤ, ◌+ℤ◌,
  pos, not, ◌||◌, ◌&&◌, ◌==◌, if◌then◌else◌, ◌∷◌,
}
use rpcracer.EventLoop.{Slot, Loop}
use rpcracer.Conn.{Conn, is_busy}
use rpcracer.Pair.{Pair, same}
use rpcracer.Stats.{Stats}
use rpcracer.Proxy.{
  Proxy, Env, race_idle, conn_at, reset_conn, put_conn, send_upstream_response_to_client, send_loop,
}
use rpcracer.Proxy.Response.{Json, response_is_error, parse_gbt_height, parse_gbt_tx_count}
use rpcracer.Proxy.Race.{
  is_gbt_race, raise_height, gbt_winner, gbt_response, generic_response, judge_response, new_ibd,
  elapsed_us, since_notify_us, record_win, reset_if_busy, leave_race,
}

-- The responses sent so far, each to a descriptor.
abbrev pub Sent : Type 0
Sent = List (Option ℕ × List ℕ)

-- One response more, or none.
abbrev pub Grows : Sent → Sent → Type 0
Grows old out = (length old ≤ length out) × (length out ≤ length old + 1)

raise_height_lem : (a b : ℤ) → b ≤ℤ raise_height a b
raise_height_lem a b = ground arith

put_conn_rule :
    (P : Proxy → Type 0) (i : ℕ) (s : Slot) (c : Conn) (p : Proxy)
    → ((ps : List Pair) → P (record p { pairs = ps }))
    → P (put_conn i s c p)
unfolding put_conn
put_conn_rule P i s c p h = elim (Option-cases (get_elem? p.pairs i)) [
  | inl e ↦ rw (e, put_conn) (h p.pairs)
  | inr (q, e) ↦ rw (e, put_conn) (h _)
]

send_rule :
    (P : Proxy → Type 0) (env : Env) (c : Conn) (p : Proxy)
    → ((out : Sent) → Grows p.client_out out → P (record p { client_out = out }))
    → P (send_upstream_response_to_client env c p)
unfolding send_upstream_response_to_client
send_rule P env c p h =
    let total = add64 c.header_len c.content_length in
    let out : Sent = (p.client_fd, send_loop env.sends (take total c.recv_buf)) ∷ p.client_out in
    if_rule P (not p.client_connected || (total == 0 || ltb c.recv_len total)) p
      (record p { client_out = out }) (λ _. h p.client_out (omega arith)) (λ _. h out (omega arith))

module _ {V : Type 0} (json : Json V) (env : Env) where
  -- A response becomes the winner.
  gbt_winner_rule :
      (P : Proxy → Type 0) (node : ℕ) (height : ℤ) (time : ℕ) (c : Conn) (p : Proxy)
      → ((st : Option Stats) (out : Sent)
          → Grows p.client_out out
          → P (record p {
            winner_idx = some node;
            sticky_node_idx = some node;
            last_block_height = raise_height height p.last_block_height;
            stats = st;
            client_out = out;
          }))
      → P (gbt_winner json env node height time c p)
  unfolding gbt_winner
  gbt_winner_rule P node height time c p h =
      let st : Option Stats = elim p.stats [
        | none ↦ none
        | some s ↦ some (
            record_win node time (parse_gbt_tx_count json c) (since_notify_us env.kernel.now c p) s)
      ] in
      send_rule P env c
        (record p {
          winner_idx = some node;
          sticky_node_idx = some node;
          last_block_height = raise_height height p.last_block_height;
          stats = st;
        })
        (λ out l. h st out l)

  -- The height race: nothing after a match, a match, or a best height with or without a winner.
  gbt_response_rule :
      (P : Proxy → Type 0) (node : ℕ) (c : Conn) (p : Proxy)
      → (p.gbt_height_matched ≡ true → P p)
      → ((sticky : Option ℕ) (last best : ℤ) (best_idx : Option ℕ) (matched : Bool)
            (st : Option Stats) (out : Sent)
          → Grows p.client_out out
          → p.last_block_height ≤ℤ last
          → p.gbt_height_matched ≡ false
          → P (record p {
            winner_idx = some node;
            sticky_node_idx = sticky;
            last_block_height = last;
            best_gbt_height = best;
            best_gbt_node_idx = best_idx;
            gbt_height_matched = matched;
            stats = st;
            client_out = out;
          }))
      → ((best : ℤ) (best_idx : Option ℕ)
          → is_some p.winner_idx ≡ true
          → P (record p { best_gbt_height = best; best_gbt_node_idx = best_idx }))
      → P (gbt_response json env node c p)
  unfolding gbt_response
  gbt_response_rule P node c p late win keep =
      let height = parse_gbt_height json c in
      let time = elapsed_us env.kernel.now c in
      let raised = raise_height_lem height p.last_block_height in
      let best = leb_ℤ p.best_gbt_height height in
      let noted : Proxy = record p { best_gbt_height = height; best_gbt_node_idx = some node } in
      let q : Proxy = if best then noted else p in
      let match = eqb_ℤ height (p.last_block_height +ℤ pos 1) in
      let winner : Proxy → Proxy = gbt_winner json env node height time c in
      let matching : Proxy = record p { gbt_height_matched = true } in
      let first : Proxy = if is_some p.winner_idx then q else winner q in
      let undecided : Proxy = if match then winner matching else first in
      if_rule P p.gbt_height_matched p undecided late (λ unmatched.
        if_rule P match (winner matching) first
          (λ _. gbt_winner_rule P node height time c matching (λ st out l.
            win (some node) (raise_height height p.last_block_height) p.best_gbt_height
              p.best_gbt_node_idx true st out l raised unmatched))
          (λ _.
            if_rule P (is_some p.winner_idx) q (winner q)
              (λ w.
                if_rule P best noted p (λ _. keep height (some node) w)
                  (λ _. keep p.best_gbt_height p.best_gbt_node_idx w))
              (λ _.
                if_rule (λ x. P (winner x)) best noted p
                  (λ _. gbt_winner_rule P node height time c noted (λ st out l.
                    win (some node) (raise_height height p.last_block_height) height (some node)
                      p.gbt_height_matched st out l raised unmatched))
                  (λ _. gbt_winner_rule P node height time c p (λ st out l.
                    win (some node) (raise_height height p.last_block_height) p.best_gbt_height
                      p.best_gbt_node_idx p.gbt_height_matched st out l raised unmatched)))))

  -- A success in any other race: the first one wins.
  generic_response_rule :
      (P : Proxy → Type 0) (node : ℕ) (c : Conn) (p : Proxy)
      → (is_some p.winner_idx ≡ true → P p)
      → ((out : Sent)
          → Grows p.client_out out
          → is_some p.winner_idx ≡ false
          → P (record p { winner_idx = some node; client_out = out }))
      → P (generic_response json env node c p)
  unfolding generic_response
  generic_response_rule P node c p late win =
      let won : Proxy = record p { winner_idx = some node } in
      if_rule P (is_some p.winner_idx) p (send_upstream_response_to_client env c won) late
        (λ open_race. send_rule P env c won (λ out l. win out l open_race))

  -- The whole verdict: the response fails, wins, or comes too late to win.
  pub judge_rule :
      (P : Proxy → Type 0) (i : ℕ) (s : Slot) (c : Conn) (p : Proxy)
      → ((ps : List Pair)
          → response_is_error json c ≡ true
          → P (record p {
            pairs = ps;
            responses_pending = p.responses_pending - 1;
            last_error_idx = some c.node_index;
          }))
      → ((ps : List Pair) (sticky : Option ℕ) (last best : ℤ) (best_idx : Option ℕ) (matched : Bool)
            (st : Option Stats) (out : Sent)
          → Grows p.client_out out
          → p.last_block_height ≤ℤ last
          → (is_gbt_race p ≡ true)
            ⊎ ((is_some p.winner_idx ≡ false)
                × (best_idx ≡ p.best_gbt_node_idx)
                × (matched ≡ p.gbt_height_matched))
          → P (record p {
            pairs = ps;
            responses_pending = p.responses_pending - 1;
            winner_idx = some c.node_index;
            sticky_node_idx = sticky;
            last_block_height = last;
            best_gbt_height = best;
            best_gbt_node_idx = best_idx;
            gbt_height_matched = matched;
            stats = st;
            client_out = out;
          }))
      → ((ps : List Pair) (best : ℤ) (best_idx : Option ℕ)
          → (is_some p.winner_idx ≡ true) ⊎ (p.gbt_height_matched ≡ true)
          → (is_gbt_race p ≡ true) ⊎ (best_idx ≡ p.best_gbt_node_idx)
          → P (record p {
            pairs = ps;
            responses_pending = p.responses_pending - 1;
            best_gbt_height = best;
            best_gbt_node_idx = best_idx;
          }))
      → P (judge_response json env i s c p)
  unfolding judge_response
  judge_rule P i s c p fails wins late =
      let node = c.node_index in
      let counted : Proxy → Proxy = λ x. record x { responses_pending = p.responses_pending - 1 } in
      let gbt = gbt_response json env node c in
      let generic = generic_response json env node c in
      let success : Proxy → Proxy = λ x. if is_gbt_race p then gbt x else generic x in
      let failure : Proxy → Proxy = λ x. record x { last_error_idx = some node } in
      let verdict : Proxy → Proxy =
        λ x. if response_is_error json c then failure (counted x) else success (counted x) in
      put_conn_rule (λ x. P (verdict x)) i s (record c { in_ibd = new_ibd json env c p }) p
        (λ ps.
          let q : Proxy = counted (record p { pairs = ps }) in
          if_rule P (response_is_error json c) (failure q) (success q) (fails ps) (λ _.
            if_rule P (is_gbt_race p) (gbt q) (generic q)
              (λ g.
                gbt_response_rule P node c q
                  (λ m. late ps p.best_gbt_height p.best_gbt_node_idx (inr m) (inl g))
                  (λ sticky last best best_idx matched st out l raised m.
                    wins ps sticky last best best_idx matched st out l raised (inl g))
                  (λ best best_idx w. late ps best best_idx (inl w) (inl g)))
              (λ _.
                generic_response_rule P node c q
                  (λ w. late ps p.best_gbt_height p.best_gbt_node_idx (inl w) (inr refl))
                  (λ out l w.
                    wins ps p.sticky_node_idx p.last_block_height p.best_gbt_height
                      p.best_gbt_node_idx p.gbt_height_matched p.stats out l (omega arith)
                      (inr (w, refl, refl))))))

  -- Leaving a race early changes only connections, the loop and the race state.
  reset_conn_rule :
      (P : Proxy → Type 0) (i : ℕ) (s : Slot) (p : Proxy)
      → ((ps : List Pair) (l : Loop) → P (record p { pairs = ps; loop = l }))
      → P (reset_conn env.kernel i s p)
  unfolding reset_conn
  reset_conn_rule P i s p h = elim (Option-cases (get_elem? p.pairs i)) [
    | inl e ↦ rw (e, reset_conn) (h p.pairs p.loop)
    | inr (q, e) ↦ rw (e, reset_conn) (h _ _)
  ]

  reset_if_busy_rule :
      (P : Proxy → Type 0) (i : ℕ) (s : Slot) (p : Proxy)
      → ((ps : List Pair) (l : Loop) → P (record p { pairs = ps; loop = l }))
      → P (reset_if_busy json env i s p)
  unfolding reset_if_busy
  reset_if_busy_rule P i s p h = elim (Option-cases (conn_at p i s)) [
    | inl e ↦ rw (e, reset_if_busy) (h p.pairs p.loop)
    | inr (c, e) ↦
        rw (e, reset_if_busy)
          (if_rule P (is_busy c.state) (reset_conn env.kernel i s p) p
            (λ _. reset_conn_rule P i s p h) (λ _. h p.pairs p.loop))
  ]

  pub leave_race_rule :
      (P : Proxy → Type 0) (i : ℕ) (s : Slot) (w : ℕ) (p : Proxy)
      → ((ps : List Pair) (l : Loop) → P (record p { state = race_idle; pairs = ps; loop = l }))
      → P (leave_race json env i s w p)
  unfolding leave_race
  leave_race_rule P i s w p h =
      let idle : Proxy = record p { state = race_idle } in
      elim (Option-cases (get_elem? p.pairs w)) [
        | inl e ↦ rw (e, leave_race) (reset_if_busy_rule P i s idle h)
        | inr (q, e) ↦
            let other_first = reset_if_busy json env w q.active_idx idle in
            rw (e, leave_race)
              (if_rule P (w == i && same q.active_idx s) (reset_if_busy json env i s idle)
                (reset_if_busy json env i s other_first) (λ _. reset_if_busy_rule P i s idle h)
                (λ _.
                  reset_if_busy_rule (λ x. P (reset_if_busy json env i s x)) w q.active_idx idle
                    (λ ps l. reset_if_busy_rule P i s (record idle { pairs = ps; loop = l }) h)))
      ]
