-- ===== src/Proxy.antt =====
-- src/rpc_proxy.c: the state of the proxy and the helpers of all its handlers.
--
-- An index that C holds as -1 is `none`. responses_pending is an int that is only decremented in a
-- race; a decrement below 1 ends the race, which sets it to 0, so it is a natural number here.
-- `client_out` is not in the source: it records what the kernel took of each response that
-- send_upstream_response_to_client sent, newest first, with the descriptor.
pub mod Response
pub mod Request
pub mod Race
pub mod Failure
pub mod System
pub mod View
pub mod Verdict
pub mod Invariant
pub mod Lifecycle
pub mod Answers
pub mod Timer
pub mod Routing
pub mod Progress
pub mod Heights
pub mod Fallback
pub mod Created
pub mod Loops
pub mod Sent
pub mod Late
pub mod Overwrite
pub mod Machine
use rpcracer.Prelude.{
  ℕ, zero, suc, ◌+◌, ◌-◌, ◌*◌, Bool, true, false, not, ◌&&◌, ◌||◌, Option, none, some, List, [],
  ◌∷◌, ◌++◌, ltb, leb, ◌==◌, if◌then◌else◌, get_elem?, set, length, take, drop, is_some, add64, ℤ,
}
use rpcracer.EventLoop.{Slot, Callback, rpc_timeout_cb, Loop, Kernel, epoll_in, add_fd, del_fd}
use rpcracer.Conn.{Conn, Buffer, client_recv_buf, is_busy, rpc_conn_reset, rpc_conn_send}
use rpcracer.Pair.{Pair, at, put, active, conn_pair_is_available, conn_pair_tick}
use rpcracer.Stats.{Stats}

-- enum race_state_t.
pub data RaceState : Type 0 where
  race_idle race_fanout race_sticky : RaceState

abbrev pub is_idle : RaceState → Bool
is_idle race_idle = true
is_idle _ = false

abbrev pub is_fanout : RaceState → Bool
is_fanout race_fanout = true
is_fanout _ = false

-- struct rpc_proxy, with the event loop and the timeout of the configuration it points to.
pub record Proxy : Type 0 where
  pub loop : Loop
  pub listen_fd : Option ℕ
  pub rpc_timeout_ms : ℕ
  pub stats : Option Stats
  pub state : RaceState
  pub sticky_node_idx : Option ℕ
  pub last_block_height : ℤ
  pub notify_pending : Bool
  pub last_notify_ns : ℕ
  pub responses_pending : ℕ
  pub winner_idx : Option ℕ
  pub last_error_idx : Option ℕ
  pub all_must_complete : Bool
  pub best_gbt_height : ℤ
  pub best_gbt_node_idx : Option ℕ
  pub gbt_height_matched : Bool
  pub client_fd : Option ℕ
  pub client_recv_buf : List ℕ
  pub client_recv_len : ℕ
  pub client_connected : Bool
  pub method : List ℕ
  pub pairs : List Pair
  pub node_retried : ℕ → Bool
  pub request_len : ℕ
  pub rpc_timeout_timer_fd : Option ℕ
  pub client_out : List (Option ℕ × List ℕ)

-- What the operating system answers to a handler of the proxy: `sends` are the results of the
-- send() calls to the client (`none` for an error), `timer` that of timerfd_create, `settime` that
-- of timerfd_settime.
pub record Env : Type 0 where
  pub kernel : Kernel
  pub sends : List (Option ℕ)
  pub timer : Option ℕ
  pub settime : Bool

-- close_client.
unfoldable pub close_client : Proxy → Proxy
close_client p =
    if p.client_connected
    then record p {
      loop = (del_fd p.loop p.client_fd).0;
      client_fd = none;
      client_connected = false;
      client_recv_len = 0;
    }
    else p

-- The loop of send_upstream_response_to_client: the bytes that the kernel took, of those given.
unfoldable pub send_loop : List (Option ℕ) → List ℕ → List ℕ
send_loop [] bytes = []
send_loop (none ∷ answers) bytes = []
send_loop (some n ∷ answers) bytes = take n bytes ++ send_loop answers (drop n bytes)

unfoldable pub send_upstream_response_to_client : Env → Conn → Proxy → Proxy
send_upstream_response_to_client env c p =
    let total = add64 c.header_len c.content_length in
    if not p.client_connected || (total == 0 || ltb c.recv_len total) then p else record p {
      client_out = (p.client_fd, send_loop env.sends (take total c.recv_buf)) ∷ p.client_out;
    }

-- cancel_rpc_timeout.
unfoldable pub cancel_rpc_timeout : Proxy → Proxy
cancel_rpc_timeout p =
    if is_some p.rpc_timeout_timer_fd
    then record p { loop = (del_fd p.loop p.rpc_timeout_timer_fd).0; rpc_timeout_timer_fd = none }
    else p

-- The part of start_rpc_timeout behind timerfd_create and timerfd_settime.
unfoldable pub register_timeout : Env → Option ℕ → Proxy → Proxy
register_timeout env none p = p
register_timeout env (some tfd) p =
    let (l, added) = add_fd env.kernel p.loop (some tfd) epoll_in rpc_timeout_cb in
    if added then record p { loop = l; rpc_timeout_timer_fd = some tfd } else record p { loop = l }

unfoldable pub start_rpc_timeout : Env → Proxy → Proxy
unfolding register_timeout
start_rpc_timeout env p =
    if p.rpc_timeout_ms == 0 || not env.settime then p else register_timeout env env.timer p

-- The loops over pairs that reset the active connection of those that pass a test.
unfoldable pub reset_active : Kernel → (Conn → Bool) → List Pair → Loop → List Pair × Loop
reset_active k test [] l = ([], l)
reset_active k test (q ∷ qs) l =
    let (c, l1) = if test (active q) then rpc_conn_reset k (active q) l else (active q, l) in
    let (qs', l2) = reset_active k test qs l1 in (put q.active_idx c q ∷ qs', l2)

-- `conn->send_buf != NULL || RECEIVING || SENDING`.
abbrev pub participated : Conn → Bool
participated c = is_some c.send_buf || is_busy c.state

abbrev pub tick_all : List Pair → List Pair
tick_all [] = []
tick_all (q ∷ qs) = conn_pair_tick q ∷ tick_all qs

-- race_complete.
unfoldable pub race_complete : Kernel → Proxy → Proxy
unfolding cancel_rpc_timeout
race_complete k p0 =
    let p = cancel_rpc_timeout p0 in
    let (qs, l) = reset_active k participated p.pairs p.loop in
    record p {
      loop = l;
      pairs = tick_all qs;
      state = race_idle;
      responses_pending = 0;
      winner_idx = none;
      last_error_idx = none;
      best_gbt_height = ℤ.negsuc 0;
      best_gbt_node_idx = none;
      gbt_height_matched = false;
    }

-- The connection that a callback is about: slot s of pair i.
abbrev pub conn_at : Proxy → ℕ → Slot → Option Conn
conn_at p i s = elim (get_elem? p.pairs i) [ none ↦ none | some q ↦ some (at s q) ]

-- conn_pair_get_active(&proxy->pairs[i]).
abbrev pub active_at : Proxy → ℕ → Option Conn
active_at p i = elim (get_elem? p.pairs i) [ none ↦ none | some q ↦ some (active q) ]

unfoldable pub put_conn : ℕ → Slot → Conn → Proxy → Proxy
put_conn i s c p = elim (get_elem? p.pairs i) [
  | none ↦ p
  | some q ↦ record p { pairs = set p.pairs i (put s c q) }
]

-- rpc_conn_reset on slot s of pair i.
unfoldable pub reset_conn : Kernel → ℕ → Slot → Proxy → Proxy
reset_conn k i s p = elim (get_elem? p.pairs i) [
  | none ↦ p
  | some q ↦
      let (c, l) = rpc_conn_reset k (at s q) p.loop in
      record p { pairs = set p.pairs i (put s c q); loop = l }
]

-- The `still_draining` loop.
unfoldable pub still_draining : List Pair → Bool
still_draining [] = false
still_draining (q ∷ qs) = is_busy (active q).state || still_draining qs

-- Both handlers of an event that comes after its race: reset the connection, and cancel the
-- timeout when no other one drains.
unfoldable pub drain : Kernel → ℕ → Slot → Proxy → Proxy
unfolding reset_conn cancel_rpc_timeout still_draining
drain k i s p0 =
    let p = reset_conn k i s p0 in if still_draining p.pairs then p else cancel_rpc_timeout p
