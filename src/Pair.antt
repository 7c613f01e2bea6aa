-- ===== src/Pair.antt =====
-- src/conn_pair.c and conn_pair.h: an active and a standby connection to one node, with rotation.
--
-- active_idx and 1 - active_idx are a `Slot` and its `other`. The event loop that `loop` points to
-- is passed along. A rotation timer is the descriptor `rotation_timer_fd`, `none` for -1.
pub mod Rotation
use rpcracer.Prelude.{
  ℕ, Bool, true, false, not, ◌&&◌, Option, none, some, List, ◌∷◌, if◌then◌else◌, is_some,
}
use rpcracer.EventLoop.{
  Slot, slot0, slot1, Callback, conn_epoll_cb, rotation_timer_cb, Loop, Kernel, epoll_in, add_fd,
  del_fd,
}
use rpcracer.Conn.{
  Conn, Callbacks, OnConnected, slot_on_connected, standby_on_connected, ConnState, ConnectAnswer,
  is_connected, is_disconnected, is_busy, Notice, quiet, notify_connected, rpc_conn_init,
  rpc_conn_connect, rpc_conn_disconnect, rpc_conn_destroy,
}

-- struct conn_pair.
pub record Pair : Type 0 where
  pub slot_0 : Conn
  pub slot_1 : Conn
  pub active_idx : Slot
  pub swap_required : Bool
  pub rotation_timer_fd : Option ℕ
  pub node_index : ℕ
  pub initial_connect_logged : Bool

-- 1 - idx.
abbrev pub other : Slot → Slot
other slot0 = slot1
other slot1 = slot0

abbrev pub same : Slot → Slot → Bool
same slot0 slot0 = true
same slot1 slot1 = true
same _ _ = false

-- pair->slots[s], read and written.
abbrev pub at : Slot → Pair → Conn
at slot0 p = p.slot_0
at slot1 p = p.slot_1

abbrev pub put : Slot → Conn → Pair → Pair
put slot0 c p = record p { slot_0 = c }
put slot1 c p = record p { slot_1 = c }

-- conn_pair_get_active.
abbrev pub active : Pair → Conn
active p = at p.active_idx p

abbrev pub standby : Pair → Conn
standby p = at (other p.active_idx) p

unfoldable pub conn_pair_is_available : Pair → Bool
conn_pair_is_available p = is_connected (active p).state

unfoldable pub conn_pair_tick : Pair → Pair
conn_pair_tick p =
    if p.swap_required && (is_connected (active p).state && is_connected (standby p).state)
    then record p { active_idx = other p.active_idx; swap_required = false }
    else p

-- The result also holds whether the pair is available now. Re-arming the timer changes no field.
unfoldable pub conn_pair_report_error : Pair → Loop → Pair × Loop × Bool
conn_pair_report_error p l =
    let (old, l') = rpc_conn_disconnect (active p) l in
    let p' : Pair = record (put p.active_idx old p) {
      active_idx = other p.active_idx;
      swap_required = false;
    } in
    (p', l', is_connected (active p').state)

-- standby_on_connected, called for the connection in this slot.
unfoldable pub on_standby_connected : Slot → Pair → Pair
unfolding conn_pair_tick
on_standby_connected s p =
    if not (same s (other p.active_idx))
    then p
    else (if not (is_connected (active p).state) && not (is_busy (active p).state)
        then record p {
          active_idx = other p.active_idx;
          swap_required = false;
          initial_connect_logged = true;
        }
        else conn_pair_tick p)

-- slot_on_connected.
unfoldable pub on_slot_connected : Pair → Pair
on_slot_connected p = record p { initial_connect_logged = true }

-- The on_connected callback that a connection operation made.
unfoldable pub run_connected : Notice → Slot → Pair → Pair
unfolding on_standby_connected on_slot_connected
run_connected (notify_connected standby_on_connected) s p = on_standby_connected s p
run_connected (notify_connected slot_on_connected) s p = on_slot_connected p
run_connected _ s p = p

-- rpc_conn_connect on a slot, with its callback.
unfoldable pub connect_slot : Kernel → ConnectAnswer → Slot → Pair → Loop → Pair × Loop
unfolding run_connected
connect_slot k a s p l =
    let (c, l', ok, notice) = rpc_conn_connect k a (conn_epoll_cb p.node_index s) (at s p) l in
    (run_connected notice s (put s c p), l')

-- The body of refresh_standby: disconnect if connected, set the callback, connect.
unfoldable pub reconnect_standby : Kernel → ConnectAnswer → Pair → Loop → Pair × Loop
unfolding connect_slot
reconnect_standby k a p l =
    let (old, l') =
      if is_connected (standby p).state
      then rpc_conn_disconnect (standby p) l
      else (standby p, l) in
    let cb : Callbacks = old.cb in
    let fresh : Conn = record old { cb = record cb { on_connected = some standby_on_connected } } in
    connect_slot k a (other p.active_idx) (put (other p.active_idx) fresh p) l'

unfoldable pub refresh_standby : Kernel → ConnectAnswer → Pair → Loop → Pair × Loop
unfolding reconnect_standby
refresh_standby k a p l =
    if is_connected (standby p).state
    then reconnect_standby k a p l
    else (if is_disconnected (standby p).state then reconnect_standby k a p l else (p, l))

-- rotation_timer_cb.
unfoldable pub on_rotation_timer : Kernel → ConnectAnswer → Pair → Loop → Pair × Loop
unfolding conn_pair_tick
on_rotation_timer k a p l =
    let (p', l') = refresh_standby k a p l in
    (conn_pair_tick (record p' { swap_required = true }), l')

-- rpc_conn_destroy on both slots, in the order given.
unfoldable pub destroy_slots : Slot → Pair → Loop → Pair × Loop
destroy_slots s p l =
    let (c, l1) = rpc_conn_destroy (at s p) l in
    let (d, l2) = rpc_conn_destroy (at (other s) p) l1 in (put (other s) d (put s c p), l2)

unfoldable pub conn_pair_destroy : Pair → Loop → Pair × Loop
unfolding destroy_slots
conn_pair_destroy p l =
    if is_some p.rotation_timer_fd
    then destroy_slots slot0 (record p { rotation_timer_fd = none })
        (del_fd l p.rotation_timer_fd).0
    else destroy_slots slot0 p l

abbrev pub startup_callbacks : OnConnected → Callbacks
startup_callbacks f = record {
  on_connected = some f;
  on_send_complete = false;
  on_response = false;
  on_error = false;
}

-- What malloc, connect() and timerfd_create() answer in conn_pair_init.
pub record InitAnswers : Type 0 where
  pub buffer_0 : Option (List ℕ)
  pub buffer_1 : Option (List ℕ)
  pub connect_0 : ConnectAnswer
  pub connect_1 : ConnectAnswer
  pub timer : Option ℕ

-- The part of conn_pair_init from timerfd_create on.
unfoldable pub init_timer : Kernel → Option ℕ → Pair → Loop → Option Pair × Loop
unfolding destroy_slots
init_timer k none p l = (none, (destroy_slots slot1 p l).1)
init_timer k (some tfd) p l =
    let (l', added) = add_fd k l (some tfd) epoll_in (rotation_timer_cb p.node_index) in
    if added
    then (some (record p { rotation_timer_fd = some tfd }), l')
    else (none, (destroy_slots slot1 p l').1)

-- The pair of two connections at startup, before they connect.
unfoldable pub fresh_pair : ℕ → Conn → Conn → Pair
fresh_pair i c0 c1 = record {
  slot_0 = c0;
  slot_1 = c1;
  active_idx = slot0;
  swap_required = false;
  rotation_timer_fd = none;
  node_index = i;
  initial_connect_logged = false;
}

unfoldable pub connect_both : Kernel → InitAnswers → Pair → Loop → Option Pair × Loop
unfolding init_timer
connect_both k a p l =
    let (p1, l1) = connect_slot k a.connect_0 slot0 p l in
    let (p2, l2) = connect_slot k a.connect_1 slot1 p1 l1 in init_timer k a.timer p2 l2

unfoldable pub conn_pair_init : Kernel → InitAnswers → ℕ → Loop → Option Pair × Loop
unfolding connect_both fresh_pair rpc_conn_init rpc_conn_destroy
conn_pair_init k a i l = elim (rpc_conn_init a.buffer_0 i (startup_callbacks slot_on_connected)) [
  | none ↦ (none, l)
  | some c0 ↦ elim (rpc_conn_init a.buffer_1 i (startup_callbacks standby_on_connected)) [
    | none ↦ (none, (rpc_conn_destroy c0 l).1)
    | some c1 ↦ connect_both k a (fresh_pair i c0 c1) l
  ]
]

-- conn_pair_set_callbacks on one connection.
abbrev with_callbacks : Conn → Conn
with_callbacks c = record c { cb = record (c.cb) { on_response = true; on_error = true } }

unfoldable pub conn_pair_set_callbacks : Pair → Pair
conn_pair_set_callbacks p = record p {
  slot_0 = with_callbacks p.slot_0;
  slot_1 = with_callbacks p.slot_1;
}
