-- ===== src/Pair/Rotation.antt =====
-- Rotation and error swap of a pair (src/conn_pair.c): what a swap does, that it never takes a
-- request away, and that a node comes back.
use rpcracer.Prelude.{ℕ, ◌≡◌, ◌⊎◌, arith, true, false, none}
use rpcracer.EventLoop.{Loop, Kernel, find_entry, add_fd, del_fd}
use rpcracer.Conn.{
  disconnected, ConnectAnswer, immediate, is_connected, is_disconnected, is_busy,
  rpc_conn_disconnect, rpc_conn_connect,
}
use rpcracer.Pair.{
  Pair, active, standby, conn_pair_is_available, conn_pair_report_error, on_rotation_timer,
  refresh_standby,
}

-- An error swap always makes the standby connection the active one, closes the old one, cancels a
-- rotation that is due, and answers whether the node is available now.
pub conn_pair_report_error_lem :
    (p : Pair) (l : Loop)
    → let (q, l', ok) = conn_pair_report_error p l in
      (active q ≡ standby p)
      × ((standby q).state ≡ disconnected)
      × ((standby q).fd ≡ none)
      × (q.swap_required ≡ false)
      × (ok ≡ conn_pair_is_available q)
      × (ok ≡ is_connected (standby p).state)
unfolding conn_pair_report_error rpc_conn_disconnect conn_pair_is_available
conn_pair_report_error_lem p l = ground arith

-- The rotation timer, with any answer to its connect, leaves an active connection that sends or
-- receives as it is, and active.
pub on_rotation_timer-busy :
    (k : Kernel) (a : ConnectAnswer) (p : Pair) (l : Loop)
    → is_busy (active p).state ≡ true
    → let q = (on_rotation_timer k a p l).0 in (q.active_idx ≡ p.active_idx) × (active q ≡ active p)
unfolding on_rotation_timer refresh_standby rpc_conn_disconnect rpc_conn_connect
on_rotation_timer-busy k a p l h = ground arith

-- A node recovers at the next rotation: if the active connection carries no request, and the standby
-- one is connected or disconnected, a connect that succeeds at once makes the node available, where
-- the event loop can register its descriptor and does not hold it already.
pub on_rotation_timer-recovers :
    (k : Kernel) (fd : ℕ) (p : Pair) (l : Loop)
    → is_busy (active p).state ≡ false
    → (is_connected (standby p).state ≡ true) ⊎ (is_disconnected (standby p).state ≡ true)
    → k.alloc ≡ true
    → k.ctl fd ≡ true
    → find_entry fd l.fd_map ≡ none
    → find_entry fd (del_fd l (standby p).fd).0.fd_map ≡ none
    → conn_pair_is_available (on_rotation_timer k (immediate fd) p l).0 ≡ true
unfolding on_rotation_timer refresh_standby rpc_conn_disconnect rpc_conn_connect
    conn_pair_is_available add_fd
on_rotation_timer-recovers k fd p l b s al ct f1 f2 = ground arith
