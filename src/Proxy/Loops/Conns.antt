-- ===== src/Proxy/Loops/Conns.antt =====
-- The operations of a connection and of a pair (src/rpc_conn.c, src/conn_pair.c), on the event loop.
use rpcracer.Prelude.{ℕ, ◌≡◌, refl, arith, true, some, Option, if_rule}
use rpcracer.EventLoop.{
  Callback, Slot, Loop, Kernel, Events, epoll_in, epoll_out, epoll_in_out, conn_epoll_cb,
}
use rpcracer.Conn.{
  Conn, ConnectAnswer, no_socket, bad_address, refused, immediate, in_progress, Buffer, Io,
  ConnState, open_socket, rpc_conn_connect, rpc_conn_send, rpc_conn_disconnect, rpc_conn_reset,
  is_connected,
}
use rpcracer.Conn.Epoll
use rpcracer.Conn.Epoll.{
  on_hangup, by_state, on_connect_result, on_sent, on_stream, on_recv_error, on_idle,
}
use rpcracer.Pair.{
  Pair, at, active, standby, connect_slot, reconnect_standby, refresh_standby, on_rotation_timer,
  conn_pair_report_error,
}
use rpcracer.Proxy.Loops.{is_own, IsKept}

module _ (P : Loop → Type 0) (kept : IsKept P) where
  open_socket-P :
      (k : Kernel) (a : ConnectAnswer) (self : Callback) (c : Conn) (l : Loop)
      → is_own self ≡ true
      → P l
      → P (open_socket k a self c l).1
  unfolding open_socket
  open_socket-P k no_socket self c l own p = p
  open_socket-P k bad_address self c l own p = p
  open_socket-P k refused self c l own p = p
  open_socket-P k (immediate fd) self c l own p =
      ground (arith, kept.add k (some fd) epoll_in self l own p)
  open_socket-P k (in_progress fd) self c l own p =
      ground (arith, kept.add k (some fd) epoll_out self l own p)

  connect-P :
      (k : Kernel) (a : ConnectAnswer) (self : Callback) (c : Conn) (l : Loop)
      → is_own self ≡ true
      → P l
      → P (rpc_conn_connect k a self c l).1
  unfolding rpc_conn_connect
  connect-P k a self c l own p = ground (arith, open_socket-P k a self c l own p)

  pub send-P :
      (k : Kernel) (buf : Option Buffer) (len : ℕ) (c : Conn) (l : Loop)
      → P l
      → P (rpc_conn_send k buf len c l).1
  unfolding rpc_conn_send
  send-P k buf len c l p = ground (arith, kept.modify k c.fd epoll_in_out l p)

  pub disconnect-P : (c : Conn) (l : Loop) → P l → P (rpc_conn_disconnect c l).1
  unfolding rpc_conn_disconnect
  disconnect-P c l p = kept.remove c.fd l p

  pub reset-P : (k : Kernel) (c : Conn) (l : Loop) → P l → P (rpc_conn_reset k c l).1
  unfolding rpc_conn_reset
  reset-P k c l p = ground (arith, kept.modify k c.fd epoll_in l p, kept.remove c.fd l p)

  by_state-P :
      (s : ConnState) (ev : Events) (io : Io) (k : Kernel) (c : Conn) (l : Loop)
      → P l
      → P (by_state s ev io k c l).1
  unfolding by_state
  by_state-P s ev io k c l p = ground (arith, kept.remove c.fd l p, kept.modify k c.fd epoll_in l p)

  pub conn_epoll_cb-P :
      (ev : Events) (io : Io) (k : Kernel) (c : Conn) (l : Loop)
      → P l
      → P (Epoll.conn_epoll_cb ev io k c l).1
  unfolding Epoll.conn_epoll_cb
  conn_epoll_cb-P ev io k c l p =
      ground (arith, by_state-P c.state ev io k c l p, kept.remove c.fd l p)

  pub connect_slot-P :
      (k : Kernel) (a : ConnectAnswer) (s : Slot) (q : Pair) (l : Loop)
      → P l
      → P (connect_slot k a s q l).1
  unfolding connect_slot
  connect_slot-P k a s q l p = connect-P k a (conn_epoll_cb q.node_index s) (at s q) l refl p

  reconnect-P :
      (k : Kernel) (a : ConnectAnswer) (q : Pair) (l : Loop) → P l → P (reconnect_standby k a q l).1
  unfolding reconnect_standby
  reconnect-P k a q l p = connect_slot-P k a _ _ _ (
      if_rule (λ (x : Conn × Loop). P x.1) (is_connected (standby q).state)
        (rpc_conn_disconnect (standby q) l) (standby q, l) (λ _. disconnect-P (standby q) l p)
        (λ _. p))

  pub on_rotation_timer-P :
      (k : Kernel) (a : ConnectAnswer) (q : Pair) (l : Loop) → P l → P (on_rotation_timer k a q l).1
  unfolding on_rotation_timer refresh_standby
  on_rotation_timer-P k a q l p = ground (arith, reconnect-P k a q l p)

  pub report_error-P : (q : Pair) (l : Loop) → P l → P (conn_pair_report_error q l).1
  unfolding conn_pair_report_error
  report_error-P q l p = disconnect-P (active q) l p
