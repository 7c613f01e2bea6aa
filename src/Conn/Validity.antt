-- ===== src/Conn/Validity.antt =====
-- The well-formedness of a connection, which every operation of src/rpc_conn.c keeps.
use rpcracer.Prelude.{
  ◌||◌, ℕ, ◌+◌, ◌-◌, ◌≤◌, ◌≡◌, refl, arith, Bool, true, false, none, some, List, length, take,
  is_some, length-take-le, Option-cases, inl, inr, Bool-cases,
}
use rpcracer.EventLoop.{Callback, Events, Loop, Kernel}
use rpcracer.Framing.{header_end, write_at}
use rpcracer.Framing.Laws.{header_end_bounds, length-write_at}
use rpcracer.Conn.{
  Conn, ConnState, disconnected, connecting, connected, sending, receiving, is_disconnected,
  ConnectAnswer, Io, again, io_error, so_error, sent, stream, client_recv_buf, rpc_conn_connect,
  rpc_conn_send, rpc_conn_disconnect, rpc_conn_reset, parse_headers, fail,
}
use rpcracer.Conn.Epoll.{by_state, conn_epoll_cb, on_bytes, on_stream, on_recv_error}

pub record IsValid (c : Conn) : Type 0 where
  pub fits : c.recv_len ≤ length c.recv_buf
  pub closed : is_disconnected c.state ≡ true → c.fd ≡ none
  pub opened : is_disconnected c.state ≡ false → is_some c.fd ≡ true
  pub framed : c.headers_complete ≡ true → (4 ≤ c.header_len) × (c.header_len ≤ c.recv_len)
  pub sends : c.state ≡ sending → (is_some c.send_buf ≡ true) × (c.send_offset ≤ c.send_len)

pub parse_headers-state : (c : Conn) → (parse_headers c).0.state ≡ c.state
unfolding parse_headers
parse_headers-state c = ground arith

parse_headers-IsValid : (c : Conn) → IsValid c → IsValid (parse_headers c).0
unfolding parse_headers
parse_headers-IsValid c v = elim (Option-cases (header_end (take c.recv_len c.recv_buf))) [
  | inl e ↦ ground arith
  | inr (j, e) ↦ ground (
    arith,
    header_end_bounds (take c.recv_len c.recv_buf) j e,
    length-take-le c.recv_len c.recv_buf,
  )
]

on_bytes-IsValid :
    (bytes : List ℕ) (c : Conn) (l : Loop)
    → IsValid c
    → c.state ≡ receiving
    → c.recv_len + length bytes ≤ length c.recv_buf
    → IsValid (on_bytes bytes c l).0
unfolding on_bytes
on_bytes-IsValid bytes c l v r h = ground (
  arith,
  length-write_at c.recv_buf c.recv_len bytes,
  parse_headers-IsValid (record c {
    recv_buf = write_at c.recv_buf c.recv_len bytes;
    recv_len = c.recv_len + length bytes;
  }),
)

on_stream-IsValid :
    (bytes : List ℕ) (c : Conn) (l : Loop)
    → IsValid c
    → c.state ≡ receiving
    → IsValid (on_stream bytes c l).0
unfolding on_stream
on_stream-IsValid bytes c l v r =
    let room = length c.recv_buf - c.recv_len in
    ground (arith, on_bytes-IsValid (take room bytes) c l v r, length-take-le room bytes)

fail-IsValid : (c : Conn) (l : Loop) → IsValid c → IsValid (fail c l).0
unfolding fail
fail-IsValid c l v = ground arith

on_recv_error-IsValid :
    (b : Bool) (c : Conn) (l : Loop) → IsValid c → IsValid (on_recv_error b c l).0
unfolding on_recv_error
on_recv_error-IsValid b c l v = ground arith

by_state-IsValid :
    (s : ConnState) (ev : Events) (io : Io) (k : Kernel) (c : Conn) (l : Loop)
    → c.state ≡ s
    → IsValid c
    → IsValid (by_state s ev io k c l).0
unfolding by_state
by_state-IsValid disconnected ev io k c l e v = v
by_state-IsValid connecting ev (so_error ok) k c l e v = ground arith
by_state-IsValid sending ev (sent n) k c l e v = ground arith
by_state-IsValid sending ev io_error k c l e v = ground arith
by_state-IsValid receiving ev (stream bytes) k c l e v =
    ground (arith, on_stream-IsValid bytes c l v e)
by_state-IsValid receiving ev io_error k c l e v = ground arith
by_state-IsValid receiving ev again k c l e v = ground arith
by_state-IsValid connected ev (stream bytes) k c l e v = ground arith
by_state-IsValid _ ev io k c l e v = v

conn_epoll_cb-IsValid :
    (ev : Events) (io : Io) (k : Kernel) (c : Conn) (l : Loop)
    → IsValid c
    → IsValid (conn_epoll_cb ev io k c l).0
unfolding conn_epoll_cb
conn_epoll_cb-IsValid ev io k c l v = elim (Bool-cases (ev.error || ev.hangup)) [
  | inl up ↦ rw up (ground arith)
  | inr quiet_event ↦ rw quiet_event (by_state-IsValid c.state ev io k c l refl v)
]

-- The operations of a connection, with the answers of the operating system.
pub data Op : Type 0 where
  connect : ConnectAnswer → Callback → Op
  send : ℕ → Op
  event : Events → Io → Op
  disconnect : Op
  reset : Op

abbrev pub apply : Kernel → Op → Conn → Loop → Conn × Loop
apply k (connect a self) c l = let (c', l', ok, n) = rpc_conn_connect k a self c l in (c', l')
apply k (send len) c l =
    let (c', l', ok) = rpc_conn_send k (some client_recv_buf) len c l in (c', l')
apply k (event ev io) c l = let (c', l', n) = conn_epoll_cb ev io k c l in (c', l')
apply k disconnect c l = rpc_conn_disconnect c l
apply k reset c l = rpc_conn_reset k c l

-- Every operation keeps a connection well-formed: the received bytes fit the buffer, a descriptor
-- is held exactly while the connection is not disconnected, the headers lie within the received
-- bytes, and while it sends, the offset is within the request.
pub apply-IsValid :
    (k : Kernel) (o : Op) (c : Conn) (l : Loop) → IsValid c → IsValid (apply k o c l).0
unfolding rpc_conn_connect rpc_conn_send rpc_conn_disconnect rpc_conn_reset
apply-IsValid k (connect a self) c l v = ground arith
apply-IsValid k (send len) c l v = ground arith
apply-IsValid k (event ev io) c l v = conn_epoll_cb-IsValid ev io k c l v
apply-IsValid k disconnect c l v = ground arith
apply-IsValid k reset c l v = ground arith
