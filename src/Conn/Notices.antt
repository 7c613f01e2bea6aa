-- ===== src/Conn/Notices.antt =====
-- When the callbacks of a connection run (src/rpc_conn.c, conn_epoll_cb).
use rpcracer.Prelude.{
  ℕ, ◌+◌, ◌-◌, ◌≤◌, ◌<◌, ◌≡◌, refl, arith, true, ◌||◌, some, List, length, take, drop, add64, inl,
  inr, Bool-cases, u64_mod,
}
use rpcracer.EventLoop.{Events, Loop, Kernel}
use rpcracer.Framing.{write_at}
use rpcracer.Conn.{
  Conn, ConnState, disconnected, connecting, connected, sending, receiving, Io, again, io_error,
  so_error, sent, stream, Notice, notify_response, parse_headers, fail, rpc_conn_response_complete,
  rpc_conn_get_response,
}
use rpcracer.Conn.Epoll.{by_state, conn_epoll_cb, on_bytes, on_stream}
use rpcracer.Conn.Validity.{parse_headers-state}

-- What holds of a connection when its response callback runs.
abbrev pub Delivers : Conn × Loop × Notice → Type 0
Delivers (c, l, n) =
    n ≡ notify_response
    → (c.state ≡ receiving)
      × (c.headers_complete ≡ true)
      × (add64 c.header_len c.content_length ≤ c.recv_len)

parse_headers_complete :
    (c : Conn) → (parse_headers c).1 ≡ true → (parse_headers c).0.headers_complete ≡ true
unfolding parse_headers
parse_headers_complete c h = ground arith

on_bytes-Delivers :
    (bytes : List ℕ) (c : Conn) (l : Loop) → c.state ≡ receiving → Delivers (on_bytes bytes c l)
unfolding on_bytes rpc_conn_response_complete
on_bytes-Delivers bytes c l r =
    let got : Conn = record c {
      recv_buf = write_at c.recv_buf c.recv_len bytes;
      recv_len = c.recv_len + length bytes;
    } in
    ground (arith, parse_headers-state got, parse_headers_complete got)

fail-Delivers : (c : Conn) (l : Loop) → Delivers (fail c l)
unfolding fail
fail-Delivers c l = ground arith

on_stream-Delivers :
    (bytes : List ℕ) (c : Conn) (l : Loop) → c.state ≡ receiving → Delivers (on_stream bytes c l)
unfolding on_stream
on_stream-Delivers bytes c l r =
    ground (arith, on_bytes-Delivers (take (length c.recv_buf - c.recv_len) bytes) c l r)

by_state-Delivers :
    (s : ConnState) (ev : Events) (io : Io) (k : Kernel) (c : Conn) (l : Loop)
    → c.state ≡ s
    → Delivers (by_state s ev io k c l)
unfolding by_state
by_state-Delivers disconnected ev io k c l e = ground arith
by_state-Delivers connecting ev (so_error ok) k c l e = ground arith
by_state-Delivers sending ev (sent n) k c l e = ground arith
by_state-Delivers sending ev io_error k c l e = ground arith
by_state-Delivers receiving ev (stream bytes) k c l e =
    ground (arith, on_stream-Delivers bytes c l e)
by_state-Delivers receiving ev io_error k c l e = ground arith
by_state-Delivers receiving ev again k c l e = ground arith
by_state-Delivers connected ev (stream bytes) k c l e = ground arith
by_state-Delivers _ ev io k c l e = ground arith

-- The response callback runs only while the connection receives, with complete headers, and with
-- as many bytes as the headers announce (in the arithmetic of size_t, which wraps).
pub conn_epoll_cb-Delivers :
    (ev : Events) (io : Io) (k : Kernel) (c : Conn) (l : Loop)
    → Delivers (conn_epoll_cb ev io k c l)
unfolding conn_epoll_cb
conn_epoll_cb-Delivers ev io k c l = elim (Bool-cases (ev.error || ev.hangup)) [
  | inl up ↦ rw up (ground arith)
  | inr quiet_event ↦ rw quiet_event (by_state-Delivers c.state ev io k c l refl)
]

-- A Content-Length of 2^64 - 1 makes a response complete as soon as its headers are, within fewer
-- than 2^64 received bytes, and its reported body is longer than any buffer.
pub get_response_wraps :
    (c : Conn)
    → c.headers_complete ≡ true
    → 1 ≤ c.header_len
    → c.header_len ≤ c.recv_len
    → c.recv_len < u64_mod
    → c.content_length ≡ u64_mod - 1
    → rpc_conn_get_response c ≡ some (drop c.header_len c.recv_buf, u64_mod - 1)
unfolding rpc_conn_get_response
get_response_wraps c h lo hi small e = ground arith
