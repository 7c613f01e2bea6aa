-- ===== src/Conn/Epoll.antt =====
-- conn_epoll_cb of src/rpc_conn.c: what one epoll event does to a connection.
use rpcracer.Prelude.{
  ℕ, ◌+◌, ◌-◌, Bool, true, false, ◌&&◌, ◌||◌, List, leb, ◌==◌, if◌then◌else◌, length, take, min,
}
use rpcracer.EventLoop.{Events, Loop, Kernel, epoll_in, mod_fd}
use rpcracer.Framing.{write_at}
use rpcracer.Conn.{
  Conn, ConnState, disconnected, connecting, connected, sending, receiving, is_busy, Io, again,
  io_error, so_error, sent, stream, Notice, quiet, notify_sent, notify_response, notify_error,
  connected_notice, notice_if, parse_headers, rpc_conn_response_complete, drop_socket, fail,
}

-- EPOLLERR or EPOLLHUP: the error callback runs only in the middle of a transfer.
unfoldable pub on_hangup : Conn → Loop → Conn × Loop × Notice
unfolding drop_socket
on_hangup c l =
    let (c', l') = drop_socket c l in
    (c', l', notice_if (is_busy c.state && c.cb.on_error) notify_error)

-- case CONN_CONNECTING: getsockopt() answers whether connect() succeeded.
unfoldable pub on_connect_result : Kernel → Bool → Conn → Loop → Conn × Loop × Notice
unfolding drop_socket
on_connect_result k false c l = let (c', l') = drop_socket c l in (c', l', quiet)
on_connect_result k true c l = (
  record c { state = connected },
  (mod_fd k l c.fd epoll_in).0,
  connected_notice c.cb.on_connected,
)

-- case CONN_SENDING after send() took n bytes.
unfoldable pub on_sent : Kernel → ℕ → Conn → Loop → Conn × Loop × Notice
on_sent k n c l =
    let c' : Conn = record c { send_offset = c.send_offset + n } in
    if leb c.send_len c'.send_offset
    then (
      record c' {
        state = receiving;
        recv_len = 0;
        headers_complete = false;
        content_length = 0;
        header_len = 0;
        connection_close = false;
      },
      (mod_fd k l c.fd epoll_in).0,
      notice_if c.cb.on_send_complete notify_sent,
    )
    else (c', l, quiet)

-- case CONN_RECEIVING after recv() gave these bytes.
unfoldable pub on_bytes : List ℕ → Conn → Loop → Conn × Loop × Notice
on_bytes bytes c l =
    let got : Conn = record c {
      recv_buf = write_at c.recv_buf c.recv_len bytes;
      recv_len = c.recv_len + length bytes;
    } in
    let (c', complete) = parse_headers got in
    (
      c',
      l,
      notice_if (complete && (rpc_conn_response_complete c' && c.cb.on_response)) notify_response,
    )

-- case CONN_RECEIVING: a full buffer, and the end of the stream, are errors.
unfoldable pub on_stream : List ℕ → Conn → Loop → Conn × Loop × Notice
unfolding on_bytes fail
on_stream bytes c l =
    if length c.recv_buf == c.recv_len
    then fail c l
    else (if length bytes == 0
        then fail c l
        else on_bytes (take (length c.recv_buf - c.recv_len) bytes) c l)

-- case CONN_RECEIVING when recv() itself fails; the full buffer is seen first.
unfoldable pub on_recv_error : Bool → Conn → Loop → Conn × Loop × Notice
unfolding fail
on_recv_error would_block c l =
    if length c.recv_buf == c.recv_len
    then fail c l
    else (if would_block then (c, l, quiet) else fail c l)

-- case CONN_CONNECTED: MSG_PEEK; the end of the stream closes the idle connection.
unfoldable pub on_idle : List ℕ → Conn → Loop → Conn × Loop × Notice
unfolding drop_socket
on_idle bytes c l =
    if length bytes == 0 then (let (c', l') = drop_socket c l in (c', l', quiet)) else (c, l, quiet)

-- `switch (conn->state)`; an answer that the system calls of the state cannot give changes nothing.
unfoldable pub by_state : ConnState → Events → Io → Kernel → Conn → Loop → Conn × Loop × Notice
unfolding on_connect_result on_sent on_stream on_recv_error on_idle fail
by_state disconnected ev io k c l = (c, l, quiet)
by_state connecting ev (so_error ok) k c l =
    if ev.writable then on_connect_result k ok c l else (c, l, quiet)
by_state sending ev (sent n) k c l =
    if ev.writable then on_sent k (min n (c.send_len - c.send_offset)) c l else (c, l, quiet)
by_state sending ev io_error k c l = if ev.writable then fail c l else (c, l, quiet)
by_state receiving ev (stream bytes) k c l =
    if ev.readable then on_stream bytes c l else (c, l, quiet)
by_state receiving ev io_error k c l =
    if ev.readable then on_recv_error false c l else (c, l, quiet)
by_state receiving ev again k c l = if ev.readable then on_recv_error true c l else (c, l, quiet)
by_state connected ev (stream bytes) k c l =
    if ev.readable then on_idle bytes c l else (c, l, quiet)
by_state _ ev io k c l = (c, l, quiet)

unfoldable pub conn_epoll_cb : Events → Io → Kernel → Conn → Loop → Conn × Loop × Notice
unfolding on_hangup by_state
conn_epoll_cb ev io k c l =
    if ev.error || ev.hangup then on_hangup c l else by_state c.state ev io k c l
