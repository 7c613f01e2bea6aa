-- ===== src/Conn.antt =====
-- src/rpc_conn.c and rpc_conn.h: one upstream HTTP connection.
--
-- A callback of `conn_callbacks_t` is always the last thing that an operation does, so an operation
-- returns a `Notice` that says which callback it made, and the caller runs it. The descriptor -1 is
-- `none`. `send_buf` is NULL or points to the one buffer that the program sends from, the
-- client_recv_buf of the proxy. Logging, socket options and close() of a descriptor are left out.
pub mod Epoll
pub mod Validity
pub mod Notices
pub mod Reassembly
use rpcracer.Prelude.{
  ℕ, ◌+◌, ◌-◌, Bool, true, false, not, ◌&&◌, ◌||◌, Option, none, some, List, [], ltb, leb, ◌==◌,
  if◌then◌else◌, length, take, drop, min, is_some, add64,
}
use rpcracer.EventLoop.{
  Slot, Callback, Events, Loop, Kernel, epoll_in, epoll_out, epoll_in_out, add_fd, mod_fd, del_fd,
}
use rpcracer.Framing.{header_end, content_length_of, connection_close_of, write_at}

-- enum conn_state_t.
pub data ConnState : Type 0 where
  disconnected connecting connected sending receiving : ConnState

abbrev pub is_connected : ConnState → Bool
is_connected connected = true
is_connected _ = false

abbrev pub is_disconnected : ConnState → Bool
is_disconnected disconnected = true
is_disconnected _ = false

-- CONN_SENDING or CONN_RECEIVING.
abbrev pub is_busy : ConnState → Bool
is_busy sending = true
is_busy receiving = true
is_busy _ = false

-- The buffers that send_buf can point to.
pub data Buffer : Type 0 where
  client_recv_buf : Buffer

-- The values of cb.on_connected.
pub data OnConnected : Type 0 where
  slot_on_connected standby_on_connected : OnConnected

-- struct conn_callbacks_t; a flag says that the callback is set.
pub record Callbacks : Type 0 where
  pub on_connected : Option OnConnected
  pub on_send_complete : Bool
  pub on_response : Bool
  pub on_error : Bool

-- struct upstream_conn. `recv_buf` is the whole allocation, so its length is recv_cap.
pub record Conn : Type 0 where
  pub fd : Option ℕ
  pub state : ConnState
  pub node_index : ℕ
  pub in_ibd : Bool
  pub send_buf : Option Buffer
  pub send_len : ℕ
  pub send_offset : ℕ
  pub recv_buf : List ℕ
  pub recv_len : ℕ
  pub content_length : ℕ
  pub header_len : ℕ
  pub headers_complete : Bool
  pub connection_close : Bool
  pub request_start_ns : ℕ
  pub cb : Callbacks

-- The callback that an operation made.
pub data Notice : Type 0 where
  quiet : Notice
  notify_connected : OnConnected → Notice
  notify_sent notify_response notify_error : Notice

abbrev pub connected_notice : Option OnConnected → Notice
connected_notice none = quiet
connected_notice (some f) = notify_connected f

abbrev pub notice_if : Bool → Notice → Notice
notice_if true n = n
notice_if false n = quiet

-- rpc_conn_init: what malloc returns is the buffer, or `none`.
unfoldable pub rpc_conn_init : Option (List ℕ) → ℕ → Callbacks → Option Conn
rpc_conn_init none i cb = none
rpc_conn_init (some buf) i cb = some (record {
  fd = none;
  state = disconnected;
  node_index = i;
  in_ibd = false;
  send_buf = none;
  send_len = 0;
  send_offset = 0;
  recv_buf = buf;
  recv_len = 0;
  content_length = 0;
  header_len = 0;
  headers_complete = false;
  connection_close = false;
  request_start_ns = 0;
  cb = cb;
})

-- What socket(), inet_pton() and connect() answer in rpc_conn_connect.
pub data ConnectAnswer : Type 0 where
  no_socket bad_address refused : ConnectAnswer
  immediate in_progress : ℕ → ConnectAnswer

-- rpc_conn_connect for the connection that `self` belongs to.
unfoldable pub open_socket :
    Kernel → ConnectAnswer → Callback → Conn → Loop → Conn × Loop × Bool × Notice
open_socket k no_socket self c l = (c, l, false, quiet)
open_socket k bad_address self c l = (c, l, false, quiet)
open_socket k refused self c l = (c, l, false, quiet)
open_socket k (immediate fd) self c l =
    let (l', added) = add_fd k l (some fd) epoll_in self in
    if added
    then (
      record c { fd = some fd; state = connected },
      l',
      true,
      connected_notice c.cb.on_connected,
    )
    else (record c { fd = none; state = disconnected }, l', false, quiet)
open_socket k (in_progress fd) self c l =
    let (l', added) = add_fd k l (some fd) epoll_out self in
    if added
    then (record c { fd = some fd; state = connecting }, l', true, quiet)
    else (record c { fd = none; state = disconnected }, l', false, quiet)

unfoldable pub rpc_conn_connect :
    Kernel → ConnectAnswer → Callback → Conn → Loop → Conn × Loop × Bool × Notice
unfolding open_socket
rpc_conn_connect k a self c l =
    if is_disconnected c.state then open_socket k a self c l else (c, l, false, quiet)

unfoldable pub rpc_conn_send : Kernel → Option Buffer → ℕ → Conn → Loop → Conn × Loop × Bool
rpc_conn_send k buf len c l =
    if not (is_some buf) || len == 0
    then (c, l, false)
    else (if is_connected c.state
        then (
          record c {
            send_buf = buf;
            send_len = len;
            send_offset = 0;
            request_start_ns = k.now;
            state = sending;
          },
          (mod_fd k l c.fd epoll_in_out).0,
          true,
        )
        else (c, l, false))

-- parse_headers: the connection with its framing fields, and whether the headers are complete.
unfoldable pub parse_headers : Conn → Conn × Bool
parse_headers c =
    if c.headers_complete then (c, true) else elim (header_end (take c.recv_len c.recv_buf)) [
      | none ↦ (c, false)
      | some end ↦ (
        record c {
          header_len = end;
          headers_complete = true;
          content_length = content_length_of c.recv_buf end;
          connection_close = connection_close_of c.recv_buf end;
        },
        true,
      )
    ]

unfoldable pub rpc_conn_response_complete : Conn → Bool
rpc_conn_response_complete c =
    c.headers_complete && leb (add64 c.header_len c.content_length) c.recv_len

-- rpc_conn_get_response: the bytes from the body's start to the end of the buffer, and the length
-- that it reports.
unfoldable pub rpc_conn_get_response : Conn → Option (List ℕ × ℕ)
unfolding rpc_conn_response_complete
rpc_conn_get_response c =
    if rpc_conn_response_complete c
    then some (drop c.header_len c.recv_buf, c.content_length)
    else none

unfoldable pub rpc_conn_disconnect : Conn → Loop → Conn × Loop
rpc_conn_disconnect c l = (
  record c {
    fd = none;
    state = disconnected;
    send_buf = none;
    send_len = 0;
    send_offset = 0;
    recv_len = 0;
    headers_complete = false;
    content_length = 0;
    header_len = 0;
    connection_close = false;
  },
  (del_fd l c.fd).0,
)

-- The fields that rpc_conn_reset clears on every path.
unfoldable pub clear_request : Conn → Conn
clear_request c = record c {
  send_buf = none;
  send_len = 0;
  send_offset = 0;
  recv_len = 0;
  headers_complete = false;
  content_length = 0;
  header_len = 0;
  request_start_ns = 0;
}

unfoldable pub rpc_conn_reset : Kernel → Conn → Loop → Conn × Loop
unfolding clear_request rpc_conn_disconnect
rpc_conn_reset k c l =
    if c.connection_close
    then rpc_conn_disconnect (record (clear_request c) { connection_close = false }) l
    else (if is_busy c.state
        then (record (clear_request c) { state = connected }, (mod_fd k l c.fd epoll_in).0)
        else (clear_request c, l))

unfoldable pub rpc_conn_destroy : Conn → Loop → Conn × Loop
unfolding rpc_conn_disconnect
rpc_conn_destroy c l = let (c', l') = rpc_conn_disconnect c l in (record c' { recv_buf = [] }, l')

-- The lines that conn_epoll_cb repeats: leave the loop, close, mark the connection disconnected.
unfoldable pub drop_socket : Conn → Loop → Conn × Loop
drop_socket c l = (record c { fd = none; state = disconnected }, (del_fd l c.fd).0)

-- drop_socket, then the error callback if it is set.
unfoldable pub fail : Conn → Loop → Conn × Loop × Notice
unfolding drop_socket
fail c l = let (c', l') = drop_socket c l in (c', l', notice_if c.cb.on_error notify_error)

-- What getsockopt(SO_ERROR), send() and recv() answer to one event. `sent n` takes at most what is
-- left to send; `stream bytes` is what the peer has sent, of which recv() takes what fits.
pub data Io : Type 0 where
  again io_error : Io
  so_error : Bool → Io
  sent : ℕ → Io
  stream : List ℕ → Io
