-- ===== src/Tests/Data.antt =====
-- Test data: two nodes, a received response, a proxy in a race, and a stand-in for the JSON library.
use rpcracer.Prelude.{ℕ, true, false, none, some, List, [], ◌∷◌, ◌++◌, pos, negsuc, if◌then◌else◌}
use rpcracer.EventLoop.{
  slot0, Kernel, Loop, FdEntry, Callback, conn_epoll_cb, rpc_timeout_cb, client_cb, epoll_in,
}
use rpcracer.Framing.{codes, str_eq, crlf2}
use rpcracer.Conn.{
  Conn, Callbacks, disconnected, connected, receiving, standby_on_connected, client_recv_buf,
}
use rpcracer.Pair.{Pair}
use rpcracer.Proxy.{Proxy, Env, race_idle, race_fanout}
use rpcracer.Proxy.Response.{Json}
use rpcracer.Proxy.Request.{method_validateaddress}

-- Every document is an object without an "error", whose members are the number 7.
abbrev pub test_json : Json ℕ
test_json = record {
  read = λ _. some 0;
  is_obj = λ _. true;
  is_arr = λ _. true;
  is_int = λ _. true;
  is_str = λ _. true;
  is_null = λ _. false;
  obj_get = λ _ key. if str_eq key (codes "error") then none else some 1;
  get_sint = λ _. pos 7;
  get_str = λ _. method_validateaddress;
  arr_size = λ _. 3;
}

abbrev pub kernel : Kernel
kernel = record { alloc = true; ctl = λ _. true; now = 9000 }

abbrev pub env : Env
env = record { kernel = kernel; sends = some 100 ∷ []; timer = some 31; settime = true }

abbrev pub ok_response : List ℕ
ok_response = codes "HTTP/1.1 200 OK" ++ (crlf2 ++ codes "{}")

abbrev pub callbacks : Callbacks
callbacks = record {
  on_connected = some standby_on_connected;
  on_send_complete = false;
  on_response = true;
  on_error = true;
}

abbrev pub idle_conn : ℕ → ℕ → Conn
idle_conn node fd = record {
  fd = some fd;
  state = connected;
  node_index = node;
  in_ibd = false;
  send_buf = none;
  send_len = 0;
  send_offset = 0;
  recv_buf = 0 ∷ 0 ∷ 0 ∷ 0 ∷ 0 ∷ 0 ∷ 0 ∷ 0 ∷ [];
  recv_len = 0;
  content_length = 0;
  header_len = 0;
  headers_complete = false;
  connection_close = false;
  request_start_ns = 0;
  cb = callbacks;
}

-- A connection that has received a complete response.
abbrev pub answered_conn : ℕ → ℕ → Conn
answered_conn node fd = record (idle_conn node fd) {
  state = receiving;
  send_buf = some client_recv_buf;
  send_len = 4;
  send_offset = 4;
  recv_buf = ok_response;
  recv_len = 21;
  content_length = 2;
  header_len = 19;
  headers_complete = true;
  request_start_ns = 5000;
}

abbrev pub closed_conn : ℕ → Conn
closed_conn node = record (idle_conn node 0) { fd = none; state = disconnected }

abbrev pub pair_of : ℕ → Conn → Conn → Pair
pair_of node c d = record {
  slot_0 = c;
  slot_1 = d;
  active_idx = slot0;
  swap_required = false;
  rotation_timer_fd = none;
  node_index = node;
  initial_connect_logged = true;
}

abbrev pub entry : ℕ → Callback → FdEntry
entry fd cb = record { fd = fd; cb = cb; is_timer = false; events = epoll_in }

abbrev pub test_loop : Loop
test_loop = record {
  running = true;
  fd_map = entry 20 rpc_timeout_cb ∷ entry 10 (conn_epoll_cb 0 slot0) ∷ entry 5 client_cb ∷ [];
}

-- A fan-out race for validateaddress: both nodes have been sent to, and node 0 has answered.
abbrev pub racing : Proxy
racing = record {
  loop = test_loop;
  listen_fd = some 3;
  rpc_timeout_ms = 1000;
  stats = none;
  state = race_fanout;
  sticky_node_idx = none;
  last_block_height = pos 6;
  notify_pending = false;
  last_notify_ns = 0;
  responses_pending = 2;
  winner_idx = none;
  last_error_idx = none;
  all_must_complete = false;
  best_gbt_height = negsuc 0;
  best_gbt_node_idx = none;
  gbt_height_matched = false;
  client_fd = some 5;
  client_recv_buf = codes "POST";
  client_recv_len = 0;
  client_connected = true;
  method = method_validateaddress;
  pairs =
      pair_of 0 (answered_conn 0 10) (idle_conn 0 11)
      ∷ pair_of 1 (record (answered_conn 1 12) { recv_len = 0; headers_complete = false })
          (closed_conn 1)
      ∷ [];
  node_retried = λ _. false;
  request_len = 4;
  rpc_timeout_timer_fd = some 20;
  client_out = [];
}

-- The same proxy between two requests.
abbrev pub at_rest : Proxy
at_rest = record racing { state = race_idle; responses_pending = 0 }
