-- ===== src/Tests/CreatedTests.antt =====
-- A proxy from rpc_proxy_create, with a race.
use rpcracer.Prelude.{ℕ, ◌≡◌, refl, true, none, some, List, [], ◌∷◌, ◌++◌, length}
use rpcracer.EventLoop.{Loop, slot0, epoll_in, epoll_out, find_entry, add_fd, mod_fd, set_events}
use rpcracer.Framing.{
  codes, crlf2, header_end, write_at, starts_with, content_length_of, str_eq, strchr, atoi,
}
use rpcracer.Conn.{
  stream, sent, immediate, rpc_conn_connect, rpc_conn_get_response, parse_headers, rpc_conn_send,
}
use rpcracer.Pair.{
  InitAnswers, conn_pair_init, connect_slot, conn_pair_is_available, conn_pair_set_callbacks,
}
use rpcracer.Proxy.{
  Proxy, Env, close_client, put_conn, race_complete, start_rpc_timeout,
  send_upstream_response_to_client,
}
use rpcracer.Proxy.Lifecycle.{rpc_proxy_create}
use rpcracer.Proxy.System.{Event, run, accept, client, upstream}
use rpcracer.Proxy.Machine.Races.{races_started}
use rpcracer.Proxy.Created.{created_refines}
use rpcracer.Proxy.Machine.{Trace, idle, phase}
use rpcracer.Proxy.Request.{
  on_client, on_accept, parse_http_request, take_request, extract_json_rpc_method, send_available,
  classify_method, dispatch_fanout, start_route, start_fanout,
}
use rpcracer.Proxy.Race.{settle, judge_response, on_upstream_response}
use rpcracer.Proxy.Response.{response_is_error, root_object}
use rpcracer.Conn.Epoll.{conn_epoll_cb}
use rpcracer.Tests.Data.{kernel, env, test_json, racing}

-- The buffers of the client and of the connections.
abbrev pub zeros : List ℕ
zeros = let z : List ℕ = 0 ∷ 0 ∷ 0 ∷ 0 ∷ 0 ∷ 0 ∷ 0 ∷ 0 ∷ [] in z ++ (z ++ (z ++ (z ++ (z ++ z))))

abbrev pub answers : ℕ → InitAnswers
answers i = record {
  buffer_0 = some zeros;
  buffer_1 = some zeros;
  connect_0 = immediate 10;
  connect_1 = immediate 11;
  timer = some 12;
}

abbrev empty_loop : Loop
empty_loop = record { running = true; fd_map = [] }

abbrev created : Proxy
created = elim (rpc_proxy_create kernel (some zeros) answers (some 3) 1000 1 empty_loop).0 [
  | none ↦ racing
  | some p ↦ p
]

-- The lines of a request or a response, and a body of two bytes.
abbrev http_message : List ℕ → List ℕ
http_message line = line ++ (13 ∷ 10 ∷ (codes "Content-Length: 2" ++ (crlf2 ++ codes "{}")))

-- A client sends a request, which goes to the one node, and the node answers.
abbrev requests : List (Env × Event)
requests =
    (env, accept (some 5))
    ∷ (env, client epoll_in (stream (http_message (codes "POST / HTTP/1.1"))))
    ∷ (env, upstream 0 slot0 epoll_out (sent 40))
    ∷ (env, upstream 0 slot0 epoll_in (stream (http_message (codes "HTTP/1.1 200 OK"))))
    ∷ []

created_test :
    (rpc_proxy_create kernel (some zeros) answers (some 3) 1000 1 empty_loop).0 ≡ some created
unfolding rpc_proxy_create find_entry conn_pair_init add_fd connect_slot rpc_conn_connect
created_test = refl

created_refines_example :
    Trace idle
      (races_started test_json requests created)
      (length (run test_json requests created).client_out)
      (phase (run test_json requests created))
created_refines_example =
    created_refines test_json kernel (some zeros) answers (some 3) 1000 1 empty_loop created
      requests created_test

-- The history is a race that is answered once.
requests_test : length (run test_json requests created).client_out ≡ 1
unfolding run on_client on_accept add_fd find_entry close_client rpc_proxy_create conn_pair_init
    connect_slot rpc_conn_connect parse_http_request header_end write_at starts_with
    content_length_of take_request extract_json_rpc_method str_eq settle judge_response
    response_is_error strchr atoi root_object put_conn rpc_conn_get_response conn_epoll_cb
    conn_pair_is_available race_complete send_available parse_headers classify_method mod_fd
    dispatch_fanout on_upstream_response start_rpc_timeout send_upstream_response_to_client
    start_route set_events conn_pair_set_callbacks start_fanout rpc_conn_send
requests_test = refl
