-- ===== src/Tests/LateTests.antt =====
-- A response of an earlier race, a request during a race, and the descriptors of a notifier.
use rpcracer.Prelude.{
  arith, ℕ, ◌+◌, ◌≡◌, refl, true, false, Option, none, some, List, [], ◌∷◌, get_elem?, drop,
}
use rpcracer.EventLoop.{slot0, Loop, epoll_in, add_fd, mod_fd, find_entry}
use rpcracer.Framing.{write_at, codes, str_eq, starts_with, strchr, atoi}
use rpcracer.Proxy.Overwrite.{outgoing, request_overwrites}
use rpcracer.Conn.Epoll.{conn_epoll_cb}
use rpcracer.Conn.{
  parse_headers, Conn, Io, Notice, io_error, stream, sending, rpc_conn_send, rpc_conn_get_response,
}
use rpcracer.Config.{Config}
use rpcracer.Notifier
use rpcracer.Notifier.{Notifier, wrote}
use rpcracer.Notifier.Created.{CreateEnv, Handles, notifier_create}
use rpcracer.Notifier.Created.Lifetime.{lifetime, timers, lifetime_balances}
use rpcracer.Notifier.Descriptors.{balance}
use rpcracer.Notifier.Sockets.{SocketAnswers, refused}
use rpcracer.Pair.{Pair, conn_pair_is_available}
use rpcracer.Proxy.System.{Event, upstream, run, step}
use rpcracer.Proxy.{Proxy, Env, conn_at, start_rpc_timeout}
use rpcracer.Proxy.Late.{answer, late_response_answers}
use rpcracer.Proxy.Request.{on_client_bytes, start_fanout, dispatch_fanout, send_available}
use rpcracer.Proxy.Response.{response_is_error, root_object}
use rpcracer.Tests.Data.{
  test_json, env, kernel, ok_response, racing, at_rest, answered_conn, pair_of, idle_conn,
}
use rpcracer.Tests.ConfigTests.{config}
use rpcracer.Tests.HttpTests.{hash}
use rpcracer.Tests.LoopTests.{empty}
use rpcracer.Tests.NotifierTests
use rpcracer.Tests.NotifierTests.{no_socket}
use rpcracer.Tests.StartTests.{unbound}

-- Node 0 still receives the answer to an earlier request.
abbrev slow_node : Pair
slow_node = pair_of 0 (record (answered_conn 0 10) { recv_len = 7 }) (idle_conn 0 11)

-- The next request is in the buffer.
abbrev requested : Proxy
requested = record at_rest {
  client_recv_len = 4;
  pairs = slow_node ∷ pair_of 1 (idle_conn 1 12) (idle_conn 1 13) ∷ [];
}

abbrev requested_race : Proxy
requested_race = start_fanout env false requested

-- Node 1 fails, and is sent the request again on its other connection.
abbrev events : List (Env × Event)
events = (env, upstream 1 slot0 epoll_in io_error) ∷ []

abbrev rest : Io
rest = stream (drop 7 ok_response)

abbrev completed : Conn × Loop × Notice
completed =
    conn_epoll_cb epoll_in rest kernel slow_node.slot_0 (run test_json events requested_race).loop

late_response_answers_example :
    let q = run test_json events requested_race in
    (get_elem? requested_race.pairs 0 ≡ some slow_node)
    × ((step test_json env (upstream 0 slot0 epoll_in rest) q).client_out
        ≡ answer env q.client_fd completed.0 ∷ q.client_out)
unfolding start_fanout dispatch_fanout send_available conn_pair_is_available rpc_conn_send mod_fd
    response_is_error root_object rpc_conn_get_response starts_with strchr atoi start_rpc_timeout
    add_fd find_entry str_eq run conn_epoll_cb parse_headers write_at
late_response_answers_example =
    late_response_answers test_json env env requested 0 slow_node slow_node events slot0 epoll_in
      rest completed.0 completed.1 refl refl refl refl refl refl refl refl (refl, refl, refl)

-- Node 0 has been sent one byte of "POST".
abbrev half_sent : Conn
half_sent = record (answered_conn 0 10) { state = sending; send_offset = 1 }

abbrev sending_race : Proxy
sending_race = record racing { pairs = pair_of 0 half_sent (idle_conn 0 11) ∷ [] }

request_overwrites_example :
    let q = on_client_bytes test_json env (codes "GET ") sending_race in
    (conn_at q 0 slot0 ≡ some half_sent)
    × (outgoing q.client_recv_buf half_sent ≡ outgoing (codes "GET ") half_sent)
request_overwrites_example =
    request_overwrites test_json env (codes "GET ") 0 slot0 half_sent sending_race refl refl refl
      (omega arith) (omega arith)

abbrev connecting : CreateEnv
connecting = record unbound { pub_bound = true; ck_connect = record no_socket { socket = some 60 } }

abbrev with_relays : Config
with_relays = record config {
  ck_notify_socket = codes "/tmp/ck";
  notify_http_url = codes "http://pool:80/block/%s";
}

abbrev made : Notifier × Handles
made = elim (notifier_create connecting with_relays empty).result [
  | none ↦ (
    NotifierTests.notifier,
    record { subs = []; pub_open = false; relay_fd = none; ck_fd = none },
  )
  | some m ↦ m
]

made_test : (notifier_create connecting with_relays empty).result ≡ some made
unfolding notifier_create add_fd find_entry
made_test = refl

-- The first connect of the HTTP relay is refused, the second succeeds; the write to ckpool fails once.
abbrev answers : ℕ → SocketAnswers → Notifier.Env
answers now a = record (NotifierTests.env now) {
  http_connect = a;
  http_write = wrote 100;
  ck_write = wrote 3;
}

abbrev notifications : List (Notifier.Env × List ℕ × Option (List ℕ))
notifications =
    (answers 5000 (record no_socket { socket = some 61; connect = refused }), hash, none)
    ∷ (answers 6000 (record no_socket { socket = some 62 }), 7 ∷ [], none)
    ∷ []

lifetime_balances_example :
    let created = notifier_create connecting with_relays empty in
    (left : ℕ) × (balance 61 (lifetime created made.0 made.1 notifications empty) 0 ≡ some left)
    × (timers 61 created.loop ≡ left + timers 61 empty)
lifetime_balances_example =
    lifetime_balances 61 connecting with_relays empty empty made.0 made.1 notifications made_test
