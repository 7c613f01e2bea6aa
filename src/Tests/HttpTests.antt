-- ===== src/Tests/HttpTests.antt =====
-- A server with one node, and a request for a notification.
use rpcracer.Prelude.{ℕ, arith, List, [], ◌∷◌, ◌++◌}
use rpcracer.Framing.{codes, crlf2}
use rpcracer.Conn.{stream}
use rpcracer.Util.{hex_encode}
use rpcracer.HttpServer.{HttpServer, HttpClient, no_stats, notify_route, http_client_cb}
use rpcracer.HttpServer.Responses.{IsServed, http_client_cb-IsServed}
use rpcracer.HttpServer.Notify.{IsRouted, notify_route_lem}
use rpcracer.Tests.NotifierTests.{env, notifier}
use rpcracer.Tests.LoopTests.{empty}

abbrev pub server : HttpServer
server = record {
  notifier = notifier;
  nodes = (codes "10.0.0.1", codes "a") ∷ [];
  stats = no_stats;
}

abbrev zeros_8 : List ℕ
zeros_8 = 0 ∷ 0 ∷ 0 ∷ 0 ∷ 0 ∷ 0 ∷ 0 ∷ 0 ∷ []

abbrev pub hash : List ℕ
hash = zeros_8 ++ (zeros_8 ++ (zeros_8 ++ (255 ∷ 254 ∷ 253 ∷ 252 ∷ 3 ∷ 2 ∷ 1 ∷ 0 ∷ [])))

abbrev client : HttpClient
client = record { fd = 30; buf = codes "GET /sta"; peer_addr = codes "10.0.0.1" }

http_client_cb-IsServed_example :
    IsServed (http_client_cb (env 5000) (stream (codes "ts HTTP/1.1" ++ crlf2)) server client empty)
http_client_cb-IsServed_example =
    http_client_cb-IsServed (env 5000) (stream (codes "ts HTTP/1.1" ++ crlf2)) server client empty
      (omega arith)

notify_route_lem_example :
    IsRouted
      (env 5000)
      (codes "10.0.0.1")
      (hex_encode hash)
      server
      (notify_route (env 5000) (codes "10.0.0.1") (hex_encode hash) server)
notify_route_lem_example = notify_route_lem (env 5000) (codes "10.0.0.1") (hex_encode hash) server
