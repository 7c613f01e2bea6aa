-- ===== src/Tests/StatsTests.antt =====
-- The statistics, asked for while a race runs.
use rpcracer.Prelude.{ℕ, ◌+◌, refl, arith, some, List, [], ◌∷◌, length, drop}
use rpcracer.Framing.{codes, c_str, strstr}
use rpcracer.Conn.{stream}
use rpcracer.HttpServer.{response_header}
use rpcracer.EventLoop.{epoll_in, dispatch, find_entry}
use rpcracer.EventLoop.Dispatch.{deliver}
use rpcracer.Main.World.{World, program, find_client, current_report}
use rpcracer.Main.World.Statistics.{
  statistics, Requests, stats_request, IsReported, deliver-IsReported,
}
use rpcracer.Proxy.Lifecycle.{rpc_proxy_get_states}
use rpcracer.Stats.{Stats, stats_create}
use rpcracer.Stats.Report.{report}
use rpcracer.Tests.Data.{test_json}
use rpcracer.Tests.WorldTests.{answer, world, half, http_rest}

abbrev stats : Stats
stats = stats_create 2 1000

abbrev last_bytes : List ℕ
last_bytes = drop 4 (stats_request http_rest)

-- The writer gives the number of nodes in the document.
abbrev asked : World
asked = record world {
  http = record world.http {
    nodes = (codes "10.0.0.1", codes "a") ∷ (codes "10.0.0.2", codes "b") ∷ [];
  };
  stats = some stats;
  answers = λ _. record answer {
    io = stream last_bytes;
    write = λ r. some ((48 + length r.nodes) ∷ []);
    header_taken = some (length (response_header (statistics (50 ∷ []))));
    body_taken = some 1;
  };
}

complete : Requests half last_bytes http_rest
unfolding c_str strstr
complete = record { some_bytes = refl; text = refl; ends = refl }

deliver-IsReported_example :
    IsReported half (50 ∷ []) asked (deliver (program test_json) 30 epoll_in asked)
unfolding dispatch find_entry find_client current_report report rpc_proxy_get_states stats_create
deliver-IsReported_example =
    deliver-IsReported test_json 30 epoll_in asked half stats last_bytes http_rest (50 ∷ []) refl
      refl refl refl refl complete refl refl (omega arith) (refl, refl)
