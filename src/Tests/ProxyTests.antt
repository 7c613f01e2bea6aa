-- ===== src/Tests/ProxyTests.antt =====
-- The proxy.
use rpcracer.Prelude.{◌≡◌, ◌⊎◌, ◌+◌, refl, arith, true, false, List, [], ◌∷◌}
use rpcracer.EventLoop.{slot0, epoll_in}
use rpcracer.Framing.{starts_with, strchr, atoi, str_eq}
use rpcracer.Conn.{stream, rpc_conn_get_response}
use rpcracer.Proxy.{Env, is_idle}
use rpcracer.Proxy.Response.{response_is_error, root_object}
use rpcracer.Proxy.Race.{respond}
use rpcracer.Proxy.Failure.{fail_or_retry}
use rpcracer.Proxy.System.{Event, upstream, rpc_timeout, block_notify, run}
use rpcracer.Proxy.View.{view}
use rpcracer.Proxy.Invariant.{IsRacing, run-IsRacing}
use rpcracer.Proxy.Progress.{respond-progress, respond_success, fail_or_retry-progress}
use rpcracer.Tests.Data.{test_json, env, kernel, racing, answered_conn, pair_of, idle_conn}

pub racing-IsRacing : IsRacing (view racing)
unfolding str_eq
racing-IsRacing = ground arith

abbrev pub history : List (Env × Event)
history =
    (env, upstream 0 slot0 epoll_in (stream (32 ∷ [])))
    ∷ (env, block_notify)
    ∷ (env, rpc_timeout)
    ∷ []

run-IsRacing_example : IsRacing (view (run test_json history racing))
run-IsRacing_example = run-IsRacing test_json history racing racing-IsRacing

response-ok : response_is_error test_json (answered_conn 0 10) ≡ false
unfolding response_is_error root_object rpc_conn_get_response starts_with strchr atoi str_eq
response-ok = refl

respond-progress_example :
    let q = respond test_json env 0 slot0 (answered_conn 0 10) racing in
    (is_idle q.state ≡ true) ⊎ (q.responses_pending + 1 ≡ 2)
respond-progress_example =
    respond-progress test_json env 0 slot0 (answered_conn 0 10) racing racing-IsRacing refl

respond_success_example :
    is_idle (respond test_json env 0 slot0 (answered_conn 0 10) racing).state ≡ true
respond_success_example =
    respond_success test_json env 0 slot0 (answered_conn 0 10) racing racing-IsRacing refl refl
      response-ok

fail_or_retry-progress_example :
    let r = fail_or_retry kernel 0 0 (pair_of 0 (answered_conn 0 10) (idle_conn 0 11)) racing in
    (is_idle r.state ≡ true)
    ⊎ ((false ≡ false)
        × (r.node_retried 0 ≡ true)
        × (r.node_retried 1 ≡ false)
        × (r.responses_pending ≡ 2))
    ⊎ ((r.node_retried 0 ≡ true) × (r.node_retried 1 ≡ false) × (r.responses_pending + 1 ≡ 2))
fail_or_retry-progress_example =
    fail_or_retry-progress kernel 0 0 1 (pair_of 0 (answered_conn 0 10) (idle_conn 0 11)) racing
      (omega arith) refl
