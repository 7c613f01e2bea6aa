-- ===== src/Proxy/Created.antt =====
-- Every history of a proxy that rpc_proxy_create made (src/rpc_proxy.c).
use rpcracer.Prelude.{ℕ, ◌≤◌, ◌≡◌, arith, true, Option, none, some, List, [], length}
use rpcracer.EventLoop.{Kernel, Loop}
use rpcracer.Pair.{InitAnswers}
use rpcracer.Proxy.{Proxy, Env, is_idle}
use rpcracer.Proxy.Response.{Json}
use rpcracer.Proxy.View.{view}
use rpcracer.Proxy.Invariant.{IsRacing}
use rpcracer.Proxy.System.{Event, run}
use rpcracer.Proxy.Machine.{idle, phase, Trace, Trace-owes, Trace-idle}
use rpcracer.Proxy.Machine.Races.{races_started}
use rpcracer.Proxy.Machine.Refines.{run_refines}
use rpcracer.Proxy.Lifecycle.{rpc_proxy_create, initial}

pub create-idle :
    (k : Kernel) (buf : Option (List ℕ)) (answers : ℕ → InitAnswers) (socket : Option ℕ)
    (timeout_ms nodes : ℕ) (l : Loop) (p : Proxy)
    → (rpc_proxy_create k buf answers socket timeout_ms nodes l).0 ≡ some p
    → (is_idle p.state ≡ true) × (p.client_out ≡ [])
unfolding rpc_proxy_create initial
create-idle k none answers socket timeout_ms nodes l p e = ground arith
create-idle k (some buf) answers socket timeout_ms nodes l p e = ground arith

pub idle-IsRacing : (p : Proxy) → is_idle p.state ≡ true → IsRacing (view p)
idle-IsRacing p e = ground arith

-- From creation on, over any history of events and any answers of the operating system, the proxy is
-- a trace of the race machine from idle, which starts the races of the history and sends as many
-- responses as went to the client.
pub created_refines :
    {V : Type 0} (json : Json V) (k : Kernel) (buf : Option (List ℕ)) (answers : ℕ → InitAnswers)
    (socket : Option ℕ) (timeout_ms nodes : ℕ) (l : Loop) (p : Proxy) (es : List (Env × Event))
    → (rpc_proxy_create k buf answers socket timeout_ms nodes l).0 ≡ some p
    → Trace idle
        (races_started json es p)
        (length (run json es p).client_out)
        (phase (run json es p))
created_refines json k buf answers socket timeout_ms nodes l p es e =
    let (at_rest, nothing_sent) = create-idle k buf answers socket timeout_ms nodes l p e in
    Trace-idle p (run json es p) at_rest nothing_sent
      (run_refines json es p (idle-IsRacing p at_rest))

-- From creation on, over any history of events and any answers of the operating system, the client
-- is sent no more responses than races were started.
pub created-run :
    {V : Type 0} (json : Json V) (k : Kernel) (buf : Option (List ℕ)) (answers : ℕ → InitAnswers)
    (socket : Option ℕ) (timeout_ms nodes : ℕ) (l : Loop) (p : Proxy) (es : List (Env × Event))
    → (rpc_proxy_create k buf answers socket timeout_ms nodes l).0 ≡ some p
    → length (run json es p).client_out ≤ races_started json es p
created-run json k buf answers socket timeout_ms nodes l p es e =
    let t = created_refines json k buf answers socket timeout_ms nodes l p es e in
    omega (arith, Trace-owes t)
