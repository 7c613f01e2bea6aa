-- ===== src/Proxy/Answers.antt =====
-- The number of responses that go to the client of src/rpc_proxy.c.
use rpcracer.Prelude.{ℕ, ◌+◌, ◌≤◌, arith, List, length}
use rpcracer.Proxy.{Proxy, Env}
use rpcracer.Proxy.Response.{Json}
use rpcracer.Proxy.View.{view}
use rpcracer.Proxy.Invariant.{IsRacing}
use rpcracer.Proxy.System.{Event, run}
use rpcracer.Proxy.Machine.{phase, owes, Trace-owes}
use rpcracer.Proxy.Machine.Races.{races_started}
use rpcracer.Proxy.Machine.Refines.{sent-run, run_refines}

-- The responses sent, and one more while a race without a winner runs.
abbrev pub owed : Proxy → ℕ
owed p = length p.client_out + owes (phase p)

module _ {V : Type 0} (json : Json V) where
  -- Over any history of events, in any order and with any answers of the operating system, no more
  -- responses are sent to the client than races were started, one more at most counting a race that
  -- runs without a winner at the beginning.
  pub owed-run :
      (es : List (Env × Event)) (p : Proxy)
      → IsRacing (view p)
      → owed (run json es p) ≤ owed p + races_started json es p
  owed-run es p v = omega (arith, sent-run json es p v, Trace-owes (run_refines json es p v))
