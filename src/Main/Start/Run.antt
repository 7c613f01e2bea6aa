-- ===== src/Main/Start/Run.antt =====
-- Runs of the program from main() on (src/main.c).
use rpcracer.Prelude.{
  ℕ, ◌≡◌, ◌≤◌, arith, true, some, List, [], length, Ensures, bind_rule, guard_rule, each_rule,
  option-Ensures, ensured,
}
use rpcracer.Config.{Config}
use rpcracer.EventLoop.{Loop}
use rpcracer.EventLoop.Dispatch.{Wait, event_loop_run}
use rpcracer.Main.Start.{Boot, boot}
use rpcracer.Main.World.{Answer, World, program}
use rpcracer.Main.World.Counted.{races_run}
use rpcracer.Main.World.Refines.{event_loop_run_refines}
use rpcracer.Proxy.{Proxy, is_idle}
use rpcracer.Proxy.Created.{create-idle, idle-IsRacing}
use rpcracer.Proxy.Lifecycle.{rpc_proxy_create}
use rpcracer.Proxy.Machine.{idle, phase, Trace, Trace-owes, Trace-idle}
use rpcracer.Proxy.Response.{Json}

abbrev AtRest : Proxy → Type 0
AtRest p = (is_idle p.state ≡ true) × (p.client_out ≡ [])

create-AtRest :
    (b : Boot) (timeout_ms nodes : ℕ) (l : Loop)
    → Ensures AtRest
        (rpc_proxy_create b.kernel b.client_buf b.pairs b.listener timeout_ms nodes l).0
create-AtRest b timeout_ms nodes l =
    option-Ensures AtRest
      (rpc_proxy_create b.kernel b.client_buf b.pairs b.listener timeout_ms nodes l).0
      (create-idle b.kernel b.client_buf b.pairs b.listener timeout_ms nodes l)

boot-AtRest :
    (b : Boot) (cfg : Config) (answers : ℕ → Answer)
    → Ensures (λ w. AtRest w.proxy) (boot b cfg answers)
unfolding boot
boot-AtRest b cfg answers =
    guard_rule (λ (w : World). AtRest w.proxy) b.loop_made _
      (λ _.
        bind_rule AtRest (λ (w : World). AtRest w.proxy) _ _
          (create-AtRest b cfg.rpc_timeout_ms cfg.node_count _)
          (λ p rest.
            each_rule (λ (w : World). AtRest w.proxy) _ _
              (λ n. guard_rule (λ (w : World). AtRest w.proxy) b.stats_made _ (λ _. ground arith))))

-- From main() on, whatever the event loop delivers to the parts of the program and whatever the
-- operating system answers, the proxy is a trace of the race machine from idle, which starts as many
-- races as callbacks of the run have taken the proxy from idle into a race and sends as many
-- responses as went to the client; so these are no more than the races of the run.
pub boot-event_loop_run :
    {V : Type 0} (json : Json V) (b : Boot) (cfg : Config) (answers : ℕ → Answer) (w : World)
    (ws : List Wait)
    → boot b cfg answers ≡ some w
    → let p = (event_loop_run (program json) ws w).0.proxy in
      Trace idle (races_run json ws w) (length p.client_out) (phase p)
      × (length p.client_out ≤ races_run json ws w)
boot-event_loop_run json b cfg answers w ws e =
    let q = (event_loop_run (program json) ws w).0.proxy in
    let (at_rest, nothing_sent) =
      ensured (λ (x : World). AtRest x.proxy) (boot b cfg answers) w (boot-AtRest b cfg answers)
        e in
    let (v, more, t) = event_loop_run_refines json ws w (idle-IsRacing w.proxy at_rest) in
    let from_idle = Trace-idle w.proxy q at_rest nothing_sent t in
    (from_idle, omega (arith, Trace-owes from_idle))
