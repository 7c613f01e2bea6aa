-- ===== src/Main/World/Refines.antt =====
-- Runs of the whole program (src/main.c, src/event_loop.c) as traces of the race machine.
use rpcracer.Prelude.{
  ℕ, ◌+◌, ◌≤◌, ◌≡◌, refl, sym, ap, subst, ◌∙◌, arith, true, none, some, List, [], ◌∷◌, length,
  if_rule, option_rule, suc,
}
use rpcracer.EventLoop.{Callback, Events}
use rpcracer.EventLoop.Timers.{stall_timer_cb, timer_event_cb}
use rpcracer.EventLoop.Dispatch.{Wait, event_loop_run}
use rpcracer.EventLoop.Invariant.{event_loop_run_inv}
use rpcracer.HttpServer.{HttpClient}
use rpcracer.Main.Notification.{on_block_notify}
use rpcracer.Main.World.{
  Answer, World, on_proxy, on_notifier, on_http_accept, on_http_client, on_timer, check_silence,
  find_client, other_event, proxy_event, call, program,
}
use rpcracer.Main.World.Counted.{counting, races_run, event_loop_run-counting}
use rpcracer.Notifier.{Notifier, Effect}
use rpcracer.Notifier.Subscribe.{zmq_fd_event_cb}
use rpcracer.Proxy.{Proxy}
use rpcracer.Proxy.Request.{rpc_proxy_on_block_notify}
use rpcracer.Proxy.Response.{Json}
use rpcracer.Proxy.System.{Event, step}
use rpcracer.Proxy.Sent.{sent-block_notify}
use rpcracer.Proxy.View.{view}
use rpcracer.Proxy.Invariant.{IsRacing, step-IsRacing, view-block_notify}
use rpcracer.Proxy.Machine.{Moves, Trace, here, next, phase, sent}
use rpcracer.Proxy.Machine.Races.{started}
use rpcracer.Proxy.Machine.Handlers.{Moves-same}
use rpcracer.Proxy.Machine.Refines.{step-Moves, Move-starts}

-- The race and what was sent to the client are as before.
abbrev IsSilent : Proxy → Proxy → Type 0
IsSilent p q = (view q ≡ view p) × (q.client_out ≡ p.client_out)

on_block_notify-IsSilent :
    (now : ℕ) (hashes : List (List ℕ)) (p : Proxy) → IsSilent p (on_block_notify now hashes p)
unfolding on_block_notify
on_block_notify-IsSilent now [] p = (refl, refl)
on_block_notify-IsSilent now (h ∷ hashes) p =
    let q = rpc_proxy_on_block_notify now p in
    let rest = on_block_notify-IsSilent now hashes q in
    (rest.0 ∙ view-block_notify now p, rest.1 ∙ sent-block_notify now p)

on_notifier-IsSilent :
    (now : ℕ) (handler : Notifier → Notifier × List Effect) (w : World)
    → IsSilent w.proxy (on_notifier now handler w).proxy
unfolding on_notifier on_proxy
on_notifier-IsSilent now handler w = on_block_notify-IsSilent now _ _

on_http_client-IsSilent :
    (a : Answer) (c : HttpClient) (w : World) → IsSilent w.proxy (on_http_client a c w).proxy
unfolding on_http_client on_proxy
on_http_client-IsSilent a c w = on_block_notify-IsSilent a.env.kernel.now _ _

on_timer-IsSilent :
    (a : Answer) (cb : Callback) (w : World) → IsSilent w.proxy (on_timer a cb w).proxy
unfolding on_timer
on_timer-IsSilent a Callback.stall_timer_cb w =
    option_rule (λ (x : World). IsSilent w.proxy x.proxy) (stall_timer_cb a.env.kernel.now w.stall)
      (record w { exited = true }) (λ st. record w { stall = st }) (λ _. (refl, refl))
      (λ st _. (refl, refl))
on_timer-IsSilent a Callback.silence_check_cb w =
    on_notifier-IsSilent a.env.kernel.now (check_silence a.env.kernel.now w.proxy) w
on_timer-IsSilent a cb w = (refl, refl)

-- A callback of the HTTP server, the notifier or a timer changes neither the race nor what was sent.
other_event-IsSilent :
    (a : Answer) (fd : ℕ) (cb : Callback) (w : World)
    → IsSilent w.proxy (other_event a fd cb w).proxy
unfolding other_event on_http_accept
other_event-IsSilent a fd Callback.http_accept_cb w = (refl, refl)
other_event-IsSilent a fd (Callback.http_client_cb cfd) w =
    option_rule (λ (x : World). IsSilent w.proxy x.proxy) (find_client cfd w.clients) w
      (λ c. on_http_client a c w) (λ _. (refl, refl)) (λ c _. on_http_client-IsSilent a c w)
other_event-IsSilent a fd Callback.zmq_fd_event_cb w =
    on_notifier-IsSilent a.env.kernel.now (zmq_fd_event_cb a.rounds) w
other_event-IsSilent a fd cb w =
    option_rule (λ (x : World). IsSilent w.proxy x.proxy) (timer_event_cb fd w.proxy.loop) w
      (λ tcb. on_timer a tcb w) (λ _. (refl, refl)) (λ tcb _. on_timer-IsSilent a tcb w)

-- From the one state of the proxy to the other there is a trace of the race machine, which starts so
-- many races, with so many responses as went to the client in between; the invariant of a race holds
-- at its end.
abbrev pub IsTraced : Proxy → ℕ → Proxy → Type 0
IsTraced p races q =
    IsRacing (view q)
    × (length p.client_out ≤ length q.client_out)
    × Trace (phase p) races (sent p q) (phase q)

IsTraced-refl : (p : Proxy) → IsRacing (view p) → IsTraced p 0 p
IsTraced-refl p v = (v, omega arith, subst (λ s. Trace (phase p) 0 s (phase p)) (omega arith) here)

-- One more move.
IsTraced-Moves :
    (p q r : Proxy) (races : ℕ)
    → IsRacing (view r)
    → IsTraced p races q
    → Moves q r
    → IsTraced p (races + started q r) r
IsTraced-Moves p q r races v (racing_q, more, t) m = (
  v,
  omega (arith, m.0),
  next (phase q) (phase r) (sent q r) t m.1
      (ap (λ k. races + k) (sym (Move-starts q r (sent q r) m.1))) (omega (arith, m.0)),
)

IsSilent-IsTraced :
    (p q r : Proxy) (races : ℕ)
    → IsTraced p races q
    → IsSilent q r
    → IsTraced p (races + started q r) r
IsSilent-IsTraced p q r races t e =
    IsTraced-Moves p q r races (subst IsRacing (sym e.0) t.0) t (Moves-same q r t.0 e.0 e.1)

module _ {V : Type 0} (json : Json V) (p : Proxy) where
  abbrev Follows : World × ℕ → Type 0
  Follows (w, races) = IsTraced p races w.proxy

  -- One callback adds at most one race.
  abbrev Continues : World → ℕ → World → Type 0
  Continues w races w' = IsTraced p (races + started w.proxy w'.proxy) w'.proxy

  stays : (w : World) (races : ℕ) → IsTraced p races w.proxy → Continues w races w
  stays w races t = IsSilent-IsTraced p w.proxy w.proxy races t (refl, refl)

  call-Continues :
      (cb : Callback) (fd : ℕ) (ev : Events) (w : World) (races : ℕ)
      → IsTraced p races w.proxy
      → Continues w races (call json cb fd ev w)
  unfolding call on_proxy
  call-Continues cb fd ev w races t =
      let a = w.answers w.turn in
      let begun : World = record w { turn = suc w.turn } in
      let other = other_event a fd cb begun in
      let own : Event → World = λ e. on_proxy (step json a.env e) begun in
      let lent : Proxy = record w.proxy { stats = w.stats } in
      let o = proxy_event a ev cb in
      if_rule (Continues w races) w.exited w (elim o [ none ↦ other | some e ↦ own e ])
        (λ _. stays w races t)
        (λ _.
          option_rule (Continues w races) o other own
            (λ _.
              IsSilent-IsTraced p w.proxy other.proxy races t (other_event-IsSilent a fd cb begun))
            (λ e _.
              IsTraced-Moves p w.proxy (step json a.env e lent) races
                (step-IsRacing json a.env e lent t.0) t (step-Moves json a.env e lent t.0)))

  call-Follows :
      (cb : Callback) (fd : ℕ) (ev : Events) (s : World × ℕ)
      → Follows s
      → Follows ((counting json).call cb fd ev s)
  call-Follows cb fd ev (w, races) t = call-Continues cb fd ev w races t

-- Whatever the event loop delivers to the program, and to whichever of its parts, the proxy is a
-- trace of the race machine, from the beginning of the run to its end, which starts the races of the
-- run, with every response that goes to the client; the invariant of a race holds at the end.
pub event_loop_run_refines :
    {V : Type 0} (json : Json V) (ws : List Wait) (w : World)
    → IsRacing (view w.proxy)
    → IsTraced w.proxy (races_run json ws w) (event_loop_run (program json) ws w).0.proxy
event_loop_run_refines json ws w v =
    subst (λ (x : World). IsTraced w.proxy (races_run json ws w) x.proxy)
      (event_loop_run-counting json ws w 0)
      (event_loop_run_inv (counting json) (λ s. IsTraced w.proxy s.1 s.0.proxy)
        (call-Follows json w.proxy) (λ b s t. t) ws (w, 0) (IsTraced-refl w.proxy v))
