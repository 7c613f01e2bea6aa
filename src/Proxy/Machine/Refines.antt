-- ===== src/Proxy/Machine/Refines.antt =====
-- Histories of the proxy (src/rpc_proxy.c) as traces of the race machine.
use rpcracer.Prelude.{
  ℕ, ◌+◌, ◌≤◌, ◌≡◌, inl, inr, refl, arith, some, List, [], ◌∷◌, subst, Option-cases, get_elem?,
  get_elem?-set_of_some, length,
}
use rpcracer.EventLoop.{Slot, slot0, slot1, Events}
use rpcracer.Conn.{
  Conn, Io, Notice, receiving, quiet, notify_connected, notify_sent, notify_response, notify_error,
}
use rpcracer.Conn.Epoll.{conn_epoll_cb}
use rpcracer.Conn.Notices.{conn_epoll_cb-Delivers}
use rpcracer.Proxy.{Proxy, Env}
use rpcracer.Proxy.Response.{Json}
use rpcracer.Proxy.Request.{on_accept, rpc_proxy_on_block_notify}
use rpcracer.Proxy.Race.{on_upstream_response}
use rpcracer.Pair.{Pair, at, put}
use rpcracer.Proxy.View.{view}
use rpcracer.Proxy.Invariant.{
  IsRacing, step-IsRacing, view-on_accept, view-rotate, view-block_notify,
}
use rpcracer.Proxy.Sent.{sent-on_accept, sent-rotate, sent-block_notify}
use rpcracer.Proxy.Machine.Races.{started, races_started}
use rpcracer.Proxy.Machine.{Phase, Move, phase, sent, Moves, starts, Trace, here, next}
use rpcracer.Proxy.Machine.Handlers.{
  Moves-refl, Moves-same, on_upstream_error-Moves, on_rpc_timeout-Moves,
}
use rpcracer.Proxy.Machine.Responses.{respond-Moves}
use rpcracer.Proxy.Machine.Starts.{on_client-Moves}
use rpcracer.Proxy.System.{
  Event, accept, client, upstream, rotation, rpc_timeout, block_notify, put_pair, step, run,
  on_upstream, run_notice, rotate,
}

at-put : (s : Slot) (c : Conn) (q : Pair) → at s (put s c q) ≡ c
at-put slot0 c q = refl
at-put slot1 c q = refl

-- A move starts a race exactly if the proxy does.
pub Move-starts :
    (p q : Proxy) (n : ℕ) → Move (phase p) n (phase q) → starts (phase p) (phase q) ≡ started p q
Move-starts p q n m = ground arith

module _ {V : Type 0} (json : Json V) where
  upstream_response-Moves :
      (env : Env) (i : ℕ) (s : Slot) (q : Pair) (p : Proxy)
      → IsRacing (view p)
      → get_elem? p.pairs i ≡ some q
      → (at s q).state ≡ receiving
      → Moves p (on_upstream_response json env i s p)
  unfolding on_upstream_response
  upstream_response-Moves env i s q p v e r =
      rw (e, on_upstream_response) (respond-Moves json env i s (at s q) p v r)

  run_notice-Moves :
      (env : Env) (i : ℕ) (s : Slot) (n : Notice) (q : Pair) (p : Proxy)
      → IsRacing (view p)
      → get_elem? p.pairs i ≡ some q
      → (n ≡ notify_response → (at s q).state ≡ receiving)
      → Moves p (run_notice json env i s n q p)
  unfolding run_notice
  run_notice-Moves env i s quiet q p v e r = Moves-refl p v
  run_notice-Moves env i s (notify_connected f) q p v e r = Moves-refl p v
  run_notice-Moves env i s notify_sent q p v e r = Moves-refl p v
  run_notice-Moves env i s notify_response q p v e r =
      upstream_response-Moves env i s q p v e (r refl)
  run_notice-Moves env i s notify_error q p v e r = on_upstream_error-Moves env.kernel i s p v

  on_upstream-Moves :
      (env : Env) (i : ℕ) (s : Slot) (ev : Events) (io : Io) (p : Proxy)
      → IsRacing (view p)
      → Moves p (on_upstream json env i s ev io p)
  unfolding on_upstream
  on_upstream-Moves env i s ev io p v = elim (Option-cases (get_elem? p.pairs i)) [
    | inl e ↦ rw (e, on_upstream) (Moves-refl p v)
    | inr (q, e) ↦
        let r = conn_epoll_cb ev io env.kernel (at s q) p.loop in
        rw (e, on_upstream)
          (run_notice-Moves env i s r.2 (put s r.0 q) (put_pair i (put s r.0 q, r.1) p) v
            (get_elem?-set_of_some p.pairs i (put s r.0 q) e)
            (λ n.
              rw (at-put s r.0 q) ((conn_epoll_cb-Delivers ev io env.kernel (at s q) p.loop n).0)))
  ]

  -- Each event is one move.
  pub step-Moves :
      (env : Env) (e : Event) (p : Proxy) → IsRacing (view p) → Moves p (step json env e p)
  unfolding step
  step-Moves env (accept fd) p v =
      Moves-same p (on_accept env fd p) v (view-on_accept env fd p) (sent-on_accept env fd p)
  step-Moves env (client ev io) p v = on_client-Moves json env ev io p v
  step-Moves env (upstream i s ev io) p v = on_upstream-Moves env i s ev io p v
  step-Moves env (rotation i a) p v =
      Moves-same p (rotate env.kernel i a p) v (view-rotate env.kernel i a p)
        (sent-rotate env.kernel i a p)
  step-Moves env rpc_timeout p v = on_rpc_timeout-Moves env p v
  step-Moves env block_notify p v =
      let now = env.kernel.now in
      Moves-same p (rpc_proxy_on_block_notify now p) v (view-block_notify now p)
        (sent-block_notify now p)

  -- What one event does, in front of a history.
  pub sent-run :
      (es : List (Env × Event)) (p : Proxy)
      → IsRacing (view p)
      → length p.client_out ≤ length (run json es p).client_out
  unfolding run
  sent-run [] p v = omega arith
  sent-run ((env, e) ∷ es) p v = omega (
    arith,
    (step-Moves env e p v).0,
    sent-run es (step json env e p) (step-IsRacing json env e p v),
  )

  -- A trace to the present phase is continued by any history.
  run-Trace_from :
      {x : Phase} (es : List (Env × Event)) (p : Proxy) (r s r' s' : ℕ)
      → IsRacing (view p)
      → Trace x r s (phase p)
      → r' ≡ r + races_started json es p
      → s' ≡ s + sent p (run json es p)
      → Trace x r' s' (phase (run json es p))
  unfolding run races_started
  run-Trace_from {x} [] p r s r' s' v t e f =
      subst (λ a. Trace x a s' (phase p)) (omega (arith, e))
        (subst (λ b. Trace x r b (phase p)) (omega (arith, f)) t)
  run-Trace_from ((env, e) ∷ es) p r s r' s' v t f g =
      let q = step json env e p in
      let m = step-Moves env e p v in
      let w = step-IsRacing json env e p v in
      let begun = Move-starts p q (sent p q) m.1 in
      run-Trace_from es q _ _ r' s' w (next (phase p) (phase q) (sent p q) t m.1 refl refl)
        (omega (arith, begun)) (omega (arith, m.0, sent-run es q w))

  -- Over any history of events and any answers of the operating system, the proxy is a trace of the
  -- race machine, which starts as many races as the history and sends as many responses as went to
  -- the client.
  pub run_refines :
      (es : List (Env × Event)) (p : Proxy)
      → IsRacing (view p)
      → Trace (phase p) (races_started json es p) (sent p (run json es p)) (phase (run json es p))
  run_refines es p v = run-Trace_from es p 0 0 _ _ v here (omega arith) (omega arith)
