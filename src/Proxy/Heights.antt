-- ===== src/Proxy/Heights.antt =====
-- The block height that the proxy has seen (src/rpc_proxy.c, last_block_height).
use rpcracer.Prelude.{
  refl, ℕ, ◌≡◌, arith, Bool, Option, none, some, List, [], ◌∷◌, ◌≤ℤ◌, get_elem?, Option-cases, inl,
  inr,
}
use rpcracer.EventLoop.{Slot, Kernel, Events}
use rpcracer.Conn.{
  Conn, Io, Notice, ConnectAnswer, quiet, notify_connected, notify_sent, notify_response,
  notify_error,
}
use rpcracer.Conn.Epoll.{conn_epoll_cb}
use rpcracer.Pair.{Pair, at, put}
use rpcracer.Proxy.{
  Proxy, Env, race_complete, send_upstream_response_to_client, close_client, start_rpc_timeout,
  drain,
}
use rpcracer.Proxy.Response.{Json}
use rpcracer.Proxy.Request.{
  classify_method, start_route, start_fanout, start_sticky, dispatch_fanout, dispatch_sticky,
  take_request, on_client, on_accept, rpc_proxy_on_block_notify,
}
use rpcracer.Proxy.Verdict.{judge_rule, leave_race_rule}
use rpcracer.Proxy.Race.{
  judge_response, settle, leave_race, respond, no_winner, on_upstream_response, race_timeout,
  drain_timeout, on_rpc_timeout,
}
use rpcracer.Proxy.Failure.{fail_or_retry, on_upstream_error}
use rpcracer.Proxy.System.{
  Event, accept, client, upstream, rotation, rpc_timeout, block_notify, step, run, on_upstream,
  run_notice, rotate, put_pair,
}

infix 50 ◌⊑◌
-- The height of q is at least that of p.
abbrev pub ◌⊑◌ : Proxy → Proxy → Type 0
p ⊑ q = p.last_block_height ≤ℤ q.last_block_height

⊑-race_complete :
    (k : Kernel) (p : Proxy) → (race_complete k p).last_block_height ≡ p.last_block_height
unfolding race_complete
⊑-race_complete k p = ground arith

⊑-drain : (k : Kernel) (i : ℕ) (s : Slot) (p : Proxy) → p ⊑ drain k i s p
unfolding drain
⊑-drain k i s p = ground arith

⊑-fail_or_retry : (k : Kernel) (node i : ℕ) (q : Pair) (p : Proxy) → p ⊑ fail_or_retry k node i q p
unfolding fail_or_retry close_client
⊑-fail_or_retry k node i q p = grind (arith, ⊑-race_complete)

⊑-on_upstream_error : (k : Kernel) (i : ℕ) (s : Slot) (p : Proxy) → p ⊑ on_upstream_error k i s p
unfolding on_upstream_error
⊑-on_upstream_error k i s p = grind (arith, ⊑-drain, ⊑-fail_or_retry)

⊑-on_rpc_timeout : (env : Env) (p : Proxy) → p ⊑ on_rpc_timeout env p
unfolding on_rpc_timeout race_timeout drain_timeout close_client send_upstream_response_to_client
⊑-on_rpc_timeout env p = grind (arith, ⊑-race_complete)

⊑-rotate : (k : Kernel) (i : ℕ) (a : ConnectAnswer) (p : Proxy) → p ⊑ rotate k i a p
unfolding rotate
⊑-rotate k i a p = ground arith

⊑-on_accept : (env : Env) (fd : Option ℕ) (p : Proxy) → p ⊑ on_accept env fd p
unfolding on_accept close_client
⊑-on_accept env none p = ground arith
⊑-on_accept env (some fd) p = ground arith

⊑-block_notify : (now : ℕ) (p : Proxy) → p ⊑ rpc_proxy_on_block_notify now p
unfolding rpc_proxy_on_block_notify
⊑-block_notify now p = ground arith

height-dispatch_sticky :
    (k : Kernel) (p : Proxy) → (dispatch_sticky k p).0.last_block_height ≡ p.last_block_height
unfolding dispatch_sticky dispatch_fanout close_client
height-dispatch_sticky k p = ground arith

height-start_fanout :
    (env : Env) (all : Bool) (p : Proxy)
    → (start_fanout env all p).last_block_height ≡ p.last_block_height
unfolding start_fanout dispatch_fanout start_rpc_timeout close_client
height-start_fanout env all p = ground arith

height-start_sticky :
    (env : Env) (p : Proxy) → (start_sticky env p).last_block_height ≡ p.last_block_height
unfolding start_sticky start_rpc_timeout
height-start_sticky env p = grind (arith, height-dispatch_sticky)

height-start_route :
    (env : Env) (p : Proxy)
    → (start_route env (classify_method p)).last_block_height ≡ p.last_block_height
unfolding start_route classify_method
height-start_route env p = grind (arith, height-start_fanout, height-start_sticky)

module _ {V : Type 0} (json : Json V) where
  ⊑-judge :
      (env : Env) (i : ℕ) (s : Slot) (c : Conn) (p : Proxy) → p ⊑ judge_response json env i s c p
  ⊑-judge env i s c p =
      judge_rule json env (λ q. p ⊑ q) i s c p (λ _ _. omega arith)
        (λ _ _ _ _ _ _ _ _ _ raised _. raised) (λ _ _ _ _ _. omega arith)

  height-leave_race :
      (env : Env) (i : ℕ) (s : Slot) (w : ℕ) (p : Proxy)
      → (leave_race json env i s w p).last_block_height ≡ p.last_block_height
  height-leave_race env i s w p =
      leave_race_rule json env (λ q. q.last_block_height ≡ p.last_block_height) i s w p
        (λ ps l. refl)

  ⊑-no_winner : (env : Env) (time : ℕ) (gbt : Bool) (p : Proxy) → p ⊑ no_winner json env time gbt p
  unfolding no_winner send_upstream_response_to_client
  ⊑-no_winner env time gbt p = ground arith

  ⊑-settle :
      (env : Env) (i : ℕ) (s : Slot) (c : Conn) (gbt : Bool) (p : Proxy)
      → p ⊑ settle json env i s c gbt p
  unfolding settle
  ⊑-settle env i s c gbt p = grind (arith, ⊑-race_complete, height-leave_race, ⊑-no_winner)

  ⊑-respond : (env : Env) (i : ℕ) (s : Slot) (c : Conn) (p : Proxy) → p ⊑ respond json env i s c p
  unfolding respond
  ⊑-respond env i s c p = grind (arith, ⊑-drain, ⊑-settle, ⊑-judge)

  ⊑-on_upstream_response :
      (env : Env) (i : ℕ) (s : Slot) (p : Proxy) → p ⊑ on_upstream_response json env i s p
  unfolding on_upstream_response
  ⊑-on_upstream_response env i s p = grind (arith, ⊑-respond)

  ⊑-on_client : (env : Env) (ev : Events) (io : Io) (p : Proxy) → p ⊑ on_client json env ev io p
  unfolding on_client take_request close_client
  ⊑-on_client env ev io p = grind (arith, height-start_route)

  ⊑-run_notice :
      (env : Env) (i : ℕ) (s : Slot) (n : Notice) (q : Pair) (p : Proxy)
      → p ⊑ run_notice json env i s n q p
  unfolding run_notice
  ⊑-run_notice env i s quiet q p = ground arith
  ⊑-run_notice env i s (notify_connected f) q p = ground arith
  ⊑-run_notice env i s notify_sent q p = ground arith
  ⊑-run_notice env i s notify_response q p = ⊑-on_upstream_response env i s p
  ⊑-run_notice env i s notify_error q p = ⊑-on_upstream_error env.kernel i s p

  ⊑-on_upstream :
      (env : Env) (i : ℕ) (s : Slot) (ev : Events) (io : Io) (p : Proxy)
      → p ⊑ on_upstream json env i s ev io p
  unfolding on_upstream
  ⊑-on_upstream env i s ev io p = elim (Option-cases (get_elem? p.pairs i)) [
    | inl e ↦ rw (e, on_upstream) (ground arith)
    | inr (q, e) ↦
        let r = conn_epoll_cb ev io env.kernel (at s q) p.loop in
        rw (e, on_upstream)
          (⊑-run_notice env i s r.2 (put s r.0 q) (put_pair i (put s r.0 q, r.1) p))
  ]

  ⊑-step : (env : Env) (e : Event) (p : Proxy) → p ⊑ step json env e p
  unfolding step
  ⊑-step env (accept fd) p = ⊑-on_accept env fd p
  ⊑-step env (client ev io) p = ⊑-on_client env ev io p
  ⊑-step env (upstream i s ev io) p = ⊑-on_upstream env i s ev io p
  ⊑-step env (rotation i a) p = ⊑-rotate env.kernel i a p
  ⊑-step env rpc_timeout p = ⊑-on_rpc_timeout env p
  ⊑-step env block_notify p = ⊑-block_notify env.kernel.now p

  -- The last known block height never falls, over any history of events.
  pub height-run : (es : List (Env × Event)) (p : Proxy) → p ⊑ run json es p
  unfolding run
  height-run [] p = ground arith
  height-run ((env, e) ∷ es) p = omega (arith, ⊑-step env e p, height-run es (step json env e p))
