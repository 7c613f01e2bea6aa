-- ===== src/Proxy/Loops/Requests.antt =====
-- The client's side of the proxy (src/rpc_proxy.c), and whole steps of it, on the event loop.
use rpcracer.Prelude.{
  ℕ, ◌≡◌, refl, arith, Bool, false, none, some, Option, List, [], ◌∷◌, if_rule, option_rule,
  get_elem?,
}
use rpcracer.EventLoop.{Slot, Loop, Kernel, Events, epoll_in, client_cb}
use rpcracer.Conn.{
  Conn, Io, ConnectAnswer, Notice, quiet, notify_connected, notify_sent, notify_response,
  notify_error, client_recv_buf,
}
use rpcracer.Conn.Epoll.{conn_epoll_cb}
use rpcracer.Pair.{Pair, at, put, active, conn_pair_is_available}
use rpcracer.Proxy.{Proxy, Env, close_client}
use rpcracer.Proxy.Loops.{IsKept}
use rpcracer.Proxy.Loops.Conns.{send-P, conn_epoll_cb-P, on_rotation_timer-P}
use rpcracer.Proxy.Loops.Races.{
  close_client-P, start_timeout-P, on_upstream_error-P, on_upstream_response-P, on_rpc_timeout-P,
}
use rpcracer.Proxy.Request.{
  on_accept, on_client, on_client_bytes, take_request, count_request, classify_method, start_route,
  start_fanout, start_sticky, dispatch_fanout, dispatch_sticky, send_available, send_sticky,
  sticky_unusable, fall_back, rpc_proxy_on_block_notify,
}
use rpcracer.Proxy.Response.{Json}
use rpcracer.Proxy.System.{
  Event, accept, client, upstream, rotation, rpc_timeout, block_notify, step, on_upstream,
  run_notice, rotate, put_pair,
}

module _ (P : Loop → Type 0) (kept : IsKept P) where
  on_accept-P : (env : Env) (fd : Option ℕ) (p : Proxy) → P p.loop → P (on_accept env fd p).loop
  unfolding on_accept
  on_accept-P env none p h = h
  on_accept-P env (some fd) p h =
      let closed = close_client-P P kept p h in
      ground
        (arith, kept.add env.kernel (some fd) epoll_in client_cb (close_client p).loop refl closed)

  send_available-P :
      (k : Kernel) (len : ℕ) (qs : List Pair) (l : Loop) → P l → P (send_available k len qs l).1
  unfolding send_available
  send_available-P k len [] l h = h
  send_available-P k len (q ∷ qs) l h = send_available-P k len qs _ (
      if_rule (λ (x : Conn × Loop × Bool). P x.1) (conn_pair_is_available q) _ (active q, l, false)
        (λ _. send-P P kept k (some client_recv_buf) len (active q) l h) (λ _. h))

  dispatch_fanout-P : (k : Kernel) (p : Proxy) → P p.loop → P (dispatch_fanout k p).loop
  unfolding dispatch_fanout
  dispatch_fanout-P k p h = send_available-P k p.client_recv_len p.pairs p.loop h

  fall_back-P : (k : Kernel) (p : Proxy) → P p.loop → P (fall_back k p).0.loop
  unfolding fall_back
  fall_back-P k p h = grind (arith, dispatch_fanout-P, close_client-P P kept)

  unusable-P : (k : Kernel) (p : Proxy) → P p.loop → P (sticky_unusable k p).0.loop
  unfolding sticky_unusable
  unusable-P k p h = grind (arith, fall_back-P, close_client-P P kept)

  send_sticky-P :
      (k : Kernel) (i : ℕ) (q : Pair) (p : Proxy) → P p.loop → P (send_sticky k i q p).0.loop
  unfolding send_sticky
  send_sticky-P k i q p h = ground (
    arith,
    unusable-P k p h,
    send-P P kept k (some client_recv_buf) p.client_recv_len (active q) p.loop h,
  )

  dispatch_sticky-P : (k : Kernel) (p : Proxy) → P p.loop → P (dispatch_sticky k p).0.loop
  unfolding dispatch_sticky
  dispatch_sticky-P k p0 h =
      let p : Proxy = record p0 { node_retried = λ _. false; request_len = p0.client_recv_len } in
      let unusable = unusable-P k p h in
      option_rule (λ (x : Proxy × Bool). P x.0.loop) p.sticky_node_idx _ _ (λ _. unusable)
        (λ i _.
          option_rule (λ (x : Proxy × Bool). P x.0.loop) (get_elem? p.pairs i) _ _ (λ _. unusable)
            (λ q _. send_sticky-P k i q p h))

  start_fanout-P : (env : Env) (all : Bool) (p : Proxy) → P p.loop → P (start_fanout env all p).loop
  unfolding start_fanout
  start_fanout-P env all p h =
      grind (arith, dispatch_fanout-P, close_client-P P kept, start_timeout-P P kept)

  start_sticky-P : (env : Env) (p : Proxy) → P p.loop → P (start_sticky env p).loop
  unfolding start_sticky
  start_sticky-P env p h = grind (arith, dispatch_sticky-P, start_timeout-P P kept)

  start_route-P : (env : Env) (p : Proxy) → P p.loop → P (start_route env (classify_method p)).loop
  unfolding start_route classify_method
  start_route-P env p h = grind (arith, start_fanout-P, start_sticky-P)

  loop-count_request : (p : Proxy) → (count_request p).loop ≡ p.loop
  unfolding count_request
  loop-count_request p = ground arith

  rotate-P :
      (k : Kernel) (i : ℕ) (a : ConnectAnswer) (p : Proxy) → P p.loop → P (rotate k i a p).loop
  unfolding rotate
  rotate-P k i a p h =
      option_rule (λ (x : Proxy). P x.loop) (get_elem? p.pairs i) p _ (λ _. h)
        (λ q _. on_rotation_timer-P P kept k a q p.loop h)

  module _ {V : Type 0} (json : Json V) where
    take_request-P : (env : Env) (p : Proxy) → P p.loop → P (take_request json env p).loop
    unfolding take_request
    take_request-P env p h = grind (arith, start_route-P, loop-count_request)

    on_client-P :
        (env : Env) (ev : Events) (io : Io) (p : Proxy)
        → P p.loop
        → P (on_client json env ev io p).loop
    unfolding on_client on_client_bytes
    on_client-P env ev io p h = grind (arith, take_request-P, close_client-P P kept)

    run_notice-P :
        (env : Env) (i : ℕ) (s : Slot) (n : Notice) (q : Pair) (p : Proxy)
        → P p.loop
        → P (run_notice json env i s n q p).loop
    unfolding run_notice
    run_notice-P env i s quiet q p h = h
    run_notice-P env i s (notify_connected f) q p h = h
    run_notice-P env i s notify_sent q p h = h
    run_notice-P env i s notify_response q p h = on_upstream_response-P P kept json env i s p h
    run_notice-P env i s notify_error q p h = on_upstream_error-P P kept env.kernel i s p h

    on_upstream-P :
        (env : Env) (i : ℕ) (s : Slot) (ev : Events) (io : Io) (p : Proxy)
        → P p.loop
        → P (on_upstream json env i s ev io p).loop
    unfolding on_upstream
    on_upstream-P env i s ev io p h =
        option_rule (λ (x : Proxy). P x.loop) (get_elem? p.pairs i) p _ (λ _. h)
          (λ q _.
            let r = conn_epoll_cb ev io env.kernel (at s q) p.loop in
            run_notice-P env i s r.2 (put s r.0 q) (put_pair i (put s r.0 q, r.1) p)
              (conn_epoll_cb-P P kept ev io env.kernel (at s q) p.loop h))

    loop-block_notify : (now : ℕ) (p : Proxy) → (rpc_proxy_on_block_notify now p).loop ≡ p.loop
    unfolding rpc_proxy_on_block_notify
    loop-block_notify now p = ground arith

    -- What the operations on descriptors keep, a step of the proxy keeps.
    pub step-P : (env : Env) (e : Event) (p : Proxy) → P p.loop → P (step json env e p).loop
    unfolding step
    step-P env (accept fd) p h = on_accept-P env fd p h
    step-P env (client ev io) p h = on_client-P env ev io p h
    step-P env (upstream i s ev io) p h = on_upstream-P env i s ev io p h
    step-P env (rotation i a) p h = rotate-P env.kernel i a p h
    step-P env rpc_timeout p h = on_rpc_timeout-P P kept env p h
    step-P env block_notify p h = ground (arith, loop-block_notify env.kernel.now p)
