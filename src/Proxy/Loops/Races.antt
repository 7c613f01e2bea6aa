-- ===== src/Proxy/Loops/Races.antt =====
-- The handlers of responses, errors and timeouts (src/rpc_proxy.c), on the event loop.
use rpcracer.Prelude.{
  ℕ, ◌≡◌, ◌==◌, ◌&&◌, refl, arith, Bool, none, some, Option, List, [], ◌∷◌, if_rule, option_rule,
  is_some, get_elem?, set, if◌then◌else◌,
}
use rpcracer.EventLoop.{Slot, Loop, Kernel, epoll_in, rpc_timeout_cb}
use rpcracer.Conn.{Conn, client_recv_buf, rpc_conn_send}
use rpcracer.Pair.{Pair, at, active, same, conn_pair_report_error}
use rpcracer.Proxy.{
  Proxy, Env, race_idle, is_idle, close_client, send_upstream_response_to_client,
  cancel_rpc_timeout, reset_active, race_complete, reset_conn, drain, participated,
  start_rpc_timeout, register_timeout, still_draining,
}
use rpcracer.Proxy.Failure.{mark, node_failed, retry, fail_or_retry, on_upstream_error}
use rpcracer.Proxy.Loops.{IsKept}
use rpcracer.Proxy.Loops.Conns.{send-P, reset-P, report_error-P}
use rpcracer.Proxy.Race.{
  drain_timeout, timeout_fallback, race_timeout, on_rpc_timeout, judge_response, settle, leave_race,
  respond, no_winner, reset_if_busy, on_upstream_response,
}
use rpcracer.Proxy.Response.{Json}
use rpcracer.Proxy.Verdict.{judge_rule}

module _ (P : Loop → Type 0) (kept : IsKept P) where
  pub close_client-P : (p : Proxy) → P p.loop → P (close_client p).loop
  unfolding close_client
  close_client-P p h = ground (arith, kept.remove p.client_fd p.loop h)

  pub cancel-P : (p : Proxy) → P p.loop → P (cancel_rpc_timeout p).loop
  unfolding cancel_rpc_timeout
  cancel-P p h = ground (arith, kept.remove p.rpc_timeout_timer_fd p.loop h)

  register_timeout-P :
      (env : Env) (tfd : Option ℕ) (p : Proxy) → P p.loop → P (register_timeout env tfd p).loop
  unfolding register_timeout
  register_timeout-P env none p h = h
  register_timeout-P env (some tfd) p h =
      ground (arith, kept.add env.kernel (some tfd) epoll_in rpc_timeout_cb p.loop refl h)

  pub start_timeout-P : (env : Env) (p : Proxy) → P p.loop → P (start_rpc_timeout env p).loop
  unfolding start_rpc_timeout
  start_timeout-P env p h = ground (arith, register_timeout-P env env.timer p h)

  reset_active-P :
      (k : Kernel) (test : Conn → Bool) (qs : List Pair) (l : Loop)
      → P l
      → P (reset_active k test qs l).1
  unfolding reset_active
  reset_active-P k test [] l h = h
  reset_active-P k test (q ∷ qs) l h = reset_active-P k test qs _ (
      if_rule (λ (x : Conn × Loop). P x.1) (test (active q)) _ (active q, l)
        (λ _. reset-P P kept k (active q) l h) (λ _. h))

  race_complete-P : (k : Kernel) (p : Proxy) → P p.loop → P (race_complete k p).loop
  unfolding race_complete
  race_complete-P k p h = reset_active-P k participated _ _ (cancel-P p h)

  reset_conn-P :
      (k : Kernel) (i : ℕ) (s : Slot) (p : Proxy) → P p.loop → P (reset_conn k i s p).loop
  unfolding reset_conn
  reset_conn-P k i s p h =
      option_rule (λ (x : Proxy). P x.loop) (get_elem? p.pairs i) p _ (λ _. h)
        (λ q _. reset-P P kept k (at s q) p.loop h)

  drain-P : (k : Kernel) (i : ℕ) (s : Slot) (p : Proxy) → P p.loop → P (drain k i s p).loop
  unfolding drain
  drain-P k i s p h =
      let q = reset_conn k i s p in
      if_rule (λ (x : Proxy). P x.loop) (still_draining q.pairs) q (cancel_rpc_timeout q)
        (λ _. reset_conn-P k i s p h) (λ _. cancel-P q (reset_conn-P k i s p h))

  node_failed-P : (k : Kernel) (node : ℕ) (p : Proxy) → P p.loop → P (node_failed k node p).loop
  unfolding node_failed
  node_failed-P k node p h = grind (arith, race_complete-P, close_client-P)

  retry-P :
      (k : Kernel) (node i : ℕ) (q : Pair) (p : Proxy) → P p.loop → P (retry k node i q p).loop
  unfolding retry
  retry-P k node i q p h =
      let r = conn_pair_report_error q p.loop in
      let sent = rpc_conn_send k (some client_recv_buf) p.request_len (active r.0) r.1 in
      let swapped = report_error-P P kept q p.loop h in
      let marked : Proxy = record p {
        pairs = set p.pairs i r.0;
        loop = r.1;
        node_retried = mark node p.node_retried;
      } in
      if_rule (λ (x : Proxy). P x.loop) (r.2 && sent.2) _ (node_failed k node marked)
        (λ _. send-P P kept k (some client_recv_buf) p.request_len (active r.0) r.1 swapped)
        (λ _. node_failed-P k node marked swapped)

  pub on_upstream_error-P :
      (k : Kernel) (i : ℕ) (s : Slot) (p : Proxy) → P p.loop → P (on_upstream_error k i s p).loop
  unfolding on_upstream_error fail_or_retry
  on_upstream_error-P k i s p h = grind (arith, drain-P, node_failed-P, retry-P)

  loop-send :
      (env : Env) (c : Conn) (p : Proxy) → (send_upstream_response_to_client env c p).loop ≡ p.loop
  unfolding send_upstream_response_to_client
  loop-send env c p = ground arith

  fallback-P : (env : Env) (p : Proxy) → P p.loop → P (timeout_fallback env p).loop
  unfolding timeout_fallback
  fallback-P env p h = grind (arith, loop-send)

  race_timeout-P : (env : Env) (p : Proxy) → P p.loop → P (race_timeout env p).loop
  unfolding race_timeout
  race_timeout-P env p h =
      let over : Proxy = record p { responses_pending = 0 } in
      let q = if is_some over.winner_idx then over else timeout_fallback env over in
      let answered : P q.loop =
        if_rule (λ (x : Proxy). P x.loop) (is_some over.winner_idx) over (timeout_fallback env over)
          (λ _. h) (λ _. fallback-P env over h) in
      race_complete-P env.kernel (if is_some q.winner_idx then q else close_client q) (
        if_rule (λ (x : Proxy). P x.loop) (is_some q.winner_idx) q (close_client q) (λ _. answered)
          (λ _. close_client-P q answered))

  pub on_rpc_timeout-P : (env : Env) (p : Proxy) → P p.loop → P (on_rpc_timeout env p).loop
  unfolding on_rpc_timeout drain_timeout
  on_rpc_timeout-P env p h =
      if_rule (λ (x : Proxy). P x.loop) (is_idle p.state) (drain_timeout env.kernel p)
        (race_timeout env p) (λ _. cancel-P _ (reset_active-P env.kernel _ p.pairs p.loop h))
        (λ _. race_timeout-P env p h)

  module _ {V : Type 0} (json : Json V) (env : Env) where
    judge-P :
        (i : ℕ) (s : Slot) (c : Conn) (p : Proxy)
        → P p.loop
        → P (judge_response json env i s c p).loop
    judge-P i s c p h =
        judge_rule json env (λ q. P q.loop) i s c p (λ _ _. h) (λ _ _ _ _ _ _ _ _ _ _ _. h)
          (λ _ _ _ _ _. h)

    no_winner-P :
        (time : ℕ) (gbt : Bool) (p : Proxy) → P p.loop → P (no_winner json env time gbt p).loop
    unfolding no_winner
    no_winner-P time gbt p h = grind (arith, loop-send)

    reset_if_busy-P :
        (i : ℕ) (s : Slot) (p : Proxy) → P p.loop → P (reset_if_busy json env i s p).loop
    unfolding reset_if_busy
    reset_if_busy-P i s p h = grind (arith, reset_conn-P)

    leave_race-P :
        (i : ℕ) (s : Slot) (w : ℕ) (p : Proxy) → P p.loop → P (leave_race json env i s w p).loop
    unfolding leave_race
    leave_race-P i s w p h =
        let own = reset_if_busy-P i s (record p { state = race_idle }) h in
        option_rule (λ (x : Proxy). P x.loop) (get_elem? p.pairs w) _ _ (λ _. own)
          (λ q _.
            if_rule (λ (x : Proxy). P x.loop) (w == i && same q.active_idx s) _ _ (λ _. own)
              (λ _.
                reset_if_busy-P i s _
                  (reset_if_busy-P w q.active_idx (record p { state = race_idle }) h)))

    settle-P :
        (i : ℕ) (s : Slot) (c : Conn) (gbt : Bool) (p : Proxy)
        → P p.loop
        → P (settle json env i s c gbt p).loop
    unfolding settle
    settle-P i s c gbt p h = grind (arith, race_complete-P, no_winner-P, leave_race-P)

    pub on_upstream_response-P :
        (i : ℕ) (s : Slot) (p : Proxy) → P p.loop → P (on_upstream_response json env i s p).loop
    unfolding on_upstream_response respond
    on_upstream_response-P i s p h = grind (arith, drain-P, settle-P, judge-P)
