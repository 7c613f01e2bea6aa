-- ===== src/Proxy/Machine/Handlers.antt =====
-- Errors and timeouts (src/rpc_proxy.c, on_upstream_error and rpc_timeout_cb) as moves of the race
-- machine.
use rpcracer.Prelude.{
  refl, ℕ, ◌+◌, ◌-◌, ◌≤◌, ◌≡◌, inl, inr, arith, true, false, is_some, length, if_rule, Option-cases,
  get_elem?, set, ◌&&◌, ap, ◌∙◌, ◌==◌, some, if◌then◌else◌,
}
use rpcracer.EventLoop.{Slot, Kernel}
use rpcracer.Conn.{client_recv_buf, rpc_conn_send}
use rpcracer.Proxy.{
  Proxy, Env, is_idle, race_complete, send_upstream_response_to_client, drain, close_client,
}
use rpcracer.Proxy.Race.{drain_timeout, race_timeout, on_rpc_timeout}
use rpcracer.Proxy.Failure.{mark, node_failed, fail_or_retry, retry, on_upstream_error}
use rpcracer.Pair.{Pair, at, put, active, conn_pair_report_error}
use rpcracer.Proxy.View.{view}
use rpcracer.Proxy.Invariant.{IsRacing, state-race_complete}
use rpcracer.Proxy.Sent.{sent-race_complete, sent-close_client}
use rpcracer.Proxy.Machine.{Moves}

pub Moves-refl : (p : Proxy) → IsRacing (view p) → Moves p p
Moves-refl p v = ground (arith, v.waiting)

-- A handler that leaves the race and the sent responses alone.
pub Moves-same :
    (p q : Proxy) → IsRacing (view p) → view q ≡ view p → q.client_out ≡ p.client_out → Moves p q
Moves-same p q v e f = ground (arith, v.waiting)

pub drain-Moves :
    (k : Kernel) (i : ℕ) (s : Slot) (p : Proxy) → IsRacing (view p) → Moves p (drain k i s p)
unfolding drain
drain-Moves k i s p v = ground (arith, v.waiting)

-- The end of a race, when no more than one response was sent since, and none if it was answered.
pub race_complete-Moves :
    (k : Kernel) (p q : Proxy)
    → IsRacing (view p)
    → is_idle p.state ≡ false
    → length p.client_out ≤ length q.client_out
    → length q.client_out ≤ length p.client_out + 1
    → (is_some p.winner_idx ≡ true → length q.client_out ≡ length p.client_out)
    → Moves p (race_complete k q)
race_complete-Moves k p q v h l m e =
    ground (arith, v.undecided, sent-race_complete k q, state-race_complete k q)

-- The end of a race that sends nothing: the client is closed unless it was answered.
give_up-Moves :
    (k : Kernel) (p q : Proxy)
    → IsRacing (view p)
    → is_idle p.state ≡ false
    → q.client_out ≡ p.client_out
    → Moves p (race_complete k (if is_some q.winner_idx then q else close_client q))
give_up-Moves k p q v h e =
    if_rule (λ x. Moves p (race_complete k x)) (is_some q.winner_idx) q (close_client q)
      (λ _.
        race_complete-Moves k p q v h (omega (arith, ap length e)) (omega (arith, ap length e))
          (λ _. ap length e))
      (λ _.
        let f = ap length (sent-close_client q ∙ e) in
        race_complete-Moves k p (close_client q) v h (omega arith) (omega arith) (λ _. f))

node_failed-Moves :
    (k : Kernel) (node : ℕ) (p : Proxy)
    → IsRacing (view p)
    → is_idle p.state ≡ false
    → Moves p (node_failed k node p)
unfolding node_failed
node_failed-Moves k node p v h =
    let q : Proxy = record p {
      responses_pending = p.responses_pending - 1;
      last_error_idx = some node;
    } in
    if_rule (Moves p) (q.responses_pending == 0)
      (race_complete k (if is_some q.winner_idx then q else close_client q)) q
      (λ _. give_up-Moves k p q v h refl) (λ more. ground (arith, v.waiting h))

retry-Moves :
    (k : Kernel) (node i : ℕ) (q : Pair) (p : Proxy)
    → IsRacing (view p)
    → is_idle p.state ≡ false
    → Moves p (retry k node i q p)
unfolding retry
retry-Moves k node i q p v h =
    let (q1, l1, available) = conn_pair_report_error q p.loop in
    let (c, l2, ok) = rpc_conn_send k (some client_recv_buf) p.request_len (active q1) l1 in
    let marked : Proxy = record p {
      pairs = set p.pairs i q1;
      loop = l1;
      node_retried = mark node p.node_retried;
    } in
    let sending : Proxy = record marked {
      pairs = set p.pairs i (put q1.active_idx c q1);
      loop = l2;
    } in
    if_rule (Moves p) (available && ok) sending (node_failed k node marked) (λ _. Moves-refl p v)
      (λ _. node_failed-Moves k node marked v h)

on_pair_error-Moves :
    (k : Kernel) (i : ℕ) (s : Slot) (q : Pair) (p : Proxy)
    → IsRacing (view p)
    → Moves p (if is_idle p.state then drain k i s p else fail_or_retry k (at s q).node_index i q p)
unfolding fail_or_retry
on_pair_error-Moves k i s q p v =
    let node = (at s q).node_index in
    if_rule (Moves p) (is_idle p.state) (drain k i s p) (fail_or_retry k node i q p)
      (λ _. drain-Moves k i s p v)
      (λ h.
        if_rule (Moves p) (p.node_retried node) (node_failed k node p) (retry k node i q p)
          (λ _. node_failed-Moves k node p v h) (λ _. retry-Moves k node i q p v h))

pub on_upstream_error-Moves :
    (k : Kernel) (i : ℕ) (s : Slot) (p : Proxy)
    → IsRacing (view p)
    → Moves p (on_upstream_error k i s p)
unfolding on_upstream_error
on_upstream_error-Moves k i s p v = elim (Option-cases (get_elem? p.pairs i)) [
  | inl e ↦ rw (e, on_upstream_error) (Moves-refl p v)
  | inr (q, e) ↦ rw (e, on_upstream_error) (on_pair_error-Moves k i s q p v)
]

race_timeout-Moves :
    (env : Env) (p : Proxy)
    → IsRacing (view p)
    → is_idle p.state ≡ false
    → Moves p (race_timeout env p)
unfolding race_timeout close_client send_upstream_response_to_client
race_timeout-Moves env p v h = grind (arith, sent-race_complete, state-race_complete)

drain_timeout-Moves : (k : Kernel) (p : Proxy) → IsRacing (view p) → Moves p (drain_timeout k p)
unfolding drain_timeout
drain_timeout-Moves k p v = ground (arith, v.waiting)

pub on_rpc_timeout-Moves :
    (env : Env) (p : Proxy) → IsRacing (view p) → Moves p (on_rpc_timeout env p)
unfolding on_rpc_timeout
on_rpc_timeout-Moves env p v = grind (arith, drain_timeout-Moves, race_timeout-Moves)
