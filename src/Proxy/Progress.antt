-- ===== src/Proxy/Progress.antt =====
-- A race comes to an end: every response and every failure brings it closer (src/rpc_proxy.c,
-- on_upstream_response and on_upstream_error).
use rpcracer.Prelude.{ℕ, ◌+◌, ◌<◌, ◌≡◌, ◌⊎◌, ◌==◌, arith, true, false, is_some}
use rpcracer.EventLoop.{Slot, Kernel}
use rpcracer.Conn.{Conn}
use rpcracer.Pair.{Pair}
use rpcracer.Proxy.{Proxy, Env, is_idle}
use rpcracer.Proxy.Response.{Json, response_is_error}
use rpcracer.Proxy.Race.{judge_response, settle, respond}
use rpcracer.Proxy.Failure.{fail_or_retry}
use rpcracer.Proxy.Verdict.{judge_rule}
use rpcracer.Proxy.View.{view}
use rpcracer.Proxy.Invariant.{IsRacing, state-race_complete, state-leave_race}

module _ {V : Type 0} (json : Json V) (env : Env) where
  judge-pending :
      (i : ℕ) (s : Slot) (c : Conn) (p : Proxy)
      → ((judge_response json env i s c p).responses_pending + 1 ≡ p.responses_pending)
        ⊎ (p.responses_pending ≡ 0)
  judge-pending i s c p =
      judge_rule json env
        (λ q. (q.responses_pending + 1 ≡ p.responses_pending) ⊎ (p.responses_pending ≡ 0)) i s c p
        (λ _ fails. ground arith) (λ _ _ _ _ _ _ _ _ sends raised wins. ground arith)
        (λ _ _ _ late keeps. ground arith)

  pub judge-winner :
      (i : ℕ) (s : Slot) (c : Conn) (p : Proxy)
      → response_is_error json c ≡ false
      → p.gbt_height_matched ≡ false
      → is_some (judge_response json env i s c p).winner_idx ≡ true
  judge-winner i s c p h m =
      judge_rule json env (λ q. is_some q.winner_idx ≡ true) i s c p (λ _ fails. ground arith)
        (λ _ _ _ _ _ _ _ _ sends raised wins. ground arith) (λ _ _ _ late keeps. ground arith)

  judge-all :
      (i : ℕ) (s : Slot) (c : Conn) (p : Proxy)
      → (judge_response json env i s c p).all_must_complete ≡ p.all_must_complete
  judge-all i s c p =
      judge_rule json env (λ q. q.all_must_complete ≡ p.all_must_complete) i s c p
        (λ _ fails. ground arith) (λ _ _ _ _ _ _ _ _ sends raised wins. ground arith)
        (λ _ _ _ late keeps. ground arith)

  -- While the race invariant holds, a response in a race that runs ends it, or leaves one response
  -- fewer to wait for.
  pub respond-progress :
      (i : ℕ) (s : Slot) (c : Conn) (p : Proxy)
      → IsRacing (view p)
      → is_idle p.state ≡ false
      → let q = respond json env i s c p in
        (is_idle q.state ≡ true) ⊎ (q.responses_pending + 1 ≡ p.responses_pending)
  unfolding respond settle
  respond-progress i s c p v h =
      grind (arith, judge-pending i s c p, state-race_complete, state-leave_race)

  -- While the race invariant holds, a success ends a race that runs and need not wait for all
  -- nodes: the proxy is idle after it.
  pub respond_success :
      (i : ℕ) (s : Slot) (c : Conn) (p : Proxy)
      → IsRacing (view p)
      → is_idle p.state ≡ false
      → p.all_must_complete ≡ false
      → response_is_error json c ≡ false
      → is_idle (respond json env i s c p).state ≡ true
  unfolding respond settle
  respond_success i s c p v h a e =
      grind
        (arith, judge-winner i s c p e, judge-all i s c p, state-race_complete, state-leave_race)

-- A transport error in a race that waits for a response ends it, or uses up the one retry of its
-- node, or leaves one response fewer to wait for; unless it ends the race, the retry of another node
-- is not touched.
pub fail_or_retry-progress :
    (k : Kernel) (node i other_node : ℕ) (q : Pair) (p : Proxy)
    → 0 < p.responses_pending
    → (node == other_node) ≡ false
    → let r = fail_or_retry k node i q p in
      (is_idle r.state ≡ true)
      ⊎ ((p.node_retried node ≡ false)
          × (r.node_retried node ≡ true)
          × (r.node_retried other_node ≡ p.node_retried other_node)
          × (r.responses_pending ≡ p.responses_pending))
      ⊎ ((r.node_retried node ≡ true)
          × (r.node_retried other_node ≡ p.node_retried other_node)
          × (r.responses_pending + 1 ≡ p.responses_pending))
unfolding fail_or_retry
fail_or_retry-progress k node i other_node q p h ne = grind (arith, state-race_complete)
