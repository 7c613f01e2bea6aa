-- ===== src/Proxy/Invariant/Steps.antt =====
-- Every handler keeps the invariant of a race.
use rpcracer.Prelude.{
  Bool-cases, Option-cases, get_elem?, inl, inr, ℕ, ◌≡◌, refl, arith, Bool, true, false, Option,
  none, some, List, [], ◌∷◌,
}
use rpcracer.EventLoop.{Slot, Kernel, Events}
use rpcracer.Framing.{str_eq}
use rpcracer.Conn.{
  Conn, Io, Notice, ConnectAnswer, quiet, notify_connected, notify_sent, notify_response,
  notify_error,
}
use rpcracer.Pair.{Pair}
use rpcracer.Proxy.{Proxy, Env, race_idle, race_sticky, is_idle, race_complete, close_client}
use rpcracer.Proxy.Response.{Json}
use rpcracer.Proxy.Request.{
  method_gbt, on_accept, on_client, on_client_bytes, take_request, start_route, start_fanout,
  start_sticky, dispatch_fanout, dispatch_sticky, classify_method, begin_race,
  rpc_proxy_on_block_notify, fall_back, send_sticky, sticky_unusable,
}
use rpcracer.Proxy.Race.{
  settle, leave_race, respond, on_upstream_response, on_rpc_timeout, race_timeout, drain_timeout,
}
use rpcracer.Proxy.Failure.{on_upstream_error, node_failed, retry, fail_or_retry}
use rpcracer.Proxy.System.{
  accept, client, upstream, rotation, rpc_timeout, block_notify, Event, step, run, on_upstream,
  run_notice, rotate,
}
use rpcracer.Proxy.View.{RaceView, view, view-drain, view-close_client, view-start_timeout}
use rpcracer.Proxy.Verdict.{leave_race_rule}
use rpcracer.Proxy.Invariant.Judge.{IsRacing, IsJudged, judge-IsJudged}

pub state-race_complete : (k : Kernel) (p : Proxy) → (race_complete k p).state ≡ race_idle
unfolding race_complete
state-race_complete k p = ground arith

idle-IsRacing : (v : RaceView) → v.state ≡ race_idle → IsRacing v
idle-IsRacing v h = ground arith

module _ {V : Type 0} (json : Json V) (env : Env) where
  pub state-leave_race :
      (i : ℕ) (s : Slot) (w : ℕ) (p : Proxy) → (leave_race json env i s w p).state ≡ race_idle
  state-leave_race i s w p =
      leave_race_rule json env (λ q. q.state ≡ race_idle) i s w p (λ ps l. refl)

  settle-IsRacing :
      (i : ℕ) (s : Slot) (c : Conn) (gbt : Bool) (p : Proxy)
      → IsJudged (view p)
      → IsRacing (view (settle json env i s c gbt p))
  unfolding settle
  settle-IsRacing i s c gbt p v = grind (arith, state-race_complete, state-leave_race)

  respond-IsRacing :
      (i : ℕ) (s : Slot) (c : Conn) (p : Proxy)
      → IsRacing (view p)
      → IsRacing (view (respond json env i s c p))
  unfolding respond
  respond-IsRacing i s c p v = grind (arith, view-drain, settle-IsRacing, judge-IsJudged)

  on_upstream_response-IsRacing :
      (i : ℕ) (s : Slot) (p : Proxy)
      → IsRacing (view p)
      → IsRacing (view (on_upstream_response json env i s p))
  unfolding on_upstream_response
  on_upstream_response-IsRacing i s p v = grind (arith, respond-IsRacing)

node_failed-IsRacing :
    (k : Kernel) (node : ℕ) (p : Proxy) → IsRacing (view p) → IsRacing (view (node_failed k node p))
unfolding node_failed
node_failed-IsRacing k node p v = grind (arith, state-race_complete)

retry-IsRacing :
    (k : Kernel) (node i : ℕ) (q : Pair) (p : Proxy)
    → IsRacing (view p)
    → IsRacing (view (retry k node i q p))
unfolding retry
retry-IsRacing k node i q p v = grind (arith, state-race_complete)

fail_or_retry-IsRacing :
    (k : Kernel) (node i : ℕ) (q : Pair) (p : Proxy)
    → IsRacing (view p)
    → IsRacing (view (fail_or_retry k node i q p))
unfolding fail_or_retry
fail_or_retry-IsRacing k node i q p v =
    ground (arith, node_failed-IsRacing k node p v, retry-IsRacing k node i q p v)

on_upstream_error-IsRacing :
    (k : Kernel) (i : ℕ) (s : Slot) (p : Proxy)
    → IsRacing (view p)
    → IsRacing (view (on_upstream_error k i s p))
unfolding on_upstream_error
on_upstream_error-IsRacing k i s p v = grind (arith, view-drain, fail_or_retry-IsRacing)

pub view-drain_timeout : (k : Kernel) (p : Proxy) → view (drain_timeout k p) ≡ view p
unfolding drain_timeout
view-drain_timeout k p = ground arith

pub state-race_timeout : (env : Env) (p : Proxy) → (race_timeout env p).state ≡ race_idle
unfolding race_timeout
state-race_timeout env p = state-race_complete _ _

on_rpc_timeout-IsRacing :
    (env : Env) (p : Proxy) → IsRacing (view p) → IsRacing (view (on_rpc_timeout env p))
unfolding on_rpc_timeout
on_rpc_timeout-IsRacing env p v = elim (Bool-cases (is_idle p.state)) [
  | inl idle ↦ rw idle (rw (view-drain_timeout env.kernel p) v)
  | inr racing ↦ rw racing (idle-IsRacing _ (state-race_timeout env p))
]

pub start_fanout-IsRacing :
    (env : Env) (all : Bool) (p : Proxy)
    → (all ≡ true → str_eq p.method method_gbt ≡ false)
    → IsRacing (view (start_fanout env all p))
unfolding start_fanout dispatch_fanout
start_fanout-IsRacing env all p h = grind (arith, view-close_client, view-start_timeout)

-- What dispatch_sticky starts from.
record IsFresh (v : RaceView) : Type 0 where
  no_winner : v.winner_idx ≡ none
  no_best : v.best_gbt_node_idx ≡ none
  unmatched : v.gbt_height_matched ≡ false
  narrow : v.all_must_complete ≡ false

fall_back-IsRacing :
    (k : Kernel) (p : Proxy)
    → IsFresh (view p)
    → (fall_back k p).1 ≡ true
    → IsRacing (view (fall_back k p).0)
unfolding fall_back dispatch_fanout
fall_back-IsRacing k p f h = ground arith

sticky_unusable-IsRacing :
    (k : Kernel) (p : Proxy)
    → IsFresh (view p)
    → (sticky_unusable k p).1 ≡ true
    → IsRacing (view (sticky_unusable k p).0)
unfolding sticky_unusable dispatch_fanout
sticky_unusable-IsRacing k p f h = ground arith

send_sticky-IsRacing :
    (k : Kernel) (i : ℕ) (q : Pair) (p : Proxy)
    → IsFresh (view p)
    → (send_sticky k i q p).1 ≡ true
    → IsRacing (view (send_sticky k i q p).0)
unfolding send_sticky dispatch_fanout
send_sticky-IsRacing k i q p f h = ground arith

dispatch_sticky-IsRacing :
    (k : Kernel) (p : Proxy)
    → IsFresh (view p)
    → (dispatch_sticky k p).1 ≡ true
    → IsRacing (view (dispatch_sticky k p).0)
unfolding dispatch_sticky dispatch_fanout
dispatch_sticky-IsRacing k p f h = ground arith

start_sticky-IsRacing : (env : Env) (p : Proxy) → IsRacing (view (start_sticky env p))
unfolding start_sticky
start_sticky-IsRacing env p =
    let fresh = begin_race race_sticky false p in
    ground (
      arith,
      dispatch_sticky-IsRacing env.kernel fresh,
      view-start_timeout env (dispatch_sticky env.kernel fresh).0,
    )

pub start_route-IsRacing :
    (env : Env) (p : Proxy) → IsRacing (view (start_route env (classify_method p)))
unfolding start_route classify_method
start_route-IsRacing env p = grind (arith, start_fanout-IsRacing, start_sticky-IsRacing)

pub view-on_accept : (env : Env) (fd : Option ℕ) (p : Proxy) → view (on_accept env fd p) ≡ view p
unfolding on_accept close_client
view-on_accept env none p = refl
view-on_accept env (some fd) p = ground arith

pub view-rotate :
    (k : Kernel) (i : ℕ) (a : ConnectAnswer) (p : Proxy) → view (rotate k i a p) ≡ view p
unfolding rotate
view-rotate k i a p = ground arith

pub view-block_notify : (now : ℕ) (p : Proxy) → view (rpc_proxy_on_block_notify now p) ≡ view p
unfolding rpc_proxy_on_block_notify
view-block_notify now p = ground arith

module _ {V : Type 0} (json : Json V) where
  take_request-IsRacing :
      (env : Env) (p : Proxy) → IsRacing (view p) → IsRacing (view (take_request json env p))
  unfolding take_request
  take_request-IsRacing env p v = grind (arith, start_route-IsRacing)

  on_client_bytes-IsRacing :
      (env : Env) (bytes : List ℕ) (p : Proxy)
      → IsRacing (view p)
      → IsRacing (view (on_client_bytes json env bytes p))
  unfolding on_client_bytes
  on_client_bytes-IsRacing env bytes p v = grind (arith, take_request-IsRacing)

  on_client-IsRacing :
      (env : Env) (ev : Events) (io : Io) (p : Proxy)
      → IsRacing (view p)
      → IsRacing (view (on_client json env ev io p))
  unfolding on_client close_client
  on_client-IsRacing env ev io p v = grind (arith, on_client_bytes-IsRacing)

  run_notice-IsRacing :
      (env : Env) (i : ℕ) (s : Slot) (n : Notice) (q : Pair) (p : Proxy)
      → IsRacing (view p)
      → IsRacing (view (run_notice json env i s n q p))
  unfolding run_notice
  run_notice-IsRacing env i s quiet q p v = v
  run_notice-IsRacing env i s (notify_connected f) q p v = v
  run_notice-IsRacing env i s notify_sent q p v = v
  run_notice-IsRacing env i s notify_response q p v = on_upstream_response-IsRacing json env i s p v
  run_notice-IsRacing env i s notify_error q p v = on_upstream_error-IsRacing env.kernel i s p v

  on_upstream-IsRacing :
      (env : Env) (i : ℕ) (s : Slot) (ev : Events) (io : Io) (p : Proxy)
      → IsRacing (view p)
      → IsRacing (view (on_upstream json env i s ev io p))
  unfolding on_upstream
  on_upstream-IsRacing env i s ev io p v = elim (Option-cases (get_elem? p.pairs i)) [
    | inl e ↦ rw (e, on_upstream) v
    | inr (q, e) ↦ rw (e, on_upstream) (run_notice-IsRacing env i s _ _ _ v)
  ]

  pub step-IsRacing :
      (env : Env) (e : Event) (p : Proxy) → IsRacing (view p) → IsRacing (view (step json env e p))
  unfolding step
  step-IsRacing env (accept fd) p v = rw (view-on_accept env fd p) v
  step-IsRacing env (client ev io) p v = on_client-IsRacing env ev io p v
  step-IsRacing env (upstream i s ev io) p v = on_upstream-IsRacing env i s ev io p v
  step-IsRacing env (rotation i a) p v = rw (view-rotate env.kernel i a p) v
  step-IsRacing env rpc_timeout p v = on_rpc_timeout-IsRacing env p v
  step-IsRacing env block_notify p v = rw (view-block_notify env.kernel.now p) v

  -- Over any history of events, a race that runs waits for at least one response, has no winner
  -- unless every node must answer, and holds neither a best height nor a height match; a race in
  -- which every node must answer is not for getblocktemplate.
  pub run-IsRacing :
      (es : List (Env × Event)) (p : Proxy) → IsRacing (view p) → IsRacing (view (run json es p))
  unfolding run
  run-IsRacing [] p v = v
  run-IsRacing ((env, e) ∷ es) p v = run-IsRacing es (step json env e p) (step-IsRacing env e p v)
