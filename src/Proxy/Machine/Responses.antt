-- ===== src/Proxy/Machine/Responses.antt =====
-- The response of a node (src/rpc_proxy.c, on_upstream_response) as a move of the race machine.
use rpcracer.Prelude.{
  ℕ, ◌+◌, ◌-◌, ◌≤◌, ◌≡◌, ◌⊎◌, arith, Bool, true, false, none, is_some, length, if◌then◌else◌,
  if_rule, ◌==◌, some, ◌&&◌, option_rule,
}
use rpcracer.EventLoop.{Slot}
use rpcracer.Conn.{Conn, receiving}
use rpcracer.Proxy.{Proxy, Env, is_idle, race_complete, drain}
use rpcracer.Proxy.Response.{Json}
use rpcracer.Proxy.Race.{
  judge_response, settle, leave_race, respond, no_winner, is_receiving, is_gbt_race, elapsed_us,
}
use rpcracer.Proxy.Verdict.{judge_rule}
use rpcracer.Proxy.View.{view}
use rpcracer.Proxy.Invariant.{IsRacing, state-leave_race}
use rpcracer.Proxy.Sent.{sent-leave_race, sent-no_winner}
use rpcracer.Proxy.Machine.{Moves}
use rpcracer.Proxy.Machine.Handlers.{race_complete-Moves, drain-Moves}

-- What the verdict on a response does to a race: one response less is awaited, and the client is
-- sent a response only when the race is won by it.
record IsVerdict (p q : Proxy) : Type 0 where
  same_state : q.state ≡ p.state
  same_race : q.all_must_complete ≡ p.all_must_complete
  one_less : q.responses_pending ≡ p.responses_pending - 1
  no_fewer : length p.client_out ≤ length q.client_out
  one_more : length q.client_out ≤ length p.client_out + 1
  outcome :
      ((q.winner_idx ≡ p.winner_idx) × (length q.client_out ≡ length p.client_out))
      ⊎ ((is_some p.winner_idx ≡ false) × (is_some q.winner_idx ≡ true))

module _ {V : Type 0} (json : Json V) (env : Env) where
  judge-IsVerdict :
      (i : ℕ) (s : Slot) (c : Conn) (p : Proxy)
      → IsRacing (view p)
      → is_idle p.state ≡ false
      → IsVerdict p (judge_response json env i s c p)
  judge-IsVerdict i s c p v h =
      judge_rule json env (IsVerdict p) i s c p (λ _ fails. ground arith)
        (λ _ _ _ _ _ _ _ _ sends raised wins. ground (arith, v.undecided h, v.broadcast h))
        (λ _ _ _ late keeps. ground arith)

  -- The race is over: the fallbacks answer a race without a winner.
  complete-Moves :
      (time : ℕ) (gbt : Bool) (p q : Proxy)
      → IsRacing (view p)
      → is_idle p.state ≡ false
      → IsVerdict p q
      → Moves p (
          race_complete env.kernel
            (if is_some q.winner_idx then q else no_winner json env time gbt q))
  complete-Moves time gbt p q v h d =
      if_rule (λ x. Moves p (race_complete env.kernel x)) (is_some q.winner_idx) q
        (no_winner json env time gbt q)
        (λ won. race_complete-Moves env.kernel p q v h d.no_fewer d.one_more (ground arith))
        (λ open_race.
          let last = no_winner json env time gbt q in
          let bounds = sent-no_winner json env time gbt q (ground arith) in
          race_complete-Moves env.kernel p last v h (ground arith) (ground arith) (ground arith))

  leave-Moves :
      (i : ℕ) (s : Slot) (w : ℕ) (p q : Proxy)
      → IsRacing (view p)
      → is_idle p.state ≡ false
      → p.all_must_complete ≡ false
      → IsVerdict p q
      → Moves p (leave_race json env i s w q)
  leave-Moves i s w p q v h narrow d =
      ground
        (arith, v.undecided h, state-leave_race json env i s w q, sent-leave_race json env i s w q)

  settle-Moves :
      (i : ℕ) (s : Slot) (c : Conn) (gbt : Bool) (p q : Proxy)
      → IsRacing (view p)
      → is_idle p.state ≡ false
      → IsVerdict p q
      → Moves p (settle json env i s c gbt q)
  unfolding settle
  settle-Moves i s c gbt p q v h d =
      let time = elapsed_us env.kernel.now c in
      let over =
        race_complete env.kernel
          (if is_some q.winner_idx then q else no_winner json env time gbt q) in
      let early : Proxy = elim q.winner_idx [ none ↦ q | some w ↦ leave_race json env i s w q ] in
      if_rule (Moves p) (q.responses_pending == 0) over (if q.all_must_complete then q else early)
        (λ _. complete-Moves time gbt p q v h d)
        (λ more.
          if_rule (Moves p) q.all_must_complete q early (λ all. ground (arith, v.waiting h))
            (λ narrow.
              option_rule (Moves p) q.winner_idx q (λ w. leave_race json env i s w q)
                (λ undecided. ground (arith, v.waiting h, v.undecided h))
                (λ w won. leave-Moves i s w p q v h (ground arith) d)))

  pub respond-Moves :
      (i : ℕ) (s : Slot) (c : Conn) (p : Proxy)
      → IsRacing (view p)
      → c.state ≡ receiving
      → Moves p (respond json env i s c p)
  unfolding respond
  respond-Moves i s c p v r =
      let q = judge_response json env i s c p in
      if_rule (Moves p) (is_idle p.state && is_receiving c.state) (drain env.kernel i s p)
        (settle json env i s c (is_gbt_race p) q) (λ _. drain-Moves env.kernel i s p v)
        (λ h.
          let races : is_idle p.state ≡ false = ground arith in
          settle-Moves i s c (is_gbt_race p) p q v races (judge-IsVerdict i s c p v races))
