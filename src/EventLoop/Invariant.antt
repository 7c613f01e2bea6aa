-- ===== src/EventLoop/Invariant.antt =====
-- A rule for runs of event_loop_run (src/event_loop.c): properties of the state that callbacks and
-- changes of the running flag keep.
use rpcracer.Prelude.{
  ℕ, Bool, true, false, List, [], ◌∷◌, Bool-cases, inl, inr, option_rule, if_rule,
}
use rpcracer.EventLoop.{Callback, Events, dispatch}
use rpcracer.EventLoop.Dispatch.{
  Program, Wait, batch, interrupted, wait_failed, start, event_loop_stop, deliver, deliver_all,
  wait_loop, event_loop_run,
}

module _ {S : Type 0} (prog : Program S) (P : S → Type 0)
    (keep : (cb : Callback) (fd : ℕ) (ev : Events) (s : S) → P s → P (prog.call cb fd ev s))
    (change : (b : Bool) (s : S)
      → P s
      → P (prog.with_loop (record (prog.loop s) { running = b }) s)) where
  deliver_inv : (fd : ℕ) (ev : Events) (s : S) → P s → P (deliver prog fd ev s)
  unfolding deliver
  deliver_inv fd ev s p =
      option_rule P (dispatch (prog.loop s) fd) s (λ cb. prog.call cb fd ev s) (λ _. p)
        (λ cb _. keep cb fd ev s p)

  deliver_all_inv : (es : List (ℕ × Events)) (s : S) → P s → P (deliver_all prog es s)
  unfolding deliver_all
  deliver_all_inv [] s p = p
  deliver_all_inv ((fd, ev) ∷ es) s p =
      deliver_all_inv es (deliver prog fd ev s) (deliver_inv fd ev s p)

  stop_inv : (s : S) → P s → P (event_loop_stop prog s)
  unfolding event_loop_stop
  stop_inv s p = change false s p

  wait_loop_inv : (ws : List Wait) (s : S) → P s → P (wait_loop prog ws s).0
  unfolding wait_loop
  wait_loop_inv [] s p = p
  wait_loop_inv (batch es ∷ ws) s p = elim (Bool-cases (prog.loop s).running) [
    | inl e ↦ rw (e, wait_loop) (wait_loop_inv ws (deliver_all prog es s) (deliver_all_inv es s p))
    | inr e ↦ rw (e, wait_loop) p
  ]
  wait_loop_inv (interrupted stop ∷ ws) s p = elim (Bool-cases (prog.loop s).running) [
    | inl e ↦
        rw (e, wait_loop)
          (wait_loop_inv ws _
            (if_rule P stop (event_loop_stop prog s) s (λ _. stop_inv s p) (λ _. p)))
    | inr e ↦ rw (e, wait_loop) p
  ]
  wait_loop_inv (wait_failed ∷ ws) s p = elim (Bool-cases (prog.loop s).running) [
    | inl e ↦ rw (e, wait_loop) p
    | inr e ↦ rw (e, wait_loop) p
  ]

  pub event_loop_run_inv : (ws : List Wait) (s : S) → P s → P (event_loop_run prog ws s).0
  unfolding event_loop_run
  event_loop_run_inv ws s p = wait_loop_inv ws (start prog s) (change true s p)
