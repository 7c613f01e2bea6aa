-- ===== src/Watchdog/Lifecycle.antt =====
-- The socket and the timer of src/watchdog.c from start to end.
use rpcracer.Prelude.{
  ℕ, ◌*◌, ◌/◌, ◌≤◌, ◌<◌, ◌≡◌, ◌⊎◌, inl, inr, refl, ap, sym, ◌∙◌, subst, Option-cases, arith, not,
  ◌||◌, Option, none, some, List, [], ◌∷◌, ◌++◌, length, leb, ◌==◌, is_some, if_rule, option_rule,
}
use rpcracer.EventLoop.{Loop, Callback}
use rpcracer.EventLoop.Timers.{add_timer, event_loop_destroy, of_timer, destroy-add_timer}
use rpcracer.Framing.{strtoull}
use rpcracer.Watchdog.{
  Action, sent, opened, closed, Env, Init, variable, interval_of, start_timer, watchdog_init,
  watchdog_destroy,
}

-- The descriptors that are closed, in order.
abbrev pub closes : List Action → List ℕ
closes [] = []
closes (closed fd ∷ rest) = fd ∷ closes rest
closes (opened fd ∷ rest) = closes rest
closes (sent text ∷ rest) = closes rest

-- The descriptors that are opened, in order.
abbrev pub opens : List Action → List ℕ
opens [] = []
opens (opened fd ∷ rest) = fd ∷ opens rest
opens (closed fd ∷ rest) = opens rest
opens (sent text ∷ rest) = opens rest

interval_lem :
    (usec : ℕ) → (0 < interval_of usec) × ((usec < 2000) ⊎ (interval_of usec * 2000 ≤ usec))
unfolding interval_of
interval_lem usec =
    if_rule (λ ms. (0 < ms) × ((usec < 2000) ⊎ (ms * 2000 ≤ usec))) (usec / 2000 == 0) 1
      (usec / 2000) (λ h. (omega arith, inl (ground arith)))
      (λ h. (ground arith, inr (omega arith)))

-- The interval of the timer, if there is one, is not 0, and fits at least twice in the time that
-- the variable stands for, if that is 2 ms or more.
abbrev pub IsTimely : Option (List ℕ) → Option ℕ → Type 0
IsTimely usec none = Unit {0}
IsTimely none (some ms) = ⊥
IsTimely (some usec) (some ms) = (0 < ms) × ((strtoull usec < 2000) ⊎ (ms * 2000 ≤ strtoull usec))

-- What holds of the result of the start: what was opened is closed now or by the end, but for the
-- timer, which is what event_loop_destroy has to close besides the timers that were there before.
abbrev pub IsStarted : Env → Loop → Init → Type 0
IsStarted env l r =
    (opens r.actions ≡ closes (r.actions ++ watchdog_destroy r.notify_fd) ++ of_timer r.timer)
    × (event_loop_destroy r.loop.fd_map ≡ of_timer r.timer ++ event_loop_destroy l.fd_map)
    × IsTimely env.watchdog_usec r.interval_ms

variable_lem : (v : Option (List ℕ)) (text : List ℕ) → variable v ≡ some text → v ≡ some text
unfolding variable
variable_lem none text h = ground arith
variable_lem (some []) text h = ground arith
variable_lem (some (c ∷ cs)) text h = h

start_timer_lem :
    (env : Env) (cb : Callback) (fd : ℕ) (l : Loop) → IsStarted env l (start_timer env cb fd l)
unfolding start_timer watchdog_destroy
start_timer_lem env cb fd l =
    option_rule (IsStarted env l) (variable env.watchdog_usec) _ _ (λ e. (refl, refl, tt))
      (λ text e.
        let r = add_timer env.kernel env.timer env.settime (interval_of (strtoull text)) cb l in
        let kept =
          destroy-add_timer env.kernel env.timer env.settime (interval_of (strtoull text)) cb l in
        if_rule (IsStarted env l) (strtoull text == 0) _ _ (λ z. (refl, refl, tt))
          (λ z. elim (Option-cases r.1) [
            | inl none_made ↦
                rw (none_made, is_some)
                  (refl, kept ∙ ap (λ o. of_timer o ++ event_loop_destroy l.fd_map) none_made, tt)
            | inr (tfd, made) ↦
                rw (made, is_some)
                  (
                    refl,
                    kept ∙ ap (λ o. of_timer o ++ event_loop_destroy l.fd_map) made,
                    subst (λ v. IsTimely v (some (interval_of (strtoull text))))
                        (sym (variable_lem env.watchdog_usec text e))
                        (interval_lem (strtoull text)),
                  )
          ]))

-- However the start goes, with or without the variables, the descriptors that it opens are those that
-- the start and the end close and that of the timer, if there is one, which event_loop_destroy has to
-- close besides the timers that were there before; and the timer has an interval of at least 1 ms, no
-- more than half of the watchdog's time unless that is below 2 ms.
pub watchdog_init_lem :
    (env : Env) (cb : Callback) (l : Loop) → IsStarted env l (watchdog_init env cb none l)
unfolding watchdog_init watchdog_destroy
watchdog_init_lem env cb l =
    option_rule (IsStarted env l) (variable env.notify_socket) _ _ (λ _. (refl, refl, tt))
      (λ path _.
        option_rule (IsStarted env l) env.socket _ _ (λ _. (refl, refl, tt))
          (λ fd _.
            if_rule (IsStarted env l) (leb 108 (length path) || not env.connected) _ _
              (λ _. (refl, refl, tt)) (λ _. start_timer_lem env cb fd l)))
