-- ===== src/Main/World/Counted.antt =====
-- The races of a run of the whole program (src/main.c, src/event_loop.c): a counter beside it.
use rpcracer.Prelude.{
  ℕ, ◌+◌, ◌≡◌, refl, ap, ◌∙◌, true, false, Bool-cases, Option-cases, inl, inr, List, [], ◌∷◌,
}
use rpcracer.EventLoop.{Events, dispatch}
use rpcracer.EventLoop.Dispatch.{
  Program, Wait, batch, interrupted, wait_failed, start, deliver, deliver_all, wait_loop,
  event_loop_stop, event_loop_run,
}
use rpcracer.Main.World.{World, call, program}
use rpcracer.Proxy.Machine.Races.{started}
use rpcracer.Proxy.Response.{Json}

module _ {V : Type 0} (json : Json V) where
  -- The program with a counter, which nothing in it reads: how many callbacks have taken the proxy
  -- from idle into a race.
  abbrev pub counting : Program (World × ℕ)
  counting = record {
    loop = λ s. s.0.proxy.loop;
    with_loop = λ l s. ((program json).with_loop l s.0, s.1);
    call = λ cb fd ev s. let w = call json cb fd ev s.0 in (w, s.1 + started s.0.proxy w.proxy);
    loop_with = λ l s. refl;
  }

  deliver-counting :
      (fd : ℕ) (ev : Events) (w : World) (k : ℕ)
      → (deliver counting fd ev (w, k)).0 ≡ deliver (program json) fd ev w
  unfolding deliver
  deliver-counting fd ev w k = elim (Option-cases (dispatch w.proxy.loop fd)) [
    | inl e ↦ rw (e, deliver) refl
    | inr (cb, e) ↦ rw (e, deliver) refl
  ]

  deliver_all-counting :
      (es : List (ℕ × Events)) (w : World) (k : ℕ)
      → (deliver_all counting es (w, k)).0 ≡ deliver_all (program json) es w
  unfolding deliver_all
  deliver_all-counting [] w k = refl
  deliver_all-counting ((fd, ev) ∷ es) w k =
      let s = deliver counting fd ev (w, k) in
      deliver_all-counting es s.0 s.1
      ∙ ap (deliver_all (program json) es) (deliver-counting fd ev w k)

  wait_loop-counting :
      (ws : List Wait) (w : World) (k : ℕ)
      → (wait_loop counting ws (w, k)).0.0 ≡ (wait_loop (program json) ws w).0
  unfolding wait_loop event_loop_stop
  wait_loop-counting [] w k = refl
  wait_loop-counting (batch es ∷ ws) w k = elim (Bool-cases w.proxy.loop.running) [
    | inl e ↦
        let s = deliver_all counting es (w, k) in
        rw (e, wait_loop)
          (wait_loop-counting ws s.0 s.1
            ∙ ap (λ v. (wait_loop (program json) ws v).0) (deliver_all-counting es w k))
    | inr e ↦ rw (e, wait_loop) refl
  ]
  wait_loop-counting (interrupted true ∷ ws) w k = elim (Bool-cases w.proxy.loop.running) [
    | inl e ↦ rw (e, wait_loop) (wait_loop-counting ws (event_loop_stop (program json) w) k)
    | inr e ↦ rw (e, wait_loop) refl
  ]
  wait_loop-counting (interrupted false ∷ ws) w k = elim (Bool-cases w.proxy.loop.running) [
    | inl e ↦ rw (e, wait_loop) (wait_loop-counting ws w k)
    | inr e ↦ rw (e, wait_loop) refl
  ]
  wait_loop-counting (wait_failed ∷ ws) w k = elim (Bool-cases w.proxy.loop.running) [
    | inl e ↦ rw (e, wait_loop) refl
    | inr e ↦ rw (e, wait_loop) refl
  ]

  -- The counter changes nothing.
  pub event_loop_run-counting :
      (ws : List Wait) (w : World) (k : ℕ)
      → (event_loop_run counting ws (w, k)).0.0 ≡ (event_loop_run (program json) ws w).0
  unfolding event_loop_run
  event_loop_run-counting ws w k = wait_loop-counting ws (start (program json) w) k

  -- How often the callbacks of a run take the proxy from idle into a race.
  abbrev pub races_run : List Wait → World → ℕ
  races_run ws w = (event_loop_run counting ws (w, 0)).0.1
