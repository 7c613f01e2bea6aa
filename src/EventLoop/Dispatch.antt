-- ===== src/EventLoop/Dispatch.antt =====
-- event_loop_run and event_loop_stop of src/event_loop.c: batches of events.
use rpcracer.Prelude.{ℕ, ◌≡◌, Bool, true, false, none, some, List, [], ◌∷◌, if◌then◌else◌}
use rpcracer.EventLoop.{Callback, Events, Loop, dispatch}

-- A program on the event loop: its state holds the loop, and callbacks change the state.
pub record Program (S : Type 0) : Type 0 where
  pub loop : S → Loop
  pub with_loop : Loop → S → S
  pub call : Callback → ℕ → Events → S → S
  pub loop_with : (l : Loop) (s : S) → loop (with_loop l s) ≡ l

-- What epoll_wait answers: a batch, an interruption, in which a signal handler may have called
-- event_loop_stop, or an error.
pub data Wait : Type 0 where
  batch : List (ℕ × Events) → Wait
  interrupted : Bool → Wait
  wait_failed : Wait

module _ {S : Type 0} (prog : Program S) where
  unfoldable pub event_loop_stop : S → S
  event_loop_stop s = prog.with_loop (record (prog.loop s) { running = false }) s

  abbrev pub start : S → S
  start s = prog.with_loop (record (prog.loop s) { running = true }) s

  -- The body of the loop over the events of a batch.
  unfoldable pub deliver : ℕ → Events → S → S
  deliver fd ev s = elim (dispatch (prog.loop s) fd) [ none ↦ s | some cb ↦ prog.call cb fd ev s ]

  unfoldable pub deliver_all : List (ℕ × Events) → S → S
  deliver_all [] s = s
  deliver_all ((fd, ev) ∷ es) s = deliver_all es (deliver fd ev s)

  -- The loop, with the answers of epoll_wait in order, and the answers that it did not ask for.
  unfoldable pub wait_loop : List Wait → S → S × List Wait
  wait_loop [] s = (s, [])
  wait_loop (w ∷ ws) s = elim (prog.loop s).running [
    | false ↦ (s, w ∷ ws)
    | true ↦ elim w [
      | batch es ↦ wait_loop ws (deliver_all es s)
      | interrupted stop ↦ wait_loop ws (if stop then event_loop_stop s else s)
      | wait_failed ↦ (s, ws)
    ]
  ]

  unfoldable pub event_loop_run : List Wait → S → S × List Wait
  event_loop_run ws s = wait_loop ws (start s)
