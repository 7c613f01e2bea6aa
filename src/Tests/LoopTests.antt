-- ===== src/Tests/LoopTests.antt =====
-- An event loop with one descriptor, stall detection, and the order of main().
use rpcracer.Prelude.{◌≡◌, refl, arith, true, false, none, some, List, [], ◌∷◌, is_some}
use rpcracer.EventLoop.{http_accept_cb, zmq_fd_event_cb, Loop, epoll_in, find_entry, dispatch}
use rpcracer.EventLoop.Registry.{Op, add, remove, run_ops, run_ops-refines, Holds, abstract_run}
use rpcracer.EventLoop.Timers.{Stall, fires, fires-has_gap}
use rpcracer.Tests.Data.{kernel}

abbrev pub empty : Loop
empty = record { running = true; fd_map = [] }

abbrev ops : List Op
ops =
    add kernel (some 5) epoll_in http_accept_cb
    ∷ add kernel (some 5) epoll_in zmq_fd_event_cb
    ∷ remove (some 5)
    ∷ remove (some 5)
    ∷ []

run_ops-refines_example :
    ((run_ops ops empty).1 ≡ true ∷ false ∷ true ∷ false ∷ [])
    × Holds (run_ops ops empty).0 (abstract_run ops (λ _. none)).0
unfolding dispatch find_entry abstract_run
run_ops-refines_example = run_ops-refines ops empty (λ _. none) tt (λ x. refl)

abbrev stall : Stall
stall = record { timerfd = some 9; threshold_ms = 60000; last_fire_ns = 1000000000 }

fires-has_gap_example : is_some (fires (31000000000 ∷ 101000000000 ∷ []) stall) ≡ false
fires-has_gap_example =
    fires-has_gap (31000000000 ∷ 101000000000 ∷ []) stall (omega arith)
      (omega arith, (omega arith, tt))
