-- ===== src/Tests/StartTests.antt =====
-- The start of the watchdog and of the notifier, and messages from a node.
use rpcracer.Prelude.{true, false, none, some, List, [], ◌∷◌}
use rpcracer.EventLoop.{Callback}
use rpcracer.Framing.{codes}
use rpcracer.Watchdog.{Env, watchdog_init}
use rpcracer.Watchdog.Lifecycle.{IsStarted, watchdog_init_lem}
use rpcracer.Notifier.Created.{CreateEnv, SubAnswers, notifier_create}
use rpcracer.Notifier.Created.Resources.{IsAccounted, notifier_create-IsAccounted}
use rpcracer.Notifier.Announced.{announced}
use rpcracer.Notifier.Subscribe.{Message, Poll, pending, quiet, zmq_fd_event_cb}
use rpcracer.Notifier.Subscribe.History.{Alternates, last, zmq_fd_event_cb-Alternates}
use rpcracer.Tests.Data.{kernel}
use rpcracer.Tests.NotifierTests.{env, no_socket, notifier}
use rpcracer.Tests.LoopTests.{empty}
use rpcracer.Tests.HttpTests.{hash}
use rpcracer.Tests.ConfigTests.{config}

abbrev pub systemd : Env
systemd = record {
  notify_socket = some (codes "/run/systemd/notify");
  watchdog_usec = some (codes "30000000");
  socket = some 40;
  connected = true;
  kernel = kernel;
  timer = some 41;
  settime = true;
}

watchdog_init_lem_example :
    IsStarted systemd empty (watchdog_init systemd Callback.watchdog_timer_cb none empty)
watchdog_init_lem_example = watchdog_init_lem systemd Callback.watchdog_timer_cb empty

abbrev sub_made : SubAnswers
sub_made = record { socket = true; subscribed = true; connected = true; fd = some 50 }

-- The PUB socket cannot be bound.
abbrev pub unbound : CreateEnv
unbound = record {
  memory = true;
  context_made = true;
  subs = λ _. sub_made;
  kernel = kernel;
  pub_made = true;
  pub_bound = false;
  ck_connect = no_socket;
  timer = some 51;
  settime = true;
  zmq_cb = Callback.zmq_fd_event_cb;
  silence_cb = Callback.silence_check_cb;
}

notifier_create-IsAccounted_example : IsAccounted empty (notifier_create unbound config empty)
notifier_create-IsAccounted_example = notifier_create-IsAccounted unbound config empty

abbrev block : Message
block = record { topic = codes "hashblock"; more = hash ∷ (0 ∷ 0 ∷ 0 ∷ 0 ∷ []) ∷ [] }

abbrev rounds : List (List Poll)
rounds =
    (pending ((env 5000, block) ∷ (env 6000, block) ∷ []) ∷ quiet ∷ [])
    ∷ (quiet ∷ pending ((env 7000, block) ∷ []) ∷ [])
    ∷ (quiet ∷ quiet ∷ [])
    ∷ []

zmq_fd_event_cb-Alternates_example :
    Alternates (last notifier) (announced (zmq_fd_event_cb rounds notifier).1)
zmq_fd_event_cb-Alternates_example = zmq_fd_event_cb-Alternates rounds notifier
