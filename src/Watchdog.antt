-- ===== src/Watchdog.antt =====
-- src/watchdog.c: the systemd notification socket and its timer. g_notify_fd is `none` for -1.
pub mod Lifecycle
use rpcracer.Prelude.{
  ℕ, ◌/◌, Bool, true, false, not, ◌||◌, Option, none, some, List, [], ◌∷◌, length, leb, ◌==◌,
  if◌then◌else◌, is_some,
}
use rpcracer.EventLoop.{Loop, Kernel, Callback}
use rpcracer.EventLoop.Timers.{add_timer}
use rpcracer.Framing.{codes, strtoull}

-- What the process does to the notification socket, and the timer that it opens.
pub data Action : Type 0 where
  sent : List ℕ → Action
  opened closed : ℕ → Action

-- The environment variables, and the answers of socket(), connect() and the timer calls.
pub record Env : Type 0 where
  pub notify_socket : Option (List ℕ)
  pub watchdog_usec : Option (List ℕ)
  pub socket : Option ℕ
  pub connected : Bool
  pub kernel : Kernel
  pub timer : Option ℕ
  pub settime : Bool

pub record Init : Type 0 where
  pub notify_fd : Option ℕ
  pub loop : Loop
  pub interval_ms : Option ℕ  -- of the timer, if one is made
  pub timer : Option ℕ  -- its descriptor
  pub actions : List Action
  pub ok : Bool

-- A variable that is set to the empty text is as if it were not set.
unfoldable pub variable : Option (List ℕ) → Option (List ℕ)
variable none = none
variable (some []) = none
variable (some (c ∷ cs)) = some (c ∷ cs)

unfoldable pub interval_of : ℕ → ℕ
interval_of usec = let ms = usec / 2000 in if ms == 0 then 1 else ms

abbrev pub all_opened : Option ℕ → List Action
all_opened none = []
all_opened (some fd) = opened fd ∷ []

-- watchdog_init, once the socket is connected.
unfoldable pub start_timer : Env → Callback → ℕ → Loop → Init
unfolding variable interval_of strtoull add_timer
start_timer env cb fd l = elim (variable env.watchdog_usec) [
  | none ↦ connected_only l true
  | some text ↦
      let usec = strtoull text in
      let (l', made) = add_timer env.kernel env.timer env.settime (interval_of usec) cb l in
      if usec == 0
      then connected_only l true
      else (if is_some made
          then record (connected_only l' true) {
            interval_ms = some (interval_of usec);
            timer = made;
            actions = opened fd ∷ sent (codes "READY=1\n") ∷ all_opened made;
          }
          else connected_only l' false)
]
  where
    connected_only : Loop → Bool → Init
    connected_only loop ok = record {
      notify_fd = some fd;
      loop = loop;
      interval_ms = none;
      timer = none;
      actions = opened fd ∷ sent (codes "READY=1\n") ∷ [];
      ok = ok;
    }

-- A result without a connection.
abbrev pub unconnected : Loop → Option ℕ → List Action → Bool → Init
unconnected l fd actions ok = record {
  notify_fd = fd;
  loop = l;
  interval_ms = none;
  timer = none;
  actions = actions;
  ok = ok;
}

-- watchdog_init, with the descriptor that g_notify_fd holds before it. Both kinds of address have
-- the same limit on the length of the path.
unfoldable pub watchdog_init : Env → Callback → Option ℕ → Loop → Init
unfolding variable start_timer
watchdog_init env cb fd0 l = elim (variable env.notify_socket) [
  | none ↦ unconnected l fd0 [] true
  | some path ↦ elim env.socket [
    | none ↦ unconnected l none [] false
    | some fd ↦
        if leb 108 (length path) || not env.connected
        then unconnected l none (opened fd ∷ closed fd ∷ []) false
        else start_timer env cb fd l
  ]
]

unfoldable pub watchdog_timer_cb : Option ℕ → List Action
watchdog_timer_cb none = []
watchdog_timer_cb (some fd) = sent (codes "WATCHDOG=1\n") ∷ []

unfoldable pub watchdog_destroy : Option ℕ → List Action
watchdog_destroy none = []
watchdog_destroy (some fd) = closed fd ∷ []
