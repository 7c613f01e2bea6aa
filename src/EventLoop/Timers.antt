-- ===== src/EventLoop/Timers.antt =====
-- Recurring timers, stall detection, creation and destruction of src/event_loop.c.
use rpcracer.Prelude.{
  ℕ, ◌≡◌, ◌<◌, ◌==◌, ◌/◌, refl, arith, Bool, true, false, not, ◌&&◌, ◌||◌, Option, none, some, List,
  [], ◌∷◌, ◌++◌, if◌then◌else◌, ltb, sub64, is_some,
}
use rpcracer.EventLoop.{Callback, Events, FdEntry, Loop, Kernel, epoll_in, find_entry, add_fd}

-- event_loop_create, where epoll_create1 succeeds.
abbrev pub event_loop_create : Loop
event_loop_create = record { running = false; fd_map = [] }

-- event_loop_destroy: the descriptors that it closes are the timers'.
unfoldable pub event_loop_destroy : List FdEntry → List ℕ
event_loop_destroy [] = []
event_loop_destroy (e ∷ es) =
    let rest = event_loop_destroy es in if e.is_timer then e.fd ∷ rest else rest

-- event_loop_add_timer: what timerfd_create gives, and whether timerfd_settime succeeds. The
-- callback of a timer's entry is timer_event_cb around the given one.
unfoldable pub add_timer : Kernel → Option ℕ → Bool → ℕ → Callback → Loop → Loop × Option ℕ
add_timer k none settime ms cb l = (l, none)
add_timer k (some tfd) settime ms cb l =
    if ms == 0 || (not settime || (not k.alloc || not (k.ctl tfd)))
    then (l, none)
    else (record l { fd_map = entry ∷ l.fd_map }, some tfd)
  where
    entry : FdEntry
    entry = record { fd = tfd; cb = cb; is_timer = true; events = epoll_in }

-- A timer that is made is a descriptor more for event_loop_destroy to close.
abbrev pub of_timer : Option ℕ → List ℕ
of_timer none = []
of_timer (some tfd) = tfd ∷ []

pub destroy-add_timer :
    (k : Kernel) (tfd : Option ℕ) (settime : Bool) (ms : ℕ) (cb : Callback) (l : Loop)
    → let (l', made) = add_timer k tfd settime ms cb l in
      event_loop_destroy l'.fd_map ≡ of_timer made ++ event_loop_destroy l.fd_map
unfolding add_timer event_loop_destroy
destroy-add_timer k none settime ms cb l = refl
destroy-add_timer k (some tfd) settime ms cb l = ground arith

-- Another descriptor is none.
pub destroy-add_fd :
    (k : Kernel) (l : Loop) (fd : Option ℕ) (ev : Events) (cb : Callback)
    → event_loop_destroy (add_fd k l fd ev cb).0.fd_map ≡ event_loop_destroy l.fd_map
unfolding add_fd event_loop_destroy
destroy-add_fd k l none ev cb = refl
destroy-add_fd k l (some fd) ev cb = ground arith

-- timer_event_cb: the callback that it runs, if the descriptor is a timer's still.
unfoldable pub timer_event_cb : ℕ → Loop → Option Callback
timer_event_cb fd l = elim (find_entry fd l.fd_map) [
  | none ↦ none
  | some e ↦ if e.is_timer then some e.cb else none
]

-- stall_state_t; `timerfd` is -1 as `none`.
pub record Stall : Type 0 where
  pub timerfd : Option ℕ
  pub threshold_ms : ℕ
  pub last_fire_ns : ℕ

-- event_loop_enable_stall_detection.
unfoldable pub enable_stall_detection :
    Kernel → Option ℕ → Bool → ℕ → Callback → Loop × Stall → (Loop × Stall) × Bool
unfolding add_timer
enable_stall_detection k tfd settime threshold cb (l, st) =
    let half = threshold / 2 in
    let (l', made) = add_timer k tfd settime (if half == 0 then 1 else half) cb l in
    if threshold == 0
    then ((l, st), false)
    else (if is_some made
        then ((l', record { timerfd = made; threshold_ms = threshold; last_fire_ns = k.now }), true)
        else ((l', st), false))

-- stall_timer_cb at this time: `none` where it exits.
unfoldable pub stall_timer_cb : ℕ → Stall → Option Stall
stall_timer_cb now st =
    if not (st.last_fire_ns == 0) && ltb st.threshold_ms (sub64 now st.last_fire_ns / 1000000)
    then none
    else some (record st { last_fire_ns = now })

-- The timer fires at these times, until it exits.
pub fires : List ℕ → Stall → Option Stall
fires [] st = some st
fires (t ∷ ts) st = elim (stall_timer_cb t st) [ none ↦ none | some st' ↦ fires ts st' ]

-- Two successive times of this list are further apart than so many milliseconds.
abbrev pub has_gap : ℕ → ℕ → List ℕ → Bool
has_gap ms last [] = false
has_gap ms last (t ∷ ts) = ltb ms (sub64 t last / 1000000) || has_gap ms t ts

abbrev pub ArePositive : List ℕ → Type 0
ArePositive [] = Unit {0}
ArePositive (t ∷ ts) = (0 < t) × ArePositive ts

-- Once stall detection is on, at a time that is not 0, the process exits exactly if two successive
-- fires of its timer, the start included, are more than the threshold apart, however many fires
-- there are, at times that are not 0.
pub fires-has_gap :
    (ts : List ℕ) (st : Stall)
    → 0 < st.last_fire_ns
    → ArePositive ts
    → is_some (fires ts st) ≡ not (has_gap st.threshold_ms st.last_fire_ns ts)
unfolding fires stall_timer_cb
fires-has_gap [] st h pos_times = refl
fires-has_gap (t ∷ ts) st h pos_times =
    ground (arith, fires-has_gap ts (record st { last_fire_ns = t }) pos_times.0 pos_times.1)
