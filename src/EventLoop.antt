-- ===== src/EventLoop.antt =====
-- src/event_loop.c and event_loop.h: the map from descriptors to callbacks, and dispatch.
--
-- The uthash map is a list of entries. The kernel's interest set is the `events` field of an
-- entry: the entry is made and dropped together with EPOLL_CTL_ADD and EPOLL_CTL_DEL. A callback
-- pointer with its data pointer is a constructor of `Callback`. A descriptor that C holds as -1 is
-- `none`.
pub mod Registry
pub mod Dispatch
pub mod Invariant
pub mod Timers
use rpcracer.Prelude.{
  ℕ, Bool, true, false, not, ◌||◌, Option, none, some, List, [], ◌∷◌, ◌==◌, if◌then◌else◌, is_some,
}

-- Which of the two connections of a pair: slots[0] or slots[1].
pub data Slot : Type 0 where
  slot0 slot1 : Slot

-- The callbacks that the program registers, with the object that `data` points to.
pub data Callback : Type 0 where
  conn_epoll_cb : ℕ → Slot → Callback
  rotation_timer_cb : ℕ → Callback
  listener_cb : Callback
  client_cb : Callback
  rpc_timeout_cb : Callback
  http_accept_cb : Callback
  http_client_cb : ℕ → Callback
  zmq_fd_event_cb : Callback
  silence_check_cb : Callback
  stall_timer_cb : Callback
  watchdog_timer_cb : Callback

-- An event mask.
pub record Events : Type 0 where
  pub readable : Bool  -- EPOLLIN
  pub writable : Bool  -- EPOLLOUT
  pub error : Bool  -- EPOLLERR
  pub hangup : Bool  -- EPOLLHUP

abbrev pub epoll_in : Events
epoll_in = record { readable = true; writable = false; error = false; hangup = false }

abbrev pub epoll_out : Events
epoll_out = record { readable = false; writable = true; error = false; hangup = false }

abbrev pub epoll_in_out : Events
epoll_in_out = record { readable = true; writable = true; error = false; hangup = false }

-- struct fd_entry.
pub record FdEntry : Type 0 where
  pub fd : ℕ
  pub cb : Callback
  pub is_timer : Bool
  pub events : Events

-- struct event_loop.
pub record Loop : Type 0 where
  pub running : Bool
  pub fd_map : List FdEntry

-- What the operating system answers during one handler.
pub record Kernel : Type 0 where
  pub alloc : Bool  -- calloc succeeds
  pub ctl : ℕ → Bool  -- epoll_ctl on a descriptor succeeds
  pub now : ℕ  -- clock_monotonic_ns()

unfoldable pub find_entry : ℕ → List FdEntry → Option FdEntry
find_entry fd [] = none
find_entry fd (e ∷ es) = if e.fd == fd then some e else find_entry fd es

-- HASH_DEL: keys are unique, so the entry with this key goes.
unfoldable pub hash_del : ℕ → List FdEntry → List FdEntry
hash_del fd [] = []
hash_del fd (e ∷ es) = if e.fd == fd then es else e ∷ hash_del fd es

unfoldable pub set_events : ℕ → Events → List FdEntry → List FdEntry
set_events fd ev [] = []
set_events fd ev (e ∷ es) =
    if e.fd == fd then record e { events = ev } ∷ es else e ∷ set_events fd ev es

unfoldable pub add_fd : Kernel → Loop → Option ℕ → Events → Callback → Loop × Bool
add_fd k l none ev cb = (l, false)
add_fd k l (some fd) ev cb =
    if is_some (find_entry fd l.fd_map) || (not k.alloc || not (k.ctl fd))
    then (l, false)
    else (record l { fd_map = entry ∷ l.fd_map }, true)
  where
    entry : FdEntry
    entry = record { fd = fd; cb = cb; is_timer = false; events = ev }

unfoldable pub mod_fd : Kernel → Loop → Option ℕ → Events → Loop × Bool
mod_fd k l none ev = (l, false)
mod_fd k l (some fd) ev =
    if is_some (find_entry fd l.fd_map)
    then (if k.ctl fd then (record l { fd_map = set_events fd ev l.fd_map }, true) else (l, false))
    else (l, false)

unfoldable pub del_fd : Loop → Option ℕ → Loop × Bool
del_fd l none = (l, false)
del_fd l (some fd) =
    if is_some (find_entry fd l.fd_map)
    then (record l { fd_map = hash_del fd l.fd_map }, true)
    else (l, false)

-- The callback that `event_loop_run` calls for an event on a descriptor.
unfoldable pub dispatch : Loop → ℕ → Option Callback
unfolding find_entry
dispatch l fd = elim (find_entry fd l.fd_map) [ none ↦ none | some e ↦ some e.cb ]
