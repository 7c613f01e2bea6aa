-- ===== src/EventLoop/Registry.antt =====
-- The descriptor map of src/event_loop.c against a plain map: a function from descriptors to
-- callbacks.
use rpcracer.Prelude.{
  ℕ, ◌≡◌, ◌==◌, refl, arith, Bool, false, Option, none, some, List, [], ◌∷◌, if◌then◌else◌, is_some,
  if_rule, not, ◌&&◌,
}
use rpcracer.EventLoop.{
  Callback, Events, FdEntry, Loop, Kernel, find_entry, hash_del, set_events, add_fd, mod_fd, del_fd,
  dispatch,
}

-- No two entries have the same descriptor.
abbrev pub HasUniqueKeys : List FdEntry → Type 0
HasUniqueKeys [] = Unit {0}
HasUniqueKeys (e ∷ es) = (find_entry e.fd es ≡ none) × HasUniqueKeys es

pub find_entry-hash_del :
    (x fd : ℕ) (es : List FdEntry)
    → HasUniqueKeys es
    → find_entry x (hash_del fd es) ≡ (if fd == x then none else find_entry x es)
unfolding find_entry hash_del
find_entry-hash_del x fd [] u = ground arith
find_entry-hash_del x fd (e ∷ es) u = ground (arith, find_entry-hash_del x fd es u.1)

pub hash_del-HasUniqueKeys :
    (fd : ℕ) (es : List FdEntry) → HasUniqueKeys es → HasUniqueKeys (hash_del fd es)
unfolding hash_del
hash_del-HasUniqueKeys fd [] u = u
hash_del-HasUniqueKeys fd (e ∷ es) u =
    if_rule HasUniqueKeys (e.fd == fd) es (e ∷ hash_del fd es) (λ _. u.1)
      (λ _. (ground (arith, find_entry-hash_del e.fd fd es u.1), hash_del-HasUniqueKeys fd es u.1))

-- The callback of an entry.
abbrev pub callback : Option FdEntry → Option Callback
callback none = none
callback (some e) = some e.cb

find_entry-set_events :
    (x fd : ℕ) (ev : Events) (es : List FdEntry)
    → callback (find_entry x (set_events fd ev es)) ≡ callback (find_entry x es)
unfolding find_entry set_events
find_entry-set_events x fd ev [] = refl
find_entry-set_events x fd ev (e ∷ es) = ground (arith, find_entry-set_events x fd ev es)

pub set_events-HasUniqueKeys :
    (fd : ℕ) (ev : Events) (es : List FdEntry)
    → HasUniqueKeys es
    → HasUniqueKeys (set_events fd ev es)
unfolding set_events
set_events-HasUniqueKeys fd ev [] u = u
set_events-HasUniqueKeys fd ev (e ∷ es) u =
    if_rule HasUniqueKeys (e.fd == fd) (record e { events = ev } ∷ es) (e ∷ set_events fd ev es)
      (λ _. u)
      (λ _. (
        ground (arith, find_entry-set_events e.fd fd ev es),
        set_events-HasUniqueKeys fd ev es u.1,
      ))

-- The operations, with the answers of the operating system.
pub data Op : Type 0 where
  add : Kernel → Option ℕ → Events → Callback → Op
  modify : Kernel → Option ℕ → Events → Op
  remove : Option ℕ → Op

abbrev pub apply : Op → Loop → Loop × Bool
apply (add k fd ev cb) l = add_fd k l fd ev cb
apply (modify k fd ev) l = mod_fd k l fd ev
apply (remove fd) l = del_fd l fd

-- The contract: a function from descriptors to callbacks, and what each operation answers and does.
abbrev pub Registry : Type 0
Registry = ℕ → Option Callback

abbrev pub update : ℕ → Option Callback → Registry → Registry
update fd cb m x = if fd == x then cb else m x

abbrev pub succeeds : Op → Registry → Bool
succeeds (add k none ev cb) m = false
succeeds (add k (some fd) ev cb) m = not (is_some (m fd)) && (k.alloc && k.ctl fd)
succeeds (modify k none ev) m = false
succeeds (modify k (some fd) ev) m = is_some (m fd) && k.ctl fd
succeeds (remove none) m = false
succeeds (remove (some fd)) m = is_some (m fd)

abbrev pub effect : Op → Registry → Registry
effect (add k (some fd) ev cb) m = update fd (some cb) m
effect (remove (some fd)) m = update fd none m
effect _ m = m

abbrev pub abstract_apply : Op → Registry → Registry
abstract_apply o m x = if succeeds o m then effect o m x else m x

pub apply-HasUniqueKeys :
    (o : Op) (l : Loop) → HasUniqueKeys l.fd_map → HasUniqueKeys (apply o l).0.fd_map
unfolding add_fd mod_fd del_fd
apply-HasUniqueKeys (add k none ev cb) l u = u
apply-HasUniqueKeys (add k (some fd) ev cb) l u = ground arith
apply-HasUniqueKeys (modify k none ev) l u = u
apply-HasUniqueKeys (modify k (some fd) ev) l u =
    ground (arith, set_events-HasUniqueKeys fd ev l.fd_map u)
apply-HasUniqueKeys (remove none) l u = u
apply-HasUniqueKeys (remove (some fd)) l u = ground (arith, hash_del-HasUniqueKeys fd l.fd_map u)

-- The registry that a loop holds.
abbrev pub Holds : Loop → Registry → Type 0
Holds l m = (x : ℕ) → dispatch l x ≡ m x

is_some-dispatch : (l : Loop) (fd : ℕ) → is_some (find_entry fd l.fd_map) ≡ is_some (dispatch l fd)
unfolding dispatch
is_some-dispatch l fd = ground arith

apply-succeeds : (o : Op) (l : Loop) (m : Registry) → Holds l m → (apply o l).1 ≡ succeeds o m
unfolding add_fd mod_fd del_fd
apply-succeeds (add k none ev cb) l m h = refl
apply-succeeds (add k (some fd) ev cb) l m h = ground (arith, is_some-dispatch l fd, h fd)
apply-succeeds (modify k none ev) l m h = refl
apply-succeeds (modify k (some fd) ev) l m h = ground (arith, is_some-dispatch l fd, h fd)
apply-succeeds (remove none) l m h = refl
apply-succeeds (remove (some fd)) l m h = ground (arith, is_some-dispatch l fd, h fd)

apply-Holds :
    (o : Op) (l : Loop) (m : Registry)
    → HasUniqueKeys l.fd_map
    → Holds l m
    → Holds (apply o l).0 (abstract_apply o m)
unfolding add_fd mod_fd del_fd dispatch find_entry
apply-Holds (add k none ev cb) l m u h x = h x
apply-Holds (add k (some fd) ev cb) l m u h x = ground (arith, h fd, h x)
apply-Holds (modify k none ev) l m u h x = h x
apply-Holds (modify k (some fd) ev) l m u h x =
    ground (arith, find_entry-set_events x fd ev l.fd_map, h fd, h x)
apply-Holds (remove none) l m u h x = h x
apply-Holds (remove (some fd)) l m u h x =
    ground (arith, find_entry-hash_del x fd l.fd_map u, h fd, h x)

-- Operations one after the other, with their results: the code's, and the contract's.
pub run_ops : List Op → Loop → Loop × List Bool
run_ops [] l = (l, [])
run_ops (o ∷ os) l = let (l1, ok) = apply o l in let (l2, oks) = run_ops os l1 in (l2, ok ∷ oks)

unfoldable pub abstract_run : List Op → Registry → Registry × List Bool
abstract_run [] m = (m, [])
abstract_run (o ∷ os) m =
    let (m', oks) = abstract_run os (abstract_apply o m) in (m', succeeds o m ∷ oks)

-- The list of entries refines the function: from a loop whose descriptors are unique, any sequence
-- of operations gives the results of the contract, and every descriptor is dispatched as in it.
pub run_ops-refines :
    (os : List Op) (l : Loop) (m : Registry)
    → HasUniqueKeys l.fd_map
    → Holds l m
    → ((run_ops os l).1 ≡ (abstract_run os m).1) × Holds (run_ops os l).0 (abstract_run os m).0
unfolding run_ops abstract_run
run_ops-refines [] l m u h = (refl, h)
run_ops-refines (o ∷ os) l m u h =
    let rest =
      run_ops-refines os (apply o l).0 (abstract_apply o m) (apply-HasUniqueKeys o l u)
        (apply-Holds o l m u h) in
    (rw (apply-succeeds o l m h, rest.0) refl, rest.1)
