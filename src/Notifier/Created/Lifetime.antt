-- ===== src/Notifier/Created/Lifetime.antt =====
-- The descriptors of a notifier of src/notifier.c, from notifier_create to notifier_destroy.
use rpcracer.Prelude.{
  ℕ, zero, suc, false, sym, ◌∙◌, ◌>>=◌, Option-cases, inl, inr, ◌+◌, ◌≡◌, refl, ap, subst, arith,
  Option, none, some, List, [], ◌∷◌, ◌++◌, ◌==◌, if◌then◌else◌, Ensures, ensured,
}
use rpcracer.Config.{Config}
use rpcracer.EventLoop.{Loop}
use rpcracer.EventLoop.Timers.{event_loop_destroy}
use rpcracer.Notifier.{
  Notifier, Env, Effect, opened, closed, on_notify, relay_zmq, relay_http, relay_ck,
}
use rpcracer.Notifier.Created.{
  Resource, context, pub_socket, sub_socket, descriptor, descriptors, CreateEnv, Handles, Created,
  notifier_create, notifier_destroy, sub_resources, fd_resource, give_up, finish, new_notifier,
}
use rpcracer.Notifier.Created.Resources.{IsOwned, IsUndone, notifier_create-IsAccounted}
use rpcracer.Notifier.Descriptors.{
  after_close, balance, balance_chain, is_fd, held, process_all, process_all-Balances,
}

-- The descriptors among what is opened, or closed.
abbrev pub opens : List Resource → List Effect
opens [] = []
opens (descriptor fd ∷ rs) = opened fd ∷ opens rs
opens (_ ∷ rs) = opens rs

abbrev pub closes : List Resource → List Effect
closes [] = []
closes (descriptor fd ∷ rs) = closed fd ∷ closes rs
closes (_ ∷ rs) = closes rs

-- What notifier_destroy finds open after this history.
abbrev pub handles_of : Handles → Notifier → Handles
handles_of h n = record h { relay_fd = n.notify_http_fd; ck_fd = n.ck_fd }

-- Everything from creation to destruction, with notifications in between.
unfoldable pub lifetime :
    Created → Notifier → Handles → List (Env × List ℕ × Option (List ℕ)) → Loop → List Effect
unfolding process_all notifier_destroy
lifetime made n h es l =
    let (m, effects) = process_all es n in
    (opens made.opened ++ closes made.closed)
    ++ (effects ++ closes (notifier_destroy (handles_of h m) l).1)

abbrev pub count : ℕ → List Resource → ℕ
count x [] = 0
count x (descriptor fd ∷ rs) = is_fd x (some fd) + count x rs
count x (_ ∷ rs) = count x rs

balance-opens : (x c : ℕ) (rs : List Resource) → balance x (opens rs) c ≡ some (count x rs + c)
unfolding balance
balance-opens x c [] = ground arith
balance-opens x c (context ∷ rs) = balance-opens x c rs
balance-opens x c (pub_socket ∷ rs) = balance-opens x c rs
balance-opens x c (sub_socket i ∷ rs) = balance-opens x c rs
balance-opens x c (descriptor fd ∷ rs) =
    ground (arith, balance-opens x (if fd == x then suc c else c) rs)

balance-closes : (x c : ℕ) (rs : List Resource) → balance x (closes rs) (count x rs + c) ≡ some c
unfolding balance
balance-closes x c [] = ground arith
balance-closes x c (context ∷ rs) = balance-closes x c rs
balance-closes x c (pub_socket ∷ rs) = balance-closes x c rs
balance-closes x c (sub_socket i ∷ rs) = balance-closes x c rs
balance-closes x c (descriptor fd ∷ rs) = ground (arith, balance-closes x c rs)

count-append : (x : ℕ) (rs ss : List Resource) → count x (rs ++ ss) ≡ count x rs + count x ss
count-append x [] ss = ground arith
count-append x (context ∷ rs) ss = count-append x rs ss
count-append x (pub_socket ∷ rs) ss = count-append x rs ss
count-append x (sub_socket i ∷ rs) ss = count-append x rs ss
count-append x (descriptor fd ∷ rs) ss = ground (arith, count-append x rs ss)

count-subs : (x : ℕ) (ss : List (ℕ × ℕ)) → count x (sub_resources ss) ≡ 0
count-subs x [] = refl
count-subs x (s ∷ ss) = count-subs x ss

count-fd : (x : ℕ) (fd : Option ℕ) → count x (fd_resource fd) ≡ is_fd x fd
count-fd x none = refl
count-fd x (some fd) = ground arith

-- notifier_destroy closes the two descriptors of the relays.
count-destroy :
    (x : ℕ) (h : Handles) (l : Loop)
    → count x (notifier_destroy h l).1 ≡ is_fd x h.relay_fd + is_fd x h.ck_fd
unfolding notifier_destroy
count-destroy x h l =
    let pubs = if h.pub_open then pub_socket ∷ [] else [] in
    let cks = fd_resource h.ck_fd ++ (context ∷ []) in
    let relays = fd_resource h.relay_fd ++ cks in
    ground (
      arith,
      count-append x (sub_resources h.subs) (pubs ++ relays),
      count-subs x h.subs,
      count-append x pubs relays,
      count-append x (fd_resource h.relay_fd) cks,
      count-fd x h.relay_fd,
      count-append x (fd_resource h.ck_fd) (context ∷ []),
      count-fd x h.ck_fd,
    )

-- The handles that it leaves are those of the notifier.
abbrev HasHandles : Notifier × Handles → Type 0
HasHandles (n, h) = (h.relay_fd ≡ n.notify_http_fd) × (h.ck_fd ≡ n.ck_fd)

create-HasHandles :
    (env : CreateEnv) (cfg : Config) (l : Loop)
    → Ensures HasHandles (notifier_create env cfg l).result
unfolding notifier_create give_up finish new_notifier
create-HasHandles env cfg l = ground arith

-- How often event_loop_destroy closes this descriptor, as that of a timer.
abbrev pub timers : ℕ → Loop → ℕ
timers x l = count x (descriptors (event_loop_destroy l.fd_map))

-- What notifier_create opens and does not close is what the notifier holds, and its timer.
count-created :
    (x : ℕ) (l : Loop) (made : Created) (n : Notifier) (h : Handles)
    → IsOwned l made (n, h)
    → HasHandles (n, h)
    → (left : ℕ) × (count x made.closed + (held x n + left) ≡ count x made.opened + 0)
      × (timers x made.loop ≡ left + timers x l)
count-created x l made n h (rs, failed, silence, were, gone, later, looped) (http, ck) = (
  count x silence,
  omega (
    arith,
    ap (count x) were,
    ap (count x) gone,
    ap (count x) later,
    count-append x rs (failed ++ silence),
    count-append x failed silence,
    count-append x rs (context ∷ []),
    count-destroy x h made.loop,
    ap (is_fd x) http,
    ap (is_fd x) ck,
  ),
  ap (count x) looped ∙ count-append x silence (descriptors (event_loop_destroy l.fd_map)),
)

after_close-other : (x fd c : ℕ) → (fd == x) ≡ false → after_close x fd c ≡ some c
after_close-other x fd zero h = ground arith
after_close-other x fd (suc c) h = ground arith

after_close-more :
    (x fd c b k : ℕ) → after_close x fd c ≡ some b → after_close x fd (c + k) ≡ some (b + k)
after_close-more x fd zero b k e =
    let same : b ≡ 0 = ground arith in
    let other : (fd == x) ≡ false = ground arith in
    after_close-other x fd (0 + k) other ∙ ap (λ a. some (a + k)) (sym same)
after_close-more x fd (suc c) b k e =
    let shifted : suc (c + k) ≡ suc c + k = omega arith in
    subst (λ a. after_close x fd a ≡ some (b + k)) shifted (ground arith)

-- Effects do the same where more is open.
balance-more :
    (x : ℕ) (es : List Effect) (c d k : ℕ)
    → balance x es c ≡ some d
    → balance x es (c + k) ≡ some (d + k)
unfolding balance
balance-more x [] c d k e = ground arith
balance-more x (opened fd ∷ es) c d k e =
    let c2 = if fd == x then suc c else c in
    let shifted : c2 + k ≡ (if fd == x then suc (c + k) else c + k) = ground arith in
    subst (λ a. balance x es a ≡ some (d + k)) shifted (balance-more x es c2 d k e)
balance-more x (closed fd ∷ es) c d k e = elim (Option-cases (after_close x fd c)) [
  | inl f ↦ absurd (ground (arith, subst (λ o. (o >>= balance x es) ≡ some d) f e))
  | inr (b, f) ↦
      ap (λ o. o >>= balance x es) (after_close-more x fd c b k f)
      ∙ balance-more x es b d k (subst (λ o. (o >>= balance x es) ≡ some d) f e)
]
balance-more x (on_notify h ∷ es) c d k e = balance-more x es c d k e
balance-more x (relay_zmq h ∷ es) c d k e = balance-more x es c d k e
balance-more x (relay_http h ∷ es) c d k e = balance-more x es c d k e
balance-more x (relay_ck ∷ es) c d k e = balance-more x es c d k e

-- Over the life of a notifier, from a successful notifier_create through any history of
-- notifications to notifier_destroy, whatever the operating system answers: each descriptor is
-- closed only while it is open, and as often as it is opened, but for the timer of the silence check,
-- which is what event_loop_destroy has to close besides the timers that were there before.
pub lifetime_balances :
    (x : ℕ) (env : CreateEnv) (cfg : Config) (l l2 : Loop) (n : Notifier) (h : Handles)
    (es : List (Env × List ℕ × Option (List ℕ)))
    → (notifier_create env cfg l).result ≡ some (n, h)
    → let made = notifier_create env cfg l in
      (left : ℕ) × (balance x (lifetime made n h es l2) 0 ≡ some left)
      × (timers x made.loop ≡ left + timers x l)
unfolding lifetime
lifetime_balances x env cfg l l2 n h es e =
    let made = notifier_create env cfg l in
    let owned : IsOwned l made (n, h) =
      subst (λ o. elim o [ some m ↦ IsOwned l made m | none ↦ IsUndone made ]) e
        (notifier_create-IsAccounted env cfg l) in
    let handles = ensured HasHandles made.result (n, h) (create-HasHandles env cfg l) e in
    let (left, sums, loop) = count-created x l made n h owned handles in
    let (m, effects) = process_all es n in
    let ending = (notifier_destroy (handles_of h m) l2).1 in
    (
      left,
      balance_chain x (opens made.opened ++ closes made.closed) (effects ++ closes ending) 0
          (held x n + left) left
          (balance_chain x (opens made.opened) (closes made.closed) 0 (count x made.opened + 0)
            (held x n + left) (balance-opens x 0 made.opened)
            (subst (λ c. balance x (closes made.closed) c ≡ some (held x n + left)) sums
              (balance-closes x (held x n + left) made.closed)))
          (balance_chain x effects (closes ending) (held x n + left) (held x m + left) left
            (balance-more x effects (held x n) (held x m) left (process_all-Balances x es n))
            (subst (λ c. balance x (closes ending) c ≡ some left)
              (ground (arith, count-destroy x (handles_of h m) l2))
              (balance-closes x left ending))),
      loop,
    )
