-- ===== src/Notifier/Created/Resources.antt =====
-- What notifier_create and notifier_destroy of src/notifier.c open and close.
use mathlib.Core.List.{append_assoc, append-nil}
use rpcracer.Prelude.{
  arith, ℕ, ◌+◌, ◌≡◌, ◌⊎◌, inl, inr, refl, sym, ap, subst, ◌∙◌, Bool, true, false, not, ◌||◌,
  Option, length, none, some, List, [], ◌∷◌, ◌++◌, ◌==◌, if◌then◌else◌, if_rule, option_rule,
}
use rpcracer.EventLoop.{Loop, epoll_in, add_fd}
use rpcracer.EventLoop.Timers.{event_loop_destroy}
use rpcracer.Notifier.Sockets.{SocketAnswers, ck_connect}
use rpcracer.Notifier.Created.Timers.{
  SameTimers, open_subs-SameTimers, open_pub-SameTimers, silence_timer, silence_timer_lem,
}
use rpcracer.Config.{NodeConfig, Config}
use rpcracer.Notifier.{Notifier}
use rpcracer.Notifier.Created.{
  Handles, Resource, context, pub_socket, sub_socket, descriptor, CreateEnv, Building, Created,
  open_sub, open_subs, open_pub, http_relay, sub_resources, fd_resource, notifier_destroy, give_up,
  finish, new_notifier, notifier_create, is_first, ck_made, descriptors,
}

sub_resources-append :
    (i fd : ℕ) (ss : List (ℕ × ℕ))
    → sub_resources (ss ++ ((i, fd) ∷ [])) ≡ sub_resources ss ++ (sub_socket i ∷ [])
sub_resources-append i fd [] = refl
sub_resources-append i fd ((j, fd') ∷ ss) =
    ap (λ rs. sub_socket j ∷ rs) (sub_resources-append i fd ss)

-- Nothing was closed, where the construction goes on.
abbrev Clean : Bool → List Resource → Type 0
Clean true rs = rs ≡ []
Clean false rs = Unit {0}

abbrev Subscribed : Building × Bool → Type 0
Subscribed (b, ok) =
    (b.pub_open ≡ false)
    × (b.opened ≡ context ∷ (sub_resources b.subs ++ b.closed))
    × Clean ok b.closed

-- A SUB socket that was opened and closed at once.
failed_sub :
    (i : ℕ) (b : Building)
    → Subscribed (b, true)
    → let s = sub_socket i ∷ [] in
      Subscribed (record b { opened = b.opened ++ s; closed = b.closed ++ s }, false)
failed_sub i b h =
    let s = sub_socket i ∷ [] in
    (h.0, rw h.1 (ap (λ rs. context ∷ rs) (append_assoc (sub_resources b.subs) b.closed s)), tt)

one_more :
    (i fd : ℕ) (b : Building)
    → Subscribed (b, true)
    → b.opened ++ (sub_socket i ∷ [])
      ≡ context ∷ (sub_resources (b.subs ++ ((i, fd) ∷ [])) ++ b.closed)
one_more i fd b h =
    let s = sub_resources b.subs in
    rw
      (
        h.1,
        h.2,
        sub_resources-append i fd b.subs,
        append-nil s,
        append-nil (s ++ (sub_socket i ∷ [])),
      )
      refl

open_sub-Subscribed :
    (env : CreateEnv) (i : ℕ) (b : Building) → Subscribed (b, true) → Subscribed (open_sub env i b)
unfolding open_sub
open_sub-Subscribed env i b h =
    let a = env.subs i in
    if_rule Subscribed a.socket _ _
      (λ _.
        if_rule Subscribed (not a.subscribed || not a.connected) _ _ (λ _. failed_sub i b h)
          (λ _.
            option_rule Subscribed a.fd _ _ (λ _. failed_sub i b h)
              (λ fd _.
                let r =
                  if is_first b.subs
                  then add_fd env.kernel b.loop (some fd) epoll_in env.zmq_cb
                  else (b.loop, true) in
                if_rule Subscribed r.1 _ _ (λ _. (h.0, one_more i fd b h, h.2))
                  (λ _. failed_sub i b h))))
      (λ _. (h.0, h.1, tt))

open_subs-Subscribed :
    (env : CreateEnv) (i : ℕ) (cs : List NodeConfig) (b : Building)
    → Subscribed (b, true)
    → Subscribed (open_subs env i cs b)
unfolding open_subs
open_subs-Subscribed env i [] b h = h
open_subs-Subscribed env i (c ∷ cs) b h =
    let r = if c.zmq_port == 0 then (b, true) else open_sub env i b in
    let one : Subscribed r =
      if_rule Subscribed (c.zmq_port == 0) (b, true) (open_sub env i b) (λ _. h)
        (λ _. open_sub-Subscribed env i b h) in
    if_rule Subscribed r.1 (open_subs env (i + 1) cs r.0) (r.0, false)
      (λ e. open_subs-Subscribed env (i + 1) cs r.0 (subst (λ ok. Subscribed (r.0, ok)) e one))
      (λ e. (one.0, one.1, tt))

abbrev pub_resource : Bool → List Resource
pub_resource pub_open = if pub_open then pub_socket ∷ [] else []

-- What is open, apart from the context.
abbrev pub kept : List (ℕ × ℕ) → Bool → List Resource
kept subs pub_open = sub_resources subs ++ pub_resource pub_open

abbrev Opened : Building × Bool → Type 0
Opened (b, ok) = (b.opened ≡ context ∷ (kept b.subs b.pub_open ++ b.closed)) × Clean ok b.closed

Opened-of_subs : (b : Building) (ok : Bool) → Subscribed (b, ok) → Opened (b, ok)
Opened-of_subs b ok h = rw (h.0, append-nil (sub_resources b.subs)) (h.1, h.2)

clean : (ok : Bool) (rs : List Resource) → rs ≡ [] → Clean ok rs
clean true rs h = h
clean false rs h = tt

open_pub-Opened :
    (env : CreateEnv) (cfg : Config) (b : Building)
    → Subscribed (b, true)
    → Opened (open_pub env cfg b)
unfolding open_pub
open_pub-Opened env cfg b h =
    let before = Opened-of_subs b true h in
    let s = sub_resources b.subs in
    if_rule Opened (cfg.zmq_server_port == 0) _ _ (λ _. before)
      (λ _.
        if_rule Opened env.pub_made _ _
          (λ _. (
            rw (h.1, h.2, append-nil s, append-nil (s ++ (pub_socket ∷ []))) refl,
            clean env.pub_bound b.closed h.2,
          ))
          (λ _. (before.0, tt)))

-- What was opened is closed by notifier_destroy, apart from what was closed and the descriptors of
-- timers, which are those that event_loop_destroy has to close besides the ones that it had before.
abbrev pub IsOwned : Loop → Created → Notifier × Handles → Type 0
IsOwned l r (n, h) =
    (rs : List Resource) × (failed : List Resource) × (timers : List Resource) × (r.opened
      ≡ context ∷ (rs ++ (failed ++ timers)))
    × (r.closed ≡ failed)
    × ((notifier_destroy h r.loop).1 ≡ rs ++ (context ∷ []))
    × (descriptors (event_loop_destroy r.loop.fd_map)
        ≡ timers ++ descriptors (event_loop_destroy l.fd_map))

-- What was opened is closed, and descriptor 0 too, or nothing was opened.
abbrev pub IsUndone : Created → Type 0
IsUndone r =
    ((r.opened ≡ []) × (r.closed ≡ []))
    ⊎ ((rs : List Resource) × (failed : List Resource) × (r.opened ≡ context ∷ (rs ++ failed))
        × (r.closed ≡ failed ++ (rs ++ (descriptor 0 ∷ context ∷ []))))

abbrev pub IsAccounted : Loop → Created → Type 0
IsAccounted l r = elim r.result [ some made ↦ IsOwned l r made | none ↦ IsUndone r ]

give_up-IsAccounted :
    (l : Loop) (b : Building) (ok : Bool) → Opened (b, ok) → IsAccounted l (give_up b)
unfolding give_up notifier_destroy
give_up-IsAccounted l b ok h = inr (
  kept b.subs b.pub_open,
  b.closed,
  h.0,
  ap (λ rs. b.closed ++ rs)
      (sym (
        append_assoc (sub_resources b.subs) (pub_resource b.pub_open)
          (descriptor 0 ∷ context ∷ []))),
)

-- What ck_connect opens is what it gives and what it closes.
abbrev Connects : Option ℕ × List ℕ × List ℕ → Type 0
Connects (made, opened, closed) = descriptors opened ≡ fd_resource made ++ descriptors closed

ck_connect-Connects : (a : SocketAnswers) → Connects (ck_connect a)
unfolding ck_connect
ck_connect-Connects a =
    option_rule Connects a.socket _ _ (λ _. refl)
      (λ fd _.
        let left : Connects (some fd, fd ∷ [], []) = refl in
        let over : Connects (none, fd ∷ [], fd ∷ []) = refl in grind (arith, left, over))

ck_made-Connects : (env : CreateEnv) (cfg : Config) → Connects (ck_made env cfg)
ck_made-Connects env cfg =
    if_rule Connects (not (length cfg.ck_notify_socket == 0)) _ _
      (λ _. ck_connect-Connects env.ck_connect) (λ _. refl)

finish-IsAccounted :
    (env : CreateEnv) (cfg : Config) (l : Loop) (b : Building) (relay : Bool × List ℕ × ℕ × List ℕ)
    → Opened (b, true)
    → SameTimers l b
    → IsAccounted l (finish env cfg b relay)
unfolding finish notifier_destroy new_notifier
finish-IsAccounted env cfg l b relay h same =
    let subs = sub_resources b.subs in
    let pubs = pub_resource b.pub_open in
    let ck = fd_resource (ck_made env cfg).0 in
    let failed = descriptors (ck_made env cfg).2 in
    let timer = fd_resource (silence_timer env b).1 in
    (
      (subs ++ pubs) ++ ck,
      failed,
      timer,
      rw
          (
            h.0,
            h.1,
            append-nil (subs ++ pubs),
            ck_made-Connects env cfg,
            append_assoc ck failed timer,
            append_assoc (subs ++ pubs) ck (failed ++ timer),
          )
          refl,
      rw h.1 refl,
      sym (
          append_assoc (subs ++ pubs) ck (context ∷ [])
          ∙ append_assoc subs pubs (ck ++ (context ∷ []))),
      silence_timer_lem env b ∙ ap (λ fds. timer ++ descriptors fds) same,
    )

-- If notifier_create succeeds, what it opened is exactly what it has closed, what notifier_destroy
-- closes later, and the descriptor of the silence timer, if there is one, which is what
-- event_loop_destroy has to close besides the timers that were there before. If it fails, it has
-- closed what it had opened, and descriptor 0 besides, which it never opened; before the ZeroMQ
-- context is made it opens and closes nothing.
pub notifier_create-IsAccounted :
    (env : CreateEnv) (cfg : Config) (l : Loop) → IsAccounted l (notifier_create env cfg l)
unfolding notifier_create
notifier_create-IsAccounted env cfg l =
    let empty : Building = record {
      loop = l;
      subs = [];
      pub_open = false;
      opened = context ∷ [];
      closed = [];
    } in
    let r1 = open_subs env 0 cfg.nodes empty in
    let r2 = open_pub env cfg r1.0 in
    let h1 : Subscribed r1 = open_subs-Subscribed env 0 cfg.nodes empty (refl, refl, refl) in
    let same : SameTimers l r2.0 =
      open_pub-SameTimers env cfg l r1.0 (open_subs-SameTimers env 0 cfg.nodes l empty refl) in
    if_rule (IsAccounted l) (not env.memory || not env.context_made) _ _ (λ _. inl (refl, refl))
      (λ _.
        if_rule (IsAccounted l) r1.1 _ _
          (λ ok1.
            let h2 : Opened r2 =
              open_pub-Opened env cfg r1.0 (subst (λ ok. Subscribed (r1.0, ok)) ok1 h1) in
            if_rule (IsAccounted l) r2.1 _ _
              (λ ok2.
                option_rule (IsAccounted l) (http_relay cfg.notify_http_url) _ _
                  (λ _. give_up-IsAccounted l r2.0 r2.1 h2)
                  (λ relay _.
                    finish-IsAccounted env cfg l r2.0 relay (subst (λ ok. Opened (r2.0, ok)) ok2 h2)
                      same))
              (λ _. give_up-IsAccounted l r2.0 r2.1 h2))
          (λ _. give_up-IsAccounted l r1.0 r1.1 (Opened-of_subs r1.0 r1.1 h1)))
