-- ===== src/Notifier/Subscribe/History.antt =====
-- What reaches the callback of src/notifier.c over a history of notifications, from whatever source,
-- and what zmq_fd_event_cb makes such a history of.
use mathlib.Core.List.{append_assoc, append-nil}
use rpcracer.Prelude.{
  ℕ, ◌≡◌, refl, ap, sym, subst, arith, Bool, true, false, not, ◌&&◌, Option, none, some, List, [],
  ◌∷◌, ◌++◌, length, ◌==◌, if◌then◌else◌, ◌⊎◌, inl, inr, Bool-cases,
}
use rpcracer.Framing.{codes}
use rpcracer.Notifier.{Notifier, Env, Effect, same_bytes}
use rpcracer.Notifier.Process.{is_duplicate, notifier_process_hash}
use rpcracer.Notifier.Announced.{announced, announced-append}
use rpcracer.Notifier.Grace.{gate, process_rule}
use rpcracer.Notifier.Subscribe.{
  Message, on_frames, drain_zmq_socket, Poll, unreadable, quiet, pending, sub_labels, poll_sockets,
  poll_rounds, zmq_fd_event_cb, hash_size,
}

abbrev pub History : Type 0
History = List (Env × List ℕ × Option (List ℕ))

pub process_all : History → Notifier → Notifier × List Effect
process_all [] n = (n, [])
process_all ((env, hash, label) ∷ es) n =
    let (n1, e1, accepted) = notifier_process_hash env hash label n in
    let (n2, e2) = process_all es n1 in (n2, e1 ++ e2)

-- The last hash that was accepted.
abbrev pub last : Notifier → Option (List ℕ)
last n = if n.has_last_hash then some n.last_hash else none

abbrev pub differs : Option (List ℕ) → List ℕ → Bool
differs none h = true
differs (some g) h = not (same_bytes g h)

-- Each hash differs from the one before it.
abbrev pub Alternates : Option (List ℕ) → List (List ℕ) → Type 0
Alternates before [] = Unit {0}
Alternates before (h ∷ hs) = (differs before h ≡ true) × Alternates (some h) hs

abbrev IsProcessed : List ℕ → Notifier → Notifier × List Effect × Bool → Type 0
IsProcessed hash n r =
    ((announced r.1 ≡ []) × (last r.0 ≡ last n))
    ⊎ ((announced r.1 ≡ hash ∷ []) × (last r.0 ≡ some hash) × (differs (last n) hash ≡ true))

last_of_gate : (m n : Notifier) → gate m ≡ gate n → last m ≡ last n
last_of_gate m n e = ap (λ g. if g.1 then some g.0 else none) e

differs_of_new :
    (n : Notifier) (hash : List ℕ) → is_duplicate n hash ≡ false → differs (last n) hash ≡ true
unfolding is_duplicate
differs_of_new n hash h = ground arith

process-IsProcessed :
    (env : Env) (hash : List ℕ) (label : Option (List ℕ)) (n : Notifier)
    → IsProcessed hash n (notifier_process_hash env hash label n)
process-IsProcessed env hash label n =
    process_rule (IsProcessed hash n) env hash label n (λ m e d. inl (refl, last_of_gate m n e))
      (λ m effects e s quiet. inl (quiet, last_of_gate m n e))
      (λ m effects e s quiet new. inr (
        ap (λ hs. hash ∷ hs) quiet,
        ap (λ g. if g.1 then some g.0 else none) e,
        differs_of_new n hash new,
      ))

-- Over any history of notifications, from any nodes and with any answers to the relays, the callback
-- never gets the same hash twice in a row, nor first the one that was accepted last.
pub process_all-Alternates :
    (es : History) (n : Notifier) → Alternates (last n) (announced (process_all es n).1)
unfolding process_all
process_all-Alternates [] n = tt
process_all-Alternates ((env, hash, label) ∷ es) n =
    let r = notifier_process_hash env hash label n in
    let rest = process_all-Alternates es r.0 in
    rw (announced-append r.1 (process_all es r.0).1) (elim (process-IsProcessed env hash label n) [
      | inl (a, l) ↦ rw (a, sym l) rest
      | inr (a, l, d) ↦
          rw a (d, subst (λ o. Alternates o (announced (process_all es r.0).1)) l rest)
    ])

-- The notification that a message is, if it is one.
abbrev pub of_frames : List ℕ → Env → List ℕ → List (List ℕ) → History
of_frames label env topic [] = []
of_frames label env topic (hash ∷ others) =
    if same_bytes topic (codes "hashblock") && length hash == hash_size
    then (env, hash, some label) ∷ []
    else []

pub of_messages : List ℕ → List (Env × Message) → History
of_messages label [] = []
of_messages label ((env, m) ∷ ms) = of_frames label env m.topic m.more ++ of_messages label ms

-- The notifications of one round over the sockets, and whether a socket had input.
pub of_polls : List (List ℕ) → List Poll → History
of_polls (label ∷ labels) (pending ms ∷ ps) = of_messages label ms ++ of_polls labels ps
of_polls (label ∷ labels) (_ ∷ ps) = of_polls labels ps
of_polls _ _ = []

pub has_input : List (List ℕ) → List Poll → Bool
has_input (label ∷ labels) (pending ms ∷ ps) = true
has_input (label ∷ labels) (_ ∷ ps) = has_input labels ps
has_input _ _ = false

-- The notifications of the rounds up to the first one without input.
pub of_rounds : List (List ℕ) → List (List Poll) → History
of_rounds labels [] = []
of_rounds labels (ps ∷ rounds) =
    let rest = of_rounds labels rounds in
    if has_input labels ps then of_polls labels ps ++ rest else []

process_all-append :
    (xs ys : History) (n : Notifier)
    → let r = process_all xs n in
      let r2 = process_all ys r.0 in process_all (xs ++ ys) n ≡ (r2.0, r.1 ++ r2.1)
unfolding process_all
process_all-append [] ys n = refl
process_all-append ((env, hash, label) ∷ xs) ys n =
    let r = notifier_process_hash env hash label n in
    let r1 = process_all xs r.0 in
    let r2 = process_all ys r1.0 in
    rw (process_all-append xs ys r.0, append_assoc r.1 r1.1 r2.1) refl

on_frames_lem :
    (label : List ℕ) (env : Env) (topic : List ℕ) (more : List (List ℕ)) (n : Notifier)
    → on_frames label env topic more n ≡ process_all (of_frames label env topic more) n
unfolding on_frames process_all
on_frames_lem label env topic [] n = refl
on_frames_lem label env topic (hash ∷ others) n =
    let r = notifier_process_hash env hash (some label) n in
    elim (Bool-cases (same_bytes topic (codes "hashblock") && length hash == hash_size)) [
      | inl e ↦ rw (e, append-nil r.1) refl
      | inr e ↦ rw e refl
    ]

drain_lem :
    (label : List ℕ) (ms : List (Env × Message)) (n : Notifier)
    → drain_zmq_socket label ms n ≡ process_all (of_messages label ms) n
unfolding drain_zmq_socket of_messages process_all
drain_lem label [] n = refl
drain_lem label ((env, m) ∷ ms) n =
    let h = of_frames label env m.topic m.more in
    rw (process_all-append h (of_messages label ms) n, on_frames_lem label env m.topic m.more n)
      (rw (drain_lem label ms (process_all h n).0) refl)

poll_lem :
    (labels : List (List ℕ)) (ps : List Poll) (n : Notifier)
    → let r = process_all (of_polls labels ps) n in
      poll_sockets labels ps n ≡ (r.0, r.1, has_input labels ps)
unfolding poll_sockets of_polls has_input process_all
poll_lem [] ps n = refl
poll_lem (label ∷ labels) [] n = refl
poll_lem (label ∷ labels) (unreadable ∷ ps) n = poll_lem labels ps n
poll_lem (label ∷ labels) (quiet ∷ ps) n = poll_lem labels ps n
poll_lem (label ∷ labels) (pending ms ∷ ps) n =
    let h = of_messages label ms in
    rw (process_all-append h (of_polls labels ps) n, drain_lem label ms n)
      (rw (poll_lem labels ps (process_all h n).0) refl)

no_input :
    (labels : List (List ℕ)) (ps : List Poll)
    → has_input labels ps ≡ false
    → of_polls labels ps ≡ []
unfolding has_input of_polls
no_input [] ps h = refl
no_input (label ∷ labels) [] h = refl
no_input (label ∷ labels) (unreadable ∷ ps) h = no_input labels ps h
no_input (label ∷ labels) (quiet ∷ ps) h = no_input labels ps h
no_input (label ∷ labels) (pending ms ∷ ps) h = absurd (ground arith)

rounds_lem :
    (labels : List (List ℕ)) (rounds : List (List Poll)) (n : Notifier)
    → poll_rounds labels rounds n ≡ process_all (of_rounds labels rounds) n
unfolding poll_rounds of_rounds process_all
rounds_lem labels [] n = refl
rounds_lem labels (ps ∷ rounds) n = elim (Bool-cases (has_input labels ps)) [
  | inl e ↦
      rw
        (
          e,
          process_all-append (of_polls labels ps) (of_rounds labels rounds) n,
          poll_lem labels ps n,
          e,
        )
        (rw (rounds_lem labels rounds (process_all (of_polls labels ps) n).0) refl)
  | inr e ↦ rw (e, poll_lem labels ps n, e, no_input labels ps e) refl
]

-- An event on the ZeroMQ descriptor processes one after the other, and nothing else, the 32-byte
-- hashes that the sockets received under the topic "hashblock", each with the label of its socket's
-- node, in the rounds up to the first one in which no socket had input.
pub zmq_fd_event_cb_lem :
    (rounds : List (List Poll)) (n : Notifier)
    → zmq_fd_event_cb rounds n ≡ process_all (of_rounds (sub_labels n.nodes) rounds) n
unfolding zmq_fd_event_cb
zmq_fd_event_cb_lem rounds n = rounds_lem (sub_labels n.nodes) rounds n

-- Whatever the sockets receive on an event, and however often they repeat it, the callback gets no
-- hash twice in a row, nor first the one that was accepted last.
pub zmq_fd_event_cb-Alternates :
    (rounds : List (List Poll)) (n : Notifier)
    → Alternates (last n) (announced (zmq_fd_event_cb rounds n).1)
zmq_fd_event_cb-Alternates rounds n =
    rw (zmq_fd_event_cb_lem rounds n)
      (process_all-Alternates (of_rounds (sub_labels n.nodes) rounds) n)
