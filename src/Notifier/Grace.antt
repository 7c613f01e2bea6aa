-- ===== src/Notifier/Grace.antt =====
-- Duplicates and the grace period of src/notifier.c.
use rpcracer.Prelude.{
  ℕ, ◌+◌, ◌≤◌, ◌<◌, ◌≡◌, refl, arith, Bool, true, false, Option, List, [], ◌∷◌, ◌∙◌, if_rule, ap,
  not, ◌&&◌, if◌then◌else◌,
}
use rpcracer.Notifier.{
  Notifier, Env, Effect, on_notify, Written, wrote, would_block, broken, same_bytes,
}
use rpcracer.Notifier.Process.{
  is_duplicate, accept_notify, is_suppressed, grace_period_ns, same_node, source_of,
  notifier_process_hash,
}
use rpcracer.Notifier.Relays.{
  relay, relay_zmq_pub, relay_http_notify, http_written, http_request, http_send, ck_written,
  relay_ck_notify,
}
use rpcracer.Notifier.Announced.{announced, announced-relay}

same_bytes_refl : (xs : List ℕ) → same_bytes xs xs ≡ true
unfolding same_bytes
same_bytes_refl [] = refl
same_bytes_refl (x ∷ xs) = ground (arith, same_bytes_refl xs)

-- The fields that the suppression reads.
abbrev pub gate : Notifier → List ℕ × Bool × Bool × ℕ × Option ℕ
gate n = (n.last_hash, n.has_last_hash, n.grace_active, n.grace_start_ns, n.grace_winner_node_idx)

gate-relay_zmq :
    (env : Env) (hash : List ℕ) (n : Notifier) → gate (relay_zmq_pub env hash n).0 ≡ gate n
unfolding relay_zmq_pub
gate-relay_zmq env hash n = ground arith

gate-http_written :
    (w : Written) (fd : ℕ) (request : List ℕ) (n : Notifier)
    → gate (http_written w fd request n).0 ≡ gate n
unfolding http_written
gate-http_written would_block fd request n = refl
gate-http_written broken fd request n = refl
gate-http_written (wrote k) fd request n = ground arith

gate-http_send :
    (env : Env) (request : List ℕ) (n : Notifier) → gate (http_send env request n).0 ≡ gate n
unfolding http_send
gate-http_send env request n = grind (arith, gate-http_written)

gate-relay_http :
    (env : Env) (hash : List ℕ) (n : Notifier) → gate (relay_http_notify env hash n).0 ≡ gate n
unfolding relay_http_notify
gate-relay_http env hash n = ground (arith, gate-http_send env (http_request hash n) n)

gate-ck_written : (w : Written) (fd : ℕ) (n : Notifier) → gate (ck_written w fd n).0 ≡ gate n
unfolding ck_written
gate-ck_written would_block fd n = refl
gate-ck_written broken fd n = refl
gate-ck_written (wrote k) fd n = ground arith

gate-relay_ck : (env : Env) (n : Notifier) → gate (relay_ck_notify env n).0 ≡ gate n
unfolding relay_ck_notify
gate-relay_ck env n = grind (arith, gate-ck_written)

pub gate-relay : (env : Env) (hash : List ℕ) (n : Notifier) → gate (relay env hash n).0 ≡ gate n
unfolding relay
gate-relay env hash n =
    let n1 = (relay_zmq_pub env hash n).0 in
    let n2 = (relay_http_notify env hash n1).0 in
    gate-relay_ck env n2 ∙ (gate-relay_http env hash n1 ∙ gate-relay_zmq env hash n)

-- The index of the node with this label, when the notification is processed.
abbrev pub source : Env → List ℕ → Option (List ℕ) → Notifier → Option ℕ
source env hash label n = (source_of env.now hash label n.nodes).1

-- notifier_process_hash case by case: a duplicate, a suppressed or an accepted notification.
pub process_rule :
    (P : Notifier × List Effect × Bool → Type 0) (env : Env) (hash : List ℕ)
    (label : Option (List ℕ)) (n : Notifier)
    → ((m : Notifier) → gate m ≡ gate n → is_duplicate n hash ≡ true → P (m, [], false))
    → ((m : Notifier) (effects : List Effect)
        → gate m ≡ gate n
        → is_suppressed env.now (source env hash label n) n ≡ true
        → announced effects ≡ []
        → P (m, effects, false))
    → ((m : Notifier) (effects : List Effect)
        → gate m ≡ (hash, true, true, env.now, source env hash label n)
        → is_suppressed env.now (source env hash label n) n ≡ false
        → announced effects ≡ []
        → is_duplicate n hash ≡ false
        → P (m, on_notify hash ∷ effects, true))
    → P (notifier_process_hash env hash label n)
unfolding notifier_process_hash is_suppressed is_duplicate accept_notify
process_rule P env hash label n dup quiet loud =
    let src = source env hash label n in
    let seen : Notifier = record n { nodes = (source_of env.now hash label n.nodes).0 } in
    let quiet_relay = relay env hash seen in
    let loud_relay = relay env hash (accept_notify env.now hash src seen) in
    let quiet_result : Notifier × List Effect × Bool = (quiet_relay.0, quiet_relay.1, false) in
    let loud_result : Notifier × List Effect × Bool =
      (loud_relay.0, on_notify hash ∷ loud_relay.1, true) in
    let fresh : Notifier × List Effect × Bool =
      if is_suppressed env.now src seen then quiet_result else loud_result in
    if_rule P (is_duplicate n hash) (seen, [], false) fresh (dup seen refl)
      (λ new.
        if_rule P (is_suppressed env.now src seen) quiet_result loud_result
          (λ s.
            quiet quiet_relay.0 quiet_relay.1 (gate-relay env hash seen) s
              (announced-relay env hash seen))
          (λ s.
            let after = accept_notify env.now hash src seen in
            loud loud_relay.0 loud_relay.1 (gate-relay env hash after) s
              (announced-relay env hash after) new))

-- A notification that is not announced and does nothing to the outside.
abbrev pub Refuses : Env → List ℕ → Option (List ℕ) → Notifier → Type 0
Refuses env hash label n =
    let r = notifier_process_hash env hash label n in (r.2 ≡ false) × (r.1 ≡ [])

duplicate_refused :
    (env : Env) (hash : List ℕ) (label : Option (List ℕ)) (n : Notifier)
    → is_duplicate n hash ≡ true
    → Refuses env hash label n
unfolding notifier_process_hash
duplicate_refused env hash label n d = rw d (refl, refl)

gate_duplicate :
    {a : Bool} {t : ℕ} {w : Option ℕ} (hash : List ℕ) (n : Notifier)
    → gate n ≡ (hash, true, a, t, w)
    → is_duplicate n hash ≡ true
unfolding is_duplicate
gate_duplicate hash n e = rw (ap (λ g. g.0) e, ap (λ g. g.1) e) (same_bytes_refl hash)

-- A block that was accepted is not announced again: the same hash, from any source and at any time,
-- is then refused, and nothing is announced or relayed.
pub accepted_once :
    (env later : Env) (hash : List ℕ) (label again : Option (List ℕ)) (n : Notifier)
    → (notifier_process_hash env hash label n).2 ≡ true
    → Refuses later hash again (notifier_process_hash env hash label n).0
accepted_once env later hash label again n ok =
    process_rule (λ r. r.2 ≡ true → Refuses later hash again r.0) env hash label n
      (λ m e d t. absurd (ground arith)) (λ m effects e d q t. absurd (ground arith))
      (λ m effects e d q new t. duplicate_refused later hash again m (gate_duplicate hash m e)) ok

-- The notifications of a history come in the order of time, before `until`.
abbrev pub IsOrdered : ℕ → ℕ → List (Env × List ℕ × Option (List ℕ)) → Type 0
IsOrdered from until [] = Unit {0}
IsOrdered from until ((env, hash, label) ∷ es) =
    (from ≤ env.now) × (env.now < until) × IsOrdered env.now until es

-- The announcements of a history that come from another source than this one.
pub strangers : Option ℕ → List (Env × List ℕ × Option (List ℕ)) → Notifier → ℕ
strangers winner [] n = 0
strangers winner ((env, hash, label) ∷ es) n =
    let r = notifier_process_hash env hash label n in
    (if r.2 && not (same_node (source env hash label n) winner) then 1 else 0)
    + strangers winner es r.0

-- The grace period of the winner runs, from before `now` to after `until`.
abbrev pub Holds : Option ℕ → ℕ → ℕ → Notifier → Type 0
Holds winner now until n =
    (n.grace_active ≡ true)
    × (n.grace_winner_node_idx ≡ winner)
    × (n.grace_start_ns ≤ now)
    × (until ≤ n.grace_start_ns + grace_period_ns)
