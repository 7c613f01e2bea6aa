-- ===== src/Notifier/Process.antt =====
-- notifier_process_hash of src/notifier.c: the source, duplicates and the grace period.
use rpcracer.Prelude.{
  ℕ, ◌+◌, Bool, true, false, not, ◌&&◌, ◌||◌, Option, none, some, List, [], ◌∷◌, is_some, ltb, ◌==◌,
  if◌then◌else◌, sub64,
}
use rpcracer.Framing.{str_eq}
use rpcracer.Stats.{stats_record_notify_win}
use rpcracer.Notifier.{Node, Notifier, Effect, on_notify, Env, same_bytes}
use rpcracer.Notifier.Relays.{relay}

unfoldable pub is_duplicate : Notifier → List ℕ → Bool
is_duplicate n hash = n.has_last_hash && same_bytes n.last_hash hash

-- The label of the source is looked up, and its last hash and the time of its change are kept.
unfoldable pub record_source : ℕ → List ℕ → List ℕ → ℕ → List Node → List Node × Option ℕ
record_source now hash label i [] = ([], none)
record_source now hash label i (n ∷ ns) =
    let (rest, found) = record_source now hash label (i + 1) ns in
    if str_eq n.label label
    then (
      record n {
        hash_changed_ns =
            if not n.has_hash || not (same_bytes n.last_hash hash) then now else n.hash_changed_ns;
        last_hash = hash;
        has_hash = true;
      }
          ∷ ns,
      some i,
    )
    else (n ∷ rest, found)

abbrev pub source_of : ℕ → List ℕ → Option (List ℕ) → List Node → List Node × Option ℕ
source_of now hash none ns = (ns, none)
source_of now hash (some label) ns = record_source now hash label 0 ns

abbrev pub grace_period_ns : ℕ
grace_period_ns = 10000000000

abbrev pub same_node : Option ℕ → Option ℕ → Bool
same_node none none = true
same_node (some i) (some j) = i == j
same_node _ _ = false

-- The grace period is on, and the source is not the node that started it.
unfoldable pub is_suppressed : ℕ → Option ℕ → Notifier → Bool
is_suppressed now source n =
    n.grace_active
    && (ltb (sub64 now n.grace_start_ns) grace_period_ns
        && not (same_node source n.grace_winner_node_idx))

abbrev clear_warned : List Node → List Node
clear_warned [] = []
clear_warned (n ∷ ns) = record n { silence_warned = false } ∷ clear_warned ns

-- The update of an accepted notification.
unfoldable pub accept_notify : ℕ → List ℕ → Option ℕ → Notifier → Notifier
accept_notify now hash source n = record n {
  last_hash = hash;
  has_last_hash = true;
  first_notify_ns = now;
  nodes = clear_warned n.nodes;
  grace_active = true;
  grace_start_ns = now;
  grace_winner_node_idx = source;
  stats = elim n.stats [
    | none ↦ none
    | some s ↦ if is_some source then some (stats_record_notify_win source s) else some s
  ];
}

-- notifier_process_hash: the notifier, what it did, and its result.
unfoldable pub notifier_process_hash :
    Env → List ℕ → Option (List ℕ) → Notifier → Notifier × List Effect × Bool
unfolding is_duplicate record_source is_suppressed accept_notify relay
notifier_process_hash env hash label n0 =
    let (nodes, source) = source_of env.now hash label n0.nodes in
    let n : Notifier = record n0 { nodes = nodes } in
    if is_duplicate n0 hash
    then (n, [], false)
    else (if is_suppressed env.now source n
        then (let (n', effects) = relay env hash n in (n', effects, false))
        else (let (n', effects) = relay env hash (accept_notify env.now hash source n) in
            (n', on_notify hash ∷ effects, true)))
