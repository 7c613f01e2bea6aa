-- ===== src/Stats/Report/Nodes.antt =====
-- The entries per node in the statistics document of src/stats.c.
use native.Mathlib.Nat.{div-mul-le_self, lt-div-mul-add}
use rpcracer.Prelude.{
  ℕ, zero, suc, ◌+◌, ◌*◌, ◌≤◌, ◌<◌, ◌≡◌, ◌⊎◌, inl, inr, refl, ap, ◌∙◌, arith, Option, some, List,
  [], ◌∷◌, length, get_elem?, ltb, if_rule,
}
use rpcracer.Framing.{codes}
use rpcracer.Stats.{NodeStats, Stats, average_us}
use rpcracer.Stats.Report.{NodeReport, node_report, node_reports, state_of, report}

length-node_reports :
    (states : Option (List (List ℕ))) (i count : ℕ) (per_node : List NodeStats)
    (labels : List (List ℕ))
    → count ≤ length per_node
    → count ≤ length labels
    → length (node_reports states i count per_node labels) ≡ count
unfolding node_reports
length-node_reports states i zero per_node labels h g = refl
length-node_reports states i (suc count) [] labels h g = absurd (omega arith)
length-node_reports states i (suc count) (ns ∷ per_node) [] h g = absurd (omega arith)
length-node_reports states i (suc count) (ns ∷ per_node) (label ∷ labels) h g =
    ap suc (length-node_reports states (suc i) count per_node labels (omega arith) (omega arith))

shift : (i k : ℕ) → suc i + k ≡ i + suc k
shift i k = omega arith

entry :
    (states : Option (List (List ℕ))) (i count k : ℕ) (per_node : List NodeStats)
    (labels : List (List ℕ)) (ns : NodeStats) (label : List ℕ)
    → k < count
    → get_elem? per_node k ≡ some ns
    → get_elem? labels k ≡ some label
    → get_elem? (node_reports states i count per_node labels) k
      ≡ some (node_report ns label (state_of states (i + k)))
unfolding node_reports
entry states i zero k per_node labels ns label h p l = absurd (omega arith)
entry states i (suc count) k [] labels ns label h p l = absurd (ground arith)
entry states i (suc count) k (x ∷ xs) [] ns label h p l = absurd (ground arith)
entry states i (suc count) zero (x ∷ xs) (y ∷ ys) ns label h p l =
    let z : i + 0 ≡ i = omega arith in cc
entry states i (suc count) (suc k) (x ∷ xs) (y ∷ ys) ns label h p l =
    entry states (suc i) count k xs ys ns label (omega arith) p l
    ∙ ap (λ j. some (node_report ns label (state_of states j))) (shift i k)

-- The average is the total time over the wins, rounded down, and 0 without a win.
abbrev pub IsAverage : NodeStats → ℕ → Type 0
IsAverage ns a =
    ((ns.gbt_wins ≡ 0) × (a ≡ 0))
    ⊎ ((a * ns.gbt_wins ≤ ns.gbt_total_time_us)
        × (ns.gbt_total_time_us < a * ns.gbt_wins + ns.gbt_wins))

average_us-IsAverage : (ns : NodeStats) → IsAverage ns (average_us ns)
unfolding average_us
average_us-IsAverage ns =
    if_rule (IsAverage ns) (ltb 0 ns.gbt_wins) _ _
      (λ h. inr (
        div-mul-le_self ns.gbt_total_time_us ns.gbt_wins,
        lt-div-mul-add {a = ns.gbt_total_time_us} {b = ns.gbt_wins} (ground arith),
      ))
      (λ h. inl (ground arith, refl))

plus_zero : (k : ℕ) → 0 + k ≡ k
plus_zero k = omega arith

-- The entry of a node with these counters, this label and state, and this average.
abbrev pub entry_of : NodeStats → List ℕ → List ℕ → ℕ → NodeReport
entry_of ns label state average = record {
  label = label;
  race_gbt =
      (codes "avg_us", average)
      ∷ (codes "last_us", ns.gbt_response_time_us)
      ∷ (codes "since_notify_us", ns.gbt_last_since_notify_us)
      ∷ (codes "wins", ns.gbt_wins)
      ∷ (codes "last_tx_count", ns.gbt_last_tx_count)
      ∷ [];
  notify_wins = ns.notify_wins;
  state = state;
}

-- The document has an entry for each node, with its label and its state; under each name it has the
-- counter of the node that the name stands for, and as the average the total time over the wins,
-- rounded down, or 0 without a win; if the arrays are as long as the node count.
pub report-node_report :
    (now : ℕ) (s : Stats) (labels : List (List ℕ)) (states : Option (List (List ℕ))) (k : ℕ)
    (ns : NodeStats) (label : List ℕ)
    → s.node_count ≤ length s.per_node
    → s.node_count ≤ length labels
    → k < s.node_count
    → get_elem? s.per_node k ≡ some ns
    → get_elem? labels k ≡ some label
    → let r = report now s labels states in
      (length r.nodes ≡ s.node_count)
      × ((average : ℕ) × (get_elem? r.nodes k
            ≡ some (entry_of ns label (state_of states k) average))
          × IsAverage ns average)
unfolding report node_report
report-node_report now s labels states k ns label many named h p l = (
  length-node_reports states 0 s.node_count s.per_node labels many named,
  (
    average_us ns,
    entry states 0 s.node_count k s.per_node labels ns label h p l
        ∙ ap (λ j. some (node_report ns label (state_of states j))) (plus_zero k),
    average_us-IsAverage ns,
  ),
)
