-- ===== src/Stats/Report.antt =====
-- stats_serialize_json of src/stats.c: the document behind /stats. The JSON library is a function
-- from the document to its text, which fails where memory is short.
pub mod Nodes
use rpcracer.Prelude.{
  ℕ, zero, suc, ◌/◌, ◌*◌, ◌≤◌, ◌<◌, ◌≡◌, refl, ap, arith, Bool, true, false, Option, none, some,
  List, [], ◌∷◌, length, get_elem?, ltb, leb, if◌then◌else◌, sub64, Ensures, if_rule, option_rule,
}
use rpcracer.Framing.{codes}
use rpcracer.Stats.{NodeStats, Stats, average_us, uptime_seconds}

-- An object whose members are unsigned numbers.
abbrev pub Numbers : Type 0
Numbers = List (List ℕ × ℕ)

pub record NodeReport : Type 0 where
  pub label : List ℕ
  pub race_gbt : Numbers
  pub notify_wins : ℕ
  pub state : List ℕ

pub record Report : Type 0 where
  pub totals : Numbers
  pub nodes : List NodeReport

-- The state of a node, from the proxy if there is one.
abbrev pub state_of : Option (List (List ℕ)) → ℕ → List ℕ
state_of none i = codes "unknown"
state_of (some states) i = elim (get_elem? states i) [ none ↦ [] | some s ↦ s ]

unfoldable pub node_report : NodeStats → List ℕ → List ℕ → NodeReport
unfolding average_us
node_report ns label state = record {
  label = label;
  race_gbt =
      (codes "avg_us", average_us ns)
      ∷ (codes "last_us", ns.gbt_response_time_us)
      ∷ (codes "since_notify_us", ns.gbt_last_since_notify_us)
      ∷ (codes "wins", ns.gbt_wins)
      ∷ (codes "last_tx_count", ns.gbt_last_tx_count)
      ∷ [];
  notify_wins = ns.notify_wins;
  state = state;
}

-- The loop over the nodes from index i on, as long as there are counters and labels.
unfoldable pub node_reports :
    Option (List (List ℕ)) → ℕ → ℕ → List NodeStats → List (List ℕ) → List NodeReport
unfolding node_report
node_reports states i (suc count) (ns ∷ per_node) (label ∷ labels) =
    node_report ns label (state_of states i) ∷ node_reports states (suc i) count per_node labels
node_reports states i _ _ _ = []

unfoldable pub report : ℕ → Stats → List (List ℕ) → Option (List (List ℕ)) → Report
unfolding node_reports uptime_seconds
report now s labels states = record {
  totals =
      (codes "uptime_seconds", uptime_seconds now s)
      ∷ (codes "total_rpc_requests", s.total_rpc_requests)
      ∷ (codes "total_gbt_races", s.total_races)
      ∷ (codes "last_notify_to_gbt_us", s.last_notify_to_gbt_us)
      ∷ [];
  nodes = node_reports states 0 s.node_count s.per_node labels;
}

module _ (write : Report → Option (List ℕ)) where
  -- The text, if it fits the buffer with its NUL.
  unfoldable pub stats_serialize_json :
      ℕ → ℕ → Stats → List (List ℕ) → Option (List (List ℕ)) → Option (List ℕ)
  unfolding report
  stats_serialize_json cap now s labels states = elim (write (report now s labels states)) [
    | none ↦ none
    | some json ↦ if leb cap (length json) then none else some json
  ]
