-- ===== src/Stats/Laws.antt =====
-- What the counters of src/stats.c add up to.
use rpcracer.Prelude.{
  ℕ, zero, suc, ◌+◌, ◌%◌, ◌≤◌, ◌<◌, ◌≡◌, refl, arith, Option, none, some, List, [], ◌∷◌, length,
  u32_mod, ap,
}
use rpcracer.Stats.{
  Stats, NodeStats, update_node, won, gbt_sample, first_to_notify, stats_create, stats_record_gbt,
  stats_record_race_win, stats_record_notify_win, stats_record_notify_to_gbt, stats_record_request,
  stats_record_notify_time,
}

abbrev pub total_wins : List NodeStats → ℕ
total_wins [] = 0
total_wins (n ∷ ns) = n.gbt_wins + total_wins ns

-- The race counter is the sum of the nodes' wins, as a uint32_t, and the array holds every node.
pub record IsConsistent (s : Stats) : Type 0 where
  pub sized : s.node_count ≤ length s.per_node
  pub balanced : s.total_races ≡ total_wins s.per_node % u32_mod

length-update_node :
    (i : ℕ) (f : NodeStats → NodeStats) (ns : List NodeStats)
    → length (update_node i f ns) ≡ length ns
unfolding update_node
length-update_node i f [] = refl
length-update_node zero f (n ∷ ns) = refl
length-update_node (suc i) f (n ∷ ns) = ap suc (length-update_node i f ns)

total_wins-won :
    (i : ℕ) (ns : List NodeStats)
    → i < length ns
    → total_wins (update_node i won ns) % u32_mod ≡ (total_wins ns + 1) % u32_mod
unfolding update_node won
total_wins-won i [] h = absurd (omega arith)
total_wins-won zero (n ∷ ns) h = omega arith
total_wins-won (suc i) (n ∷ ns) h = omega (arith, total_wins-won i ns (omega arith))

-- An update that leaves the wins of a node alone leaves the total alone.
total_wins-update :
    (i : ℕ) (f : NodeStats → NodeStats) (ns : List NodeStats)
    → ((n : NodeStats) → (f n).gbt_wins ≡ n.gbt_wins)
    → total_wins (update_node i f ns) ≡ total_wins ns
unfolding update_node
total_wins-update i f [] h = refl
total_wins-update zero f (n ∷ ns) h = omega (arith, h n)
total_wins-update (suc i) f (n ∷ ns) h = omega (arith, total_wins-update i f ns h)

-- The recording functions.
pub data Op : Type 0 where
  gbt : Option ℕ → ℕ → ℕ → ℕ → Op
  race_win notify_win : Option ℕ → Op
  notify_to_gbt notify_time : ℕ → Op
  request : Op

abbrev pub apply : Op → Stats → Stats
apply (gbt node time tx since) s = stats_record_gbt node time tx since s
apply (race_win node) s = stats_record_race_win node s
apply (notify_win node) s = stats_record_notify_win node s
apply (notify_to_gbt us) s = stats_record_notify_to_gbt us s
apply (notify_time ns) s = stats_record_notify_time ns s
apply request s = stats_record_request s

race_win-IsConsistent :
    (node : Option ℕ) (s : Stats) → IsConsistent s → IsConsistent (stats_record_race_win node s)
unfolding stats_record_race_win
race_win-IsConsistent none s c = c
race_win-IsConsistent (some i) s c =
    ground (arith, total_wins-won i s.per_node, length-update_node i won s.per_node)

abbrev KeepsWins : (NodeStats → NodeStats) → Type 0
KeepsWins f = (n : NodeStats) → (f n).gbt_wins ≡ n.gbt_wins

update-IsConsistent :
    (i : ℕ) (f : NodeStats → NodeStats) (s : Stats)
    → KeepsWins f
    → IsConsistent s
    → IsConsistent (record s { per_node = update_node i f s.per_node })
update-IsConsistent i f s h c =
    ground (arith, total_wins-update i f s.per_node h, length-update_node i f s.per_node)

gbt-IsConsistent :
    (node : Option ℕ) (time tx since : ℕ) (s : Stats)
    → IsConsistent s
    → IsConsistent (stats_record_gbt node time tx since s)
unfolding stats_record_gbt gbt_sample
gbt-IsConsistent none time tx since s c = c
gbt-IsConsistent (some i) time tx since s c =
    ground (arith, update-IsConsistent i (gbt_sample time tx since) s (λ n. refl) c)

notify_win-IsConsistent :
    (node : Option ℕ) (s : Stats) → IsConsistent s → IsConsistent (stats_record_notify_win node s)
unfolding stats_record_notify_win first_to_notify
notify_win-IsConsistent none s c = c
notify_win-IsConsistent (some i) s c =
    ground (arith, update-IsConsistent i first_to_notify s (λ n. refl) c)

-- Every recording function, with any node index, keeps the race counter equal to the sum of the
-- wins of all nodes, as 32-bit words, and the node array large enough.
pub apply-IsConsistent : (o : Op) (s : Stats) → IsConsistent s → IsConsistent (apply o s)
unfolding stats_record_notify_to_gbt stats_record_notify_time stats_record_request
apply-IsConsistent (gbt node time tx since) s c = gbt-IsConsistent node time tx since s c
apply-IsConsistent (race_win node) s c = race_win-IsConsistent node s c
apply-IsConsistent (notify_win node) s c = notify_win-IsConsistent node s c
apply-IsConsistent (notify_to_gbt us) s c = ground arith
apply-IsConsistent (notify_time ns) s c = ground arith
apply-IsConsistent request s c = ground arith

pub stats_create-IsConsistent : (n now : ℕ) → n ≤ 16 → IsConsistent (stats_create n now)
unfolding stats_create
stats_create-IsConsistent n now h = ground arith
