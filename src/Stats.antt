-- ===== src/Stats.antt =====
-- src/stats.c and stats.h: the counters and times per node. The counters are uint32_t and the times
-- uint64_t, which wrap. A node index that C holds as a negative int is `none`.
pub mod Laws
pub mod Report
use rpcracer.Prelude.{
  ℕ, zero, suc, ◌/◌, Bool, true, false, Option, none, some, List, [], ◌∷◌, ltb, ◌==◌, if◌then◌else◌,
  get_elem?, set, add32, add64, sub64,
}

-- node_stats_t.
pub record NodeStats : Type 0 where
  pub gbt_response_time_us : ℕ
  pub gbt_total_time_us : ℕ
  pub gbt_wins : ℕ
  pub gbt_last_tx_count : ℕ
  pub last_response_time_us : ℕ
  pub gbt_last_since_notify_us : ℕ
  pub notify_wins : ℕ

abbrev pub zero_stats : NodeStats
zero_stats = record {
  gbt_response_time_us = 0;
  gbt_total_time_us = 0;
  gbt_wins = 0;
  gbt_last_tx_count = 0;
  last_response_time_us = 0;
  gbt_last_since_notify_us = 0;
  notify_wins = 0;
}

-- struct stats; `per_node` is the array of MAX_NODES entries.
pub record Stats : Type 0 where
  pub per_node : List NodeStats
  pub node_count : ℕ
  pub last_notify_to_gbt_us : ℕ
  pub last_notify_time_ns : ℕ
  pub total_races : ℕ
  pub total_rpc_requests : ℕ
  pub start_time_ns : ℕ

abbrev pub max_nodes : ℕ
max_nodes = 16

abbrev zeros : ℕ → List NodeStats
zeros zero = []
zeros (suc n) = zero_stats ∷ zeros n

-- stats_create, when calloc succeeds.
unfoldable pub stats_create : ℕ → ℕ → Stats
stats_create node_count now = record {
  per_node = zeros max_nodes;
  node_count = node_count;
  last_notify_to_gbt_us = 0;
  last_notify_time_ns = 0;
  total_races = 0;
  total_rpc_requests = 0;
  start_time_ns = now;
}

-- per_node[i] changed by f; an index outside the array would be a fault and changes nothing.
unfoldable pub update_node : ℕ → (NodeStats → NodeStats) → List NodeStats → List NodeStats
update_node i f [] = []
update_node zero f (n ∷ ns) = f n ∷ ns
update_node (suc i) f (n ∷ ns) = n ∷ update_node i f ns

-- `node_idx < 0 || node_idx >= s->node_count`, turned round.
abbrev pub in_range : Option ℕ → Stats → Bool
in_range none s = false
in_range (some i) s = ltb i s.node_count

abbrev index : Option ℕ → ℕ
index none = 0
index (some i) = i

gbt_sample : ℕ → ℕ → ℕ → NodeStats → NodeStats
gbt_sample time tx since n = record n {
  gbt_response_time_us = time;
  gbt_total_time_us = add64 n.gbt_total_time_us time;
  gbt_last_tx_count = tx;
  last_response_time_us = time;
  gbt_last_since_notify_us = since;
}

unfoldable pub stats_record_gbt : Option ℕ → ℕ → ℕ → ℕ → Stats → Stats
unfolding update_node gbt_sample
stats_record_gbt node time tx since s =
    if in_range node s
    then record s { per_node = update_node (index node) (gbt_sample time tx since) s.per_node }
    else s

won : NodeStats → NodeStats
won n = record n { gbt_wins = add32 n.gbt_wins 1 }

unfoldable pub stats_record_race_win : Option ℕ → Stats → Stats
unfolding update_node won
stats_record_race_win node s =
    if in_range node s
    then record s {
      per_node = update_node (index node) won s.per_node;
      total_races = add32 s.total_races 1;
    }
    else s

first_to_notify : NodeStats → NodeStats
first_to_notify n = record n { notify_wins = add32 n.notify_wins 1 }

unfoldable pub stats_record_notify_win : Option ℕ → Stats → Stats
unfolding update_node first_to_notify
stats_record_notify_win node s =
    if in_range node s
    then record s { per_node = update_node (index node) first_to_notify s.per_node }
    else s

unfoldable pub stats_record_notify_to_gbt : ℕ → Stats → Stats
stats_record_notify_to_gbt elapsed s = record s { last_notify_to_gbt_us = elapsed }

unfoldable pub stats_record_request : Stats → Stats
stats_record_request s = record s { total_rpc_requests = add32 s.total_rpc_requests 1 }

unfoldable pub stats_record_notify_time : ℕ → Stats → Stats
stats_record_notify_time time s = record s { last_notify_time_ns = time }

-- The value that stats_serialize_json reports as avg_us of a node.
unfoldable pub average_us : NodeStats → ℕ
average_us n = if ltb 0 n.gbt_wins then n.gbt_total_time_us / n.gbt_wins else 0

-- The value that it reports as uptime_seconds.
unfoldable pub uptime_seconds : ℕ → Stats → ℕ
uptime_seconds now s = sub64 now s.start_time_ns / 1000000000
