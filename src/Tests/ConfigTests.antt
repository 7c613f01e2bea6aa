-- ===== src/Tests/ConfigTests.antt =====
-- A configuration of two nodes, its document, a notify URL, log lines and statistics.
use rpcracer.Prelude.{
  ℕ, ◌≡◌, refl, ap, arith, suc, true, none, some, List, [], ◌∷◌, ◌++◌, map, length, get_elem?,
  Ensures,
}
use rpcracer.Framing.{codes}
use rpcracer.Config.{Config, NodeConfig, contents, config_load}
use rpcracer.Config.Valid.{IsValid}
use rpcracer.Config.Load.{config_load-IsValid}
use rpcracer.Config.Roundtrip.{
  Document, text, number, node, node_array, root, documents, items_of, size_of,
  config_load_document,
}
use rpcracer.Notifier.Url.{parse_http_url}
use rpcracer.Notifier.Url.Roundtrip.{url_of, parse-url_of}
use rpcracer.Log.{padded, Time, log_msg, time_str}
use rpcracer.Log.Line.{IsWritten, log_msg_lem}
use rpcracer.Stats.{stats_create, zero_stats}
use rpcracer.Stats.Report.{report}
use rpcracer.Stats.Report.Nodes.{IsAverage, entry_of, report-node_report}

abbrev node_a : NodeConfig
node_a = record { host = codes "10.0.0.1"; rpc_port = 8332; zmq_port = 0; label = codes "a" }

abbrev node_b : NodeConfig
node_b = record { host = codes "10.0.0.2"; rpc_port = 8332; zmq_port = 28332; label = codes "b" }

abbrev pub config : Config
config = record {
  nodes = node_a ∷ node_b ∷ [];
  node_count = 2;
  rpc_server_bind = codes "127.0.0.1";
  rpc_server_port = 8332;
  http_server_bind = codes "0.0.0.0";
  http_server_port = 7152;
  zmq_server_bind = codes "0.0.0.0";
  zmq_server_port = 28333;
  notify_http_url = codes "http://pool:8080/n";
  ck_notify_socket = [];
  rpc_timeout_ms = 5000;
  log_verbosity = 2;
}

-- Every text parses to the document of the configuration.
length-nodes : (ns : List NodeConfig) → length (map node ns) ≡ length ns
length-nodes [] = refl
length-nodes (n ∷ ns) = ap suc (length-nodes ns)

size-items : (v : Document) → length (items_of v) ≡ size_of v
size-items (text s) = refl
size-items (number n) = refl
size-items (node n) = refl
size-items (node_array ns) = length-nodes ns
size-items (root c) = refl

config_load-IsValid_example :
    Ensures IsValid (config_load (documents (λ _. some (root config))) items_of (contents []) true)
config_load-IsValid_example =
    config_load-IsValid (documents (λ _. some (root config))) items_of size-items (contents []) true

config-IsValid : IsValid config
config-IsValid = ground arith

config_load_document_example :
    config_load (documents (λ _. some (root config))) items_of (contents (codes "{}")) true
    ≡ some config
config_load_document_example =
    config_load_document (λ _. some (root config)) config (codes "{}") config-IsValid refl

parse-url_of_example :
    parse_http_url 256 512 (url_of (codes "pool") 8080 (codes "n"))
    ≡ some (codes "pool", 8080, codes "/n")
parse-url_of_example =
    parse-url_of 256 512 8080 (codes "pool") (codes "n") (ground arith) (omega arith) (omega arith)
      (omega arith) (omega arith) (omega arith)

abbrev time : Time
time = record {
  year = 2025;
  month = 1;
  day = 15;
  hour = 14;
  minute = 30;
  second = 5;
  usec = 123456;
}

log_msg_lem_example :
    IsWritten 2 1
      (time_str time ++ codes " [WARN] [main] up")
      (log_msg 2 (time_str time) 1 (codes "[main] up"))
unfolding time_str padded
log_msg_lem_example = log_msg_lem 2 1 (time_str time) (codes "[main] up") (omega arith)

report-node_report_example :
    let r = report 5000 (stats_create 2 1000) (codes "a" ∷ codes "b" ∷ []) none in
    (length r.nodes ≡ 2)
    × ((average : ℕ) × (get_elem? r.nodes 1
          ≡ some (entry_of zero_stats (codes "b") (codes "unknown") average))
        × IsAverage zero_stats average)
unfolding stats_create
report-node_report_example =
    report-node_report 5000 (stats_create 2 1000) (codes "a" ∷ codes "b" ∷ []) none 1 zero_stats
      (codes "b") (omega arith) (omega arith) (omega arith) refl refl
