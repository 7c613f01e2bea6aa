-- ===== src/Tests/NotifierTests.antt =====
-- A notifier of two nodes, and notifications to it.
use rpcracer.Prelude.{ℕ, refl, true, false, none, some, List, [], ◌∷◌}
use rpcracer.Framing.{codes}
use rpcracer.Notifier.{Notifier, Node, Env, would_block, wrote}
use rpcracer.Notifier.Process.{notifier_process_hash}
use rpcracer.Notifier.Sockets.{SocketAnswers, established}
use rpcracer.Notifier.Grace.{Refuses, accepted_once}

abbrev node : List ℕ → Node
node label = record {
  label = label;
  zmq_port = 28332;
  last_hash = [];
  has_hash = false;
  hash_changed_ns = 0;
  silence_warned = false;
}

abbrev pub notifier : Notifier
notifier = record {
  zmq_pub = true;
  zmq_pub_seq = 0;
  last_hash = [];
  has_last_hash = false;
  notify_http_fd = none;
  notify_http_connected = false;
  notify_http_host = codes "pool";
  notify_http_port = 80;
  notify_http_path = codes "/notify/%s";
  notify_http_configured = true;
  ck_fd = none;
  ck_configured = false;
  nodes = node (codes "a") ∷ node (codes "b") ∷ [];
  first_notify_ns = 0;
  grace_active = false;
  grace_start_ns = 0;
  grace_winner_node_idx = none;
  stats = none;
}

-- The same notifier in the grace period of node 0, which began at 1000.
abbrev in_grace : Notifier
in_grace = record notifier {
  first_notify_ns = 1000;
  grace_active = true;
  grace_start_ns = 1000;
  grace_winner_node_idx = some 0;
}

-- No socket can be made.
abbrev pub no_socket : SocketAnswers
no_socket = record {
  inet_pton = true;
  gethostbyname = true;
  socket = none;
  getfl = true;
  setfl = true;
  connect = established;
}

abbrev pub env : ℕ → Env
env now = record {
  now = now;
  topic_sent = true;
  hash_sent = true;
  seq_sent = true;
  http_connect = no_socket;
  http_write = would_block;
  ck_connect = no_socket;
  ck_write = wrote 10;
}

accepted_once_example :
    Refuses
      (env 9000)
      (1 ∷ [])
      (some (codes "b"))
      (notifier_process_hash (env 5000) (1 ∷ []) (some (codes "a")) notifier).0
unfolding notifier_process_hash
accepted_once_example =
    accepted_once (env 5000) (env 9000) (1 ∷ []) (some (codes "a")) (some (codes "b")) notifier refl
