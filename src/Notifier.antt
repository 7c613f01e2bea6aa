-- ===== src/Notifier.antt =====
-- src/notifier.c: block notifications, with the suppression of duplicates, the grace period, the
-- silence check, and the relays to ZeroMQ, HTTP and ckpool.
--
-- The arrays by node index, and the label and ZeroMQ port of the configured node, are a list of
-- `Node`. What the process does to the outside is a list of `Effect`, in order.
pub mod Announced
pub mod Grace
pub mod Silence
pub mod Url
pub mod Sockets
pub mod Relays
pub mod Process
pub mod Descriptors
pub mod Created
pub mod Subscribe
use rpcracer.Prelude.{ℕ, Bool, true, false, ◌&&◌, Option, List, [], ◌∷◌, ◌==◌}
use rpcracer.Notifier.Sockets.{SocketAnswers}
use rpcracer.Stats.{Stats}

pub record Node : Type 0 where
  pub label : List ℕ
  pub zmq_port : ℕ
  pub last_hash : List ℕ
  pub has_hash : Bool
  pub hash_changed_ns : ℕ
  pub silence_warned : Bool

pub record Notifier : Type 0 where
  pub zmq_pub : Bool
  pub zmq_pub_seq : ℕ
  pub last_hash : List ℕ
  pub has_last_hash : Bool
  pub notify_http_fd : Option ℕ
  pub notify_http_connected : Bool
  pub notify_http_host : List ℕ
  pub notify_http_port : ℕ
  pub notify_http_path : List ℕ
  pub notify_http_configured : Bool
  pub ck_fd : Option ℕ
  pub ck_configured : Bool
  pub nodes : List Node
  pub first_notify_ns : ℕ
  pub grace_active : Bool
  pub grace_start_ns : ℕ
  pub grace_winner_node_idx : Option ℕ
  pub stats : Option Stats

-- notifier_set_stats.
abbrev pub notifier_set_stats : Option Stats → Notifier → Notifier
notifier_set_stats s n = record n { stats = s }

pub data Effect : Type 0 where
  on_notify relay_zmq relay_http : List ℕ → Effect
  relay_ck : Effect
  opened closed : ℕ → Effect

-- What write() answers.
pub data Written : Type 0 where
  wrote : ℕ → Written
  would_block broken : Written

-- The answers to one notification: the clock, the three frames of ZeroMQ, and the connects and
-- writes of the other two relays.
pub record Env : Type 0 where
  pub now : ℕ
  pub topic_sent : Bool
  pub hash_sent : Bool
  pub seq_sent : Bool
  pub http_connect : SocketAnswers
  pub http_write : Written
  pub ck_connect : SocketAnswers
  pub ck_write : Written

-- memcmp of two hashes.
unfoldable pub same_bytes : List ℕ → List ℕ → Bool
same_bytes [] [] = true
same_bytes (x ∷ xs) (y ∷ ys) = x == y && same_bytes xs ys
same_bytes _ _ = false
