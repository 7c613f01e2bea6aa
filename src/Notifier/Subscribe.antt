-- ===== src/Notifier/Subscribe.antt =====
-- Reception from the nodes' ZeroMQ sockets in src/notifier.c: drain_zmq_socket and zmq_fd_event_cb.
--
-- ZeroMQ delivers the frames of a message together, so a message is its first frame and the others.
-- What zmq_msg_recv gives until it fails is the list of messages of one call, each with the answers
-- to the notification that it may be.
pub mod History
use rpcracer.Prelude.{
  ℕ, Bool, true, false, not, ◌&&◌, ◌||◌, some, List, [], ◌∷◌, ◌++◌, length, ◌==◌, if◌then◌else◌,
}
use rpcracer.Framing.{codes}
use rpcracer.Notifier.{Node, Notifier, Env, Effect, same_bytes}
use rpcracer.Notifier.Process.{notifier_process_hash}

pub record Message : Type 0 where
  pub topic : List ℕ
  pub more : List (List ℕ)

abbrev pub hash_size : ℕ
hash_size = 32

-- The body of the loop for one message: other topics, a missing hash frame and a hash frame of
-- another size are skipped with the rest of the message.
unfoldable pub on_frames : List ℕ → Env → List ℕ → List (List ℕ) → Notifier → Notifier × List Effect
on_frames label env topic [] n = (n, [])
on_frames label env topic (hash ∷ others) n =
    if same_bytes topic (codes "hashblock") && length hash == hash_size
    then (let (n', effects, accepted) = notifier_process_hash env hash (some label) n in
        (n', effects))
    else (n, [])

-- drain_zmq_socket for the socket of the node with this label.
unfoldable pub drain_zmq_socket : List ℕ → List (Env × Message) → Notifier → Notifier × List Effect
unfolding on_frames
drain_zmq_socket label [] n = (n, [])
drain_zmq_socket label ((env, m) ∷ ms) n =
    let (n1, e1) = on_frames label env m.topic m.more n in
    let (n2, e2) = drain_zmq_socket label ms n1 in (n2, e1 ++ e2)

-- What one socket has: ZMQ_EVENTS cannot be read, or has no ZMQ_POLLIN, or messages are received.
pub data Poll : Type 0 where
  unreadable quiet : Poll
  pending : List (Env × Message) → Poll

-- zmq_subs with node_map: the labels of the nodes that have a port, in order.
unfoldable pub sub_labels : List Node → List (List ℕ)
sub_labels [] = []
sub_labels (n ∷ ns) = if n.zmq_port == 0 then sub_labels ns else n.label ∷ sub_labels ns

-- The inner loop of zmq_fd_event_cb, with `activity`.
unfoldable pub poll_sockets : List (List ℕ) → List Poll → Notifier → Notifier × List Effect × Bool
unfolding drain_zmq_socket
poll_sockets [] ps n = (n, [], false)
poll_sockets (label ∷ labels) [] n = (n, [], false)
poll_sockets (label ∷ labels) (unreadable ∷ ps) n = poll_sockets labels ps n
poll_sockets (label ∷ labels) (quiet ∷ ps) n = poll_sockets labels ps n
poll_sockets (label ∷ labels) (pending ms ∷ ps) n =
    let (n1, e1) = drain_zmq_socket label ms n in
    let (n2, e2, activity) = poll_sockets labels ps n1 in (n2, e1 ++ e2, true)

-- The outer loop: one list of polls for each round; a round without activity ends it.
unfoldable pub poll_rounds : List (List ℕ) → List (List Poll) → Notifier → Notifier × List Effect
unfolding poll_sockets
poll_rounds labels [] n = (n, [])
poll_rounds labels (ps ∷ rounds) n =
    let (n1, e1, activity) = poll_sockets labels ps n in
    let (n2, e2) = poll_rounds labels rounds n1 in if activity then (n2, e1 ++ e2) else (n1, e1)

unfoldable pub zmq_fd_event_cb : List (List Poll) → Notifier → Notifier × List Effect
unfolding sub_labels poll_rounds
zmq_fd_event_cb rounds n = poll_rounds (sub_labels n.nodes) rounds n
