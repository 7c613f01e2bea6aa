-- ===== src/Notifier/Silence.antt =====
-- silence_check_cb of src/notifier.c: nodes that have not reported a new block.
use rpcracer.Prelude.{
  ℕ, ◌≡◌, refl, arith, Bool, true, false, not, ◌&&◌, ◌||◌, List, [], ◌∷◌, ltb, leb, ◌==◌,
  if◌then◌else◌, sub64, ◌+◌,
}
use rpcracer.Notifier.{Node, Notifier}

abbrev pub silence_threshold_ns : ℕ
silence_threshold_ns = 60000000000

-- The tests of the loop body: ZeroMQ configured, not in IBD, not warned yet, nothing new reported.
unfoldable pub is_silent : Bool → ℕ → Node → Bool
is_silent ibd first n =
    not (n.zmq_port == 0)
    && (not ibd && (not n.silence_warned && not (n.has_hash && leb first n.hash_changed_ns)))

-- The loop from node i on: the nodes, and the labels that are warned about. `ibd` is
-- rpc_proxy_is_node_ibd, false with no proxy.
unfoldable pub sweep : (ℕ → Bool) → ℕ → ℕ → List Node → List Node × List (List ℕ)
unfolding is_silent
sweep ibd first i [] = ([], [])
sweep ibd first i (n ∷ ns) =
    let (rest, warned) = sweep ibd first (i + 1) ns in
    if is_silent (ibd i) first n
    then (record n { silence_warned = true } ∷ rest, n.label ∷ warned)
    else (n ∷ rest, warned)

unfoldable pub silence_check : ℕ → (ℕ → Bool) → Notifier → Notifier × List (List ℕ)
unfolding sweep
silence_check now ibd n =
    if n.first_notify_ns == 0 || ltb (sub64 now n.first_notify_ns) silence_threshold_ns
    then (n, [])
    else (let (nodes, warned) = sweep ibd n.first_notify_ns 0 n.nodes in
        (record n { nodes = nodes }, warned))

sweep_twice :
    (ibd : ℕ → Bool) (first i : ℕ) (ns : List Node)
    → (sweep ibd first i (sweep ibd first i ns).0).1 ≡ []
unfolding sweep is_silent
sweep_twice ibd first i [] = refl
sweep_twice ibd first i (n ∷ ns) = ground (arith, sweep_twice ibd first (i + 1) ns)

-- A node is warned about once for a block: a second check, at any time, while the same nodes are in
-- IBD, warns about none, if the first one came more than the threshold after the block.
pub silence_check_once :
    (now later : ℕ) (ibd : ℕ → Bool) (n : Notifier)
    → ltb (sub64 now n.first_notify_ns) silence_threshold_ns ≡ false
    → (silence_check later ibd (silence_check now ibd n).0).1 ≡ []
unfolding silence_check
silence_check_once now later ibd n h = ground (arith, sweep_twice ibd n.first_notify_ns 0 n.nodes)
