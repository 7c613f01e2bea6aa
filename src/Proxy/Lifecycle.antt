-- ===== src/Proxy/Lifecycle.antt =====
-- Creating and destroying the proxy, and the states that it reports, in src/rpc_proxy.c.
use rpcracer.Prelude.{
  ℕ, zero, suc, ◌+◌, Bool, false, Option, none, some, List, [], ◌∷◌, ◌++◌, if◌then◌else◌, get_elem?,
  take, is_some, pos, negsuc,
}
use rpcracer.EventLoop.{Loop, Kernel, epoll_in, listener_cb, add_fd, del_fd}
use rpcracer.Framing.{codes}
use rpcracer.Conn.{ConnState, disconnected, connecting, connected, sending, receiving}
use rpcracer.Pair.{
  Pair, InitAnswers, active, conn_pair_init, conn_pair_destroy, conn_pair_set_callbacks,
}
use rpcracer.Stats.{Stats}
use rpcracer.Proxy.{Proxy, race_idle, close_client, cancel_rpc_timeout}

unfoldable pub destroy_pairs : List Pair → Loop → Loop
destroy_pairs [] l = l
destroy_pairs (q ∷ qs) l = destroy_pairs qs (conn_pair_destroy q l).1

-- The loop of rpc_proxy_create over the nodes i, i + 1, ... : a failure destroys the pairs before it.
unfoldable pub init_pairs :
    Kernel → (ℕ → InitAnswers) → ℕ → ℕ → List Pair → Loop → Option (List Pair) × Loop
unfolding destroy_pairs
init_pairs k answers i zero done l = (some done, l)
init_pairs k answers i (suc n) done l =
    let (made, l') = conn_pair_init k (answers i) i l in
    elim made [
      | none ↦ (none, destroy_pairs done l')
      | some q ↦ init_pairs k answers (i + 1) n (done ++ (conn_pair_set_callbacks q ∷ [])) l'
    ]

-- setup_listener, where socket(), inet_pton(), bind() and listen() give the descriptor or fail.
unfoldable pub setup_listener : Kernel → Option ℕ → Loop → Option ℕ × Loop
setup_listener k none l = (none, l)
setup_listener k (some fd) l =
    let (l', added) = add_fd k l (some fd) epoll_in listener_cb in
    if added then (some fd, l') else (none, l')

-- The proxy at the end of rpc_proxy_create; `buf` is the buffer from malloc.
unfoldable pub initial : ℕ → List ℕ → List Pair → Option ℕ → Loop → Proxy
initial timeout_ms buf pairs listener l = record {
  loop = l;
  listen_fd = listener;
  rpc_timeout_ms = timeout_ms;
  stats = none;
  state = race_idle;
  sticky_node_idx = none;
  last_block_height = pos 0;
  notify_pending = false;
  last_notify_ns = 0;
  responses_pending = 0;
  winner_idx = none;
  last_error_idx = none;
  all_must_complete = false;
  best_gbt_height = negsuc 0;
  best_gbt_node_idx = none;
  gbt_height_matched = false;
  client_fd = none;
  client_recv_buf = buf;
  client_recv_len = 0;
  client_connected = false;
  method = [];
  pairs = pairs;
  node_retried = λ _. false;
  request_len = 0;
  rpc_timeout_timer_fd = none;
  client_out = [];
}

-- rpc_proxy_create for a configuration of so many nodes.
unfoldable pub rpc_proxy_create :
    Kernel → Option (List ℕ) → (ℕ → InitAnswers) → Option ℕ → ℕ → ℕ → Loop → Option Proxy × Loop
unfolding init_pairs setup_listener initial destroy_pairs
rpc_proxy_create k none answers socket timeout_ms nodes l = (none, l)
rpc_proxy_create k (some buf) answers socket timeout_ms nodes l =
    let (made, l1) = init_pairs k answers 0 nodes [] l in
    elim made [
      | none ↦ (none, l1)
      | some qs ↦
          let (listener, l2) = setup_listener k socket l1 in
          if is_some listener
          then (some (initial timeout_ms buf qs listener l2), l2)
          else (none, destroy_pairs qs l2)
    ]

-- rpc_proxy_destroy: the event loop that is left.
unfoldable pub rpc_proxy_destroy : Proxy → Loop
unfolding cancel_rpc_timeout close_client destroy_pairs
rpc_proxy_destroy p0 =
    let p = close_client (cancel_rpc_timeout p0) in
    destroy_pairs p.pairs (del_fd p.loop p.listen_fd).0

-- rpc_proxy_set_stats.
unfoldable pub rpc_proxy_set_stats : Option Stats → Proxy → Proxy
rpc_proxy_set_stats s p = record p { stats = s }

abbrev state_name : ConnState → List ℕ
state_name disconnected = codes "disconnected"
state_name connecting = codes "connecting"
state_name connected = codes "connected"
state_name sending = codes "sending"
state_name receiving = codes "receiving"

names : List Pair → List (List ℕ)
names [] = []
names (q ∷ qs) = (if (active q).in_ibd then codes "ibd" else state_name (active q).state) ∷ names qs

-- rpc_proxy_get_states: the entries of `out` that it sets, for i < count and i < pair_count.
unfoldable pub rpc_proxy_get_states : ℕ → Proxy → List (List ℕ)
unfolding names
rpc_proxy_get_states count p = names (take count p.pairs)

-- rpc_proxy_is_node_ibd.
unfoldable pub rpc_proxy_is_node_ibd : Proxy → ℕ → Bool
rpc_proxy_is_node_ibd p i = elim (get_elem? p.pairs i) [ none ↦ false | some q ↦ (active q).in_ibd ]
