-- ===== src/Proxy/Failure.antt =====
-- on_upstream_error of src/rpc_proxy.c: one retry per node on the standby, then failure.
use rpcracer.Prelude.{
  ℕ, ◌-◌, Bool, ◌&&◌, ◌||◌, none, some, ◌==◌, if◌then◌else◌, get_elem?, set, is_some,
}
use rpcracer.EventLoop.{Slot, Kernel}
use rpcracer.Conn.{client_recv_buf, rpc_conn_send}
use rpcracer.Pair.{Pair, at, put, active, conn_pair_report_error}
use rpcracer.Proxy.{Proxy, is_idle, close_client, race_complete, drain}

-- proxy->node_retried[i] = true.
abbrev pub mark : ℕ → (ℕ → Bool) → ℕ → Bool
mark i retried j = i == j || retried j

-- The node's failure counts as a response; the race may be over.
unfoldable pub node_failed : Kernel → ℕ → Proxy → Proxy
node_failed k node p0 =
    let p : Proxy = record p0 {
      responses_pending = p0.responses_pending - 1;
      last_error_idx = some node;
    } in
    if p.responses_pending == 0
    then race_complete k (if is_some p.winner_idx then p else close_client p)
    else p

-- The retry on the new active connection, if the swap produced one that is connected.
unfoldable pub retry : Kernel → ℕ → ℕ → Pair → Proxy → Proxy
unfolding node_failed
retry k node i q p0 =
    let (q1, l1, available) = conn_pair_report_error q p0.loop in
    let p : Proxy = record p0 {
      pairs = set p0.pairs i q1;
      loop = l1;
      node_retried = mark node p0.node_retried;
    } in
    let (c, l2, ok) = rpc_conn_send k (some client_recv_buf) p0.request_len (active q1) l1 in
    if available && ok
    then record p { pairs = set p0.pairs i (put q1.active_idx c q1); loop = l2 }
    else node_failed k node p

unfoldable pub fail_or_retry : Kernel → ℕ → ℕ → Pair → Proxy → Proxy
unfolding retry node_failed
fail_or_retry k node i q p =
    if p.node_retried node then node_failed k node p else retry k node i q p

-- on_upstream_error for slot s of pair i.
unfoldable pub on_upstream_error : Kernel → ℕ → Slot → Proxy → Proxy
unfolding fail_or_retry drain
on_upstream_error k i s p = elim (get_elem? p.pairs i) [
  | none ↦ p
  | some q ↦ if is_idle p.state then drain k i s p else fail_or_retry k (at s q).node_index i q p
]
