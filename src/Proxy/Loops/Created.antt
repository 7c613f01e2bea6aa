-- ===== src/Proxy/Loops/Created.antt =====
-- The start of the proxy (src/conn_pair.c, conn_pair_init; src/rpc_proxy.c, rpc_proxy_create), on the
-- event loop.
use rpcracer.Prelude.{
  ℕ, zero, suc, ◌+◌, refl, arith, Option, none, some, List, [], ◌∷◌, ◌++◌, is_some, if_rule,
  option_rule, Ensures,
}
use rpcracer.Conn.{Conn, rpc_conn_init, rpc_conn_destroy, slot_on_connected, standby_on_connected}
use rpcracer.EventLoop.{Slot, slot0, slot1, Loop, Kernel, epoll_in, rotation_timer_cb, listener_cb}
use rpcracer.Pair.{
  Pair, InitAnswers, at, other, connect_slot, destroy_slots, conn_pair_destroy, init_timer,
  fresh_pair, connect_both, conn_pair_init, conn_pair_set_callbacks, startup_callbacks,
}
use rpcracer.Proxy.{Proxy}
use rpcracer.Proxy.Lifecycle.{destroy_pairs, init_pairs, setup_listener, initial, rpc_proxy_create}
use rpcracer.Proxy.Loops.{IsKept}
use rpcracer.Proxy.Loops.Conns.{connect_slot-P, disconnect-P}

module _ (P : Loop → Type 0) (kept : IsKept P) where
  destroy-P : (c : Conn) (l : Loop) → P l → P (rpc_conn_destroy c l).1
  unfolding rpc_conn_destroy
  destroy-P c l p = disconnect-P P kept c l p

  destroy_slots-P : (s : Slot) (q : Pair) (l : Loop) → P l → P (destroy_slots s q l).1
  unfolding destroy_slots
  destroy_slots-P s q l p = destroy-P (at (other s) q) _ (destroy-P (at s q) l p)

  pair_destroy-P : (q : Pair) (l : Loop) → P l → P (conn_pair_destroy q l).1
  unfolding conn_pair_destroy
  pair_destroy-P q l p =
      if_rule (λ (r : Pair × Loop). P r.1) (is_some q.rotation_timer_fd) _ _
        (λ _.
          destroy_slots-P slot0 (record q { rotation_timer_fd = none }) _
            (kept.remove q.rotation_timer_fd l p))
        (λ _. destroy_slots-P slot0 q l p)

  destroy_pairs-P : (qs : List Pair) (l : Loop) → P l → P (destroy_pairs qs l)
  unfolding destroy_pairs
  destroy_pairs-P [] l p = p
  destroy_pairs-P (q ∷ qs) l p = destroy_pairs-P qs _ (pair_destroy-P q l p)

  init_timer-P :
      (k : Kernel) (fd : Option ℕ) (q : Pair) (l : Loop) → P l → P (init_timer k fd q l).1
  unfolding init_timer
  init_timer-P k none q l p = destroy_slots-P slot1 q l p
  init_timer-P k (some fd) q l p =
      let added = kept.add k (some fd) epoll_in (rotation_timer_cb q.node_index) l refl p in
      if_rule (λ (r : Option Pair × Loop). P r.1) _ _ _ (λ _. added)
        (λ _. destroy_slots-P slot1 q _ added)

  pair_init-P :
      (k : Kernel) (a : InitAnswers) (i : ℕ) (l : Loop) → P l → P (conn_pair_init k a i l).1
  unfolding conn_pair_init connect_both
  pair_init-P k a i l p =
      option_rule (λ (r : Option Pair × Loop). P r.1)
        (rpc_conn_init a.buffer_0 i (startup_callbacks slot_on_connected)) _ _ (λ _. p)
        (λ c0 _.
          option_rule (λ (r : Option Pair × Loop). P r.1)
            (rpc_conn_init a.buffer_1 i (startup_callbacks standby_on_connected)) _ _
            (λ _. destroy-P c0 l p)
            (λ c1 _.
              let r = connect_slot k a.connect_0 slot0 (fresh_pair i c0 c1) l in
              init_timer-P k a.timer _ _ (
                connect_slot-P P kept k a.connect_1 slot1 r.0 r.1
                  (connect_slot-P P kept k a.connect_0 slot0 (fresh_pair i c0 c1) l p))))

  init_pairs-P :
      (k : Kernel) (answers : ℕ → InitAnswers) (i n : ℕ) (done : List Pair) (l : Loop)
      → P l
      → P (init_pairs k answers i n done l).1
  unfolding init_pairs
  init_pairs-P k answers i zero done l p = p
  init_pairs-P k answers i (suc n) done l p =
      let made = conn_pair_init k (answers i) i l in
      let begun = pair_init-P k (answers i) i l p in
      option_rule (λ (r : Option (List Pair) × Loop). P r.1) made.0 _ _
        (λ _. destroy_pairs-P done made.1 begun)
        (λ q _.
          init_pairs-P k answers (i + 1) n (done ++ (conn_pair_set_callbacks q ∷ [])) made.1 begun)

  listener-P : (k : Kernel) (fd : Option ℕ) (l : Loop) → P l → P (setup_listener k fd l).1
  unfolding setup_listener
  listener-P k none l p = p
  listener-P k (some fd) l p = ground (arith, kept.add k (some fd) epoll_in listener_cb l refl p)

  -- The proxy that rpc_proxy_create makes has such a loop.
  pub create-P :
      (k : Kernel) (buf : Option (List ℕ)) (answers : ℕ → InitAnswers) (socket : Option ℕ)
      (timeout_ms nodes : ℕ) (l : Loop)
      → P l
      → Ensures (λ q. P q.loop) (rpc_proxy_create k buf answers socket timeout_ms nodes l).0
  unfolding rpc_proxy_create initial
  create-P k none answers socket timeout_ms nodes l p = tt
  create-P k (some buf) answers socket timeout_ms nodes l p =
      let r = init_pairs k answers 0 nodes [] l in
      let begun = init_pairs-P k answers 0 nodes [] l p in
      option_rule (λ (x : Option Proxy × Loop). Ensures (λ q. P q.loop) x.0) r.0 _ _ (λ _. tt)
        (λ qs _.
          if_rule (λ (x : Option Proxy × Loop). Ensures (λ q. P q.loop) x.0)
            (is_some (setup_listener k socket r.1).0) _ _ (λ _. listener-P k socket r.1 begun)
            (λ _. tt))
