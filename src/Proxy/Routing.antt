-- ===== src/Proxy/Routing.antt =====
-- How a request is routed (src/rpc_proxy.c, classify_method).
use rpcracer.Prelude.{ℕ, ◌≡◌, arith, true, false}
use rpcracer.Framing.{str_eq}
use rpcracer.Proxy.{Proxy}
use rpcracer.Proxy.Request.{route_race, classify_method, method_gbt, rpc_proxy_on_block_notify}

-- The first getblocktemplate after a block notify is raced, whatever the sticky node was, and
-- clears the pending notify; as long as no node has won, so is the next one.
pub classify_after_notify :
    (now : ℕ) (p : Proxy)
    → str_eq p.method method_gbt ≡ true
    → let q = rpc_proxy_on_block_notify now p in
      let (route, r) = classify_method q in
      (route ≡ route_race) × (r.notify_pending ≡ false) × ((classify_method r).0 ≡ route_race)
unfolding classify_method rpc_proxy_on_block_notify
classify_after_notify now p h = ground arith
