-- ===== src/Main/Notification.antt =====
-- A block notification on its way from src/http_server.c over src/notifier.c and on_block_notify of
-- src/main.c to src/rpc_proxy.c.
use rpcracer.Prelude.{ℕ, ◌≡◌, refl, ap, arith, Bool, true, false, some, List, [], ◌∷◌}
use rpcracer.Framing.{str_eq}
use rpcracer.Notifier.{Env}
use rpcracer.Notifier.Process.{is_duplicate, is_suppressed, notifier_process_hash}
use rpcracer.Notifier.Announced.{announced}
use rpcracer.Notifier.Grace.{process_rule, source}
use rpcracer.HttpServer.{HttpServer, Response, node_label, ok_response, http_handle_request}
use rpcracer.Proxy.{Proxy}
use rpcracer.Proxy.Request.{method_gbt, route_race, classify_method, rpc_proxy_on_block_notify}

-- The notifier's callback, for each hash that it gets.
unfoldable pub on_block_notify : ℕ → List (List ℕ) → Proxy → Proxy
on_block_notify now [] p = p
on_block_notify now (hash ∷ hashes) p = on_block_notify now hashes (rpc_proxy_on_block_notify now p)

-- A request to the HTTP server, with the proxy behind it.
unfoldable pub request :
    Env → List ℕ → List ℕ → HttpServer × Proxy → (HttpServer × Proxy) × Response
unfolding on_block_notify
request env peer text (srv, p) =
    let (srv', effects, r) = http_handle_request env peer text srv in
    ((srv', on_block_notify env.now (announced effects) p), r)

-- The notifier neither knows the hash nor is in the grace period of another node.
abbrev pub IsAcceptable : Env → List ℕ → List ℕ → HttpServer → Type 0
IsAcceptable env peer hash srv =
    (is_duplicate srv.notifier hash ≡ false)
    × (is_suppressed env.now (source env hash (some (node_label peer srv.nodes)) srv.notifier)
          srv.notifier
        ≡ false)

pub accepted :
    (env : Env) (peer hash : List ℕ) (srv : HttpServer)
    → IsAcceptable env peer hash srv
    → let r = notifier_process_hash env hash (some (node_label peer srv.nodes)) srv.notifier in
      (announced r.1 ≡ hash ∷ []) × (r.2 ≡ true)
accepted env peer hash srv h =
    process_rule (λ r. (announced r.1 ≡ hash ∷ []) × (r.2 ≡ true)) env hash
      (some (node_label peer srv.nodes)) srv.notifier (λ m e d. absurd (differ d h.0))
      (λ m effects e s q. absurd (differ s h.1))
      (λ m effects e s q new. (ap (λ hs. hash ∷ hs) q, refl))
  where
    differ : {b : Bool} → b ≡ true → b ≡ false → ⊥
    differ e f = ground arith

-- A request that comes again, from any client, changes neither the proxy nor its answer.
abbrev pub Repeats : Env → List ℕ → List ℕ → HttpServer × Proxy → Type 0
Repeats later peer text (srv, p) =
    let r = request later peer text (srv, p) in (r.0.1 ≡ p) × (r.1 ≡ ok_response)

-- The next getblocktemplate is raced.
abbrev pub Races : Proxy → Type 0
Races p = (classify_method (record p { method = method_gbt })).0 ≡ route_race

pub races : (now : ℕ) (hash : List ℕ) (p : Proxy) → Races (on_block_notify now (hash ∷ []) p)
unfolding classify_method rpc_proxy_on_block_notify str_eq on_block_notify
races now hash p = ground arith
