-- ===== src/Proxy/Machine/Races.antt =====
-- The races that a history of the proxy (src/rpc_proxy.c) starts.
use rpcracer.Prelude.{ℕ, ◌+◌, List, [], ◌∷◌, if◌then◌else◌}
use rpcracer.Proxy.{Proxy, Env, is_idle}
use rpcracer.Proxy.Response.{Json}
use rpcracer.Proxy.System.{Event, step}

-- 1 if this step took the proxy from idle into a race.
abbrev pub started : Proxy → Proxy → ℕ
started p q = if is_idle p.state then (if is_idle q.state then 0 else 1) else 0

module _ {V : Type 0} (json : Json V) where
  -- The races that a history starts.
  unfoldable pub races_started : List (Env × Event) → Proxy → ℕ
  races_started [] p = 0
  races_started ((env, e) ∷ es) p =
      started p (step json env e p) + races_started es (step json env e p)
