-- ===== src/Proxy/Fallback.antt =====
-- The height fallback of a race (src/rpc_proxy.c, rpc_timeout_cb), in the states that occur.
use rpcracer.Prelude.{◌≡◌, arith, false, is_some, if◌then◌else◌}
use rpcracer.Proxy.{Proxy, Env, is_idle, close_client, race_complete}
use rpcracer.Proxy.Race.{race_timeout}
use rpcracer.Proxy.View.{view}
use rpcracer.Proxy.Invariant.{IsRacing}

abbrev no_more : Proxy → Proxy
no_more p = record p { responses_pending = 0 }

-- While the race invariant holds and a race runs, its timeout never falls back to the best height:
-- it completes the race, and closes the client first if no node has won.
pub race_timeout_never_falls_back :
    (env : Env) (p : Proxy)
    → IsRacing (view p)
    → is_idle p.state ≡ false
    → race_timeout env p
      ≡ race_complete env.kernel
          (if is_some p.winner_idx then no_more p else close_client (no_more p))
unfolding race_timeout
race_timeout_never_falls_back env p v h = ground (arith, v.no_best h)
