-- ===== src/Proxy/Sent.antt =====
-- The responses that went to the client, over the handlers of src/rpc_proxy.c.
use rpcracer.Prelude.{ℕ, ◌+◌, ◌≤◌, ◌≡◌, refl, arith, Bool, Option, none, some, length}
use rpcracer.EventLoop.{Slot, Kernel}
use rpcracer.Conn.{ConnectAnswer}
use rpcracer.Proxy.{
  Proxy, Env, race_complete, send_upstream_response_to_client, close_client, start_rpc_timeout,
}
use rpcracer.Proxy.Response.{Json}
use rpcracer.Proxy.Request.{
  classify_method, start_route, start_fanout, start_sticky, dispatch_fanout, dispatch_sticky,
  count_request, on_accept, rpc_proxy_on_block_notify,
}
use rpcracer.Proxy.Race.{leave_race, no_winner}
use rpcracer.Proxy.System.{rotate}
use rpcracer.Proxy.Verdict.{leave_race_rule}

-- A handler leaves the sent responses as they are.
pub sent-race_complete : (k : Kernel) (p : Proxy) → (race_complete k p).client_out ≡ p.client_out
unfolding race_complete
sent-race_complete k p = ground arith

pub sent-close_client : (p : Proxy) → (close_client p).client_out ≡ p.client_out
unfolding close_client
sent-close_client p = ground arith

sent-start_timeout : (env : Env) (p : Proxy) → (start_rpc_timeout env p).client_out ≡ p.client_out
unfolding start_rpc_timeout
sent-start_timeout env p = ground arith

sent-dispatch_fanout : (k : Kernel) (p : Proxy) → (dispatch_fanout k p).client_out ≡ p.client_out
unfolding dispatch_fanout
sent-dispatch_fanout k p = ground arith

sent-dispatch_sticky : (k : Kernel) (p : Proxy) → (dispatch_sticky k p).0.client_out ≡ p.client_out
unfolding dispatch_sticky dispatch_fanout close_client
sent-dispatch_sticky k p = ground arith

sent-start_fanout :
    (env : Env) (all : Bool) (p : Proxy) → (start_fanout env all p).client_out ≡ p.client_out
unfolding start_fanout dispatch_fanout
sent-start_fanout env all p = grind (arith, sent-start_timeout, sent-close_client)

sent-start_sticky : (env : Env) (p : Proxy) → (start_sticky env p).client_out ≡ p.client_out
unfolding start_sticky
sent-start_sticky env p = grind (arith, sent-start_timeout, sent-dispatch_sticky)

pub sent-start_route :
    (env : Env) (p : Proxy) → (start_route env (classify_method p)).client_out ≡ p.client_out
unfolding start_route classify_method
sent-start_route env p = grind (arith, sent-start_fanout, sent-start_sticky)

pub sent-count_request : (p : Proxy) → (count_request p).client_out ≡ p.client_out
unfolding count_request
sent-count_request p = ground arith

pub sent-on_accept :
    (env : Env) (fd : Option ℕ) (p : Proxy) → (on_accept env fd p).client_out ≡ p.client_out
unfolding on_accept close_client
sent-on_accept env none p = refl
sent-on_accept env (some fd) p = ground arith

pub sent-rotate :
    (k : Kernel) (i : ℕ) (a : ConnectAnswer) (p : Proxy)
    → (rotate k i a p).client_out ≡ p.client_out
unfolding rotate
sent-rotate k i a p = ground arith

pub sent-block_notify :
    (now : ℕ) (p : Proxy) → (rpc_proxy_on_block_notify now p).client_out ≡ p.client_out
unfolding rpc_proxy_on_block_notify
sent-block_notify now p = ground arith

module _ {V : Type 0} (json : Json V) (env : Env) where
  -- The fallbacks of a race without a winner send at most one response.
  pub sent-no_winner :
      (time : ℕ) (gbt : Bool) (p : Proxy)
      → p.winner_idx ≡ none
      → (length p.client_out ≤ length (no_winner json env time gbt p).client_out)
        × (length (no_winner json env time gbt p).client_out ≤ length p.client_out + 1)
  unfolding no_winner send_upstream_response_to_client
  sent-no_winner time gbt p h = ground arith

  pub sent-leave_race :
      (i : ℕ) (s : Slot) (w : ℕ) (p : Proxy)
      → (leave_race json env i s w p).client_out ≡ p.client_out
  sent-leave_race i s w p =
      leave_race_rule json env (λ q. q.client_out ≡ p.client_out) i s w p (λ ps l. refl)
