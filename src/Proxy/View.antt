-- ===== src/Proxy/View.antt =====
-- What the race logic is about, apart from connections, timers and buffers; and that the helpers of
-- the handlers leave it alone.
use rpcracer.Prelude.{ℕ, ◌≡◌, arith, Bool, Option, List}
use rpcracer.EventLoop.{Slot, Kernel}
use rpcracer.Conn.{Conn}
use rpcracer.Proxy.{
  Proxy, Env, RaceState, close_client, send_upstream_response_to_client, cancel_rpc_timeout,
  start_rpc_timeout, put_conn, reset_conn, drain,
}

-- The fields of a race.
pub record RaceView : Type 0 where
  pub state : RaceState
  pub responses_pending : ℕ
  pub winner_idx : Option ℕ
  pub all_must_complete : Bool
  pub best_gbt_node_idx : Option ℕ
  pub gbt_height_matched : Bool
  pub method : List ℕ

abbrev pub view : Proxy → RaceView
view p = record {
  state = p.state;
  responses_pending = p.responses_pending;
  winner_idx = p.winner_idx;
  all_must_complete = p.all_must_complete;
  best_gbt_node_idx = p.best_gbt_node_idx;
  gbt_height_matched = p.gbt_height_matched;
  method = p.method;
}

pub view-close_client : (p : Proxy) → view (close_client p) ≡ view p
unfolding close_client
view-close_client p = ground arith

pub view-send :
    (env : Env) (c : Conn) (p : Proxy) → view (send_upstream_response_to_client env c p) ≡ view p
unfolding send_upstream_response_to_client
view-send env c p = ground arith

pub view-cancel : (p : Proxy) → view (cancel_rpc_timeout p) ≡ view p
unfolding cancel_rpc_timeout
view-cancel p = ground arith

pub view-start_timeout : (env : Env) (p : Proxy) → view (start_rpc_timeout env p) ≡ view p
unfolding start_rpc_timeout
view-start_timeout env p = ground arith

pub view-put_conn : (i : ℕ) (s : Slot) (c : Conn) (p : Proxy) → view (put_conn i s c p) ≡ view p
unfolding put_conn
view-put_conn i s c p = ground arith

pub view-reset_conn :
    (k : Kernel) (i : ℕ) (s : Slot) (p : Proxy) → view (reset_conn k i s p) ≡ view p
unfolding reset_conn
view-reset_conn k i s p = ground arith

pub view-drain : (k : Kernel) (i : ℕ) (s : Slot) (p : Proxy) → view (drain k i s p) ≡ view p
unfolding drain
view-drain k i s p = ground arith
