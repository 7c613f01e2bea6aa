-- ===== src/Proxy/System.antt =====
-- The proxy under events: each is one call that event_loop_run or the notifier makes, with the
-- answers of the operating system. An event on a connection runs conn_epoll_cb and then the
-- callback that it made.
use rpcracer.Prelude.{ℕ, Option, none, some, get_elem?, set, List, [], ◌∷◌}
use rpcracer.EventLoop.{Slot, Events, Loop, Kernel}
use rpcracer.Conn.{
  ConnectAnswer, Io, Notice, quiet, notify_connected, notify_sent, notify_response, notify_error,
}
use rpcracer.Conn.Epoll.{conn_epoll_cb}
use rpcracer.Pair.{Pair, at, put, run_connected, on_rotation_timer}
use rpcracer.Proxy.{Proxy, Env}
use rpcracer.Proxy.Response.{Json}
use rpcracer.Proxy.Request.{on_accept, on_client, rpc_proxy_on_block_notify}
use rpcracer.Proxy.Race.{on_rpc_timeout, on_upstream_response}
use rpcracer.Proxy.Failure.{on_upstream_error}

pub data Event : Type 0 where
  accept : Option ℕ → Event
  client : Events → Io → Event
  upstream : ℕ → Slot → Events → Io → Event
  rotation : ℕ → ConnectAnswer → Event
  rpc_timeout : Event
  block_notify : Event

-- An update of pair i and the loop.
unfoldable pub put_pair : ℕ → Pair × Loop → Proxy → Proxy
put_pair i (q, l) p = record p { pairs = set p.pairs i q; loop = l }

unfoldable pub rotate : Kernel → ℕ → ConnectAnswer → Proxy → Proxy
unfolding put_pair
rotate k i a p = elim (get_elem? p.pairs i) [
  | none ↦ p
  | some q ↦ put_pair i (on_rotation_timer k a q p.loop) p
]

module _ {V : Type 0} (json : Json V) where
  -- The callbacks of a connection of the proxy.
  unfoldable pub run_notice : Env → ℕ → Slot → Notice → Pair → Proxy → Proxy
  run_notice env i s (notify_connected f) q p = record p {
    pairs = set p.pairs i (run_connected (notify_connected f) s q);
  }
  run_notice env i s notify_response q p = on_upstream_response json env i s p
  run_notice env i s notify_error q p = on_upstream_error env.kernel i s p
  run_notice env i s notify_sent q p = p
  run_notice env i s quiet q p = p

  unfoldable pub on_upstream : Env → ℕ → Slot → Events → Io → Proxy → Proxy
  unfolding run_notice put_pair
  on_upstream env i s ev io p = elim (get_elem? p.pairs i) [
    | none ↦ p
    | some q ↦
        let (c, l, notice) = conn_epoll_cb ev io env.kernel (at s q) p.loop in
        run_notice env i s notice (put s c q) (put_pair i (put s c q, l) p)
  ]

  unfoldable pub step : Env → Event → Proxy → Proxy
  unfolding on_upstream rotate
  step env (accept fd) p = on_accept env fd p
  step env (client ev io) p = on_client json env ev io p
  step env (upstream i s ev io) p = on_upstream env i s ev io p
  step env (rotation i a) p = rotate env.kernel i a p
  step env rpc_timeout p = on_rpc_timeout env p
  step env block_notify p = rpc_proxy_on_block_notify env.kernel.now p

  -- A history of events, each with the answers of its system calls.
  unfoldable pub run : List (Env × Event) → Proxy → Proxy
  unfolding step
  run [] p = p
  run ((env, e) ∷ es) p = run es (step env e p)
