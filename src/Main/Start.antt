-- ===== src/Main/Start.antt =====
-- main() of src/main.c up to event_loop_run, with the constructors of all parts on one event loop:
-- the program that it runs, if every part can be made. What is destroyed where one cannot is in
-- Main.Order.
pub mod Run
pub mod Clients
use rpcracer.Prelude.{
  ℕ, refl, Bool, true, false, Option, none, some, List, [], ◌∷◌, map, ◌>>=◌, ◌>>◌, guard,
}
use rpcracer.Config.{Config, NodeConfig}
use rpcracer.EventLoop.{Callback, Kernel, Loop}
use rpcracer.EventLoop.Timers.{Stall, event_loop_create, enable_stall_detection}
use rpcracer.HttpServer.{HttpServer, no_stats}
use rpcracer.HttpServer.Listener.{ListenAnswers, http_server_create}
use rpcracer.Main.World.{Answer, World}
use rpcracer.Notifier.{Notifier}
use rpcracer.Notifier.Created.{CreateEnv, notifier_create}
use rpcracer.Pair.{InitAnswers}
use rpcracer.Proxy.{Proxy}
use rpcracer.Proxy.Lifecycle.{rpc_proxy_create}
use rpcracer.Stats.{stats_create}
use rpcracer.Watchdog
use rpcracer.Watchdog.{watchdog_init}

-- What the operating system answers to the constructors, in the order in which they run.
pub record Boot : Type 0 where
  pub loop_made : Bool
  pub kernel : Kernel
  pub stall_timer : Option ℕ
  pub stall_settime : Bool
  pub client_buf : Option (List ℕ)
  pub pairs : ℕ → InitAnswers
  pub listener : Option ℕ
  pub notifier : CreateEnv
  pub stats_made : Bool
  pub http : ListenAnswers
  pub watchdog : Watchdog.Env

abbrev stall_threshold_ms : ℕ
stall_threshold_ms = 60000

abbrev no_stall : Stall
no_stall = record { timerfd = none; threshold_ms = 0; last_fire_ns = 0 }

-- The host of a node and its label, by which the HTTP server names the source of a notification.
abbrev host_label : NodeConfig → List ℕ × List ℕ
host_label n = (n.host, n.label)

-- The program at event_loop_run.
unfoldable pub boot : Boot → Config → (ℕ → Answer) → Option World
boot b cfg answers = do
  guard b.loop_made
  let watched =
      enable_stall_detection b.kernel b.stall_timer b.stall_settime stall_threshold_ms
        Callback.stall_timer_cb (event_loop_create, no_stall)
  p ←
      (rpc_proxy_create b.kernel b.client_buf b.pairs b.listener cfg.rpc_timeout_ms cfg.node_count
        watched.0.0).0
  let made =
      notifier_create
        (record b.notifier {
          zmq_cb = Callback.zmq_fd_event_cb;
          silence_cb = Callback.silence_check_cb;
        })
        cfg p.loop
  n ← made.result
  guard b.stats_made
  let served = http_server_create b.kernel b.http Callback.http_accept_cb made.loop
  fd ← served.1
  let init = watchdog_init b.watchdog Callback.watchdog_timer_cb none served.0
  some (record {
    proxy = record p { loop = init.loop };
    http = record { notifier = n.0; nodes = map host_label cfg.nodes; stats = no_stats };
    clients = [];
    responses = [];
    stall = watched.0.1;
    notify_fd = init.notify_fd;
    notifications = init.actions;
    stats = some (stats_create cfg.node_count b.kernel.now);
    exited = false;
    answers = answers;
    turn = 0;
  })
