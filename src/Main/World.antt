-- ===== src/Main/World.antt =====
-- The whole program on its event loop, as main() of src/main.c wires it: which handler of which part
-- runs for an event that event_loop_run of src/event_loop.c dispatches.
--
-- The proxy, the notifier and the HTTP server hold pointers to one event loop and one stats_t. The
-- loop is the one in the proxy, and the statistics are `stats`: a handler is run on a part that is
-- given them, and they are taken back from what it leaves.
pub mod Counted
pub mod Refines
pub mod Notified
pub mod Statistics
pub mod Kept
pub mod Clients
pub mod Unique
use rpcracer.Prelude.{
  ℕ, refl, Bool, true, not, Option, none, some, List, [], ◌∷◌, ◌++◌, ◌==◌, if◌then◌else◌, suc,
}
use rpcracer.EventLoop.{Callback, Slot, Events, Loop, Kernel}
use rpcracer.EventLoop.Timers.{Stall, stall_timer_cb, timer_event_cb}
use rpcracer.EventLoop.Dispatch.{Program}
use rpcracer.Conn.{Io, ConnectAnswer}
use rpcracer.HttpServer.{
  HttpServer, HttpClient, Response, Served, Accepted, StatsAnswer, no_stats, no_memory, stats_error,
  stats_text, http_accept_cb, http_client_cb, http_send_response,
}
use rpcracer.Main.Notification.{on_block_notify}
use rpcracer.Notifier
use rpcracer.Notifier.{Notifier, Effect, notifier_set_stats}
use rpcracer.Notifier.Announced.{announced}
use rpcracer.Notifier.Silence.{silence_check}
use rpcracer.Notifier.Subscribe.{Poll, zmq_fd_event_cb}
use rpcracer.Proxy
use rpcracer.Proxy.{Proxy}
use rpcracer.Proxy.Lifecycle.{rpc_proxy_is_node_ibd, rpc_proxy_get_states}
use rpcracer.Proxy.Response.{Json}
use rpcracer.Proxy.System.{
  Event, accept, client, upstream, rotation, rpc_timeout, block_notify, step,
}
use rpcracer.Stats.{Stats}
use rpcracer.Stats.Report.{Report, report, stats_serialize_json}
use rpcracer.Watchdog.{Action, watchdog_timer_cb}

-- What the operating system, ZeroMQ and the writer of the JSON library answer during one callback;
-- the clock of a callback is that of `env`.
pub record Answer : Type 0 where
  pub env : Proxy.Env
  pub io : Io
  pub accepted : Option ℕ
  pub connect : ConnectAnswer
  pub notify : Notifier.Env
  pub rounds : List (List Poll)
  pub connections : List Accepted
  pub stats_memory : Bool
  pub header_taken : Option ℕ
  pub body_taken : Option ℕ
  pub write : Report → Option (List ℕ)

-- The state of the program: `responses` is what write() took of the responses of the HTTP server, by
-- descriptor, `notifications` is what the watchdog sent, `exited` whether the stall detection called
-- exit(), and `turn` the number of callbacks so far.
pub record World : Type 0 where
  pub proxy : Proxy
  pub http : HttpServer
  pub clients : List HttpClient
  pub responses : List (ℕ × List ℕ)
  pub stall : Stall
  pub notify_fd : Option ℕ
  pub notifications : List Action
  pub stats : Option Stats
  pub exited : Bool
  pub answers : ℕ → Answer
  pub turn : ℕ

-- A handler of the proxy.
unfoldable pub on_proxy : (Proxy → Proxy) → World → World
on_proxy handler w =
    let p = handler (record w.proxy { stats = w.stats }) in record w { proxy = p; stats = p.stats }

-- A handler of the notifier, whose callback is on_block_notify on the proxy.
unfoldable pub on_notifier : ℕ → (Notifier → Notifier × List Effect) → World → World
unfolding on_proxy
on_notifier now handler w =
    let (n, effects) = handler (notifier_set_stats w.stats w.http.notifier) in
    on_proxy (on_block_notify now (announced effects))
      (record w { http = record w.http { notifier = n }; stats = n.stats })

-- The client that a callback of the HTTP server is about.
unfoldable pub find_client : ℕ → List HttpClient → Option HttpClient
find_client fd [] = none
find_client fd (c ∷ cs) = if c.fd == fd then some c else find_client fd cs

-- The clients after its callback, which frees it or not.
unfoldable pub put_client : ℕ → Option HttpClient → List HttpClient → List HttpClient
put_client fd left [] = []
put_client fd left (c ∷ cs) =
    if c.fd == fd then elim left [ none ↦ cs | some c' ↦ c' ∷ cs ] else c ∷ put_client fd left cs

abbrev pub http_max_response : ℕ
http_max_response = 65536

abbrev labels : List (List ℕ × List ℕ) → List (List ℕ)
labels [] = []
labels ((host, label) ∷ ns) = label ∷ labels ns

-- The document of the statistics, with the context that main() makes for it.
unfoldable pub current_report : ℕ → Stats → World → Report
current_report now s w =
    report now s (labels w.http.nodes) (some (rpc_proxy_get_states s.node_count w.proxy))

-- What the route /stats gets from malloc and stats_serialize_json; main() always makes statistics.
unfoldable pub serialized : Answer → World → StatsAnswer
unfolding current_report
serialized a w = elim w.stats [
  | none ↦ no_stats
  | some s ↦
      if not a.stats_memory
      then no_memory
      else elim (stats_serialize_json a.write http_max_response a.env.kernel.now s
          (labels w.http.nodes) (some (rpc_proxy_get_states s.node_count w.proxy))) [
            | none ↦ stats_error
            | some json ↦ stats_text json
          ]
]

-- http_client_cb on this client.
unfoldable pub on_http_client : Answer → HttpClient → World → World
unfolding on_proxy put_client serialized
on_http_client a c w =
    let lent = notifier_set_stats w.stats w.http.notifier in
    let srv : HttpServer = record w.http { notifier = lent; stats = serialized a w } in
    let served = http_client_cb a.notify a.io srv c w.proxy.loop in
    on_proxy (on_block_notify a.env.kernel.now (announced served.effects)) (record w {
      http = served.server;
      stats = served.server.notifier.stats;
      responses = elim served.response [
        | none ↦ w.responses
        | some r ↦ (c.fd, http_send_response a.header_taken a.body_taken r) ∷ w.responses
      ];
      clients = put_client c.fd served.client w.clients;
      proxy = record w.proxy { loop = served.loop };
    })

unfoldable pub on_http_accept : Answer → World → World
on_http_accept a w =
    let (l, made) =
      http_accept_cb a.env.kernel Callback.http_client_cb a.connections w.proxy.loop in
    record w { clients = made ++ w.clients; proxy = record w.proxy { loop = l } }

-- silence_check_cb, which asks the proxy which nodes are in IBD.
unfoldable pub check_silence : ℕ → Proxy → Notifier → Notifier × List Effect
check_silence now p n = ((silence_check now (rpc_proxy_is_node_ibd p) n).0, [])

-- The callbacks of timers: the stall detection, the watchdog and the silence check.
unfoldable pub on_timer : Answer → Callback → World → World
unfolding on_notifier check_silence
on_timer a Callback.stall_timer_cb w = elim (stall_timer_cb a.env.kernel.now w.stall) [
  | none ↦ record w { exited = true }
  | some st ↦ record w { stall = st }
]
on_timer a Callback.watchdog_timer_cb w = record w {
  notifications = w.notifications ++ watchdog_timer_cb w.notify_fd;
}
on_timer a Callback.silence_check_cb w =
    on_notifier a.env.kernel.now (check_silence a.env.kernel.now w.proxy) w
on_timer a _ w = w

-- The event of the proxy that a callback stands for.
abbrev pub proxy_event : Answer → Events → Callback → Option Event
proxy_event a ev (Callback.conn_epoll_cb i s) = some (upstream i s ev a.io)
proxy_event a ev (Callback.rotation_timer_cb i) = some (rotation i a.connect)
proxy_event a ev Callback.listener_cb = some (accept a.accepted)
proxy_event a ev Callback.client_cb = some (client ev a.io)
proxy_event a ev Callback.rpc_timeout_cb = some rpc_timeout
proxy_event a ev _ = none

-- The callbacks that are not the proxy's.
unfoldable pub other_event : Answer → ℕ → Callback → World → World
unfolding on_http_accept on_http_client find_client on_notifier on_timer
other_event a fd Callback.http_accept_cb w = on_http_accept a w
other_event a fd (Callback.http_client_cb cfd) w = elim (find_client cfd w.clients) [
  | none ↦ w
  | some c ↦ on_http_client a c w
]
other_event a fd Callback.zmq_fd_event_cb w =
    on_notifier a.env.kernel.now (zmq_fd_event_cb a.rounds) w
other_event a fd cb w = elim (timer_event_cb fd w.proxy.loop) [
  | none ↦ w
  | some tcb ↦ on_timer a tcb w
]

module _ {V : Type 0} (json : Json V) where
  -- One callback, with its answers; after exit() there is none.
  unfoldable pub call : Callback → ℕ → Events → World → World
  unfolding other_event
  call cb fd ev w0 =
      let a = w0.answers w0.turn in
      let w : World = record w0 { turn = suc w0.turn } in
      if w0.exited then w0 else elim (proxy_event a ev cb) [
        | none ↦ other_event a fd cb w
        | some e ↦ on_proxy (step json a.env e) w
      ]

  abbrev pub program : Program World
  program = record {
    loop = λ w. w.proxy.loop;
    with_loop = λ l w. record w { proxy = record w.proxy { loop = l } };
    call = call;
    loop_with = λ l w. refl;
  }
