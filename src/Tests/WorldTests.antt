-- ===== src/Tests/WorldTests.antt =====
-- The whole program: in a race, from its start, and as a notification arrives.
use rpcracer.Prelude.{
  ℕ, ◌≡◌, ◌≤◌, ◌++◌, ◌+◌, refl, true, false, none, some, List, [], ◌∷◌, length, drop, is_some,
  Option,
}
use rpcracer.Framing.{codes, crlf2}
use rpcracer.Conn.{stream, immediate, rpc_conn_connect}
use rpcracer.EventLoop.{Callback, epoll_in, find_entry, add_fd}
use rpcracer.EventLoop.Dispatch.{Wait, batch, interrupted, event_loop_run}
use rpcracer.EventLoop.Timers.{enable_stall_detection}
use rpcracer.HttpServer.{HttpClient}
use rpcracer.HttpServer.Listener.{http_server_create}
use rpcracer.HttpServer.Notify.{notification}
use rpcracer.Main.Start.{Boot, boot}
use rpcracer.Main.Start.Run.{boot-event_loop_run}
use rpcracer.Main.World.{Answer, World, program}
use rpcracer.Main.Start.Clients.{boot-AllPoint}
use rpcracer.Main.World.Clients.{AllPoint}
use rpcracer.Main.World.Counted.{races_run}
use rpcracer.Notifier.Created.{SubAnswers, notifier_create}
use rpcracer.Pair.{InitAnswers, conn_pair_init, connect_slot}
use rpcracer.Proxy.Lifecycle.{rpc_proxy_create}
use rpcracer.Proxy.Machine.{Trace, idle, phase}
use rpcracer.Watchdog.{watchdog_init}
use rpcracer.Tests.ConfigTests.{config}
use rpcracer.Tests.CreatedTests.{zeros}
use rpcracer.Tests.Data
use rpcracer.Tests.Data.{test_json, kernel, racing, entry}
use rpcracer.Tests.HttpTests.{server, hash}
use rpcracer.Tests.NotifierTests
use rpcracer.Tests.StartTests.{systemd, unbound}

-- The rest of a request for a notification of `hash`, of which four bytes have been read.
abbrev pub http_rest : List ℕ
http_rest = codes "HTTP/1.1" ++ crlf2

abbrev pub half : HttpClient
half = record { fd = 30; buf = codes "GET "; peer_addr = codes "10.0.0.1" }

abbrev last_bytes : List ℕ
last_bytes = drop 4 (notification hash http_rest)

abbrev pub answer : Answer
answer = record {
  env = Data.env;
  io = stream last_bytes;
  accepted = none;
  connect = immediate 40;
  notify = NotifierTests.env 5000;
  rounds = [];
  connections = [];
  stats_memory = true;
  header_taken = none;
  body_taken = none;
  write = λ _. some (codes "{}");
}

-- A race with two nodes runs, and an HTTP client has sent a part of its request.
abbrev pub world : World
world = record {
  proxy = record racing {
    loop = record {
      running = true;
      fd_map = entry 30 (Callback.http_client_cb 30) ∷ racing.loop.fd_map;
    };
  };
  http = server;
  clients = half ∷ [];
  responses = [];
  stall = record { timerfd = none; threshold_ms = 0; last_fire_ns = 0 };
  notify_fd = none;
  notifications = [];
  stats = none;
  exited = false;
  answers = λ _. answer;
  turn = 0;
}

abbrev waits : List Wait
waits =
    batch ((10, epoll_in) ∷ (30, epoll_in) ∷ [])
    ∷ batch ((20, epoll_in) ∷ [])
    ∷ interrupted true
    ∷ []

-- Each node's connections, timer and ZeroMQ socket have descriptors of their own.
abbrev pair_answers : ℕ → InitAnswers
pair_answers i = record {
  buffer_0 = some zeros;
  buffer_1 = some zeros;
  connect_0 = immediate (100 + i);
  connect_1 = immediate (200 + i);
  timer = some (300 + i);
}

abbrev sub_answers : ℕ → SubAnswers
sub_answers i = record { socket = true; subscribed = true; connected = true; fd = some (400 + i) }

abbrev booting : Boot
booting = record {
  loop_made = true;
  kernel = kernel;
  stall_timer = some 60;
  stall_settime = true;
  client_buf = some zeros;
  pairs = pair_answers;
  listener = some 3;
  notifier = record unbound { pub_bound = true; subs = sub_answers };
  stats_made = true;
  http = record {
    memory = true;
    socket = some 4;
    nonblocking = true;
    address = true;
    bound = true;
    listening = true;
  };
  watchdog = systemd;
}

abbrev booted : World
booted = elim (boot booting config (λ _. answer)) [ none ↦ world | some w ↦ w ]

boots : is_some (boot booting config (λ _. answer)) ≡ true
unfolding boot rpc_proxy_create find_entry conn_pair_init add_fd connect_slot rpc_conn_connect
    enable_stall_detection http_server_create watchdog_init notifier_create
boots = refl

some_of :
    (o : Option World) (w : World) → is_some o ≡ true → o ≡ some (elim o [ none ↦ w | some a ↦ a ])
some_of none w h = cc
some_of (some a) w h = refl

boot-event_loop_run_example :
    let p = (event_loop_run (program test_json) waits booted).0.proxy in
    Trace idle (races_run test_json waits booted) (length p.client_out) (phase p)
    × (length p.client_out ≤ races_run test_json waits booted)
boot-event_loop_run_example =
    boot-event_loop_run test_json booting config (λ _. answer) booted waits
      (some_of (boot booting config (λ _. answer)) world boots)

boot-AllPoint_example :
    let v = (event_loop_run (program test_json) waits booted).0 in
    AllPoint v.clients v.proxy.loop.fd_map
boot-AllPoint_example =
    boot-AllPoint test_json booting config (λ _. answer) booted waits
      (some_of (boot booting config (λ _. answer)) world boots)
