-- ===== src/Main/Start/Clients.antt =====
-- The HTTP clients and the event loop (src/http_server.c, src/event_loop.c), from main() on.
use rpcracer.Prelude.{
  ℕ, ◌≡◌, arith, Bool, true, false, ◌+◌, none, some, Option, List, [], ◌∷◌, ◌==◌, not, ◌||◌,
  if◌then◌else◌, Ensures, if_rule, option_rule, guard_rule, bind_rule, each_rule, ensured, inl, leb,
  length, ltb,
}
use rpcracer.Config.{Config, NodeConfig}
use rpcracer.EventLoop.{Callback, Loop, Kernel, epoll_in, add_fd}
use rpcracer.EventLoop.Dispatch.{Wait, event_loop_run}
use rpcracer.EventLoop.Timers.{add_timer, enable_stall_detection, event_loop_create}
use rpcracer.HttpServer.Listener.{ListenAnswers, http_server_create}
use rpcracer.Framing.{strtoull}
use rpcracer.Main.Start.{Boot, boot, stall_threshold_ms, no_stall}
use rpcracer.Main.World.{Answer, World, program}
use rpcracer.Main.World.Clients.{AllPoint, IsLive, PointsTo, IsLive-IsKept, add-IsLive, del-IsLive}
use rpcracer.Main.World.Clients.Run.{HasLiveClients, event_loop_run-HasLiveClients}
use rpcracer.Notifier.Created.{
  CreateEnv, Created, context, Building, open_sub, open_subs, open_pub, http_relay, remove_subs,
  notifier_destroy, give_up, finish, notifier_create, is_first,
}
use rpcracer.Proxy.{Proxy}
use rpcracer.Proxy.Loops.Created.{create-P}
use rpcracer.Proxy.Response.{Json}
use rpcracer.Watchdog
use rpcracer.Watchdog.{Init, interval_of, variable, start_timer, watchdog_init}

-- A timer of the start, while there is no client.
timer-IsLive :
    (k : Kernel) (fd : Option ℕ) (settime : Bool) (ms : ℕ) (cb : Callback) (l : Loop)
    → ((x : ℕ) → PointsTo [] x cb)
    → IsLive [] l
    → IsLive [] (add_timer k fd settime ms cb l).0
unfolding add_timer
timer-IsLive k none settime ms cb l new h = h
timer-IsLive k (some fd) settime ms cb l new h =
    if_rule (λ (r : Loop × Option ℕ). IsLive [] r.0)
      (ms == 0 || (not settime || (not k.alloc || not (k.ctl fd)))) _ _ (λ _. h)
      (λ _. ((inl h.1, h.0), (new fd, h.1)))

stall-IsLive :
    (b : Boot)
    → IsLive []
        (enable_stall_detection b.kernel b.stall_timer b.stall_settime stall_threshold_ms
          Callback.stall_timer_cb
          (event_loop_create, no_stall)).0.0
unfolding enable_stall_detection
stall-IsLive b = ground (
  arith,
  timer-IsLive b.kernel b.stall_timer b.stall_settime 30000 Callback.stall_timer_cb
      event_loop_create (λ _. tt) (tt, tt),
)

abbrev HasLoop : Building × Bool → Type 0
HasLoop x = IsLive [] x.0.loop

-- The notifier, whose callbacks are not for a client.
module _ (env : CreateEnv) (zmq : (x : ℕ) → PointsTo [] x env.zmq_cb)
    (silence : (x : ℕ) → PointsTo [] x env.silence_cb) where
  sub-IsLive : (i : ℕ) (b : Building) → IsLive [] b.loop → HasLoop (open_sub env i b)
  unfolding open_sub
  sub-IsLive i b h =
      let a = env.subs i in
      if_rule HasLoop a.socket _ _
        (λ _.
          if_rule HasLoop (not a.subscribed || not a.connected) _ _ (λ _. h)
            (λ _.
              option_rule HasLoop a.fd _ _ (λ _. h)
                (λ fd _.
                  let r =
                    if is_first b.subs
                    then add_fd env.kernel b.loop (some fd) epoll_in env.zmq_cb
                    else (b.loop, true) in
                  let registered : IsLive [] r.0 =
                    if_rule (λ (x : Loop × Bool). IsLive [] x.0) (is_first b.subs) _ _
                      (λ _. add-IsLive [] env.kernel fd epoll_in env.zmq_cb b.loop (zmq fd) h)
                      (λ _. h) in
                  if_rule HasLoop r.1 _ _ (λ _. registered) (λ _. h))))
        (λ _. h)

  subs-IsLive :
      (i : ℕ) (cs : List NodeConfig) (b : Building)
      → IsLive [] b.loop
      → HasLoop (open_subs env i cs b)
  unfolding open_subs
  subs-IsLive i [] b h = h
  subs-IsLive i (c ∷ cs) b h =
      let r = if c.zmq_port == 0 then (b, true) else open_sub env i b in
      let one : HasLoop r =
        if_rule HasLoop (c.zmq_port == 0) (b, true) (open_sub env i b) (λ _. h)
          (λ _. sub-IsLive i b h) in
      if_rule HasLoop r.1 (open_subs env (i + 1) cs r.0) (r.0, false)
        (λ _. subs-IsLive (i + 1) cs r.0 one) (λ _. one)

  pub-IsLive : (cfg : Config) (b : Building) → IsLive [] b.loop → HasLoop (open_pub env cfg b)
  unfolding open_pub
  pub-IsLive cfg b h =
      if_rule HasLoop (cfg.zmq_server_port == 0) _ _ (λ _. h)
        (λ _. if_rule HasLoop env.pub_made _ _ (λ _. h) (λ _. h))

  remove-IsLive : (ss : List (ℕ × ℕ)) (l : Loop) → IsLive [] l → IsLive [] (remove_subs ss l)
  unfolding remove_subs
  remove-IsLive [] l h = h
  remove-IsLive ((i, fd) ∷ ss) l h = remove-IsLive ss _ (del-IsLive [] (some fd) l h)

  give_up-IsLive : (b : Building) → IsLive [] b.loop → IsLive [] (give_up b).loop
  unfolding give_up notifier_destroy
  give_up-IsLive b h = remove-IsLive b.subs b.loop h

  finish-IsLive :
      (cfg : Config) (b : Building) (relay : Bool × List ℕ × ℕ × List ℕ)
      → IsLive [] b.loop
      → IsLive [] (finish env cfg b relay).loop
  unfolding finish
  finish-IsLive cfg b relay h =
      if_rule (λ (r : Loop × Option ℕ). IsLive [] r.0) (ltb 1 (length b.subs)) _ _
        (λ _. timer-IsLive env.kernel env.timer env.settime 10000 env.silence_cb b.loop silence h)
        (λ _. h)

  notifier-IsLive :
      (cfg : Config) (l : Loop) → IsLive [] l → IsLive [] (notifier_create env cfg l).loop
  unfolding notifier_create
  notifier-IsLive cfg l h =
      let P : Created → Type 0 = λ r. IsLive [] r.loop in
      let empty : Building = record {
        loop = l;
        subs = [];
        pub_open = false;
        opened = context ∷ [];
        closed = [];
      } in
      let r1 = open_subs env 0 cfg.nodes empty in
      let h1 = subs-IsLive 0 cfg.nodes empty h in
      let r2 = open_pub env cfg r1.0 in
      let h2 = pub-IsLive cfg r1.0 h1 in
      if_rule P (not env.memory || not env.context_made) _ _ (λ _. h)
        (λ _.
          if_rule P r1.1 _ _
            (λ _.
              if_rule P r2.1 _ _
                (λ _.
                  option_rule P (http_relay cfg.notify_http_url) _ _ (λ _. give_up-IsLive r2.0 h2)
                    (λ relay _. finish-IsLive cfg r2.0 relay h2))
                (λ _. give_up-IsLive r2.0 h2))
            (λ _. give_up-IsLive r1.0 h1))

http-IsLive :
    (k : Kernel) (a : ListenAnswers) (l : Loop)
    → IsLive [] l
    → IsLive [] (http_server_create k a Callback.http_accept_cb l).0
unfolding http_server_create
http-IsLive k a l h =
    let P : Loop × Option ℕ × List ℕ → Type 0 = λ r. IsLive [] r.0 in
    option_rule P a.socket _ _ (λ _. h)
      (λ fd _.
        if_rule P (not a.memory) _ _ (λ _. h)
          (λ _.
            if_rule P _ _ _ (λ _. add-IsLive [] k fd epoll_in Callback.http_accept_cb l tt h)
              (λ _. h)))

start_timer-IsLive :
    (env : Watchdog.Env) (fd : ℕ) (l : Loop)
    → IsLive [] l
    → IsLive [] (start_timer env Callback.watchdog_timer_cb fd l).loop
unfolding start_timer
start_timer-IsLive env fd l h =
    let P : Init → Type 0 = λ r. IsLive [] r.loop in
    option_rule P (variable env.watchdog_usec) _ _ (λ _. h)
      (λ text _.
        let made =
          timer-IsLive env.kernel env.timer env.settime (interval_of (strtoull text))
            Callback.watchdog_timer_cb l (λ _. tt) h in
        if_rule P (strtoull text == 0) _ _ (λ _. h) (λ _. if_rule P _ _ _ (λ _. made) (λ _. made)))

watchdog-IsLive :
    (env : Watchdog.Env) (fd : Option ℕ) (l : Loop)
    → IsLive [] l
    → IsLive [] (watchdog_init env Callback.watchdog_timer_cb fd l).loop
unfolding watchdog_init start_timer
watchdog-IsLive env fd l h =
    let P : Init → Type 0 = λ r. IsLive [] r.loop in
    option_rule P (variable env.notify_socket) _ _ (λ _. h)
      (λ path _.
        option_rule P env.socket _ _ (λ _. h)
          (λ new _.
            if_rule P (leb 108 (length path) || not env.connected) _ _ (λ _. h)
              (λ _. start_timer-IsLive env new l h)))

boot-HasLiveClients :
    (b : Boot) (cfg : Config) (answers : ℕ → Answer) → Ensures HasLiveClients (boot b cfg answers)
unfolding boot
boot-HasLiveClients b cfg answers = guard_rule HasLiveClients b.loop_made _ (λ _.
    bind_rule (λ (p : Proxy). IsLive [] p.loop) HasLiveClients _ _
      (create-P (IsLive []) (IsLive-IsKept []) b.kernel b.client_buf b.pairs b.listener
        cfg.rpc_timeout_ms cfg.node_count _ (stall-IsLive b))
      (λ p h.
        let env : CreateEnv = record b.notifier {
          zmq_cb = Callback.zmq_fd_event_cb;
          silence_cb = Callback.silence_check_cb;
        } in
        let notified = (notifier_create env cfg p.loop).loop in
        let served = http_server_create b.kernel b.http Callback.http_accept_cb notified in
        let live = watchdog-IsLive b.watchdog none served.0 (
          http-IsLive b.kernel b.http notified
            (notifier-IsLive env (λ _. tt) (λ _. tt) cfg p.loop h)) in
        each_rule HasLiveClients _ _ (λ n.
          guard_rule HasLiveClients b.stats_made _
            (λ _. each_rule HasLiveClients served.1 _ (λ fd. live)))))

-- From main() on, whatever the event loop delivers to the parts of the program and whatever the
-- operating system answers, every callback for an HTTP client is registered under the descriptor of
-- a client that is there: none points to a client that has been freed.
pub boot-AllPoint :
    {V : Type 0} (json : Json V) (b : Boot) (cfg : Config) (answers : ℕ → Answer) (w : World)
    (ws : List Wait)
    → boot b cfg answers ≡ some w
    → let v = (event_loop_run (program json) ws w).0 in AllPoint v.clients v.proxy.loop.fd_map
boot-AllPoint json b cfg answers w ws e =
    (event_loop_run-HasLiveClients json ws w
      (ensured HasLiveClients (boot b cfg answers) w (boot-HasLiveClients b cfg answers) e)).1
