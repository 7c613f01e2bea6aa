-- ===== src/Main/World/Kept.antt =====
-- What the callbacks of the program do to the HTTP clients and the event loop (src/http_server.c,
-- src/event_loop.c): properties of both, over runs.
use rpcracer.Prelude.{
  ℕ, suc, ◌≡◌, ◌⊎◌, ◌++◌, inl, inr, refl, sym, subst, arith, Bool, true, none, some, List, if_rule,
  option_rule,
}
use rpcracer.Conn.{Io, again, io_error, so_error, sent, stream}
use rpcracer.EventLoop.{Callback, Events, Loop, Kernel, del_fd}
use rpcracer.EventLoop.Dispatch.{Wait, event_loop_run}
use rpcracer.EventLoop.Invariant.{event_loop_run_inv}
use rpcracer.EventLoop.Timers.{stall_timer_cb, timer_event_cb}
use rpcracer.HttpServer.{
  HttpServer, HttpClient, Served, Accepted, http_accept_cb, http_client_cb, on_request_bytes,
}
use rpcracer.Main.Notification.{on_block_notify}
use rpcracer.Main.World.{
  Answer, World, on_proxy, on_notifier, on_http_client, on_timer, check_silence, find_client,
  put_client, serialized, other_event, proxy_event, call, program, on_http_accept,
}
use rpcracer.Main.World.Notified.{loop-on_block_notify}
use rpcracer.Notifier
use rpcracer.Notifier.{Notifier, Effect}
use rpcracer.Notifier.Subscribe.{zmq_fd_event_cb}
use rpcracer.Proxy.{Proxy}
use rpcracer.Proxy.Loops.{IsKept}
use rpcracer.Proxy.Loops.Requests.{step-P}
use rpcracer.Proxy.Response.{Json}
use rpcracer.Proxy.System.{Event, step}

-- What one event leaves of a client: it waits as it was registered, or is freed and unregistered.
abbrev pub IsSettled : HttpClient → Loop → Served → Type 0
IsSettled c l s =
    ((s.client ≡ none) × (s.loop ≡ (del_fd l (some c.fd)).0))
    ⊎ ((d : HttpClient) × (s.client ≡ some d) × (d.fd ≡ c.fd) × (s.loop ≡ l))

client-IsSettled :
    (env : Notifier.Env) (io : Io) (srv : HttpServer) (c : HttpClient) (l : Loop)
    → IsSettled c l (http_client_cb env io srv c l)
unfolding http_client_cb on_request_bytes
client-IsSettled env again srv c l = inr (c, refl, refl, refl)
client-IsSettled env io_error srv c l = inl (refl, refl)
client-IsSettled env (so_error ok) srv c l = inr (c, refl, refl, refl)
client-IsSettled env (sent n) srv c l = inr (c, refl, refl, refl)
client-IsSettled env (stream sent_bytes) srv c l = ground arith

-- A property of the clients and the event loop that the proxy keeps, the start and the stop of the
-- loop, and the two callbacks of the HTTP server.
pub record IsKeptWith (Q : List HttpClient → Loop → Type 0) : Type 0 where
  pub own : (cs : List HttpClient) → IsKept (Q cs)
  pub running :
      (cs : List HttpClient) (b : Bool) (l : Loop) → Q cs l → Q cs (record l { running = b })
  pub accept :
      (k : Kernel) (accepted : List Accepted) (cs : List HttpClient) (l : Loop)
      → Q cs l
      → let r = http_accept_cb k Callback.http_client_cb accepted l in Q (r.1 ++ cs) r.0
  pub settle :
      (cs : List HttpClient) (c : HttpClient) (l : Loop) (s : Served)
      → Q cs l
      → IsSettled c l s
      → Q (put_client c.fd s.client cs) s.loop

module _ (Q : List HttpClient → Loop → Type 0) (kept : IsKeptWith Q) where
  abbrev InWorld : World → Type 0
  InWorld w = Q w.clients w.proxy.loop

  notify-Q :
      (cs : List HttpClient) (now : ℕ) (hashes : List (List ℕ)) (p : Proxy)
      → Q cs p.loop
      → Q cs (on_block_notify now hashes p).loop
  notify-Q cs now hashes p h = subst (Q cs) (sym (loop-on_block_notify now hashes p)) h

  http_client-Q :
      (a : Answer) (c : HttpClient) (w : World) → InWorld w → InWorld (on_http_client a c w)
  unfolding on_http_client on_proxy
  http_client-Q a c w h =
      let lent : Notifier = record w.http.notifier { stats = w.stats } in
      let srv : HttpServer = record w.http { notifier = lent; stats = serialized a w } in
      let s = http_client_cb a.notify a.io srv c w.proxy.loop in
      notify-Q (put_client c.fd s.client w.clients) a.env.kernel.now _ _ (
        kept.settle w.clients c w.proxy.loop s h
          (client-IsSettled a.notify a.io srv c w.proxy.loop))

  notifier-Q :
      (now : ℕ) (handler : Notifier → Notifier × List Effect) (w : World)
      → InWorld w
      → InWorld (on_notifier now handler w)
  unfolding on_notifier on_proxy
  notifier-Q now handler w h = notify-Q w.clients now _ _ h

  timer-Q : (a : Answer) (cb : Callback) (w : World) → InWorld w → InWorld (on_timer a cb w)
  unfolding on_timer
  timer-Q a Callback.stall_timer_cb w h =
      option_rule InWorld (stall_timer_cb a.env.kernel.now w.stall) (record w { exited = true })
        (λ st. record w { stall = st }) (λ _. h) (λ st _. h)
  timer-Q a Callback.silence_check_cb w h =
      notifier-Q a.env.kernel.now (check_silence a.env.kernel.now w.proxy) w h
  timer-Q a cb w h = h

  other-Q :
      (a : Answer) (fd : ℕ) (cb : Callback) (w : World)
      → InWorld w
      → InWorld (other_event a fd cb w)
  unfolding other_event on_http_accept
  other-Q a fd Callback.http_accept_cb w h =
      kept.accept a.env.kernel a.connections w.clients w.proxy.loop h
  other-Q a fd (Callback.http_client_cb cfd) w h =
      option_rule InWorld (find_client cfd w.clients) w (λ c. on_http_client a c w) (λ _. h)
        (λ c _. http_client-Q a c w h)
  other-Q a fd Callback.zmq_fd_event_cb w h =
      notifier-Q a.env.kernel.now (zmq_fd_event_cb a.rounds) w h
  other-Q a fd cb w h =
      option_rule InWorld (timer_event_cb fd w.proxy.loop) w (λ tcb. on_timer a tcb w) (λ _. h)
        (λ tcb _. timer-Q a tcb w h)

  call-Q :
      {V : Type 0} (json : Json V) (cb : Callback) (fd : ℕ) (ev : Events) (w : World)
      → InWorld w
      → InWorld (call json cb fd ev w)
  unfolding call on_proxy
  call-Q json cb fd ev w h =
      let a = w.answers w.turn in
      let begun : World = record w { turn = suc w.turn } in
      let other = other_event a fd cb begun in
      let own : Event → World = λ e. on_proxy (step json a.env e) begun in
      let o = proxy_event a ev cb in
      if_rule InWorld w.exited w (elim o [ none ↦ other | some e ↦ own e ]) (λ _. h)
        (λ _.
          option_rule InWorld o other own (λ _. other-Q a fd cb begun h)
            (λ e _.
              step-P (Q w.clients) (kept.own w.clients) json a.env e
                (record w.proxy { stats = w.stats }) h))

  -- A run keeps it.
  pub run-Q :
      {V : Type 0} (json : Json V) (ws : List Wait) (w : World)
      → InWorld w
      → InWorld (event_loop_run (program json) ws w).0
  run-Q json ws w h =
      event_loop_run_inv (program json) InWorld (call-Q json)
        (λ b x t. kept.running x.clients b x.proxy.loop t) ws w h
