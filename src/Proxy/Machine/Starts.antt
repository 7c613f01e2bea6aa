-- ===== src/Proxy/Machine/Starts.antt =====
-- An event of the client (src/rpc_proxy.c, client_cb) as a move of the race machine.
use rpcracer.Prelude.{
  ℕ, not, ◌∙◌, ◌||◌, ◌==◌, take, if_rule, some, option_rule, ◌≡◌, ◌+◌, ◌-◌, arith, Bool, false,
  none, List, length, if◌then◌else◌, true,
}
use rpcracer.EventLoop.{Kernel, Events}
use rpcracer.Conn.{Io, stream, again}
use rpcracer.Proxy.{Proxy, Env, is_idle, close_client, start_rpc_timeout}
use rpcracer.Proxy.Response.{Json}
use rpcracer.Proxy.Request.{
  classify_method, start_route, start_fanout, start_sticky, begin_race, dispatch_sticky,
  dispatch_fanout, count_request, with_method, on_client_readable, parse_http_request,
  extract_json_rpc_method, take_request, on_client_bytes, on_client,
}
use rpcracer.Proxy.View.{view, view-close_client}
use rpcracer.Framing.{write_at}
use rpcracer.Proxy.Invariant.{IsRacing, start_route-IsRacing}
use rpcracer.Proxy.Sent.{sent-start_route, sent-count_request, sent-close_client}
use rpcracer.Proxy.Machine.{Moves}
use rpcracer.Proxy.Machine.Handlers.{Moves-refl, Moves-same}

-- From idle, any state that keeps the invariant and the sent responses is one move away, unless it is
-- answered from the start.
starts-Moves :
    (p q : Proxy)
    → is_idle p.state ≡ true
    → IsRacing (view q)
    → q.client_out ≡ p.client_out
    → (is_idle q.state ≡ false → q.winner_idx ≡ none)
    → Moves p q
starts-Moves p q h v e w = ground (arith, v.waiting)

winner-dispatch_sticky :
    (k : Kernel) (p : Proxy) → (dispatch_sticky k p).0.winner_idx ≡ p.winner_idx
unfolding dispatch_sticky dispatch_fanout close_client
winner-dispatch_sticky k p = ground arith

winner-start_fanout :
    (env : Env) (all : Bool) (p : Proxy) → (start_fanout env all p).winner_idx ≡ none
unfolding start_fanout dispatch_fanout close_client start_rpc_timeout
winner-start_fanout env all p = ground arith

winner-start_sticky : (env : Env) (p : Proxy) → (start_sticky env p).winner_idx ≡ none
unfolding start_sticky start_rpc_timeout begin_race
winner-start_sticky env p = grind (arith, winner-dispatch_sticky)

winner-start_route :
    (env : Env) (p : Proxy) → (start_route env (classify_method p)).winner_idx ≡ none
unfolding start_route classify_method
winner-start_route env p = grind (arith, winner-start_fanout, winner-start_sticky)

module _ {V : Type 0} (json : Json V) (env : Env) where
  take_request-Moves : (p : Proxy) → IsRacing (view p) → Moves p (take_request json env p)
  unfolding take_request
  take_request-Moves p v =
      let dropped : Proxy = record p { client_recv_len = 0 } in
      let counted : List ℕ → Proxy = λ m. count_request (with_method m p) in
      let begun : List ℕ → Proxy =
        λ m. record (start_route env (classify_method (counted m))) { client_recv_len = 0 } in
      let method = extract_json_rpc_method json p in
      let accepted : Proxy = elim method [ none ↦ dropped | some m ↦ begun m ] in
      if_rule (Moves p) (not (is_idle p.state)) dropped accepted (λ _. Moves-refl p v)
        (λ e.
          option_rule (Moves p) method dropped begun (λ _. Moves-refl p v)
            (λ m _.
              starts-Moves p (begun m) (ground arith) (start_route-IsRacing env (counted m))
                (sent-start_route env (counted m) ∙ sent-count_request (with_method m p))
                (λ _. winner-start_route env (counted m))))

  on_client_bytes-Moves :
      (bytes : List ℕ) (p : Proxy) → IsRacing (view p) → Moves p (on_client_bytes json env bytes p)
  unfolding on_client_bytes
  on_client_bytes-Moves bytes p v =
      let read : Proxy = record p {
        client_recv_buf = write_at p.client_recv_buf p.client_recv_len bytes;
        client_recv_len = p.client_recv_len + length bytes;
      } in
      if_rule (Moves p) (parse_http_request read) (take_request json env read) read
        (λ _. take_request-Moves read v) (λ _. Moves-refl p v)

  close_client-Moves : (p : Proxy) → IsRacing (view p) → Moves p (close_client p)
  close_client-Moves p v =
      Moves-same p (close_client p) v (view-close_client p) (sent-close_client p)

  on_client_readable-Moves :
      (io : Io) (p : Proxy) → IsRacing (view p) → Moves p (on_client_readable json env io p)
  unfolding on_client_readable
  on_client_readable-Moves (stream bytes) p v =
      let kept = take (length p.client_recv_buf - p.client_recv_len) bytes in
      let read = on_client_bytes json env kept p in
      if_rule (Moves p) (length p.client_recv_buf == p.client_recv_len) (close_client p)
        (if length bytes == 0 then close_client p else read) (λ _. close_client-Moves p v)
        (λ _.
          if_rule (Moves p) (length bytes == 0) (close_client p) read (λ _. close_client-Moves p v)
            (λ _. on_client_bytes-Moves kept p v))
  on_client_readable-Moves again p v =
      if_rule (Moves p) (length p.client_recv_buf == p.client_recv_len) (close_client p) p
        (λ _. close_client-Moves p v) (λ _. Moves-refl p v)
  on_client_readable-Moves io p v = close_client-Moves p v

  pub on_client-Moves :
      (ev : Events) (io : Io) (p : Proxy) → IsRacing (view p) → Moves p (on_client json env ev io p)
  unfolding on_client
  on_client-Moves ev io p v =
      let read = if ev.readable then on_client_readable json env io p else p in
      if_rule (Moves p) (ev.error || ev.hangup) (close_client p) read (λ _. close_client-Moves p v)
        (λ _.
          if_rule (Moves p) ev.readable (on_client_readable json env io p) p
            (λ _. on_client_readable-Moves io p v) (λ _. Moves-refl p v))
