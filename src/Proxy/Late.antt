-- ===== src/Proxy/Late.antt =====
-- A response that comes after its race, while the next race runs (src/rpc_proxy.c,
-- on_upstream_response).
use rpcracer.Prelude.{
  ℕ, zero, suc, ◌≡◌, refl, ap, ◌∙◌, arith, Bool, true, false, ◌==◌, none, some, List, [], ◌∷◌, take,
  add64, ltb, get_elem?, is_some, Option, set, get_elem?-set_of_some,
}
use rpcracer.EventLoop.{Slot, slot0, slot1, Events, Loop, Kernel}
use rpcracer.Conn.{Conn, Io, is_busy, notify_response}
use rpcracer.Pair.{Pair, at, active, put, conn_pair_is_available}
use rpcracer.Proxy.{
  Proxy, Env, is_idle, conn_at, send_loop, start_rpc_timeout, close_client, put_conn,
  send_upstream_response_to_client,
}
use rpcracer.Proxy.Request.{start_fanout, send_available, dispatch_fanout}
use rpcracer.Proxy.Response.{Json, response_is_error}
use rpcracer.Proxy.Race.{
  gbt_response, generic_response, gbt_winner, judge_response, settle, respond, on_upstream_response,
  is_gbt_race,
}
use rpcracer.Proxy.Progress.{judge-winner}
use rpcracer.Conn.Epoll.{conn_epoll_cb}
use rpcracer.Proxy.Invariant.{start_fanout-IsRacing, run-IsRacing}
use rpcracer.Proxy.System.{Event, upstream, run, step, on_upstream, run_notice, put_pair}
use rpcracer.Proxy.Sent.{sent-race_complete, sent-leave_race}

put-at : (s : Slot) (q : Pair) → put s (at s q) q ≡ q
put-at slot0 q = refl
put-at slot1 q = refl

-- A connection that still sends or receives is left as it is.
send_available-busy :
    (k : Kernel) (len i : ℕ) (qs : List Pair) (l : Loop) (q : Pair)
    → get_elem? qs i ≡ some q
    → is_busy (active q).state ≡ true
    → get_elem? (send_available k len qs l).0 i ≡ some q
unfolding send_available conn_pair_is_available
send_available-busy k len i [] l q e busy = e
send_available-busy k len zero (r ∷ qs) l q e busy = ground (arith, put-at r.active_idx r)
send_available-busy k len (suc i) (r ∷ qs) l q e busy = send_available-busy k len i qs _ q e busy

-- What a race for any node starts with.
start_fanout_lem :
    (env : Env) (p : Proxy)
    → let q = start_fanout env false p in
      is_idle q.state ≡ false
      → q.pairs ≡ (send_available env.kernel p.client_recv_len p.pairs p.loop).0
unfolding start_fanout dispatch_fanout close_client start_rpc_timeout
start_fanout_lem env p h = ground arith

-- The response of this connection, as far as send() takes it.
abbrev pub answer : Env → Option ℕ → Conn → Option ℕ × List ℕ
answer env fd c = (fd, send_loop env.sends (take (add64 c.header_len c.content_length) c.recv_buf))

-- It is received whole, and is no error.
abbrev pub IsSuccess : {V : Type 0} → Json V → Conn → Type 0
IsSuccess json c =
    let total = add64 c.header_len c.content_length in
    (response_is_error json c ≡ false) × ((total == 0) ≡ false) × (ltb c.recv_len total ≡ false)

at-put : (s : Slot) (c : Conn) (q : Pair) → at s (put s c q) ≡ c
at-put slot0 c q = refl
at-put slot1 c q = refl

conn_at-put :
    (i : ℕ) (s : Slot) (c : Conn) (now : Pair) (q : Proxy)
    → get_elem? q.pairs i ≡ some (put s c now)
    → conn_at q i s ≡ some c
conn_at-put i s c now q h = rw (h, conn_at) (ap some (at-put s c now))

module _ {V : Type 0} (json : Json V) (env : Env) where
  judge-sends :
      (i : ℕ) (s : Slot) (c : Conn) (p : Proxy)
      → IsSuccess json c
      → p.winner_idx ≡ none
      → p.gbt_height_matched ≡ false
      → p.client_connected ≡ true
      → (judge_response json env i s c p).client_out ≡ answer env p.client_fd c ∷ p.client_out
  unfolding judge_response gbt_response gbt_winner generic_response send_upstream_response_to_client
      put_conn
  judge-sends i s c p ok w m up = ground arith

  settle-sent :
      (i : ℕ) (s : Slot) (c : Conn) (gbt : Bool) (p : Proxy)
      → is_some p.winner_idx ≡ true
      → (settle json env i s c gbt p).client_out ≡ p.client_out
  unfolding settle
  settle-sent i s c gbt p h = grind (arith, sent-race_complete, sent-leave_race)

  -- A response in a running race that needs no other is sent, whichever node it is from.
  respond-sends :
      (i : ℕ) (s : Slot) (c : Conn) (p : Proxy)
      → IsSuccess json c
      → is_idle p.state ≡ false
      → p.winner_idx ≡ none
      → p.gbt_height_matched ≡ false
      → p.client_connected ≡ true
      → (respond json env i s c p).client_out ≡ answer env p.client_fd c ∷ p.client_out
  unfolding respond
  respond-sends i s c p ok racing w m up = rw racing (
      settle-sent i s c (is_gbt_race p) (judge_response json env i s c p)
        (judge-winner json env i s c p ok.0 m)
      ∙ judge-sends i s c p ok w m up)

  on_response-sends :
      (i : ℕ) (s : Slot) (c : Conn) (p : Proxy)
      → conn_at p i s ≡ some c
      → IsSuccess json c
      → is_idle p.state ≡ false
      → p.winner_idx ≡ none
      → p.gbt_height_matched ≡ false
      → p.client_connected ≡ true
      → (on_upstream_response json env i s p).client_out ≡ answer env p.client_fd c ∷ p.client_out
  unfolding on_upstream_response
  on_response-sends i s c p found ok racing w m up =
      let run : Option Conn → Proxy =
        λ o. elim o [ none ↦ p | some d ↦ respond json env i s d p ] in
      ap (λ o. (run o).client_out) found ∙ respond-sends i s c p ok racing w m up

  -- The event that completes such a response.
  upstream-sends :
      (i : ℕ) (s : Slot) (ev : Events) (io : Io) (now : Pair) (c : Conn) (l : Loop) (p : Proxy)
      → get_elem? p.pairs i ≡ some now
      → conn_epoll_cb ev io env.kernel (at s now) p.loop ≡ (c, l, notify_response)
      → IsSuccess json c
      → is_idle p.state ≡ false
      → p.winner_idx ≡ none
      → p.gbt_height_matched ≡ false
      → p.client_connected ≡ true
      → (step json env (upstream i s ev io) p).client_out ≡ answer env p.client_fd c ∷ p.client_out
  unfolding step on_upstream put_pair run_notice
  upstream-sends i s ev io now c l p here received ok racing w m up =
      let q : Proxy = record p { pairs = set p.pairs i (put s c now); loop = l } in
      let found = conn_at-put i s c now q (get_elem?-set_of_some p.pairs i (put s c now) here) in
      rw (here, on_upstream) (rw received (on_response-sends i s c q found ok racing w m up))

-- While a node still answers an earlier request, a new race that need not wait for all nodes and is
-- sent to some node is not sent to that one. But after any history of events from there on, if the
-- client is connected and a race without a winner runs, then as soon as an event completes a
-- response on either connection of that node, and it is no error, it goes to the client as the
-- answer.
pub late_response_answers :
    {V : Type 0} (json : Json V) (env later : Env) (p : Proxy) (i : ℕ) (node now : Pair)
    (es : List (Env × Event)) (s : Slot) (ev : Events) (io : Io) (c : Conn) (l : Loop)
    → get_elem? p.pairs i ≡ some node
    → is_busy (active node).state ≡ true
    → is_idle (start_fanout env false p).state ≡ false
    → let race = start_fanout env false p in
      let q = run json es race in
      is_idle q.state ≡ false
      → q.winner_idx ≡ none
      → q.client_connected ≡ true
      → get_elem? q.pairs i ≡ some now
      → conn_epoll_cb ev io later.kernel (at s now) q.loop ≡ (c, l, notify_response)
      → IsSuccess json c
      → (get_elem? race.pairs i ≡ some node)
        × ((step json later (upstream i s ev io) q).client_out
            ≡ answer later q.client_fd c ∷ q.client_out)
late_response_answers json env later p i node now es s ev io c l e busy racing runs open_race up
      here received ok =
    let race = start_fanout env false p in
    let v =
      run-IsRacing json es race (start_fanout-IsRacing env false p (λ h. absurd (ground arith))) in
    (
      rw (start_fanout_lem env p racing)
          (send_available-busy env.kernel p.client_recv_len i p.pairs p.loop node e busy),
      upstream-sends json later i s ev io now c l (run json es race) here received ok runs open_race
          (v.unmatched runs) up,
    )
