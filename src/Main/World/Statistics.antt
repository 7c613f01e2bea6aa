-- ===== src/Main/World/Statistics.antt =====
-- A request for the statistics through the whole program: src/event_loop.c dispatches it to
-- src/http_server.c, which calls stats_serialize_json of src/stats.c.
use rpcracer.Prelude.{
  ℕ, suc, ◌≡◌, ◌==◌, ◌-◌, ◌<◌, refl, ap, ◌∙◌, sym, subst, if_rule, leb, Option, arith, true, false,
  none, some, List, [], ◌∷◌, ◌++◌, length, take, is_some,
}
use rpcracer.Conn.{stream}
use rpcracer.EventLoop.{Callback, Events, Loop, del_fd, dispatch}
use rpcracer.EventLoop.Dispatch.{deliver}
use rpcracer.Framing.{codes, crlf2, strchr, strstr, starts_with, str_eq}
use rpcracer.HttpServer.{
  response_header, written, http_send_response, HttpServer, HttpClient, Response, Served,
  stats_text, stats_route, http_client_cb, on_request_bytes, http_handle_request, route,
  http_max_request,
}
use rpcracer.HttpServer.Responses.{IsShort, header_bound, not_leb}
use rpcracer.Main.World.{
  Answer, World, on_proxy, on_http_client, find_client, put_client, serialized, current_report,
  http_max_response, other_event, call, program,
}
use rpcracer.Main.Notification.{on_block_notify}
use rpcracer.Main.World.Notified.{received}
use rpcracer.Notifier
use rpcracer.Notifier.{Effect}
use rpcracer.Proxy.Response.{Json}
use rpcracer.Stats.{Stats}
use rpcracer.Stats.Report.{stats_serialize_json}

-- The text of a request for the statistics.
abbrev pub stats_request : List ℕ → List ℕ
stats_request rest = codes "GET /stats" ++ (32 ∷ rest)

-- Such a request has arrived, complete.
pub record Requests (c : HttpClient) (bytes rest : List ℕ) : Type 0 where
  pub some_bytes : (length (take (http_max_request - length c.buf - 1) bytes) == 0) ≡ false
  pub text : received c bytes ≡ stats_request rest
  pub ends : is_some (strstr (received c bytes) crlf2) ≡ true

-- The response with this document.
abbrev pub statistics : List ℕ → Response
statistics json = record {
  status_code = 200;
  status_text = codes "OK";
  content_type = codes "application/json";
  body = json;
}

handle_stats :
    (env : Notifier.Env) (peer rest : List ℕ) (srv : HttpServer)
    → http_handle_request env peer (stats_request rest) srv ≡ (srv, [], stats_route srv.stats)
unfolding http_handle_request route strchr starts_with str_eq
handle_stats env peer rest srv = refl

-- What the server leaves.
abbrev freed : HttpServer → HttpClient → Loop → Served
freed srv c l = record {
  server = srv;
  client = none;
  loop = (del_fd l (some c.fd)).0;
  effects = [];
  response = some (stats_route srv.stats);
}

serves :
    (env : Notifier.Env) (srv : HttpServer) (c : HttpClient) (l : Loop) (bytes rest : List ℕ)
    → Requests c bytes rest
    → http_client_cb env (stream bytes) srv c l ≡ freed srv c l
unfolding http_client_cb on_request_bytes
serves env srv c l bytes rest h =
    rw (h.some_bytes, h.ends, h.text, handle_stats env c.peer_addr rest srv) refl

serialized_lem :
    (a : Answer) (w : World) (s : Stats) (json : List ℕ)
    → w.stats ≡ some s
    → a.stats_memory ≡ true
    → a.write (current_report a.env.kernel.now s w) ≡ some json
    → length json < http_max_response
    → serialized a w ≡ stats_text json
unfolding serialized current_report stats_serialize_json
serialized_lem a w s json made memory text fits = rw (made, memory, text) (ground arith)

-- The response that the client gets with this document.
abbrev pub response_bytes : List ℕ → List ℕ
response_bytes json = response_header (statistics json) ++ json

-- The socket takes the header and the document whole.
abbrev pub Takes : Answer → List ℕ → Type 0
Takes a json =
    (a.header_taken ≡ some (length (response_header (statistics json))))
    × (a.body_taken ≡ some (length json))

statistics-IsShort : (json : List ℕ) → length json < http_max_response → IsShort (statistics json)
statistics-IsShort json h = omega arith

empty_of : (xs : List ℕ) → (length xs == 0) ≡ true → xs ≡ []
empty_of [] h = refl
empty_of (x ∷ xs) h = absurd (ground arith)

nonempty_header : (r : Response) → (length (response_header r) == 0) ≡ false
unfolding response_header
nonempty_header r = ground arith

take_all : (xs : List ℕ) → take (length xs) xs ≡ xs
take_all [] = refl
take_all (x ∷ xs) = ap (λ ys. x ∷ ys) (take_all xs)

written-all :
    (text json : List ℕ)
    → (length text == 0) ≡ false
    → written (some (length text)) (some (length json)) text json ≡ text ++ json
unfolding written
written-all text json h = rw h (
    if_rule (λ b. take (length text) text ++ b ≡ text ++ json) (length json == 0) _ _
      (λ e. rw (take_all text, empty_of json e) refl) (λ _. rw (take_all text, take_all json) refl))

-- Nothing is lost of a short header and a body that are taken whole.
sends :
    (header_taken body_taken : Option ℕ) (r : Response)
    → IsShort r
    → header_taken ≡ some (length (response_header r))
    → body_taken ≡ some (length r.body)
    → http_send_response header_taken body_taken r ≡ response_header r ++ r.body
unfolding http_send_response
sends header_taken body_taken r short header body =
    let text = response_header r in
    let fits : leb 512 (length text) ≡ false = not_leb (length text) (header_bound r short) in
    rw fits (
      ap (λ o. written o body_taken text r.body) header
      ∙ (ap (λ o. written (some (length text)) o text r.body) body
          ∙ written-all text r.body (nonempty_header r)))

-- What is left once the statistics have been sent: nothing but the client and its descriptor has
-- changed.
abbrev pub IsReported : HttpClient → List ℕ → World → World → Type 0
IsReported c json w w' =
    (w'.responses ≡ (c.fd, response_bytes json) ∷ w.responses)
    × (w'.clients ≡ put_client c.fd none w.clients)
    × (w'.stats ≡ w.stats)
    × (w'.proxy ≡ record w.proxy { loop = (del_fd w.proxy.loop (some c.fd)).0; stats = w.stats })

on_http_client-IsReported :
    (a : Answer) (c : HttpClient) (w : World) (bytes rest json : List ℕ)
    → a.io ≡ stream bytes
    → Requests c bytes rest
    → serialized a w ≡ stats_text json
    → length json < http_max_response
    → Takes a json
    → IsReported c json w (on_http_client a c w)
unfolding on_http_client on_proxy on_block_notify stats_route
on_http_client-IsReported a c w bytes rest json io h text fits takes =
    let lent : Notifier.Notifier = record w.http.notifier { stats = w.stats } in
    let srv : HttpServer = record w.http { notifier = lent; stats = serialized a w } in
    let s = http_client_cb a.notify a.io srv c w.proxy.loop in
    let left : s ≡ freed srv c w.proxy.loop =
      subst (λ io'. http_client_cb a.notify io' srv c w.proxy.loop ≡ freed srv c w.proxy.loop)
        (sym io) (serves a.notify srv c w.proxy.loop bytes rest h) in
    let put : List ℕ → List (ℕ × List ℕ) = λ bytes. (c.fd, bytes) ∷ w.responses in
    rw left (
      ap (λ t. put (http_send_response a.header_taken a.body_taken (stats_route t))) text
          ∙ ap put (
              sends a.header_taken a.body_taken (statistics json) (statistics-IsShort json fits)
                takes.0 takes.1),
      refl,
      refl,
      refl,
    )

-- When the event loop delivers the last bytes of a request for /stats, and there is memory for the
-- text of the document, which fits the buffer, and the socket takes the header and the text whole: the
-- client gets the header and then the document that is made of the counters, the labels and the
-- states of the nodes at that time; it is freed and its descriptor taken
-- out of the loop, and nothing else changes in the proxy and the statistics.
pub deliver-IsReported :
    {V : Type 0} (json : Json V) (fd : ℕ) (ev : Events) (w : World) (c : HttpClient) (s : Stats)
    (bytes rest text : List ℕ)
    → dispatch w.proxy.loop fd ≡ some (Callback.http_client_cb c.fd)
    → w.exited ≡ false
    → find_client c.fd w.clients ≡ some c
    → w.stats ≡ some s
    → (w.answers w.turn).io ≡ stream bytes
    → Requests c bytes rest
    → (w.answers w.turn).stats_memory ≡ true
    → (w.answers w.turn).write (current_report (w.answers w.turn).env.kernel.now s w) ≡ some text
    → length text < http_max_response
    → Takes (w.answers w.turn) text
    → IsReported c text w (deliver (program json) fd ev w)
unfolding deliver call other_event current_report
deliver-IsReported json fd ev w c s bytes rest text d alive found made io h memory written fits
      takes =
    let a = w.answers w.turn in
    let begun : World = record w { turn = suc w.turn } in
    rw (d, deliver)
      (rw alive (
        rw (found, other_event)
          (on_http_client-IsReported a c begun bytes rest text io h
            (serialized_lem a begun s text made memory written fits) fits takes)))
