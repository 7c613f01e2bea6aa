-- ===== src/HttpServer/Responses.antt =====
-- The responses of src/http_server.c and the buffers of its clients.
use rpcracer.Prelude.{
  false, ℕ, zero, suc, ◌+◌, ◌-◌, ◌≤◌, ◌<◌, ◌≡◌, ◌⊎◌, ◌==◌, ◌/◌, ◌%◌, refl, arith, not, ◌||◌, none,
  some, List, [], ◌∷◌, ◌++◌, length, take, drop, length-append, length-join, leb, if_rule,
  option_rule, Option-cases, inl, inr, is_some,
}
use rpcracer.EventLoop.{Loop}
use rpcracer.Framing.{decimal, codes, starts_with, strchr, c_str, crlf2, strstr}
use rpcracer.Util.{hex_decode}
use rpcracer.Conn.{Io, again, io_error, so_error, sent, stream}
use rpcracer.Notifier.{Env, Effect}
use rpcracer.HttpServer.{
  HttpServer, HttpClient, Response, Served, StatsAnswer, no_stats, no_memory, stats_error,
  stats_text, response_header, header_parts, stats_route, notify_route, route, http_handle_request,
  http_client_cb, on_request_bytes, http_max_request, all_hex,
}

length-decimal-le : (fuel n : ℕ) → length (decimal fuel n) ≤ fuel
unfolding decimal
length-decimal-le zero n = omega arith
length-decimal-le (suc fuel) n = ground (
  arith,
  length-decimal-le fuel (n / 10),
  length-append (decimal fuel (n / 10)) ((b'0' + n % 10) ∷ []),
)

-- The two texts of a response are short.
abbrev pub IsShort : Response → Type 0
IsShort r = length r.status_text + length r.content_type ≤ 60

pub not_leb : (n : ℕ) → n < 512 → leb 512 n ≡ false
not_leb n h = ground arith

pub header_bound : (r : Response) → IsShort r → length (response_header r) < 512
unfolding response_header
header_bound r h =
    rw (length-join (header_parts r))
      (omega (arith, length-decimal-le 10 r.status_code, length-decimal-le 20 (length r.body)))

stats_route-IsShort : (a : StatsAnswer) → IsShort (stats_route a)
unfolding stats_route
stats_route-IsShort no_stats = omega arith
stats_route-IsShort no_memory = omega arith
stats_route-IsShort stats_error = omega arith
stats_route-IsShort (stats_text body) = omega arith

-- What a route answers, apart from what it does.
abbrev Answers : HttpServer × List Effect × Response → Type 0
Answers (srv, effects, r) = IsShort r

notify_route-IsShort :
    (env : Env) (peer hex : List ℕ) (srv : HttpServer) → Answers (notify_route env peer hex srv)
unfolding notify_route
notify_route-IsShort env peer hex srv =
    if_rule Answers (not (length hex == 64) || not (all_hex hex)) _ _ (λ _. omega arith)
      (λ _. elim (Option-cases (hex_decode hex)) [
        | inl e ↦ rw e (omega arith)
        | inr (hash, e) ↦ rw e (omega arith)
      ])

route-IsShort :
    (env : Env) (peer path : List ℕ) (srv : HttpServer) → Answers (route env peer path srv)
unfolding route
route-IsShort env peer path srv =
    ground (arith, notify_route-IsShort env peer (drop 8 path) srv, stats_route-IsShort srv.stats)

pub http_handle_request-IsShort :
    (env : Env) (peer text : List ℕ) (srv : HttpServer)
    → Answers (http_handle_request env peer text srv)
unfolding http_handle_request
http_handle_request-IsShort env peer text srv =
    option_rule Answers (strchr 32 text) _ _ (λ _. omega arith)
      (λ m _.
        if_rule Answers (not (m == 3) || not (starts_with (codes "GET") text)) _ _
          (λ _. omega arith)
          (λ _.
            option_rule Answers (strchr 32 (drop 4 text)) _ _ (λ _. omega arith)
              (λ k _.
                if_rule Answers (leb 512 k) _ _ (λ _. omega arith)
                  (λ _. route-IsShort env peer (take k (drop 4 text)) srv))))

-- The client waits with room in its buffer and nothing has been done, or it is gone, and a response
-- to it fits the header buffer.
abbrev pub IsServed : Served → Type 0
IsServed s =
    ((c : HttpClient) × (s.client ≡ some c)
      × (length c.buf < http_max_request - 1)
      × (s.response ≡ none)
      × (s.effects ≡ []))
    ⊎ ((s.client ≡ none)
        × ((s.response ≡ none)
            ⊎ ((r : Response) × (s.response ≡ some r) × (length (response_header r) < 512))))

on_request_bytes-IsServed :
    (env : Env) (bytes : List ℕ) (srv : HttpServer) (c : HttpClient) (l : Loop)
    → IsServed (on_request_bytes env bytes srv c l)
unfolding on_request_bytes
on_request_bytes-IsServed env bytes srv c l =
    let buf = c.buf ++ bytes in
    let r = http_handle_request env c.peer_addr (c_str buf) srv in
    if_rule IsServed (is_some (strstr (c_str buf) crlf2)) _ _
      (λ _. inr (
        refl,
        inr (
          r.2,
          refl,
          header_bound r.2 (http_handle_request-IsShort env c.peer_addr (c_str buf) srv),
        ),
      ))
      (λ _.
        if_rule IsServed (leb (http_max_request - 1) (length buf)) _ _
          (λ _. inr (refl, inr (_, refl, header_bound _ (omega arith))))
          (λ h. inl (_, refl, ground arith, refl, refl)))

-- An event on a client whose buffer has room leaves it waiting, with room in its buffer and nothing
-- done, or closes it; a response that is sent then has a header that fits its buffer, so it is never
-- dropped for its length.
pub http_client_cb-IsServed :
    (env : Env) (io : Io) (srv : HttpServer) (c : HttpClient) (l : Loop)
    → length c.buf < http_max_request - 1
    → IsServed (http_client_cb env io srv c l)
unfolding http_client_cb
http_client_cb-IsServed env again srv c l h = inl (c, refl, h, refl, refl)
http_client_cb-IsServed env io_error srv c l h = inr (refl, inl refl)
http_client_cb-IsServed env (so_error ok) srv c l h = inl (c, refl, h, refl, refl)
http_client_cb-IsServed env (sent n) srv c l h = inl (c, refl, h, refl, refl)
http_client_cb-IsServed env (stream bytes) srv c l h =
    let got = take (http_max_request - length c.buf - 1) bytes in
    if_rule IsServed (length got == 0) _ _ (λ _. inr (refl, inl refl))
      (λ _. on_request_bytes-IsServed env got srv c l)
