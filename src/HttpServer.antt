-- ===== src/HttpServer.antt =====
-- src/http_server.c: the small server for block notifications (/NOTIFY) and statistics (/stats).
--
-- A client is a record; one that the code destroys is `none`. The request is the C string in its
-- buffer. A response is a value, since the client is closed however its bytes are taken.
pub mod Listener
pub mod Notify
pub mod Responses
use rpcracer.Prelude.{
  ℕ, ◌+◌, ◌-◌, Bool, true, false, not, ◌&&◌, ◌||◌, Option, none, some, List, [], ◌∷◌, ◌++◌, length,
  join, take, drop, is_some, ltb, leb, ◌==◌, if◌then◌else◌,
}
use rpcracer.EventLoop.{Loop, Kernel, Callback, epoll_in, add_fd, del_fd}
use rpcracer.Framing.{codes, crlf2, starts_with, str_eq, c_str, strchr, strstr, decimal}
use rpcracer.Conn.{Io, again, io_error, so_error, sent, stream}
use rpcracer.Util.{hex_decode}
use rpcracer.Notifier.{Notifier, Env, Effect}
use rpcracer.Notifier.Process.{notifier_process_hash}

pub record HttpClient : Type 0 where
  pub fd : ℕ
  pub buf : List ℕ
  pub peer_addr : List ℕ

-- The notifier, the host and label of the configured nodes, and what stats_cb and malloc answer:
-- no callback, no memory, an error, or a text.
pub data StatsAnswer : Type 0 where
  no_stats no_memory stats_error : StatsAnswer
  stats_text : List ℕ → StatsAnswer

pub record HttpServer : Type 0 where
  pub notifier : Notifier
  pub nodes : List (List ℕ × List ℕ)
  pub stats : StatsAnswer

pub record Response : Type 0 where
  pub status_code : ℕ
  pub status_text : List ℕ
  pub content_type : List ℕ
  pub body : List ℕ

abbrev pub http_max_request : ℕ
http_max_request = 2048

abbrev crlf : List ℕ
crlf = 13 ∷ 10 ∷ []

-- A response in plain text, whose body ends the line.
abbrev pub plain : ℕ → List ℕ → List ℕ → Response
plain code status body = record {
  status_code = code;
  status_text = status;
  content_type = codes "text/plain";
  body = body ++ crlf;
}

abbrev pub bad_request : List ℕ → Response
bad_request body = plain 400 (codes "Bad Request") body

abbrev pub invalid_hash : Response
invalid_hash = bad_request (codes "Invalid block hash")

abbrev pub ok_response : Response
ok_response = plain 200 (codes "OK") (codes "OK")

-- The header of http_send_response.
abbrev pub header_parts : Response → List (List ℕ)
header_parts r =
    codes "HTTP/1.1 "
    ∷ decimal 10 r.status_code
    ∷ codes " "
    ∷ r.status_text
    ∷ crlf
    ∷ codes "Content-Type: "
    ∷ r.content_type
    ∷ crlf
    ∷ codes "Content-Length: "
    ∷ decimal 20 (length r.body)
    ∷ crlf
    ∷ codes "Connection: close"
    ∷ crlf
    ∷ crlf
    ∷ []

unfoldable pub response_header : Response → List ℕ
response_header r = join (header_parts r)

-- What write() takes of a header and a body, with its two answers: the body is written only behind a
-- header of which something was taken.
unfoldable pub written : Option ℕ → Option ℕ → List ℕ → List ℕ → List ℕ
written header_taken body_taken header body = elim header_taken [
  | none ↦ []
  | some k ↦
      take k header
      ++ (if k == 0 || length body == 0
          then []
          else elim body_taken [ none ↦ [] | some j ↦ take j body ])
]

-- What the client gets of a response.
unfoldable pub http_send_response : Option ℕ → Option ℕ → Response → List ℕ
unfolding response_header written
http_send_response header_taken body_taken r =
    let header = response_header r in
    if leb 512 (length header) then [] else written header_taken body_taken header r.body

-- is_hex_char.
unfoldable pub is_hex_char : ℕ → Bool
is_hex_char c =
    (leb b'0' c && leb c b'9') || ((leb b'a' c && leb c b'f') || (leb b'A' c && leb c b'F'))

unfoldable pub all_hex : List ℕ → Bool
unfolding is_hex_char
all_hex [] = true
all_hex (c ∷ cs) = is_hex_char c && all_hex cs

-- The label of the node with the client's address, or the address.
unfoldable pub node_label : List ℕ → List (List ℕ × List ℕ) → List ℕ
node_label peer [] = peer
node_label peer ((host, label) ∷ ns) = if str_eq host peer then label else node_label peer ns

-- The route /NOTIFY/<hex>.
unfoldable pub notify_route :
    Env → List ℕ → List ℕ → HttpServer → HttpServer × List Effect × Response
unfolding all_hex node_label
notify_route env peer hex srv =
    if not (length hex == 64) || not (all_hex hex)
    then (srv, [], invalid_hash)
    else elim (hex_decode hex) [
      | none ↦ (srv, [], invalid_hash)
      | some hash ↦
          let (n, effects, ok) =
            notifier_process_hash env hash (some (node_label peer srv.nodes)) srv.notifier in
          (record srv { notifier = n }, effects, ok_response)
    ]

-- The route /stats.
unfoldable pub stats_route : StatsAnswer → Response
stats_route no_stats = record {
  status_code = 503;
  status_text = codes "Service Unavailable";
  content_type = codes "application/json";
  body = codes "{\"error\":\"stats not available\"}" ++ crlf;
}
stats_route no_memory = plain 500 (codes "Internal Server Error") (codes "Out of memory")
stats_route stats_error = plain 500 (codes "Internal Server Error") (codes "Stats error")
stats_route (stats_text body) = record {
  status_code = 200;
  status_text = codes "OK";
  content_type = codes "application/json";
  body = body;
}

-- The routing of http_handle_request by path.
unfoldable pub route : Env → List ℕ → List ℕ → HttpServer → HttpServer × List Effect × Response
unfolding notify_route stats_route
route env peer path srv =
    if starts_with (codes "/NOTIFY/") path
    then notify_route env peer (drop 8 path) srv
    else (if str_eq path (codes "/stats")
        then (srv, [], stats_route srv.stats)
        else (if str_eq path (codes "/NOTIFY") || str_eq path (codes "/NOTIFY/")
            then (srv, [], bad_request (codes "Missing block hash"))
            else (srv, [], plain 404 (codes "Not Found") (codes "Not found"))))

-- http_handle_request on the text of the buffer.
unfoldable pub http_handle_request :
    Env → List ℕ → List ℕ → HttpServer → HttpServer × List Effect × Response
unfolding route
http_handle_request env peer text srv = elim (strchr 32 text) [
  | none ↦ (srv, [], bad_request (codes "Bad request"))
  | some method_len ↦
      if not (method_len == 3) || not (starts_with (codes "GET") text)
      then (srv, [], plain 405 (codes "Method Not Allowed") (codes "Method not allowed"))
      else elim (strchr 32 (drop 4 text)) [
        | none ↦ (srv, [], bad_request (codes "Bad request"))
        | some path_len ↦
            if leb 512 path_len
            then (srv, [], plain 414 (codes "URI Too Long") (codes "URI too long"))
            else route env peer (take path_len (drop 4 text)) srv
      ]
]

-- What one event on a client leaves: the server, the client if it is still there, and the loop;
-- what the notifier did, and the response.
pub record Served : Type 0 where
  pub server : HttpServer
  pub client : Option HttpClient
  pub loop : Loop
  pub effects : List Effect
  pub response : Option Response

-- http_client_destroy, behind a response or without one.
abbrev finish : HttpServer → HttpClient → Loop → List Effect → Option Response → Served
finish srv c l effects r = record {
  server = srv;
  client = none;
  loop = (del_fd l (some c.fd)).0;
  effects = effects;
  response = r;
}

abbrev wait : HttpServer → HttpClient → Loop → Served
wait srv c l = record { server = srv; client = some c; loop = l; effects = []; response = none }

-- http_client_cb after read() gave these bytes.
unfoldable pub on_request_bytes : Env → List ℕ → HttpServer → HttpClient → Loop → Served
unfolding http_handle_request
on_request_bytes env bytes srv c0 l =
    let c : HttpClient = record c0 { buf = c0.buf ++ bytes } in
    if is_some (strstr (c_str c.buf) crlf2)
    then (let (srv', effects, r) = http_handle_request env c.peer_addr (c_str c.buf) srv in
        finish srv' c l effects (some r))
    else (if leb (http_max_request - 1) (length c.buf)
        then finish srv c l [] (some (bad_request (codes "Request too large")))
        else wait srv c l)

-- http_client_cb: read() takes what fits of what the peer sent.
unfoldable pub http_client_cb : Env → Io → HttpServer → HttpClient → Loop → Served
unfolding on_request_bytes
http_client_cb env again srv c l = wait srv c l
http_client_cb env io_error srv c l = finish srv c l [] none
http_client_cb env (so_error ok) srv c l = wait srv c l
http_client_cb env (sent n) srv c l = wait srv c l
http_client_cb env (stream sent_bytes) srv c l =
    let bytes = take (http_max_request - length c.buf - 1) sent_bytes in
    if length bytes == 0 then finish srv c l [] none else on_request_bytes env bytes srv c l

-- What accept() gives: the descriptor and the peer's address, and whether O_NONBLOCK and calloc
-- succeed.
pub record Accepted : Type 0 where
  pub fd : ℕ
  pub peer_addr : List ℕ
  pub nonblocking : Bool
  pub memory : Bool

-- http_accept_cb, over the connections up to the first one that accept() does not give.
unfoldable pub http_accept_cb :
    Kernel → (ℕ → Callback) → List Accepted → Loop → Loop × List HttpClient
http_accept_cb k cb [] l = (l, [])
http_accept_cb k cb (a ∷ rest) l =
    let (l1, added) = add_fd k l (some a.fd) epoll_in (cb a.fd) in
    if a.nonblocking && (a.memory && added)
    then (let (l2, cs) = http_accept_cb k cb rest l1 in
        (l2, record { fd = a.fd; buf = []; peer_addr = a.peer_addr } ∷ cs))
    else http_accept_cb k cb rest l
