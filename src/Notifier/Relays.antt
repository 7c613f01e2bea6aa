-- ===== src/Notifier/Relays.antt =====
-- The relays of a notification in src/notifier.c: to ZeroMQ, HTTP and ckpool.
use rpcracer.Prelude.{
  ℕ, ◌+◌, true, false, not, ◌&&◌, ◌||◌, Option, none, some, List, [], ◌∷◌, ◌++◌, length, is_some,
  ltb, leb, ◌==◌, if◌then◌else◌, add32, take, drop,
}
use rpcracer.Framing.{codes, strstr, decimal}
use rpcracer.Util.{hex_encode}
use rpcracer.Notifier.Sockets.{ck_connect, http_notify_connect}
use rpcracer.Notifier.{
  Notifier, Effect, relay_zmq, relay_http, relay_ck, opened, closed, Written, wrote, would_block,
  broken, Env,
}

unfoldable pub relay_zmq_pub : Env → List ℕ → Notifier → Notifier × List Effect
relay_zmq_pub env hash n =
    if n.zmq_pub && (env.topic_sent && env.hash_sent)
    then (
      record n { zmq_pub_seq = add32 n.zmq_pub_seq 1 },
      if env.seq_sent then relay_zmq hash ∷ [] else [],
    )
    else (n, [])

-- path_buf: the path with the first "%s" replaced by the hash in hexadecimal.
unfoldable pub path_of : List ℕ → List ℕ → List ℕ
path_of hash path = elim (strstr path (codes "%s")) [
  | none ↦ path
  | some k ↦ take k path ++ (hex_encode hash ++ drop (k + 2) path)
]

abbrev crlf : List ℕ
crlf = 13 ∷ 10 ∷ []

unfoldable pub http_request : List ℕ → Notifier → List ℕ
unfolding path_of decimal
http_request hash n =
    codes "GET "
    ++ (path_of hash n.notify_http_path
        ++ (codes " HTTP/1.1"
            ++ (crlf
                ++ (codes "Host: "
                    ++ (n.notify_http_host
                        ++ (codes ":"
                            ++ (decimal 5 n.notify_http_port
                                ++ (crlf
                                    ++ (codes "Connection: keep-alive" ++ (crlf ++ crlf))))))))))

abbrev pub all_opened : List ℕ → List Effect
all_opened [] = []
all_opened (fd ∷ fds) = opened fd ∷ all_opened fds

abbrev pub all_closed : List ℕ → List Effect
all_closed [] = []
all_closed (fd ∷ fds) = closed fd ∷ all_closed fds

-- What a connect opened and closed.
unfoldable pub connect_effects : Option ℕ × List ℕ × List ℕ → List Effect
connect_effects (made, opened_fds, closed_fds) = all_opened opened_fds ++ all_closed closed_fds

unfoldable pub close_fd : Option ℕ → List Effect
close_fd none = []
close_fd (some fd) = closed fd ∷ []

-- The fd to write to: the one that is open, or a new one; an old one that is not connected is closed.
unfoldable pub http_fd : Env → Notifier → Option ℕ × List Effect
unfolding connect_effects close_fd
http_fd env n =
    let made = http_notify_connect env.http_connect in
    if is_some n.notify_http_fd && n.notify_http_connected
    then (n.notify_http_fd, [])
    else (made.0, close_fd n.notify_http_fd ++ connect_effects made)

abbrev http_close : ℕ → Notifier → Notifier × List Effect
http_close fd n =
    (record n { notify_http_fd = none; notify_http_connected = false }, closed fd ∷ [])

unfoldable pub http_written : Written → ℕ → List ℕ → Notifier → Notifier × List Effect
http_written would_block fd request n = (n, [])
http_written broken fd request n = http_close fd n
http_written (wrote k) fd request n =
    if ltb k (length request) then http_close fd n else (n, relay_http request ∷ [])

-- Connecting on demand, and writing.
unfoldable pub http_send : Env → List ℕ → Notifier → Notifier × List Effect
unfolding http_fd http_written
http_send env request n =
    let (fd, effects) = http_fd env n in
    elim fd [
      | none ↦ (record n { notify_http_fd = none }, effects)
      | some fd ↦
          let (n', sent) =
            http_written env.http_write fd request
              (record n { notify_http_fd = some fd; notify_http_connected = true }) in
          (n', effects ++ sent)
    ]

unfoldable pub relay_http_notify : Env → List ℕ → Notifier → Notifier × List Effect
unfolding http_request http_send
relay_http_notify env hash n =
    let request = http_request hash n in
    if not n.notify_http_configured
      || (leb 1024 (length (path_of hash n.notify_http_path)) || leb 2048 (length request))
    then (n, [])
    else http_send env request n

-- The fd to write to: the one that is open, or a new one.
unfoldable pub ck_fd_of : Env → Notifier → Option ℕ × List Effect
unfolding connect_effects
ck_fd_of env n =
    let made = ck_connect env.ck_connect in
    if is_some n.ck_fd then (n.ck_fd, []) else (made.0, connect_effects made)

unfoldable pub ck_written : Written → ℕ → Notifier → Notifier × List Effect
ck_written would_block fd n = (n, [])
ck_written broken fd n = (record n { ck_fd = none }, closed fd ∷ [])
ck_written (wrote k) fd n =
    if k == 10 then (n, relay_ck ∷ []) else (record n { ck_fd = none }, closed fd ∷ [])

unfoldable pub relay_ck_notify : Env → Notifier → Notifier × List Effect
unfolding ck_fd_of ck_written
relay_ck_notify env n =
    let (fd, effects) = ck_fd_of env n in
    if n.ck_configured
    then elim fd [
      | none ↦ (record n { ck_fd = none }, effects)
      | some fd ↦
          let (n', sent) = ck_written env.ck_write fd (record n { ck_fd = some fd }) in
          (n', effects ++ sent)
    ]
    else (n, [])

-- The three relays, in the order of the code.
unfoldable pub relay : Env → List ℕ → Notifier → Notifier × List Effect
unfolding relay_zmq_pub relay_http_notify relay_ck_notify
relay env hash n =
    let (n1, e1) = relay_zmq_pub env hash n in
    let (n2, e2) = relay_http_notify env hash n1 in
    let (n3, e3) = relay_ck_notify env n2 in (n3, e1 ++ (e2 ++ e3))
