-- ===== src/Notifier/Sockets.antt =====
-- ck_connect and http_notify_connect of src/notifier.c: a descriptor that is connected, or nothing.
--
-- Each also returns the descriptors that it opens, and those that it closes.
use rpcracer.Prelude.{ℕ, Bool, not, ◌&&◌, ◌||◌, Option, none, some, List, [], ◌∷◌, if◌then◌else◌}

-- What connect() answers.
pub data Connected : Type 0 where
  established in_progress refused : Connected

-- What the operating system answers while a socket is opened: whether the host is an address or has
-- one, socket(), the two calls of fcntl(), and connect().
pub record SocketAnswers : Type 0 where
  pub inet_pton : Bool
  pub gethostbyname : Bool
  pub socket : Option ℕ
  pub getfl : Bool
  pub setfl : Bool
  pub connect : Connected

-- Whether it succeeds.
unfoldable pub set_nonblocking : SocketAnswers → Bool
set_nonblocking a = a.getfl && a.setfl

-- A UNIX socket, which connects while it still blocks.
unfoldable pub ck_connect : SocketAnswers → Option ℕ × List ℕ × List ℕ
unfolding set_nonblocking
ck_connect a = elim a.socket [
  | none ↦ (none, [], [])
  | some fd ↦ elim a.connect [
    | established ↦ if set_nonblocking a then (some fd, fd ∷ [], []) else (none, fd ∷ [], fd ∷ [])
    | in_progress ↦ (none, fd ∷ [], fd ∷ [])
    | refused ↦ (none, fd ∷ [], fd ∷ [])
  ]
]

-- A TCP socket to the host of the URL, which may still be connecting.
unfoldable pub http_notify_connect : SocketAnswers → Option ℕ × List ℕ × List ℕ
unfolding set_nonblocking
http_notify_connect a =
    if not (a.inet_pton || a.gethostbyname) then (none, [], []) else elim a.socket [
      | none ↦ (none, [], [])
      | some fd ↦ if not (set_nonblocking a) then (none, fd ∷ [], fd ∷ []) else elim a.connect [
        | established ↦ (some fd, fd ∷ [], [])
        | in_progress ↦ (some fd, fd ∷ [], [])
        | refused ↦ (none, fd ∷ [], fd ∷ [])
      ]
    ]
