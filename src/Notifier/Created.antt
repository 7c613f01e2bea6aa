-- ===== src/Notifier/Created.antt =====
-- notifier_create and notifier_destroy of src/notifier.c, with the sockets that they open and close.
--
-- ZeroMQ and the operating system are the answers in `CreateEnv`. A resource is named by what it is
-- for. EPOLLET, for the ZeroMQ descriptor, is not part of an event mask here.
pub mod Timers
pub mod Resources
pub mod Lifetime
use rpcracer.Prelude.{
  ℕ, ◌+◌, Bool, true, false, not, ◌||◌, Option, none, some, List, [], ◌∷◌, ◌++◌, length, ltb, ◌==◌,
  if◌then◌else◌, is_some,
}
use rpcracer.EventLoop.{Loop, Kernel, Callback, epoll_in, add_fd, del_fd}
use rpcracer.EventLoop.Timers.{add_timer}
use rpcracer.Config.{NodeConfig, Config}
use rpcracer.Notifier.{Node, Notifier}
use rpcracer.Notifier.Sockets.{SocketAnswers, ck_connect}
use rpcracer.Notifier.Url.{parse_http_url}

pub data Resource : Type 0 where
  context pub_socket : Resource
  sub_socket : ℕ → Resource
  descriptor : ℕ → Resource

-- The answers for the SUB socket of one node.
pub record SubAnswers : Type 0 where
  pub socket : Bool
  pub subscribed : Bool
  pub connected : Bool
  pub fd : Option ℕ

pub record CreateEnv : Type 0 where
  pub memory : Bool
  pub context_made : Bool
  pub subs : ℕ → SubAnswers
  pub kernel : Kernel
  pub pub_made : Bool
  pub pub_bound : Bool
  pub ck_connect : SocketAnswers
  pub timer : Option ℕ
  pub settime : Bool
  pub zmq_cb : Callback
  pub silence_cb : Callback

-- What is open: the SUB sockets, with their nodes and descriptors, and the others.
pub record Handles : Type 0 where
  pub subs : List (ℕ × ℕ)
  pub pub_open : Bool
  pub relay_fd : Option ℕ
  pub ck_fd : Option ℕ

-- A notifier under construction, and what was opened and closed for it.
pub record Building : Type 0 where
  pub loop : Loop
  pub subs : List (ℕ × ℕ)
  pub pub_open : Bool
  pub opened : List Resource
  pub closed : List Resource

abbrev pub is_first : List (ℕ × ℕ) → Bool
is_first [] = true
is_first (s ∷ ss) = false

-- One round of the loop over the nodes, for a node with a port.
unfoldable pub open_sub : CreateEnv → ℕ → Building → Building × Bool
open_sub env i b =
    let a = env.subs i in
    let s = sub_socket i ∷ [] in
    let failed : Building × Bool =
      (record b { opened = b.opened ++ s; closed = b.closed ++ s }, false) in
    if a.socket
    then (if not a.subscribed || not a.connected then failed else elim a.fd [
      | none ↦ failed
      | some fd ↦
          let (l, added) =
            if is_first b.subs
            then add_fd env.kernel b.loop (some fd) epoll_in env.zmq_cb
            else (b.loop, true) in
          if added
          then (
            record b { loop = l; subs = b.subs ++ ((i, fd) ∷ []); opened = b.opened ++ s },
            true,
          )
          else failed
    ])
    else (b, false)

unfoldable pub open_subs : CreateEnv → ℕ → List NodeConfig → Building → Building × Bool
unfolding open_sub
open_subs env i [] b = (b, true)
open_subs env i (c ∷ cs) b =
    let (b1, ok) = if c.zmq_port == 0 then (b, true) else open_sub env i b in
    let rest = open_subs env (i + 1) cs b1 in if ok then rest else (b1, false)

unfoldable pub open_pub : CreateEnv → Config → Building → Building × Bool
open_pub env cfg b =
    if cfg.zmq_server_port == 0
    then (b, true)
    else (if env.pub_made
        then (record b { pub_open = true; opened = b.opened ++ (pub_socket ∷ []) }, env.pub_bound)
        else (b, false))

-- Whether the HTTP relay is configured, with host, port and path; `none` if the URL is refused.
unfoldable pub http_relay : List ℕ → Option (Bool × List ℕ × ℕ × List ℕ)
unfolding parse_http_url
http_relay [] = some (false, [], 0, [])
http_relay (c ∷ cs) = elim (parse_http_url 256 512 (c ∷ cs)) [
  | none ↦ none
  | some (host, port, path) ↦ some (true, host, port, path)
]

abbrev sub_resources : List (ℕ × ℕ) → List Resource
sub_resources [] = []
sub_resources ((i, fd) ∷ ss) = sub_socket i ∷ sub_resources ss

abbrev fd_resource : Option ℕ → List Resource
fd_resource none = []
fd_resource (some fd) = descriptor fd ∷ []

unfoldable pub remove_subs : List (ℕ × ℕ) → Loop → Loop
remove_subs [] l = l
remove_subs ((i, fd) ∷ ss) l = remove_subs ss (del_fd l (some fd)).0

-- notifier_destroy: the loop, and what it closes, in order.
unfoldable pub notifier_destroy : Handles → Loop → Loop × List Resource
unfolding remove_subs
notifier_destroy h l = (
  remove_subs h.subs l,
  sub_resources h.subs
      ++ ((if h.pub_open then pub_socket ∷ [] else [])
          ++ (fd_resource h.relay_fd ++ (fd_resource h.ck_fd ++ (context ∷ [])))),
)

abbrev initial_nodes : List NodeConfig → List Node
initial_nodes [] = []
initial_nodes (c ∷ cs) =
    record {
      label = c.label;
      zmq_port = c.zmq_port;
      last_hash = [];
      has_hash = false;
      hash_changed_ns = 0;
      silence_warned = false;
    }
    ∷ initial_nodes cs

abbrev ck_configured : Config → Bool
ck_configured cfg = not (length cfg.ck_notify_socket == 0)

-- The connection to ckpool, if it is configured.
abbrev ck_made : CreateEnv → Config → Option ℕ × List ℕ × List ℕ
ck_made env cfg = if ck_configured cfg then ck_connect env.ck_connect else (none, [], [])

abbrev pub descriptors : List ℕ → List Resource
descriptors [] = []
descriptors (fd ∷ fds) = descriptor fd ∷ descriptors fds

-- The notifier of a configuration, once the sockets are open.
unfoldable pub new_notifier : CreateEnv → Config → Building → Bool × List ℕ × ℕ × List ℕ → Notifier
new_notifier env cfg b (configured, host, port, path) = record {
  zmq_pub = b.pub_open;
  zmq_pub_seq = 0;
  last_hash = [];
  has_last_hash = false;
  notify_http_fd = none;
  notify_http_connected = false;
  notify_http_host = host;
  notify_http_port = port;
  notify_http_path = path;
  notify_http_configured = configured;
  ck_fd = (ck_made env cfg).0;
  ck_configured = ck_configured cfg;
  nodes = initial_nodes cfg.nodes;
  first_notify_ns = 0;
  grace_active = false;
  grace_start_ns = 0;
  grace_winner_node_idx = none;
  stats = none;
}

-- What notifier_create leaves: the loop, the notifier with its open sockets if it is made, and what
-- was opened and closed, in order.
pub record Created : Type 0 where
  pub loop : Loop
  pub result : Option (Notifier × Handles)
  pub opened : List Resource
  pub closed : List Resource

-- The label `fail`: notifier_destroy on a notifier whose ck_fd is still the 0 of calloc.
unfoldable pub give_up : Building → Created
unfolding notifier_destroy
give_up b =
    let h : Handles = record {
      subs = b.subs;
      pub_open = b.pub_open;
      relay_fd = none;
      ck_fd = some 0;
    } in
    let (l, closed) = notifier_destroy h b.loop in
    record { loop = l; result = none; opened = b.opened; closed = b.closed ++ closed }

-- The end of notifier_create, with the silence timer if there is more than one source; what is opened
-- is the descriptors of ck_connect and that of the timer.
unfoldable pub finish : CreateEnv → Config → Building → Bool × List ℕ × ℕ × List ℕ → Created
unfolding new_notifier add_timer
finish env cfg b relay =
    let n = new_notifier env cfg b relay in
    let (ck, ck_opened, ck_closed) = ck_made env cfg in
    let (l, timer) =
      if ltb 1 (length b.subs)
      then add_timer env.kernel env.timer env.settime 10000 env.silence_cb b.loop
      else (b.loop, none) in
    record {
      loop = l;
      result =
          some
            (n, record { subs = b.subs; pub_open = b.pub_open; relay_fd = none; ck_fd = n.ck_fd });
      opened = b.opened ++ (descriptors ck_opened ++ fd_resource timer);
      closed = b.closed ++ descriptors ck_closed;
    }

unfoldable pub notifier_create : CreateEnv → Config → Loop → Created
unfolding open_subs open_pub http_relay give_up finish
notifier_create env cfg l =
    let empty : Building = record {
      loop = l;
      subs = [];
      pub_open = false;
      opened = context ∷ [];
      closed = [];
    } in
    let (b1, subs_ok) = open_subs env 0 cfg.nodes empty in
    let (b2, pub_ok) = open_pub env cfg b1 in
    if not env.memory || not env.context_made
    then record { loop = l; result = none; opened = []; closed = [] }
    else (if subs_ok
        then (if pub_ok
            then elim (http_relay cfg.notify_http_url) [
              | none ↦ give_up b2
              | some relay ↦ finish env cfg b2 relay
            ]
            else give_up b2)
        else give_up b1)
