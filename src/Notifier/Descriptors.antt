-- ===== src/Notifier/Descriptors.antt =====
-- The descriptors that the relays of src/notifier.c open and close, from notifier_create to
-- notifier_destroy.
use rpcracer.Prelude.{
  ℕ, zero, suc, ◌+◌, ◌≡◌, refl, ap, subst, ◌∙◌, arith, true, not, ◌||◌, Option, none, some, List,
  [], ◌∷◌, ◌++◌, ◌==◌, if◌then◌else◌, ◌>>=◌, if_rule, option_rule, option_rule,
}
use rpcracer.Notifier.{
  Notifier, Env, Effect, on_notify, relay_zmq, relay_http, relay_ck, opened, closed, Written, wrote,
  would_block, broken,
}
use rpcracer.Notifier.Process.{source_of, accept_notify, notifier_process_hash}
use rpcracer.Notifier.Relays.{
  connect_effects, close_fd, http_fd, http_written, http_send, http_request, relay_http_notify,
  relay_zmq_pub, ck_fd_of, ck_written, relay_ck_notify, relay,
}
use rpcracer.Notifier.Sockets.{SocketAnswers, ck_connect, http_notify_connect}

-- What a close of `fd` leaves of the openings of x; a descriptor that is not open cannot be closed.
abbrev pub after_close : ℕ → ℕ → ℕ → Option ℕ
after_close x fd zero = if fd == x then none else some zero
after_close x fd (suc c) = if fd == x then some c else some (suc c)

-- How often descriptor x is open after these effects, or nothing if it is closed while not open.
unfoldable pub balance : ℕ → List Effect → ℕ → Option ℕ
balance x [] c = some c
balance x (opened fd ∷ es) c = balance x es (if fd == x then suc c else c)
balance x (closed fd ∷ es) c = after_close x fd c >>= balance x es
balance x (_ ∷ es) c = balance x es c

abbrev pub is_fd : ℕ → Option ℕ → ℕ
is_fd x none = 0
is_fd x (some fd) = if fd == x then 1 else 0

-- How often the notifier holds it.
abbrev pub held : ℕ → Notifier → ℕ
held x n = is_fd x n.notify_http_fd + is_fd x n.ck_fd

-- Effects that begin with what one notifier holds, and end with what the next one does.
abbrev pub Balances : ℕ → Notifier → Notifier × List Effect → Type 0
Balances x n (m, es) = balance x es (held x n) ≡ some (held x m)

bind_chain :
    (o : Option ℕ) (f g h : ℕ → Option ℕ)
    → ((c : ℕ) → f c ≡ (g c >>= h))
    → (o >>= f) ≡ ((o >>= g) >>= h)
bind_chain none f g h e = refl
bind_chain (some c) f g h e = e c

balance-append :
    (x : ℕ) (xs ys : List Effect) (c : ℕ)
    → balance x (xs ++ ys) c ≡ (balance x xs c >>= balance x ys)
unfolding balance
balance-append x [] ys c = refl
balance-append x (opened fd ∷ xs) ys c = balance-append x xs ys _
balance-append x (closed fd ∷ xs) ys c =
    bind_chain (after_close x fd c) (balance x (xs ++ ys)) (balance x xs) (balance x ys)
      (balance-append x xs ys)
balance-append x (on_notify h ∷ xs) ys c = balance-append x xs ys c
balance-append x (relay_zmq h ∷ xs) ys c = balance-append x xs ys c
balance-append x (relay_http h ∷ xs) ys c = balance-append x xs ys c
balance-append x (relay_ck ∷ xs) ys c = balance-append x xs ys c

-- One list of effects after another.
pub balance_chain :
    (x : ℕ) (xs ys : List Effect) (c d e : ℕ)
    → balance x xs c ≡ some d
    → balance x ys d ≡ some e
    → balance x (xs ++ ys) c ≡ some e
balance_chain x xs ys c d e h k = balance-append x xs ys c ∙ (ap (λ o. o >>= balance x ys) h ∙ k)

closed_once : (x fd c : ℕ) → balance x (closed fd ∷ []) (is_fd x (some fd) + c) ≡ some c
unfolding balance
closed_once x fd c = ground arith

-- What a connect opens and does not close is the descriptor that it gives.
abbrev Connects : ℕ → ℕ → Option ℕ × List ℕ × List ℕ → Type 0
Connects x c r = balance x (connect_effects r) c ≡ some (is_fd x r.0 + c)

nothing : (x c : ℕ) → Connects x c (none, [], [])
unfolding balance connect_effects
nothing x c = ground arith

connected : (x c fd : ℕ) → Connects x c (some fd, fd ∷ [], [])
unfolding balance connect_effects
connected x c fd = ground arith

undone : (x c fd : ℕ) → Connects x c (none, fd ∷ [], fd ∷ [])
unfolding balance connect_effects
undone x c fd = ground arith

ck_connect-Connects : (x c : ℕ) (a : SocketAnswers) → Connects x c (ck_connect a)
unfolding ck_connect
ck_connect-Connects x c a =
    option_rule (Connects x c) a.socket _ _ (λ _. nothing x c)
      (λ fd _. grind (arith, connected x c fd, undone x c fd))

http_connect-Connects : (x c : ℕ) (a : SocketAnswers) → Connects x c (http_notify_connect a)
unfolding http_notify_connect
http_connect-Connects x c a =
    if_rule (Connects x c) (not (a.inet_pton || a.gethostbyname)) _ _ (λ _. nothing x c)
      (λ _.
        option_rule (Connects x c) a.socket _ _ (λ _. nothing x c)
          (λ fd _. grind (arith, connected x c fd, undone x c fd)))

pub balance-close : (x c : ℕ) (fd : Option ℕ) → balance x (close_fd fd) (is_fd x fd + c) ≡ some c
unfolding balance close_fd
balance-close x c none = ground arith
balance-close x c (some fd) = closed_once x fd c

balance-http_fd :
    (x c : ℕ) (env : Env) (n : Notifier)
    → balance x (http_fd env n).1 (is_fd x n.notify_http_fd + c)
      ≡ some (is_fd x (http_fd env n).0 + c)
unfolding http_fd balance
balance-http_fd x c env n =
    let made = http_notify_connect env.http_connect in
    ground (
      arith,
      balance_chain x (close_fd n.notify_http_fd) (connect_effects made)
          (is_fd x n.notify_http_fd + c) c (is_fd x made.0 + c) (balance-close x c n.notify_http_fd)
          (http_connect-Connects x c env.http_connect),
    )

http_written-Balances :
    (x : ℕ) (w : Written) (fd : ℕ) (request : List ℕ) (n : Notifier)
    → n.notify_http_fd ≡ some fd
    → Balances x n (http_written w fd request n)
unfolding http_written balance
http_written-Balances x would_block fd request n e = refl
http_written-Balances x broken fd request n e = ground (arith, closed_once x fd (is_fd x n.ck_fd))
http_written-Balances x (wrote k) fd request n e =
    ground (arith, closed_once x fd (is_fd x n.ck_fd))

http_send-Balances :
    (x : ℕ) (env : Env) (request : List ℕ) (n : Notifier) → Balances x n (http_send env request n)
unfolding http_send
http_send-Balances x env request n =
    let (made, effects) = http_fd env n in
    let c = is_fd x n.ck_fd in
    let connected : Option ℕ → Type 0 =
      λ fd. balance x effects (held x n) ≡ some (is_fd x fd + c) in
    let before : connected made = balance-http_fd x c env n in
    let after : ℕ → Notifier =
      λ fd. record n { notify_http_fd = some fd; notify_http_connected = true } in
    let sent : ℕ → Notifier × List Effect =
      λ fd. http_written env.http_write fd request (after fd) in
    option_rule (Balances x n) made (record n { notify_http_fd = none }, effects)
      (λ fd. ((sent fd).0, effects ++ (sent fd).1)) (λ e. subst connected e before)
      (λ fd e.
        balance_chain x effects (sent fd).1 (held x n) (held x (after fd)) (held x (sent fd).0)
          (subst connected e before)
          (http_written-Balances x env.http_write fd request (after fd) refl))

relay_http-Balances :
    (x : ℕ) (env : Env) (hash : List ℕ) (n : Notifier) → Balances x n (relay_http_notify env hash n)
unfolding relay_http_notify balance
relay_http-Balances x env hash n = ground (arith, http_send-Balances x env (http_request hash n) n)

ck_written-Balances :
    (x : ℕ) (w : Written) (fd : ℕ) (n : Notifier)
    → n.ck_fd ≡ some fd
    → Balances x n (ck_written w fd n)
unfolding ck_written balance
ck_written-Balances x would_block fd n e = refl
ck_written-Balances x broken fd n e = ground (arith, closed_once x fd (is_fd x n.notify_http_fd))
ck_written-Balances x (wrote k) fd n e = ground (arith, closed_once x fd (is_fd x n.notify_http_fd))

relay_zmq-Balances :
    (x : ℕ) (env : Env) (hash : List ℕ) (n : Notifier) → Balances x n (relay_zmq_pub env hash n)
unfolding relay_zmq_pub balance
relay_zmq-Balances x env hash n = ground arith

ck_fd-balance :
    (x : ℕ) (env : Env) (n : Notifier)
    → balance x (ck_fd_of env n).1 (held x n)
      ≡ some (is_fd x n.notify_http_fd + is_fd x (ck_fd_of env n).0)
unfolding ck_fd_of balance
ck_fd-balance x env n =
    let made = ck_connect env.ck_connect in
    ground (arith, ck_connect-Connects x (held x n) env.ck_connect)

relay_ck-Balances : (x : ℕ) (env : Env) (n : Notifier) → Balances x n (relay_ck_notify env n)
unfolding relay_ck_notify balance
relay_ck-Balances x env n =
    let (made, effects) = ck_fd_of env n in
    let connected : Option ℕ → Type 0 =
      λ fd. balance x effects (held x n) ≡ some (is_fd x n.notify_http_fd + is_fd x fd) in
    let before : connected made = ck_fd-balance x env n in
    let after : ℕ → Notifier = λ fd. record n { ck_fd = some fd } in
    let sent : ℕ → Notifier × List Effect = λ fd. ck_written env.ck_write fd (after fd) in
    if_rule (Balances x n) n.ck_configured _ (n, [])
      (λ _.
        option_rule (Balances x n) made (record n { ck_fd = none }, effects)
          (λ fd. ((sent fd).0, effects ++ (sent fd).1)) (λ e. subst connected e before)
          (λ fd e.
            balance_chain x effects (sent fd).1 (held x n) (held x (after fd)) (held x (sent fd).0)
              (subst connected e before) (ck_written-Balances x env.ck_write fd (after fd) refl)))
      (λ _. refl)

relay-Balances :
    (x : ℕ) (env : Env) (hash : List ℕ) (n : Notifier) → Balances x n (relay env hash n)
unfolding relay
relay-Balances x env hash n =
    let r1 = relay_zmq_pub env hash n in
    let r2 = relay_http_notify env hash r1.0 in
    let r3 = relay_ck_notify env r2.0 in
    balance_chain x r1.1 (r2.1 ++ r3.1) (held x n) (held x r1.0) (held x r3.0)
      (relay_zmq-Balances x env hash n)
      (balance_chain x r2.1 r3.1 (held x r1.0) (held x r2.0) (held x r3.0)
        (relay_http-Balances x env hash r1.0) (relay_ck-Balances x env r2.0))

process-Balances :
    (x : ℕ) (env : Env) (hash : List ℕ) (label : Option (List ℕ)) (n : Notifier)
    → let r = notifier_process_hash env hash label n in Balances x n (r.0, r.1)
unfolding notifier_process_hash accept_notify balance
process-Balances x env hash label n =
    let src = source_of env.now hash label n.nodes in
    let seen : Notifier = record n { nodes = src.0 } in
    ground (
      arith,
      relay-Balances x env hash seen,
      relay-Balances x env hash (accept_notify env.now hash src.1 seen),
    )

-- A history of notifications, with all that it does.
unfoldable pub process_all :
    List (Env × List ℕ × Option (List ℕ)) → Notifier → Notifier × List Effect
process_all [] n = (n, [])
process_all ((env, hash, label) ∷ es) n =
    let (n1, e1, accepted) = notifier_process_hash env hash label n in
    let (n2, e2) = process_all es n1 in (n2, e1 ++ e2)

pub process_all-Balances :
    (x : ℕ) (es : List (Env × List ℕ × Option (List ℕ))) (n : Notifier)
    → Balances x n (process_all es n)
unfolding process_all balance
process_all-Balances x [] n = refl
process_all-Balances x ((env, hash, label) ∷ es) n =
    let r = notifier_process_hash env hash label n in
    let q = process_all es r.0 in
    balance_chain x r.1 q.1 (held x n) (held x r.0) (held x q.0)
      (process-Balances x env hash label n) (process_all-Balances x es r.0)
