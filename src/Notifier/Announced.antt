-- ===== src/Notifier/Announced.antt =====
-- The hashes that the callback of src/notifier.c gets, and the relays.
use rpcracer.Notifier.Sockets.{ck_connect, http_notify_connect}
use rpcracer.Prelude.{ℕ, ◌≡◌, refl, arith, Option, none, some, List, [], ◌∷◌, ◌++◌, ap}
use rpcracer.Notifier.{
  Notifier, Env, Effect, on_notify, relay_zmq, relay_http, relay_ck, opened, closed, Written, wrote,
  would_block, broken,
}
use rpcracer.Notifier.Relays.{
  relay, relay_zmq_pub, relay_http_notify, http_written, http_request, http_send, http_fd,
  ck_written, ck_fd_of, connect_effects, all_opened, all_closed, close_fd, relay_ck_notify,
}

-- The hashes that the callback gets.
abbrev pub announced : List Effect → List (List ℕ)
announced [] = []
announced (on_notify hash ∷ es) = hash ∷ announced es
announced (_ ∷ es) = announced es

pub announced-append : (xs ys : List Effect) → announced (xs ++ ys) ≡ announced xs ++ announced ys
announced-append [] ys = refl
announced-append (on_notify h ∷ xs) ys = ap (λ hs. h ∷ hs) (announced-append xs ys)
announced-append (relay_zmq h ∷ xs) ys = announced-append xs ys
announced-append (relay_http h ∷ xs) ys = announced-append xs ys
announced-append (relay_ck ∷ xs) ys = announced-append xs ys
announced-append (opened fd ∷ xs) ys = announced-append xs ys
announced-append (closed fd ∷ xs) ys = announced-append xs ys

announced-relay_zmq :
    (env : Env) (hash : List ℕ) (n : Notifier) → announced (relay_zmq_pub env hash n).1 ≡ []
unfolding relay_zmq_pub
announced-relay_zmq env hash n = ground arith

announced-http_written :
    (w : Written) (fd : ℕ) (request : List ℕ) (n : Notifier)
    → announced (http_written w fd request n).1 ≡ []
unfolding http_written
announced-http_written would_block fd request n = refl
announced-http_written broken fd request n = refl
announced-http_written (wrote k) fd request n = ground arith

announced-all_opened : (fds : List ℕ) → announced (all_opened fds) ≡ []
announced-all_opened [] = refl
announced-all_opened (fd ∷ fds) = announced-all_opened fds

announced-all_closed : (fds : List ℕ) → announced (all_closed fds) ≡ []
announced-all_closed [] = refl
announced-all_closed (fd ∷ fds) = announced-all_closed fds

announced-connect : (r : Option ℕ × List ℕ × List ℕ) → announced (connect_effects r) ≡ []
unfolding connect_effects
announced-connect (made, opened_fds, closed_fds) =
    rw
      (
        announced-append (all_opened opened_fds) (all_closed closed_fds),
        announced-all_opened opened_fds,
      )
      (announced-all_closed closed_fds)

announced-close : (fd : Option ℕ) → announced (close_fd fd) ≡ []
unfolding close_fd
announced-close none = refl
announced-close (some fd) = refl

announced-http_fd : (env : Env) (n : Notifier) → announced (http_fd env n).1 ≡ []
unfolding http_fd
announced-http_fd env n =
    let made = http_notify_connect env.http_connect in
    ground (
      arith,
      announced-append (close_fd n.notify_http_fd) (connect_effects made),
      announced-close n.notify_http_fd,
      announced-connect made,
    )

announced-http_send :
    (env : Env) (request : List ℕ) (n : Notifier) → announced (http_send env request n).1 ≡ []
unfolding http_send
announced-http_send env request n =
    grind (arith, announced-http_fd env n, announced-append, announced-http_written)

announced-relay_http :
    (env : Env) (hash : List ℕ) (n : Notifier) → announced (relay_http_notify env hash n).1 ≡ []
unfolding relay_http_notify
announced-relay_http env hash n = ground (arith, announced-http_send env (http_request hash n) n)

announced-ck_fd : (env : Env) (n : Notifier) → announced (ck_fd_of env n).1 ≡ []
unfolding ck_fd_of
announced-ck_fd env n =
    let made = ck_connect env.ck_connect in ground (arith, announced-connect made)

announced-ck_written : (w : Written) (fd : ℕ) (n : Notifier) → announced (ck_written w fd n).1 ≡ []
unfolding ck_written
announced-ck_written would_block fd n = refl
announced-ck_written broken fd n = refl
announced-ck_written (wrote k) fd n = ground arith

announced-relay_ck : (env : Env) (n : Notifier) → announced (relay_ck_notify env n).1 ≡ []
unfolding relay_ck_notify
announced-relay_ck env n =
    grind (arith, announced-ck_fd env n, announced-append, announced-ck_written)

pub announced-relay :
    (env : Env) (hash : List ℕ) (n : Notifier) → announced (relay env hash n).1 ≡ []
unfolding relay
announced-relay env hash n =
    let r1 = relay_zmq_pub env hash n in
    let r2 = relay_http_notify env hash r1.0 in
    let r3 = relay_ck_notify env r2.0 in
    rw
      (
        announced-append r1.1 (r2.1 ++ r3.1),
        announced-append r2.1 r3.1,
        announced-relay_zmq env hash n,
        announced-relay_http env hash r1.0,
        announced-relay_ck env r2.0,
      )
      refl
