-- ===== src/Main/World/Clients/Handlers.antt =====
-- The handlers of src/http_server.c and src/notifier.c: the clients that they make and free, and the
-- entries of the event loop that point to them.
use rpcracer.Prelude.{
  ℕ, ◌≡◌, ◌&&◌, inl, inr, refl, sym, subst, arith, Bool, true, false, none, some, List, [], ◌∷◌,
  ◌++◌, is_some, if_rule,
}
use rpcracer.EventLoop.{Callback, Loop, Kernel, epoll_in, add_fd, del_fd, find_entry, hash_del}
use rpcracer.HttpServer.{HttpClient, Served, Accepted, http_accept_cb}
use rpcracer.Main.World.{find_client, put_client}
use rpcracer.Main.World.Clients.{
  IsLive, add-IsLive, grow-AllPoint, free-AllPoint, freed-AllPoint, hash_del-AllAlone,
}
use rpcracer.Main.World.Kept.{IsSettled}

-- One more client is there.
grow_one :
    (c : HttpClient) (cs : List HttpClient) (x : ℕ)
    → is_some (find_client x cs) ≡ true
    → is_some (find_client x (c ∷ cs)) ≡ true
unfolding find_client
grow_one c cs x h = ground arith

new_client : (c : HttpClient) (cs : List HttpClient) → is_some (find_client c.fd (c ∷ cs)) ≡ true
unfolding find_client
new_client c cs = ground arith

-- The order of clients does not matter.
reorder :
    (cs ds : List HttpClient) (c : HttpClient) (x : ℕ)
    → is_some (find_client x (cs ++ (c ∷ ds))) ≡ true
    → is_some (find_client x (c ∷ (cs ++ ds))) ≡ true
unfolding find_client
reorder [] ds c x h = h
reorder (d ∷ cs) ds c x h = ground (arith, reorder cs ds c x)

pub accept-IsLive :
    (k : Kernel) (accepted : List Accepted) (cs : List HttpClient) (l : Loop)
    → IsLive cs l
    → let r = http_accept_cb k Callback.http_client_cb accepted l in IsLive (r.1 ++ cs) r.0
unfolding http_accept_cb
accept-IsLive k [] cs l h = h
accept-IsLive k (a ∷ rest) cs l h =
    let c : HttpClient = record { fd = a.fd; buf = []; peer_addr = a.peer_addr } in
    let r = add_fd k l (some a.fd) epoll_in (Callback.http_client_cb a.fd) in
    let grown : IsLive (c ∷ cs) l = (h.0, grow-AllPoint cs (c ∷ cs) l.fd_map (grow_one c cs) h.1) in
    let added =
      add-IsLive (c ∷ cs) k a.fd epoll_in (Callback.http_client_cb a.fd) l (refl, new_client c cs)
        grown in
    let later = accept-IsLive k rest (c ∷ cs) r.0 added in
    let more = http_accept_cb k Callback.http_client_cb rest r.0 in
    if_rule (λ (x : Loop × List HttpClient). IsLive (x.1 ++ cs) x.0)
      (a.nonblocking && (a.memory && r.1)) (more.0, c ∷ more.1) _
      (λ _. (
        later.0,
        grow-AllPoint (more.1 ++ (c ∷ cs)) (c ∷ (more.1 ++ cs)) more.0.fd_map (reorder more.1 cs c)
            later.1,
      ))
      (λ _. accept-IsLive k rest cs l h)

freed-IsLive :
    (cs : List HttpClient) (fd : ℕ) (l : Loop)
    → IsLive cs l
    → IsLive (put_client fd none cs) (del_fd l (some fd)).0
unfolding del_fd
freed-IsLive cs fd l h =
    if_rule (λ (r : Loop × Bool). IsLive (put_client fd none cs) r.0)
      (is_some (find_entry fd l.fd_map)) (record l { fd_map = hash_del fd l.fd_map }, true)
      (l, false) (λ _. (hash_del-AllAlone fd l.fd_map h.0, freed-AllPoint cs fd l.fd_map h.0 h.1))
      (λ absent. (h.0, free-AllPoint cs fd l.fd_map (ground arith) h.1))

find-put_same :
    (fd : ℕ) (d : HttpClient) (cs : List HttpClient) (x : ℕ)
    → d.fd ≡ fd
    → is_some (find_client x cs) ≡ true
    → is_some (find_client x (put_client fd (some d) cs)) ≡ true
unfolding find_client put_client
find-put_same fd d [] x e h = h
find-put_same fd d (c ∷ cs) x e h = ground (arith, find-put_same fd d cs x e)

pub settled-IsLive :
    (cs : List HttpClient) (c : HttpClient) (l : Loop) (s : Served)
    → IsLive cs l
    → IsSettled c l s
    → IsLive (put_client c.fd s.client cs) s.loop
settled-IsLive cs c l s h (inl (gone, left)) =
    subst (λ x. IsLive (put_client c.fd x cs) s.loop) (sym gone)
      (subst (IsLive (put_client c.fd none cs)) (sym left) (freed-IsLive cs c.fd l h))
settled-IsLive cs c l s h (inr (d, waits, same_fd, left)) =
    subst (λ x. IsLive (put_client c.fd x cs) s.loop) (sym waits)
      (subst (IsLive (put_client c.fd (some d) cs)) (sym left) (
        h.0,
        grow-AllPoint cs (put_client c.fd (some d) cs) l.fd_map
            (λ x there. find-put_same c.fd d cs x same_fd there) h.1,
      ))
