-- ===== src/Main/World/Unique.antt =====
-- The descriptors of src/event_loop.c over runs of the program.
use rpcracer.Prelude.{◌++◌, ◌&&◌, inl, inr, sym, subst, some, List, [], ◌∷◌, if_rule}
use rpcracer.EventLoop.{Callback, Loop, Kernel, epoll_in, add_fd}
use rpcracer.EventLoop.Dispatch.{Wait, event_loop_run}
use rpcracer.EventLoop.Registry.{HasUniqueKeys, add, modify, remove, apply-HasUniqueKeys}
use rpcracer.HttpServer.{HttpClient, Served, Accepted, http_accept_cb}
use rpcracer.Main.World.{World, program}
use rpcracer.Main.World.Kept.{IsSettled, run-Q}
use rpcracer.Proxy.Loops.{IsKept}
use rpcracer.Proxy.Response.{Json}

abbrev IsUnique : List HttpClient → Loop → Type 0
IsUnique cs l = HasUniqueKeys l.fd_map

IsUnique-IsKept : (cs : List HttpClient) → IsKept (IsUnique cs)
IsUnique-IsKept cs = record {
  add = λ k fd ev cb l own. apply-HasUniqueKeys (add k fd ev cb) l;
  modify = λ k fd ev l. apply-HasUniqueKeys (modify k fd ev) l;
  remove = λ fd l. apply-HasUniqueKeys (remove fd) l;
}

accept-IsUnique :
    (k : Kernel) (accepted : List Accepted) (cs : List HttpClient) (l : Loop)
    → IsUnique cs l
    → let r = http_accept_cb k Callback.http_client_cb accepted l in IsUnique (r.1 ++ cs) r.0
unfolding http_accept_cb
accept-IsUnique k [] cs l h = h
accept-IsUnique k (a ∷ rest) cs l h =
    let r = add_fd k l (some a.fd) epoll_in (Callback.http_client_cb a.fd) in
    let added =
      apply-HasUniqueKeys (add k (some a.fd) epoll_in (Callback.http_client_cb a.fd)) l h in
    if_rule (λ (x : Loop × List HttpClient). HasUniqueKeys x.0.fd_map)
      (a.nonblocking && (a.memory && r.1)) _ _ (λ _. accept-IsUnique k rest cs r.0 added)
      (λ _. accept-IsUnique k rest cs l h)

settled-IsUnique :
    (cs : List HttpClient) (c : HttpClient) (l : Loop) (s : Served)
    → HasUniqueKeys l.fd_map
    → IsSettled c l s
    → HasUniqueKeys s.loop.fd_map
settled-IsUnique cs c l s h (inl (gone, left)) =
    subst (λ x. HasUniqueKeys x.fd_map) (sym left) (apply-HasUniqueKeys (remove (some c.fd)) l h)
settled-IsUnique cs c l s h (inr (d, waits, same_fd, left)) =
    subst (λ x. HasUniqueKeys x.fd_map) (sym left) h

-- A run keeps the descriptors of the event loop unique.
pub event_loop_run-HasUniqueKeys :
    {V : Type 0} (json : Json V) (ws : List Wait) (w : World)
    → HasUniqueKeys w.proxy.loop.fd_map
    → HasUniqueKeys (event_loop_run (program json) ws w).0.proxy.loop.fd_map
event_loop_run-HasUniqueKeys json ws w h =
    run-Q IsUnique
      (record {
        own = IsUnique-IsKept;
        running = λ cs b l h. h;
        accept = accept-IsUnique;
        settle = settled-IsUnique;
      })
      json ws w h
