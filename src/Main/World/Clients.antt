-- ===== src/Main/World/Clients.antt =====
-- The clients of src/http_server.c and the descriptors of src/event_loop.c: an entry of the loop
-- points to a client by its descriptor, and http_client_destroy frees the client.
pub mod Handlers
pub mod Run
use rpcracer.Prelude.{
  ℕ, ◌≡◌, ◌⊎◌, inl, inr, ◌==◌, refl, ap, subst, ◌∙◌, not, ◌||◌, arith, Bool, true, false, none,
  some, Option, List, [], ◌∷◌, ◌++◌, is_some, if◌then◌else◌, if_rule,
}
use rpcracer.EventLoop.{
  Callback, FdEntry, Loop, Kernel, Events, find_entry, hash_del, set_events, add_fd, mod_fd, del_fd,
  dispatch,
}
use rpcracer.HttpServer.{HttpClient}
use rpcracer.Main.World.{find_client, put_client}
use rpcracer.Proxy.Loops.{is_own, IsKept}

-- If the callback of an entry is for a client, the entry is that client's and the client is there.
abbrev pub PointsTo : List HttpClient → ℕ → Callback → Type 0
PointsTo cs fd (Callback.http_client_cb cfd) = (fd ≡ cfd) × (is_some (find_client cfd cs) ≡ true)
PointsTo cs fd _ = Unit {0}

abbrev pub AllPoint : List HttpClient → List FdEntry → Type 0
AllPoint cs [] = Unit {0}
AllPoint cs (e ∷ es) = PointsTo cs e.fd e.cb × AllPoint cs es

-- An entry is the only one with its descriptor, apart from newer ones, or has no clients behind it: a timer
-- of the start is added without a look at the map.
abbrev pub IsAlone : FdEntry → List FdEntry → Type 0
IsAlone e es = AllPoint [] es ⊎ (find_entry e.fd es ≡ none)

abbrev pub AllAlone : List FdEntry → Type 0
AllAlone [] = Unit {0}
AllAlone (e ∷ es) = IsAlone e es × AllAlone es

-- No entry of the loop points to a client that is freed.
abbrev pub IsLive : List HttpClient → Loop → Type 0
IsLive cs l = AllAlone l.fd_map × AllPoint cs l.fd_map

own-PointsTo :
    (cs : List HttpClient) (fd : ℕ) (cb : Callback) → is_own cb ≡ true → PointsTo cs fd cb
own-PointsTo cs fd (Callback.http_client_cb cfd) own = cc
own-PointsTo cs fd cb own = tt

hash_del-AllPoint :
    (cs : List HttpClient) (fd : ℕ) (es : List FdEntry)
    → AllPoint cs es
    → AllPoint cs (hash_del fd es)
unfolding hash_del
hash_del-AllPoint cs fd [] h = tt
hash_del-AllPoint cs fd (e ∷ es) h =
    if_rule (AllPoint cs) (e.fd == fd) es (e ∷ hash_del fd es) (λ _. h.1)
      (λ _. (h.0, hash_del-AllPoint cs fd es h.1))

set_events-AllPoint :
    (cs : List HttpClient) (fd : ℕ) (ev : Events) (es : List FdEntry)
    → AllPoint cs es
    → AllPoint cs (set_events fd ev es)
unfolding set_events
set_events-AllPoint cs fd ev [] h = tt
set_events-AllPoint cs fd ev (e ∷ es) h =
    if_rule (AllPoint cs) (e.fd == fd) (record e { events = ev } ∷ es) (e ∷ set_events fd ev es)
      (λ _. h) (λ _. (h.0, set_events-AllPoint cs fd ev es h.1))

find-hash_del :
    (x fd : ℕ) (es : List FdEntry) → find_entry x es ≡ none → find_entry x (hash_del fd es) ≡ none
unfolding find_entry hash_del
find-hash_del x fd [] e = refl
find-hash_del x fd (d ∷ es) e = ground (arith, find-hash_del x fd es)

find-set_events :
    (x fd : ℕ) (ev : Events) (es : List FdEntry)
    → find_entry x es ≡ none
    → find_entry x (set_events fd ev es) ≡ none
unfolding find_entry set_events
find-set_events x fd ev [] e = refl
find-set_events x fd ev (d ∷ es) e = ground (arith, find-set_events x fd ev es)

IsAlone-map :
    (e : FdEntry) (es ds : List FdEntry)
    → (AllPoint [] es → AllPoint [] ds)
    → (find_entry e.fd es ≡ none → find_entry e.fd ds ≡ none)
    → IsAlone e es
    → IsAlone e ds
IsAlone-map e es ds f g (inl h) = inl (f h)
IsAlone-map e es ds f g (inr h) = inr (g h)

pub hash_del-AllAlone : (fd : ℕ) (es : List FdEntry) → AllAlone es → AllAlone (hash_del fd es)
unfolding hash_del
hash_del-AllAlone fd [] h = h
hash_del-AllAlone fd (e ∷ es) h =
    if_rule AllAlone (e.fd == fd) es (e ∷ hash_del fd es) (λ _. h.1)
      (λ _. (
        IsAlone-map e es (hash_del fd es) (hash_del-AllPoint [] fd es) (find-hash_del e.fd fd es)
            h.0,
        hash_del-AllAlone fd es h.1,
      ))

set_events-AllAlone :
    (fd : ℕ) (ev : Events) (es : List FdEntry) → AllAlone es → AllAlone (set_events fd ev es)
unfolding set_events
set_events-AllAlone fd ev [] h = h
set_events-AllAlone fd ev (e ∷ es) h =
    if_rule AllAlone (e.fd == fd) (record e { events = ev } ∷ es) (e ∷ set_events fd ev es) (λ _. h)
      (λ _. (
        IsAlone-map e es (set_events fd ev es) (set_events-AllPoint [] fd ev es)
            (find-set_events e.fd fd ev es) h.0,
        set_events-AllAlone fd ev es h.1,
      ))

pub add-IsLive :
    (cs : List HttpClient) (k : Kernel) (fd : ℕ) (ev : Events) (cb : Callback) (l : Loop)
    → PointsTo cs fd cb
    → IsLive cs l
    → IsLive cs (add_fd k l (some fd) ev cb).0
unfolding add_fd
add-IsLive cs k fd ev cb l new h =
    if_rule (λ (r : Loop × Bool). IsLive cs r.0)
      (is_some (find_entry fd l.fd_map) || (not k.alloc || not (k.ctl fd))) (l, false) _ (λ _. h)
      (λ free. ((inr (ground arith), h.0), (new, h.1)))

pub del-IsLive :
    (cs : List HttpClient) (fd : Option ℕ) (l : Loop) → IsLive cs l → IsLive cs (del_fd l fd).0
unfolding del_fd
del-IsLive cs none l h = h
del-IsLive cs (some fd) l h =
    ground (arith, hash_del-AllAlone fd l.fd_map h.0, hash_del-AllPoint cs fd l.fd_map h.1)

mod-IsLive :
    (cs : List HttpClient) (k : Kernel) (fd : Option ℕ) (ev : Events) (l : Loop)
    → IsLive cs l
    → IsLive cs (mod_fd k l fd ev).0
unfolding mod_fd
mod-IsLive cs k none ev l h = h
mod-IsLive cs k (some fd) ev l h =
    ground
      (arith, set_events-AllAlone fd ev l.fd_map h.0, set_events-AllPoint cs fd ev l.fd_map h.1)

add_own-IsLive :
    (cs : List HttpClient) (k : Kernel) (fd : Option ℕ) (ev : Events) (cb : Callback) (l : Loop)
    → is_own cb ≡ true
    → IsLive cs l
    → IsLive cs (add_fd k l fd ev cb).0
unfolding add_fd
add_own-IsLive cs k none ev cb l own h = h
add_own-IsLive cs k (some fd) ev cb l own h =
    add-IsLive cs k fd ev cb l (own-PointsTo cs fd cb own) h

-- So the handlers of the proxy keep it.
pub IsLive-IsKept : (cs : List HttpClient) → IsKept (IsLive cs)
IsLive-IsKept cs = record {
  add = add_own-IsLive cs;
  modify = mod-IsLive cs;
  remove = λ fd l. del-IsLive cs fd l;
}

grow-PointsTo :
    (cs ds : List HttpClient) (fd : ℕ) (cb : Callback)
    → ((x : ℕ) → is_some (find_client x cs) ≡ true → is_some (find_client x ds) ≡ true)
    → PointsTo cs fd cb
    → PointsTo ds fd cb
grow-PointsTo cs ds fd (Callback.http_client_cb cfd) more h = (h.0, more cfd h.1)
grow-PointsTo cs ds fd cb more h = tt

-- Another client is still found after one is freed.
find-put_other :
    (x fd : ℕ) (cs : List HttpClient)
    → (fd == x) ≡ false
    → find_client x (put_client fd none cs) ≡ find_client x cs
unfolding find_client put_client
find-put_other x fd [] other = refl
find-put_other x fd (c ∷ cs) other = ground (arith, find-put_other x fd cs other)

free-PointsTo :
    (cs : List HttpClient) (fd x : ℕ) (cb : Callback)
    → (x == fd) ≡ false
    → PointsTo cs x cb
    → PointsTo (put_client fd none cs) x cb
free-PointsTo cs fd x (Callback.http_client_cb cfd) other h =
    (h.0, ap is_some (find-put_other cfd fd cs (ground arith)) ∙ h.1)
free-PointsTo cs fd x cb other h = tt

-- Of clients that are all there, more may be there.
pub grow-AllPoint :
    (cs ds : List HttpClient) (es : List FdEntry)
    → ((x : ℕ) → is_some (find_client x cs) ≡ true → is_some (find_client x ds) ≡ true)
    → AllPoint cs es
    → AllPoint ds es
grow-AllPoint cs ds [] more h = tt
grow-AllPoint cs ds (e ∷ es) more h =
    (grow-PointsTo cs ds e.fd e.cb more h.0, grow-AllPoint cs ds es more h.1)

-- Without the entries of this descriptor, its client may go.
pub free-AllPoint :
    (cs : List HttpClient) (fd : ℕ) (es : List FdEntry)
    → find_entry fd es ≡ none
    → AllPoint cs es
    → AllPoint (put_client fd none cs) es
unfolding find_entry
free-AllPoint cs fd [] gone h = tt
free-AllPoint cs fd (e ∷ es) gone h =
    (free-PointsTo cs fd e.fd e.cb (ground arith) h.0, free-AllPoint cs fd es (ground arith) h.1)

nobody :
    (cs : List HttpClient) (x : ℕ)
    → is_some (find_client x []) ≡ true
    → is_some (find_client x cs) ≡ true
unfolding find_client
nobody cs x h = ground arith

-- Without the first entry of this descriptor no other one is for its client, which may go.
pub freed-AllPoint :
    (cs : List HttpClient) (fd : ℕ) (es : List FdEntry)
    → AllAlone es
    → AllPoint cs es
    → AllPoint (put_client fd none cs) (hash_del fd es)
unfolding hash_del
freed-AllPoint cs fd [] alone h = tt
freed-AllPoint cs fd (e ∷ es) alone h =
    let rest : IsAlone e es → e.fd ≡ fd → AllPoint (put_client fd none cs) es = λ only same.
      elim only [
        | inl none_there ↦
            grow-AllPoint [] (put_client fd none cs) es (nobody (put_client fd none cs)) none_there
        | inr gone ↦ free-AllPoint cs fd es (subst (λ x. find_entry x es ≡ none) same gone) h.1
      ] in
    if_rule (AllPoint (put_client fd none cs)) (e.fd == fd) es (e ∷ hash_del fd es)
      (λ same. rest alone.0 (ground arith))
      (λ other. (free-PointsTo cs fd e.fd e.cb other h.0, freed-AllPoint cs fd es alone.1 h.1))
