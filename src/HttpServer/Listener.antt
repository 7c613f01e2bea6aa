-- ===== src/HttpServer/Listener.antt =====
-- http_server_create and http_server_destroy of src/http_server.c: the listening socket.
use rpcracer.Prelude.{
  ℕ, ◌≡◌, arith, Bool, not, ◌&&◌, Option, none, some, List, [], ◌∷◌, if◌then◌else◌,
}
use rpcracer.EventLoop.{Loop, Kernel, Callback, epoll_in, add_fd, del_fd, find_entry, hash_del}

-- The answers of calloc, socket(), fcntl(), inet_pton(), bind() and listen().
pub record ListenAnswers : Type 0 where
  pub memory : Bool
  pub socket : Option ℕ
  pub nonblocking : Bool
  pub address : Bool
  pub bound : Bool
  pub listening : Bool

-- http_server_create: the loop, the listening descriptor of the server if it is made, and the
-- descriptors that are closed.
unfoldable pub http_server_create :
    Kernel → ListenAnswers → Callback → Loop → Loop × Option ℕ × List ℕ
http_server_create k a cb l = elim a.socket [
  | none ↦ (l, none, [])
  | some fd ↦
      let (l', added) = add_fd k l (some fd) epoll_in cb in
      if not a.memory
      then (l, none, [])
      else (if a.nonblocking && (a.address && (a.bound && (a.listening && added)))
          then (l', some fd, [])
          else (l, none, fd ∷ []))
]

unfoldable pub http_server_destroy : Option ℕ → Loop → Loop × List ℕ
http_server_destroy none l = (l, [])
http_server_destroy (some fd) l = ((del_fd l (some fd)).0, fd ∷ [])

-- A server that could be made is taken out of the loop again: the loop is as it was, and the
-- listening socket is closed.
pub destroy-create :
    (k : Kernel) (a : ListenAnswers) (cb : Callback) (l : Loop) (fd : ℕ)
    → (http_server_create k a cb l).1 ≡ some fd
    → http_server_destroy (some fd) (http_server_create k a cb l).0 ≡ (l, fd ∷ [])
unfolding http_server_create http_server_destroy add_fd del_fd find_entry hash_del
destroy-create k a cb l fd h = ground arith
