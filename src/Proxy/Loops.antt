-- ===== src/Proxy/Loops.antt =====
-- The event loop under the handlers of the proxy (src/rpc_conn.c, src/conn_pair.c and
-- src/rpc_proxy.c): the callbacks that are the proxy's, and properties of the loop.
pub mod Conns
pub mod Races
pub mod Requests
pub mod Created
use rpcracer.Prelude.{ℕ, ◌≡◌, Bool, true, false, Option}
use rpcracer.EventLoop.{
  Callback, Loop, Kernel, Events, conn_epoll_cb, rotation_timer_cb, listener_cb, client_cb,
  rpc_timeout_cb, add_fd, mod_fd, del_fd,
}

-- The callbacks of the proxy.
abbrev pub is_own : Callback → Bool
is_own (conn_epoll_cb i s) = true
is_own (rotation_timer_cb i) = true
is_own listener_cb = true
is_own client_cb = true
is_own rpc_timeout_cb = true
is_own _ = false

-- A property of the loop that these operations keep.
pub record IsKept (P : Loop → Type 0) : Type 0 where
  pub add :
      (k : Kernel) (fd : Option ℕ) (ev : Events) (cb : Callback) (l : Loop)
      → is_own cb ≡ true
      → P l
      → P (add_fd k l fd ev cb).0
  pub modify : (k : Kernel) (fd : Option ℕ) (ev : Events) (l : Loop) → P l → P (mod_fd k l fd ev).0
  pub remove : (fd : Option ℕ) (l : Loop) → P l → P (del_fd l fd).0
