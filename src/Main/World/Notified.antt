-- ===== src/Main/World/Notified.antt =====
-- A block notification over HTTP through the whole program: src/event_loop.c dispatches it to
-- src/http_server.c, which hands it to src/notifier.c and on_block_notify of src/main.c.
use rpcracer.Prelude.{
  ℕ, ◌≡◌, ◌∙◌, ◌==◌, ◌-◌, refl, arith, true, false, none, some, List, [], ◌∷◌, ◌++◌, length, take,
  is_some,
}
use rpcracer.EventLoop.{del_fd}
use rpcracer.Framing.{crlf2, c_str, strstr}
use rpcracer.HttpServer.{HttpServer, HttpClient, http_max_request}
use rpcracer.HttpServer.Notify.{notification}
use rpcracer.Main.Notification.{Races, on_block_notify}
use rpcracer.Main.World.{World, put_client}
use rpcracer.Notifier
use rpcracer.Notifier.{Notifier}
use rpcracer.Proxy.{Proxy}
use rpcracer.Proxy.Request.{rpc_proxy_on_block_notify}

-- The text of a client's request once these bytes have arrived.
abbrev pub received : HttpClient → List ℕ → List ℕ
received c bytes = c_str (c.buf ++ take (http_max_request - length c.buf - 1) bytes)

-- A complete request for a notification of this hash has arrived.
pub record Completes (c : HttpClient) (bytes hash rest : List ℕ) : Type 0 where
  pub some_bytes : (length (take (http_max_request - length c.buf - 1) bytes) == 0) ≡ false
  pub text : received c bytes ≡ notification hash rest
  pub ends : is_some (strstr (received c bytes) crlf2) ≡ true

-- What is left once a client's notification has been served.
abbrev pub IsNotified : HttpClient → World → World → Type 0
IsNotified c w w' =
    Races w'.proxy
    × (w'.clients ≡ put_client c.fd none w.clients)
    × (w'.proxy.loop ≡ (del_fd w.proxy.loop (some c.fd)).0)

pub loop-on_block_notify :
    (now : ℕ) (hashes : List (List ℕ)) (p : Proxy) → (on_block_notify now hashes p).loop ≡ p.loop
unfolding on_block_notify rpc_proxy_on_block_notify
loop-on_block_notify now [] p = refl
loop-on_block_notify now (h ∷ hashes) p =
    loop-on_block_notify now hashes (rpc_proxy_on_block_notify now p) ∙ ground arith
