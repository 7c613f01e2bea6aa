-- ===== src/Main/World/Clients/Run.antt =====
-- The clients of src/http_server.c over runs of the program.
use rpcracer.Prelude.{List}
use rpcracer.EventLoop.Dispatch.{Wait, event_loop_run}
use rpcracer.Main.World.{World, program}
use rpcracer.Main.World.Clients.{IsLive, IsLive-IsKept}
use rpcracer.Main.World.Clients.Handlers.{accept-IsLive, settled-IsLive}
use rpcracer.Main.World.Kept.{IsKeptWith, run-Q}
use rpcracer.Proxy.Response.{Json}

-- Every client that an entry of the event loop points to is there.
abbrev pub HasLiveClients : World → Type 0
HasLiveClients w = IsLive w.clients w.proxy.loop

IsLive-IsKeptWith : IsKeptWith IsLive
IsLive-IsKeptWith = record {
  own = IsLive-IsKept;
  running = λ cs b l h. h;
  accept = accept-IsLive;
  settle = settled-IsLive;
}

-- What a run keeps: every callback for a client is registered for the descriptor of a client that
-- is there.
pub event_loop_run-HasLiveClients :
    {V : Type 0} (json : Json V) (ws : List Wait) (w : World)
    → HasLiveClients w
    → HasLiveClients (event_loop_run (program json) ws w).0
event_loop_run-HasLiveClients json ws w h = run-Q IsLive IsLive-IsKeptWith json ws w h
