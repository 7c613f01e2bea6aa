-- ===== src/Proxy/Timer.antt =====
-- The timeout timer of a race, when a request starts while the timer of an earlier one runs
-- (src/rpc_proxy.c, start_rpc_timeout and cancel_rpc_timeout).
use rpcracer.Proxy.{Proxy}
