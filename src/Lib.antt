-- ===== src/Lib.antt =====
-- Verification library of rpcracer, a proxy that sends a Bitcoin JSON-RPC request to several nodes
-- and answers with the first good response.
--
-- The program, by file of the repository's src/:
--   main.c        the order of start-up and clean-up                    Main
--   config.c      the configuration file                                Config
--   event_loop.c  a map from descriptors to callbacks over epoll        EventLoop
--   rpc_conn.c    one connection to a node and its HTTP framing         Conn, Framing
--   conn_pair.c   an active and a standby connection to one node        Pair
--   rpc_proxy.c   the client, the routing of a request, and the race    Proxy
--   stats.c       counters                                              Stats
--   util.c        clocks, hexadecimal text                              Util
--   notifier.c    block notifications: duplicates, grace period, relays  Notifier
--   http_server.c the routes /NOTIFY and /stats                         HttpServer
--   watchdog.c    the systemd notification socket                       Watchdog
--   log.c         log lines                                             Log
-- main.c makes a configuration, an event loop, a proxy, a notifier, statistics and an HTTP server,
-- in this order. The event loop is generic in the program that runs on it (EventLoop.Dispatch);
-- Main.World is the one program that runs on it: for every callback that is registered there, `call`
-- runs the handler of its part, on one loop and one stats_t that the parts share. Main.Start builds it
-- as main() does. The event loop calls conn_epoll_cb for a connection, which calls
-- on_upstream_response or on_upstream_error of the proxy; those send to the client, change the race,
-- reset connections and rotate pairs. Proxy.System composes them in that way: `step` is one call that
-- the event loop (or the notifier) makes, and `run` is a history of such calls. Proxy.Machine is the
-- specification of a race: phases (idle, a race that awaits so many nodes, an answered broadcast), the
-- moves between them with the responses that they send, and traces of moves.
--
-- How the model corresponds to the code. A struct is a record with its fields; a descriptor or an
-- index that may be -1 is an Option; a buffer is a list of bytes as long as its allocation, with
-- the count of received bytes beside it. Integers of 64 and 32 bits wrap where the code adds or
-- subtracts them unsigned (Prelude.Word); int64_t heights and JSON integers are ℤ, without the
-- overflow that a height of INT64_MAX from a node leads to. A handler is a function from the state
-- to the state. What the operating system answers to a call is an argument: `Kernel` for epoll_ctl,
-- the clock and malloc, `ConnectAnswer` and `Io` for the socket calls of a connection, `Env` for
-- the calls of the proxy or of the notifier. A callback that a connection makes is returned as a
-- `Notice` and run by the caller, which is where the code makes it: as the last thing that the
-- handler does. The bytes that a connection sends are named by a `Buffer` pointer, since the code
-- sends from the client's buffer without a copy. `client_out` of a proxy is the list of the calls
-- of send_upstream_response_to_client, in order, with the bytes that left the socket; it stands for
-- what the client sees and is read by no handler.
--
-- yyjson is a parameter: the record `Json` of Proxy.Response, with the reader and the accessors
-- that the proxy and the configuration call, its array iterator `items` in Config, and the writer
-- of Stats.Report. The named hypothesis of Config.Load, that the iterator gives as many items as
-- yyjson_arr_size says, is documented behaviour; Config.Roundtrip is an instance of the reader.
-- ZeroMQ is the answers of its calls; a multipart message is received whole, as it documents.
-- uthash is a list of entries with the newest first.
--
-- Loops run over lists (the nodes of a proxy, the bytes of a buffer, the answers of send()), so no
-- fuel is needed. The retry loop of send_upstream_response_to_client takes the answers of send() as
-- a list; an empty one stands for an error. responses_pending is a number that stops at 0: the code
-- decrements it in a race only, and compares it with <= 0.
--
-- The tree: Prelude (shared names, numbers, lists, options, Boolean tests); EventLoop with Registry
-- (the map), Dispatch (event_loop_run), Invariant (a rule for runs) and Timers; Framing with Laws;
-- Conn with Epoll (the handler), Validity, Notices and Reassembly; Pair with Rotation; Stats with
-- Laws and Report; Util with Clock and Hex; Notifier with Relays, Process (notifier_process_hash),
-- Announced, Grace, Silence, Url, Subscribe (ZeroMQ messages) and Sockets (the connects of the
-- relays), Descriptors (what the relays open and close) and Created (start and end, with Timers,
-- Resources and Lifetime); HttpServer with Listener, Notify and Responses; Config with Valid, Load,
-- Labels, Position and Roundtrip; Watchdog with Lifecycle; Log with Line; Main with Order,
-- Notification (HTTP server, notifier and proxy together), World (all parts on the event loop, with
-- Refines, Notified, Statistics, Counted (the races of a run), Kept (a rule for the clients and the
-- loop), Clients and Unique) and Start (main up to event_loop_run, with Run and Clients); Proxy
-- with Response and Request (parsing, routing and dispatch), Race and Failure (responses, timeouts,
-- errors), System, Lifecycle, and for proofs View, Verdict (rules for the handler of a response),
-- Invariant (the race invariant), Sent (what handlers leave of the responses), Late (responses of
-- an earlier race), Overwrite (requests during a race), Machine (with Handlers, Responses, Starts,
-- Races and Refines), Loops (what the proxy does to the event loop, and its start), Answers,
-- Created, Progress, Heights, Fallback, Routing and Timer; Tests (concrete data, witnesses).
--
-- Not modelled: the calls of log_msg in the other parts; socket options; the calls of epoll,
-- timerfd, sockets and files themselves, whose answers are arguments; the code of yyjson and
-- uthash. In Main.World the answers come from a sequence, one `Answer` for each callback, so a
-- clock that is read twice in one callback reads the same; the text that the JSON library writes
-- for the document of /stats is an answer too.
pub mod Prelude
pub mod EventLoop
pub mod Framing
pub mod Config
pub mod Conn
pub mod Pair
pub mod Stats
pub mod Util
pub mod Proxy
pub mod Log
pub mod Notifier
pub mod HttpServer
pub mod Watchdog
pub mod Main
pub mod Tests
