-- ===== src/Proxy/Request.antt =====
-- The client's side of src/rpc_proxy.c: accepting, reading and parsing a request, classifying its
-- method, and dispatching it.
use rpcracer.Prelude.{
  ℕ, suc, ◌+◌, ◌-◌, Bool, true, false, not, ◌&&◌, ◌||◌, Option, none, some, List, [], ◌∷◌, ltb, leb,
  ◌==◌, if◌then◌else◌, get_elem?, set, length, take, drop, is_some, add64, negsuc,
}
use rpcracer.EventLoop.{Events, Loop, Kernel, epoll_in, client_cb, add_fd}
use rpcracer.Framing.{codes, header_end, content_length_of, str_eq, write_at}
use rpcracer.Conn.{client_recv_buf, Io, again, stream, rpc_conn_send}
use rpcracer.Pair.{Pair, put, active, conn_pair_is_available}
use rpcracer.Stats.{stats_record_request, stats_record_notify_time}
use rpcracer.Proxy.{
  Proxy, Env, RaceState, race_idle, race_fanout, race_sticky, is_idle, close_client,
  start_rpc_timeout,
}
use rpcracer.Proxy.Response.{Json}

-- listener_cb; `accepted` is what accept4() returns.
unfoldable pub on_accept : Env → Option ℕ → Proxy → Proxy
on_accept env none p = p
on_accept env (some fd) p0 =
    let p = close_client p0 in
    let (l, added) = add_fd env.kernel p.loop (some fd) epoll_in client_cb in
    if added
    then record p { loop = l; client_fd = some fd; client_connected = true; client_recv_len = 0 }
    else record p { loop = l }

-- parse_http_request: whether the buffer holds a complete request.
unfoldable pub parse_http_request : Proxy → Bool
parse_http_request p = elim (header_end (take p.client_recv_len p.client_recv_buf)) [
  | none ↦ false
  | some end ↦ leb (add64 end (content_length_of p.client_recv_buf end)) p.client_recv_len
]

-- The size of the field `method` of struct rpc_proxy.
abbrev method_size : ℕ
method_size = 128

module _ {V : Type 0} (json : Json V) where
  method_of : V → Option (List ℕ)
  method_of root = elim (json.obj_get root (codes "method")) [
    | none ↦ none
    | some m ↦
        if json.is_str m && ltb (length (json.get_str m)) method_size
        then some (json.get_str m)
        else none
  ]

  -- extract_json_rpc_method: the name that is stored in proxy->method.
  unfoldable pub extract_json_rpc_method : Proxy → Option (List ℕ)
  unfolding method_of
  extract_json_rpc_method p =
      let received = take p.client_recv_len p.client_recv_buf in
      elim (header_end received) [
        | none ↦ none
        | some end ↦
            if length (drop end received) == 0 then none else elim (json.read (drop end received)) [
              | none ↦ none
              | some root ↦ if json.is_obj root then method_of root else none
            ]
      ]

-- enum route_strategy_t.
pub data Route : Type 0 where
  route_race route_broadcast route_sticky : Route

-- The method name constants.
abbrev pub method_gbt : List ℕ
method_gbt = codes "getblocktemplate"

abbrev pub method_submitblock : List ℕ
method_submitblock = codes "submitblock"

abbrev pub method_sendrawtx : List ℕ
method_sendrawtx = codes "sendrawtransaction"

abbrev pub method_preciousblock : List ℕ
method_preciousblock = codes "preciousblock"

abbrev pub method_validateaddress : List ℕ
method_validateaddress = codes "validateaddress"

abbrev pub method_decoderawtx : List ℕ
method_decoderawtx = codes "decoderawtransaction"

-- classify_method: the route, and the proxy with notify_pending cleared by a GBT race.
unfoldable pub classify_method : Proxy → Route × Proxy
classify_method p =
    if str_eq p.method method_gbt
    then (if p.notify_pending || not (is_some p.sticky_node_idx)
        then (route_race, record p { notify_pending = false })
        else (route_sticky, p))
    else (if str_eq p.method method_submitblock || str_eq p.method method_sendrawtx
        then (route_broadcast, p)
        else (if str_eq p.method method_preciousblock then (route_sticky, p) else (route_race, p)))

-- The loop of dispatch_fanout: the pairs, the loop and the number of nodes sent to.
unfoldable pub send_available : Kernel → ℕ → List Pair → Loop → List Pair × Loop × ℕ
send_available k len [] l = ([], l, 0)
send_available k len (q ∷ qs) l =
    let (c, l1, ok) =
      if conn_pair_is_available q
      then rpc_conn_send k (some client_recv_buf) len (active q) l
      else (active q, l, false) in
    let (qs', l2, n) = send_available k len qs l1 in
    (put q.active_idx c q ∷ qs', l2, if ok then suc n else n)

-- dispatch_fanout: responses_pending is its result.
unfoldable pub dispatch_fanout : Kernel → Proxy → Proxy
dispatch_fanout k p =
    let (qs, l, n) = send_available k p.client_recv_len p.pairs p.loop in
    record p {
      loop = l;
      pairs = qs;
      node_retried = λ _. false;
      request_len = p.client_recv_len;
      responses_pending = n;
    }

-- The fields that a GBT height race starts from.
unfoldable pub reset_gbt : Proxy → Proxy
reset_gbt p = record p {
  best_gbt_height = negsuc 0;
  best_gbt_node_idx = none;
  gbt_height_matched = false;
}

-- The fall back to a fan-out race that dispatch_sticky has three times, and whether it reached a node.
unfoldable pub fall_back : Kernel → Proxy → Proxy × Bool
unfolding reset_gbt
fall_back k p0 =
    let p =
      dispatch_fanout k
        (record (reset_gbt p0) { state = race_fanout; all_must_complete = false }) in
    if p.responses_pending == 0 then (close_client p, false) else (p, true)

-- What dispatch_sticky does when the sticky node cannot be used.
unfoldable pub sticky_unusable : Kernel → Proxy → Proxy × Bool
unfolding fall_back
sticky_unusable k p =
    if str_eq p.method method_preciousblock then (close_client p, false) else fall_back k p

-- dispatch_sticky from conn_pair_is_available on, for the pair of the sticky node.
unfoldable pub send_sticky : Kernel → ℕ → Pair → Proxy → Proxy × Bool
unfolding sticky_unusable
send_sticky k i q p =
    if conn_pair_is_available q
    then (let (c, l, ok) =
          rpc_conn_send k (some client_recv_buf) p.client_recv_len (active q) p.loop in
        if ok
        then (
          record p {
            pairs = set p.pairs i (put q.active_idx c q);
            loop = l;
            responses_pending = 1;
          },
          true,
        )
        else sticky_unusable k p)
    else sticky_unusable k p

-- dispatch_sticky; an index outside the pairs would be a fault and is taken as an unusable node.
unfoldable pub dispatch_sticky : Kernel → Proxy → Proxy × Bool
unfolding send_sticky
dispatch_sticky k p0 =
    let p : Proxy = record p0 { node_retried = λ _. false; request_len = p0.client_recv_len } in
    elim p.sticky_node_idx [
      | none ↦ sticky_unusable k p
      | some i ↦ elim (get_elem? p.pairs i) [
        | none ↦ sticky_unusable k p
        | some q ↦ send_sticky k i q p
      ]
    ]

-- The fields that client_cb sets before it dispatches by any route.
unfoldable pub begin_race : RaceState → Bool → Proxy → Proxy
unfolding reset_gbt
begin_race s all p = record (reset_gbt p) {
  state = s;
  all_must_complete = all;
  winner_idx = none;
  last_error_idx = none;
}

-- The cases ROUTE_RACE and ROUTE_BROADCAST, which differ in all_must_complete.
unfoldable pub start_fanout : Env → Bool → Proxy → Proxy
unfolding begin_race
start_fanout env all p0 =
    let p = dispatch_fanout env.kernel (begin_race race_fanout all p0) in
    if p.responses_pending == 0
    then record (close_client p) { state = race_idle }
    else start_rpc_timeout env p

-- The case ROUTE_STICKY.
unfoldable pub start_sticky : Env → Proxy → Proxy
unfolding begin_race
start_sticky env p0 =
    let (p, ok) = dispatch_sticky env.kernel (begin_race race_sticky false p0) in
    if ok then start_rpc_timeout env p else record p { state = race_idle }

unfoldable pub start_route : Env → Route × Proxy → Proxy
start_route env (route_race, p) = start_fanout env false p
start_route env (route_broadcast, p) = start_fanout env true p
start_route env (route_sticky, p) = start_sticky env p

-- `if (proxy->stats) stats_record_request(proxy->stats)`.
unfoldable pub count_request : Proxy → Proxy
count_request p = elim p.stats [
  | none ↦ p
  | some s ↦ record p { stats = some (stats_record_request s) }
]

abbrev pub with_method : List ℕ → Proxy → Proxy
with_method m p = record p { method = m }

module _ {V : Type 0} (json : Json V) where
  -- client_cb once a complete request is in the buffer.
  unfoldable pub take_request : Env → Proxy → Proxy
  unfolding count_request
  take_request env p =
      if not (is_idle p.state)
      then record p { client_recv_len = 0 }
      else elim (extract_json_rpc_method json p) [
        | none ↦ record p { client_recv_len = 0 }
        | some m ↦ record (start_route env (classify_method (count_request (with_method m p)))) {
          client_recv_len = 0;
        }
      ]

  -- client_cb after recv() gave these bytes.
  unfoldable pub on_client_bytes : Env → List ℕ → Proxy → Proxy
  on_client_bytes env bytes p0 =
      let p : Proxy = record p0 {
        client_recv_buf = write_at p0.client_recv_buf p0.client_recv_len bytes;
        client_recv_len = p0.client_recv_len + length bytes;
      } in
      if parse_http_request p then take_request env p else p

  -- client_cb when the descriptor is readable: a full buffer, an error and the end of the stream
  -- close the client.
  unfoldable pub on_client_readable : Env → Io → Proxy → Proxy
  unfolding on_client_bytes
  on_client_readable env (stream bytes) p =
      if length p.client_recv_buf == p.client_recv_len
      then close_client p
      else (if length bytes == 0
          then close_client p
          else on_client_bytes env (take (length p.client_recv_buf - p.client_recv_len) bytes) p)
  on_client_readable env again p =
      if length p.client_recv_buf == p.client_recv_len then close_client p else p
  on_client_readable env _ p = close_client p

  -- client_cb.
  unfoldable pub on_client : Env → Events → Io → Proxy → Proxy
  unfolding on_client_readable
  on_client env ev io p =
      if ev.error || ev.hangup
      then close_client p
      else (if ev.readable then on_client_readable env io p else p)

-- rpc_proxy_on_block_notify.
unfoldable pub rpc_proxy_on_block_notify : ℕ → Proxy → Proxy
rpc_proxy_on_block_notify now p =
    let q : Proxy = record p {
      sticky_node_idx = none;
      notify_pending = true;
      last_notify_ns = now;
    } in
    elim p.stats [ none ↦ q | some s ↦ record q { stats = some (stats_record_notify_time now s) } ]
