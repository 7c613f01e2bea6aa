-- ===== src/Config.antt =====
-- src/config.c and config.h: loading and validating the configuration. A failure, which the source
-- logs before it returns NULL, is `none`. A text in a buffer is its bytes before the NUL.
--
-- The JSON library is the record `Json` of Proxy.Response; `items` is what its array iterator gives.
pub mod Position
pub mod Valid
pub mod Load
pub mod Labels
pub mod Roundtrip
use rpcracer.Prelude.{
  ℕ, zero, suc, ◌+◌, Bool, true, false, not, ◌&&◌, ◌||◌, Option, none, some, List, [], ◌∷◌, length,
  take, leb, ltb, ◌==◌, if◌then◌else◌, ℤ, pos, pos_part, leb_ℤ, ltb_ℤ, ◌>>=◌, ◌>>◌, guard,
}
use rpcracer.Framing.{codes, str_eq, c_str}
use rpcracer.Proxy.Response.{Json}

pub record NodeConfig : Type 0 where
  pub host : List ℕ
  pub rpc_port : ℕ
  pub zmq_port : ℕ
  pub label : List ℕ

pub record Config : Type 0 where
  pub nodes : List NodeConfig
  pub node_count : ℕ
  pub rpc_server_bind : List ℕ
  pub rpc_server_port : ℕ
  pub http_server_bind : List ℕ
  pub http_server_port : ℕ
  pub zmq_server_bind : List ℕ
  pub zmq_server_port : ℕ
  pub notify_http_url : List ℕ
  pub ck_notify_socket : List ℕ
  pub rpc_timeout_ms : ℕ
  pub log_verbosity : ℕ

abbrev pub max_nodes : ℕ
max_nodes = 16

-- What comes of reading the file, up to its contents.
pub data FileRead : Type 0 where
  no_path not_opened empty_file no_memory short_read : FileRead
  contents : List ℕ → FileRead

unfoldable pub file_data : FileRead → Option (List ℕ)
file_data (contents text) = some text
file_data _ = none

-- The loop that turns err.pos into a line and a column.
unfoldable pub position : ℕ → ℕ → ℕ → List ℕ → ℕ × ℕ
position line col zero text = (line, col)
position line col (suc err_pos) [] = (line, col)
position line col (suc err_pos) (c ∷ text) =
    if c == 10 then position (line + 1) 1 err_pos text else position line (col + 1) err_pos text

-- The inner loop of validate_unique_labels.
unfoldable pub has_label : List ℕ → List NodeConfig → Bool
has_label label [] = false
has_label label (n ∷ ns) = str_eq label n.label || has_label label ns

unfoldable pub unique_labels : List NodeConfig → Bool
unfolding has_label
unique_labels [] = true
unique_labels (n ∷ ns) = not (has_label n.label ns) && unique_labels ns

unfoldable pub validate_unique_labels : Config → Bool
unfolding unique_labels
validate_unique_labels c = unique_labels (take c.node_count c.nodes)

module _ {V : Type 0} (json : Json V) (items : V → List V) where
  unfoldable pub json_str_copy : ℕ → Option V → Option (List ℕ)
  json_str_copy dst_size none = none
  json_str_copy dst_size (some v) =
      let s = c_str (json.get_str v) in
      if not (json.is_str v) || leb dst_size (length s) then none else some s

  -- An integer of the range from `least` to `most`.
  unfoldable pub json_int : ℕ → ℕ → Option V → Option ℕ
  json_int least most none = none
  json_int least most (some v) =
      let i = json.get_sint v in
      if not (json.is_int v) || (ltb_ℤ i (pos least) || ltb_ℤ (pos most) i)
      then none
      else some (pos_part i)

  unfoldable pub json_uint16 : Option V → Option ℕ
  unfolding json_int
  json_uint16 val = json_int 1 65535 val

  unfoldable pub json_uint32 : Option V → Option ℕ
  unfolding json_int
  json_uint32 val = json_int 1 4294967295 val

  unfoldable pub node_zmq_port : Option V → Option ℕ
  unfolding json_uint16
  node_zmq_port none = some 0
  node_zmq_port (some v) = json_uint16 (some v)

  -- The body of the loop of parse_nodes.
  unfoldable pub parse_node : V → Option NodeConfig
  unfolding json_str_copy json_uint16 node_zmq_port
  parse_node v = do
    guard (json.is_obj v)
    host ← json_str_copy 256 (json.obj_get v (codes "host"))
    rpc_port ← json_uint16 (json.obj_get v (codes "rpc_port"))
    zmq_port ← node_zmq_port (json.obj_get v (codes "zmq_port"))
    label ← json_str_copy 64 (json.obj_get v (codes "label"))
    some (record { host = host; rpc_port = rpc_port; zmq_port = zmq_port; label = label })

  unfoldable pub parse_node_list : List V → Option (List NodeConfig)
  unfolding parse_node
  parse_node_list [] = some []
  parse_node_list (v ∷ vs) = do n ← parse_node v; ns ← parse_node_list vs; some (n ∷ ns)

  -- parse_nodes: node_count, and the nodes.
  unfoldable pub parse_nodes : V → Option (ℕ × List NodeConfig)
  unfolding parse_node_list
  parse_nodes root = do
    nodes_val ← json.obj_get root (codes "nodes")
    guard (json.is_arr nodes_val)
    guard (not (json.arr_size nodes_val == 0))
    guard (leb (json.arr_size nodes_val) max_nodes)
    ns ← parse_node_list (items nodes_val)
    some (json.arr_size nodes_val, ns)

  -- A text that is not a string is as if it were missing.
  unfoldable pub optional_str : ℕ → List ℕ → Option V → Option (List ℕ)
  unfolding json_str_copy
  optional_str size default none = some default
  optional_str size default (some v) =
      if json.is_str v then json_str_copy size (some v) else some default

  -- A port that is not an integer is as if it were missing.
  unfoldable pub optional_port : Option V → Option ℕ
  unfolding json_int
  optional_port none = some 0
  optional_port (some v) = if json.is_int v then json_int 0 65535 (some v) else some 0

  -- ck_notify_socket: here another type is an error.
  unfoldable pub ck_socket : Option V → Option (List ℕ)
  unfolding json_str_copy
  ck_socket none = some []
  ck_socket (some v) = json_str_copy 108 (some v)

  -- config_load from the root of the document on.
  unfoldable pub load_root : V → Option Config
  unfolding parse_nodes json_str_copy json_uint16 json_uint32 json_int optional_str optional_port
      ck_socket
  load_root root = do
    (node_count, nodes) ← parse_nodes root
    rpc_bind ← json_str_copy 64 (json.obj_get root (codes "rpc_server_bind"))
    rpc_port ← json_uint16 (json.obj_get root (codes "rpc_server_port"))
    http_bind ← json_str_copy 64 (json.obj_get root (codes "http_server_bind"))
    http_port ← json_uint16 (json.obj_get root (codes "http_server_port"))
    zmq_bind ← optional_str 64 (codes "0.0.0.0") (json.obj_get root (codes "zmq_server_bind"))
    zmq_port ← optional_port (json.obj_get root (codes "zmq_server_port"))
    url ← optional_str 512 [] (json.obj_get root (codes "notify_http_url"))
    timeout ← json_uint32 (json.obj_get root (codes "rpc_timeout_ms"))
    verbosity ← json_int 0 3 (json.obj_get root (codes "log_verbosity"))
    ck ← ck_socket (json.obj_get root (codes "ck_notify_socket"))
    let cfg : Config = record {
      nodes = nodes;
      node_count = node_count;
      rpc_server_bind = rpc_bind;
      rpc_server_port = rpc_port;
      http_server_bind = http_bind;
      http_server_port = http_port;
      zmq_server_bind = zmq_bind;
      zmq_server_port = zmq_port;
      notify_http_url = url;
      ck_notify_socket = ck;
      rpc_timeout_ms = timeout;
      log_verbosity = verbosity;
    }
    guard (validate_unique_labels cfg)
    some cfg

  -- config_load, and whether calloc succeeds.
  unfoldable pub config_load : FileRead → Bool → Option Config
  unfolding file_data load_root
  config_load file alloc = do
    text ← file_data file
    root ← json.read text
    guard (json.is_obj root)
    guard alloc
    load_root root
