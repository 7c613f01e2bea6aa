-- ===== src/Config/Roundtrip.antt =====
-- Writing a configuration as a document and loading it with src/config.c. The document is given by
-- what the accessors of the JSON library see of it: for each object its members, in order.
use rpcracer.Prelude.{
  ℕ, ◌≡◌, ◌≤◌, refl, ap, ◌∙◌, arith, Bool, true, false, Option, none, some, List, [], ◌∷◌, map,
  length, take, ◌==◌, if◌then◌else◌, pos, Bool-cases, inl, inr, leb,
}
use rpcracer.Framing.{codes, str_eq, c_str, Lacks}
use rpcracer.Proxy.Response.{Json}
use rpcracer.Config.{
  NodeConfig, Config, contents, json_str_copy, json_int, json_uint16, json_uint32, node_zmq_port,
  parse_node, parse_node_list, parse_nodes, optional_str, optional_port, ck_socket, load_root,
  config_load, file_data, validate_unique_labels, unique_labels, max_nodes,
}
use rpcracer.Config.Labels.{unique_labels_iff}
use rpcracer.Config.Valid.{Fits, Between, IsNode, AreNodes, IsValid, take_all, text_labels}

pub data Document : Type 0 where
  text : List ℕ → Document
  number : ℕ → Document
  node : NodeConfig → Document
  node_array : List NodeConfig → Document
  root : Config → Document

-- A port that is not configured is left out.
abbrev members : Document → List (List ℕ × Document)
members (node n) =
    (codes "host", text n.host)
    ∷ (codes "rpc_port", number n.rpc_port)
    ∷ (codes "label", text n.label)
    ∷ (if n.zmq_port == 0 then [] else (codes "zmq_port", number n.zmq_port) ∷ [])
members (root c) =
    (codes "nodes", node_array c.nodes)
    ∷ (codes "rpc_server_bind", text c.rpc_server_bind)
    ∷ (codes "rpc_server_port", number c.rpc_server_port)
    ∷ (codes "http_server_bind", text c.http_server_bind)
    ∷ (codes "http_server_port", number c.http_server_port)
    ∷ (codes "zmq_server_bind", text c.zmq_server_bind)
    ∷ (codes "zmq_server_port", number c.zmq_server_port)
    ∷ (codes "notify_http_url", text c.notify_http_url)
    ∷ (codes "rpc_timeout_ms", number c.rpc_timeout_ms)
    ∷ (codes "log_verbosity", number c.log_verbosity)
    ∷ (codes "ck_notify_socket", text c.ck_notify_socket)
    ∷ []
members _ = []

abbrev lookup : List ℕ → List (List ℕ × Document) → Option Document
lookup key [] = none
lookup key ((name, v) ∷ ms) = if str_eq key name then some v else lookup key ms

abbrev is_object : Document → Bool
is_object (node n) = true
is_object (root c) = true
is_object _ = false

abbrev is_array : Document → Bool
is_array (node_array ns) = true
is_array _ = false

abbrev is_number : Document → Bool
is_number (number n) = true
is_number _ = false

abbrev is_text : Document → Bool
is_text (text s) = true
is_text _ = false

abbrev text_of : Document → List ℕ
text_of (text s) = s
text_of _ = []

abbrev number_of : Document → ℕ
number_of (number n) = n
number_of _ = 0

abbrev pub items_of : Document → List Document
items_of (node_array ns) = map node ns
items_of _ = []

abbrev pub size_of : Document → ℕ
size_of (node_array ns) = length ns
size_of _ = 0

-- The library, whose parser is this function.
abbrev pub documents : (List ℕ → Option Document) → Json Document
documents read = record {
  read = read;
  is_obj = is_object;
  is_arr = is_array;
  is_int = is_number;
  is_str = is_text;
  is_null = λ _. false;
  obj_get = λ v key. lookup key (members v);
  get_sint = λ v. pos (number_of v);
  get_str = text_of;
  arr_size = size_of;
}

c_str_of_Lacks : (s : List ℕ) → Lacks 0 s → c_str s ≡ s
unfolding c_str
c_str_of_Lacks [] h = refl
c_str_of_Lacks (x ∷ xs) h = ground (arith, c_str_of_Lacks xs h.1)

module _ (read : List ℕ → Option Document) where
  copy_text :
      (size : ℕ) (s : List ℕ)
      → Fits size s
      → json_str_copy (documents read) items_of size (some (text s)) ≡ some s
  unfolding json_str_copy
  copy_text size s h = rw (c_str_of_Lacks s h.1) (ground arith)

  int_number :
      (least most n : ℕ)
      → Between least most n
      → json_int (documents read) items_of least most (some (number n)) ≡ some n
  unfolding json_int
  int_number least most n h = ground arith

  zmq_number :
      (n : NodeConfig)
      → n.zmq_port ≤ 65535
      → node_zmq_port (documents read) items_of (lookup (codes "zmq_port") (members (node n)))
        ≡ some n.zmq_port
  unfolding node_zmq_port str_eq json_uint16
  zmq_number n h = elim (Bool-cases (n.zmq_port == 0)) [
    | inl e ↦ rw e (ground arith)
    | inr e ↦ rw e (int_number 1 65535 n.zmq_port (ground arith, h))
  ]

  parse_node_lem :
      (n : NodeConfig) → IsNode n → parse_node (documents read) items_of (node n) ≡ some n
  unfolding parse_node json_uint16 str_eq
  parse_node_lem n h =
      rw
        (
          copy_text 256 n.host h.host_fits,
          int_number 1 65535 n.rpc_port h.rpc_port_range,
          zmq_number n h.zmq_port_range,
          copy_text 64 n.label h.label_fits,
        )
        refl

  parse_node_list_lem :
      (ns : List NodeConfig)
      → AreNodes ns
      → parse_node_list (documents read) items_of (map node ns) ≡ some ns
  unfolding parse_node_list
  parse_node_list_lem [] h = refl
  parse_node_list_lem (n ∷ ns) h = rw (parse_node_lem n h.0, parse_node_list_lem ns h.1) refl

  parse_nodes_lem :
      (c : Config)
      → IsValid c
      → parse_nodes (documents read) items_of (root c) ≡ some (c.node_count, c.nodes)
  unfolding parse_nodes str_eq
  parse_nodes_lem c h =
      let some_node : (length c.nodes == 0) ≡ false = ground (arith, h.count, h.count_range) in
      let few_nodes : leb (length c.nodes) max_nodes ≡ true =
        ground (arith, h.count, h.count_range) in
      rw (some_node, few_nodes, parse_node_list_lem c.nodes h.nodes_valid, h.count) refl

  labels_lem : (c : Config) → IsValid c → validate_unique_labels c ≡ true
  unfolding validate_unique_labels
  labels_lem c h =
      ap unique_labels (ap (λ n. take n c.nodes) h.count ∙ take_all c.nodes)
      ∙ (unique_labels_iff c.nodes (text_labels c.nodes h.nodes_valid)).1 h.distinct_labels

  load_root_lem : (c : Config) → IsValid c → load_root (documents read) items_of (root c) ≡ some c
  unfolding load_root str_eq json_uint16 json_uint32 optional_str optional_port ck_socket
  load_root_lem c h =
      rw
        (
          parse_nodes_lem c h,
          copy_text 64 c.rpc_server_bind h.rpc_bind_fits,
          int_number 1 65535 c.rpc_server_port h.rpc_port_range,
          copy_text 64 c.http_server_bind h.http_bind_fits,
          int_number 1 65535 c.http_server_port h.http_port_range,
          copy_text 64 c.zmq_server_bind h.zmq_bind_fits,
          int_number 0 65535 c.zmq_server_port (omega arith, h.zmq_port_range),
          copy_text 512 c.notify_http_url h.url_fits,
          int_number 1 4294967295 c.rpc_timeout_ms h.timeout_range,
          int_number 0 3 c.log_verbosity (omega arith, h.verbosity_range),
          copy_text 108 c.ck_notify_socket h.socket_fits,
          labels_lem c h,
        )
        refl

  -- Every valid configuration is loaded from its document as it was, whatever text the document is
  -- parsed from, if memory is available.
  pub config_load_document :
      (c : Config) (file : List ℕ)
      → IsValid c
      → read file ≡ some (root c)
      → config_load (documents read) items_of (contents file) true ≡ some c
  unfolding config_load file_data
  config_load_document c file h parsed = rw (parsed, load_root_lem c h) refl
