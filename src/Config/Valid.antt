-- ===== src/Config/Valid.antt =====
-- What holds of every configuration that src/config.c loads, and of the parts that it reads.
use Prim.Native.String.{String}
use rpcracer.Prelude.{
  ℕ, suc, ◌≡◌, ◌≤◌, ◌<◌, refl, ap, arith, not, ◌||◌, Option, none, some, List, [], ◌∷◌, length,
  take, if_rule, leb, ◌==◌, pos, ltb_ℤ, Ensures, bind_rule, guard_rule, Ensures-mono,
}
use rpcracer.Framing.{Lacks, codes, c_str}
use rpcracer.Proxy.Response.{Json}
use rpcracer.Config.{
  NodeConfig, Config, json_str_copy, json_int, json_uint16, node_zmq_port, parse_node,
  parse_node_list, parse_nodes, optional_str, optional_port, ck_socket, max_nodes,
}
use rpcracer.Config.Labels.{c_str-Lacks, HasDistinctLabels, HasTextLabels}

-- A text that fits a buffer of this size, with its NUL.
abbrev pub Fits : ℕ → List ℕ → Type 0
Fits size s = (length s < size) × Lacks 0 s

abbrev pub Between : ℕ → ℕ → ℕ → Type 0
Between least most n = (least ≤ n) × (n ≤ most)

pub record IsNode (n : NodeConfig) : Type 0 where
  pub host_fits : Fits 256 n.host
  pub rpc_port_range : Between 1 65535 n.rpc_port
  pub zmq_port_range : n.zmq_port ≤ 65535
  pub label_fits : Fits 64 n.label

abbrev pub AreNodes : List NodeConfig → Type 0
AreNodes [] = Unit {0}
AreNodes (n ∷ ns) = IsNode n × AreNodes ns

pub record IsValid (c : Config) : Type 0 where
  pub count : c.node_count ≡ length c.nodes
  pub count_range : Between 1 max_nodes c.node_count
  pub nodes_valid : AreNodes c.nodes
  pub distinct_labels : HasDistinctLabels c.nodes
  pub rpc_bind_fits : Fits 64 c.rpc_server_bind
  pub rpc_port_range : Between 1 65535 c.rpc_server_port
  pub http_bind_fits : Fits 64 c.http_server_bind
  pub http_port_range : Between 1 65535 c.http_server_port
  pub zmq_bind_fits : Fits 64 c.zmq_server_bind
  pub zmq_port_range : c.zmq_server_port ≤ 65535
  pub url_fits : Fits 512 c.notify_http_url
  pub socket_fits : Fits 108 c.ck_notify_socket
  pub timeout_range : Between 1 4294967295 c.rpc_timeout_ms
  pub verbosity_range : c.log_verbosity ≤ 3

pub take_all : (ns : List NodeConfig) → take (length ns) ns ≡ ns
take_all [] = refl
take_all (n ∷ ns) = ap (λ xs. n ∷ xs) (take_all ns)

pub text_labels : (ns : List NodeConfig) → AreNodes ns → HasTextLabels ns
text_labels [] h = tt
text_labels (n ∷ ns) h = (h.0.label_fits.1, text_labels ns h.1)

IsNode-valid :
    {host label : List ℕ} {rpc_port zmq_port : ℕ}
    → Fits 256 host
    → Between 1 65535 rpc_port
    → zmq_port ≤ 65535
    → Fits 64 label
    → IsNode (record { host = host; rpc_port = rpc_port; zmq_port = zmq_port; label = label })
IsNode-valid h r z l = record {
  host_fits = h;
  rpc_port_range = r;
  zmq_port_range = z;
  label_fits = l;
}

pub anything {ℓ} : {A : Type ℓ} (o : Option A) → Ensures (λ _. Unit {0}) o
anything none = tt
anything (some a) = tt

module _ {V : Type 0} (json : Json V) (items : V → List V) where
  -- The fields that must be there.
  abbrev pub str : ℕ → String → V → Option (List ℕ)
  str size key v = json_str_copy json items size (json.obj_get v (codes key))

  abbrev pub int : ℕ → ℕ → String → V → Option ℕ
  int least most key v = json_int json items least most (json.obj_get v (codes key))

  pub json_str_copy-Fits :
      (size : ℕ) (v : Option V) → Ensures (Fits size) (json_str_copy json items size v)
  unfolding json_str_copy
  json_str_copy-Fits size none = tt
  json_str_copy-Fits size (some v) =
      let s = c_str (json.get_str v) in
      if_rule (Ensures (Fits size)) (not (json.is_str v) || leb size (length s)) _ _ (λ _. tt)
        (λ h. (ground arith, c_str-Lacks (json.get_str v)))

  pub json_int-Between :
      (least most : ℕ) (v : Option V)
      → Ensures (Between least most) (json_int json items least most v)
  unfolding json_int
  json_int-Between least most none = tt
  json_int-Between least most (some v) =
      let i = json.get_sint v in
      if_rule (Ensures (Between least most))
        (not (json.is_int v) || (ltb_ℤ i (pos least) || ltb_ℤ (pos most) i)) _ _ (λ _. tt)
        (λ h. (ground arith, ground arith))

  node_zmq_port_bound : (v : Option V) → Ensures (λ n. n ≤ 65535) (node_zmq_port json items v)
  unfolding node_zmq_port json_uint16
  node_zmq_port_bound none = omega arith
  node_zmq_port_bound (some v) =
      Ensures-mono (Between 1 65535) (λ n. n ≤ 65535) (json_int json items 1 65535 (some v))
        (λ n h. h.1) (json_int-Between 1 65535 (some v))

  pub optional_str-Fits :
      (size : ℕ) (default : List ℕ) (v : Option V)
      → Fits size default
      → Ensures (Fits size) (optional_str json items size default v)
  unfolding optional_str
  optional_str-Fits size default none h = h
  optional_str-Fits size default (some v) h =
      if_rule (Ensures (Fits size)) (json.is_str v) _ _ (λ _. json_str_copy-Fits size (some v))
        (λ _. h)

  pub optional_port_bound : (v : Option V) → Ensures (λ n. n ≤ 65535) (optional_port json items v)
  unfolding optional_port
  optional_port_bound none = omega arith
  optional_port_bound (some v) =
      if_rule (Ensures (λ n. n ≤ 65535)) (json.is_int v) _ _
        (λ _.
          Ensures-mono (Between 0 65535) (λ n. n ≤ 65535) (json_int json items 0 65535 (some v))
            (λ n h. h.1) (json_int-Between 0 65535 (some v)))
        (λ _. omega arith)

  pub ck_socket-Fits : (v : Option V) → Ensures (Fits 108) (ck_socket json items v)
  unfolding ck_socket
  ck_socket-Fits none = (ground arith, tt)
  ck_socket-Fits (some v) = json_str_copy-Fits 108 (some v)

  parse_node-IsNode : (v : V) → Ensures IsNode (parse_node json items v)
  unfolding parse_node json_uint16
  parse_node-IsNode v = guard_rule IsNode (json.is_obj v) _ (λ _.
      bind_rule (Fits 256) IsNode (str 256 "host" v) _ (json_str_copy-Fits 256 _) (λ host host_fits.
        bind_rule (Between 1 65535) IsNode (int 1 65535 "rpc_port" v) _ (json_int-Between 1 65535 _)
          (λ port port_range.
            bind_rule (λ n. n ≤ 65535) IsNode
              (node_zmq_port json items (json.obj_get v (codes "zmq_port"))) _
              (node_zmq_port_bound _)
              (λ zmq zmq_range.
                bind_rule (Fits 64) IsNode (str 64 "label" v) _ (json_str_copy-Fits 64 _)
                  (λ label label_fits. IsNode-valid host_fits port_range zmq_range label_fits)))))

  parse_node_list-AreNodes :
      (vs : List V)
      → Ensures (λ ns. AreNodes ns × (length ns ≡ length vs)) (parse_node_list json items vs)
  unfolding parse_node_list
  parse_node_list-AreNodes [] = (tt, refl)
  parse_node_list-AreNodes (v ∷ vs) =
      let Q : List NodeConfig → Type 0 = λ ns. AreNodes ns × (length ns ≡ suc (length vs)) in
      bind_rule IsNode Q (parse_node json items v) _ (parse_node-IsNode v) (λ n n_valid.
        bind_rule (λ ns. AreNodes ns × (length ns ≡ length vs)) Q (parse_node_list json items vs) _
          (parse_node_list-AreNodes vs) (λ ns h. ((n_valid, h.0), ap suc h.1)))

  -- The nodes and their number.
  abbrev pub AreCounted : ℕ × List NodeConfig → Type 0
  AreCounted (count, ns) = (count ≡ length ns) × Between 1 max_nodes count × AreNodes ns

  pub parse_nodes-AreCounted :
      ((v : V) → length (items v) ≡ json.arr_size v)
      → (root : V) → Ensures AreCounted (parse_nodes json items root)
  unfolding parse_nodes
  parse_nodes-AreCounted iterates root =
      bind_rule (λ _. Unit {0}) AreCounted (json.obj_get root (codes "nodes")) _
        (anything (json.obj_get root (codes "nodes")))
        (λ v _. guard_rule AreCounted (json.is_arr v) _ (λ _.
          guard_rule AreCounted (not (json.arr_size v == 0)) _ (λ some_node.
            guard_rule AreCounted (leb (json.arr_size v) max_nodes) _ (λ few_nodes.
              bind_rule (λ ns. AreNodes ns × (length ns ≡ length (items v))) AreCounted
                (parse_node_list json items (items v)) _ (parse_node_list-AreNodes (items v))
                (λ ns h. (omega (arith, iterates v, h.1), (ground arith, ground arith), h.0))))))
