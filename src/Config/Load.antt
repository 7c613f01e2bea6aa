-- ===== src/Config/Load.antt =====
-- Loading a file in src/config.c, against the predicate IsValid.
use rpcracer.Prelude.{
  ◌≡◌, ◌≤◌, ap, subst, ◌∙◌, arith, Bool, true, some, List, [], length, take, ◌>>◌, guard, Ensures,
  bind_rule, guard_rule,
}
use rpcracer.Framing.{codes}
use rpcracer.Proxy.Response.{Json}
use rpcracer.Config.{
  Config, FileRead, json_uint16, json_uint32, parse_nodes, optional_str, optional_port, ck_socket,
  load_root, config_load, file_data, validate_unique_labels, unique_labels,
}
use rpcracer.Config.Labels.{unique_labels_iff}
use rpcracer.Config.Valid.{
  Fits, Between, IsValid, AreCounted, str, int, anything, take_all, text_labels, json_str_copy-Fits,
  json_int-Between, optional_str-Fits, optional_port_bound, ck_socket-Fits, parse_nodes-AreCounted,
}

module _ {V : Type 0} (json : Json V) (items : V → List V) where
  check_labels-IsValid :
      (c : Config)
      → (unique_labels c.nodes ≡ true → IsValid c)
      → AreCounted json items (c.node_count, c.nodes)
      → Ensures IsValid (guard (validate_unique_labels c) >> some c)
  unfolding validate_unique_labels
  check_labels-IsValid c valid h =
      guard_rule IsValid (unique_labels (take c.node_count c.nodes)) (some c) (λ u.
        valid (
          subst (λ ns. unique_labels ns ≡ true) (ap (λ n. take n c.nodes) h.0 ∙ take_all c.nodes)
            u))

  load_root-IsValid :
      ((v : V) → length (items v) ≡ json.arr_size v)
      → (root : V) → Ensures IsValid (load_root json items root)
  unfolding load_root json_uint16 json_uint32
  load_root-IsValid iterates root =
      bind_rule (AreCounted json items) IsValid (parse_nodes json items root) _
        (parse_nodes-AreCounted json items iterates root)
        (λ nodes h.
          bind_rule (Fits 64) IsValid (str json items 64 "rpc_server_bind" root) _
            (json_str_copy-Fits json items 64 _)
            (λ rpc_bind rb.
              bind_rule (Between 1 65535) IsValid (int json items 1 65535 "rpc_server_port" root) _
                (json_int-Between json items 1 65535 _)
                (λ rpc_port rp.
                  bind_rule (Fits 64) IsValid (str json items 64 "http_server_bind" root) _
                    (json_str_copy-Fits json items 64 _)
                    (λ http_bind hb.
                      bind_rule (Between 1 65535) IsValid
                        (int json items 1 65535 "http_server_port" root) _
                        (json_int-Between json items 1 65535 _)
                        (λ http_port hp.
                          bind_rule (Fits 64) IsValid
                            (optional_str json items 64 (codes "0.0.0.0")
                              (json.obj_get root (codes "zmq_server_bind")))
                            _ (optional_str-Fits json items 64 _ _ (ground arith, ground arith))
                            (λ zmq_bind zb.
                              bind_rule (λ n. n ≤ 65535) IsValid
                                (optional_port json items
                                  (json.obj_get root (codes "zmq_server_port")))
                                _ (optional_port_bound json items _)
                                (λ zmq_port zp.
                                  bind_rule (Fits 512) IsValid
                                    (optional_str json items 512 []
                                      (json.obj_get root (codes "notify_http_url")))
                                    _ (optional_str-Fits json items 512 _ _ (ground arith, tt))
                                    (λ url u.
                                      bind_rule (Between 1 4294967295) IsValid
                                        (int json items 1 4294967295 "rpc_timeout_ms" root) _
                                        (json_int-Between json items 1 4294967295 _)
                                        (λ timeout t.
                                          bind_rule (Between 0 3) IsValid
                                            (int json items 0 3 "log_verbosity" root) _
                                            (json_int-Between json items 0 3 _)
                                            (λ verbosity v.
                                              bind_rule (Fits 108) IsValid
                                                (ck_socket json items
                                                  (json.obj_get root (codes "ck_notify_socket")))
                                                _ (ck_socket-Fits json items _)
                                                (λ ck k.
                                                  check_labels-IsValid _
                                                    (λ labels. record {
                                                      count = h.0;
                                                      count_range = h.1;
                                                      nodes_valid = h.2;
                                                      distinct_labels =
                                                          (unique_labels_iff nodes.1
                                                            (text_labels nodes.1 h.2)).0
                                                            labels;
                                                      rpc_bind_fits = rb;
                                                      rpc_port_range = rp;
                                                      http_bind_fits = hb;
                                                      http_port_range = hp;
                                                      zmq_bind_fits = zb;
                                                      zmq_port_range = zp;
                                                      url_fits = u;
                                                      socket_fits = k;
                                                      timeout_range = t;
                                                      verbosity_range = v.1;
                                                    })
                                                    h)))))))))))

  -- Whatever the file holds, what is loaded is a valid configuration: one to 16 nodes with distinct
  -- labels, every text shorter than its buffer and without a NUL, every number in its range, if the
  -- array iterator gives as many items as the array has.
  pub config_load-IsValid :
      ((v : V) → length (items v) ≡ json.arr_size v)
      → (file : FileRead) (alloc : Bool) → Ensures IsValid (config_load json items file alloc)
  unfolding config_load
  config_load-IsValid iterates file alloc =
      bind_rule (λ _. Unit {0}) IsValid (file_data file) _ (anything (file_data file))
        (λ text _.
          bind_rule (λ _. Unit {0}) IsValid (json.read text) _ (anything (json.read text))
            (λ root _.
              guard_rule IsValid (json.is_obj root) _
                (λ _. guard_rule IsValid alloc _ (λ _. load_root-IsValid iterates root))))
