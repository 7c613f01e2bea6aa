-- ===== src/Proxy/Response.antt =====
-- The functions of src/rpc_proxy.c that read an upstream response. The JSON library (yyjson) is the
-- record `Json`: a parser and the accessors that the source calls.
use rpcracer.Prelude.{
  ℕ, drop, ◌+◌, ◌-◌, Bool, true, false, not, ◌&&◌, ◌||◌, Option, none, some, List, ltb, leb, ◌==◌,
  if◌then◌else◌, take, min, ℤ, pos, negsuc, pos_part, neg_part, ltb_ℤ, eqb_ℤ, ◌%◌, ◌^◌, u32_mod,
  u64_mod,
}
use rpcracer.Framing.{codes, starts_with, atoi, strchr}
use rpcracer.Conn.{Conn, rpc_conn_get_response}

-- yyjson_read with yyjson_doc_get_root, and the accessors of a value.
pub record Json (V : Type 0) : Type 0 where
  pub read : List ℕ → Option V
  pub is_obj : V → Bool
  pub is_arr : V → Bool
  pub is_int : V → Bool
  pub is_str : V → Bool
  pub is_null : V → Bool
  pub obj_get : V → List ℕ → Option V
  pub get_sint : V → ℤ
  pub get_str : V → List ℕ
  pub arr_size : V → ℕ

-- The status after the first blank of the status line: the blank is looked for in the first 16
-- bytes, the number is read from the whole buffer.
unfoldable pub status_after_blank : Conn → ℤ
status_after_blank c = elim (strchr 32 (take (min c.recv_len 16) c.recv_buf)) [
  | none ↦ pos 0
  | some k ↦ atoi (drop (k + 1) c.recv_buf)
]

unfoldable pub parse_http_status : Conn → ℤ
unfolding status_after_blank
parse_http_status c =
    if not c.headers_complete || ltb c.recv_len 12
    then pos 0
    else (if starts_with (codes "HTTP/") c.recv_buf then status_after_blank c else pos 0)

-- The status that response_is_error computes.
unfoldable pub http_status : Conn → ℤ
unfolding status_after_blank
http_status c =
    if leb 12 c.recv_len && starts_with (codes "HTTP/") c.recv_buf
    then status_after_blank c
    else pos 0

-- The conversion of an int64_t to int: the low 32 bits, as a signed number.
unfoldable pub to_int : ℤ → ℤ
to_int v =
    let w = (if ltb_ℤ v (pos 0) then u64_mod - neg_part v else pos_part v) % u32_mod in
    if ltb w (2 ^ 31) then pos w else negsuc (u32_mod - w - 1)

module _ {V : Type 0} (json : Json V) where
  -- The root object of the body, which each of these functions reads.
  unfoldable pub root_object : Conn → Option V
  root_object c = elim (rpc_conn_get_response c) [
    | none ↦ none
    | some (body, len) ↦ if len == 0 then none else elim (json.read (take len body)) [
      | none ↦ none
      | some root ↦ if json.is_obj root then some root else none
    ]
  ]

  -- A member of a value that passes a type test.
  unfoldable pub member : (V → Bool) → List ℕ → V → Option V
  member test key v = elim (json.obj_get v key) [
    | none ↦ none
    | some w ↦ if test w then some w else none
  ]

  has_error : V → Bool
  has_error root = elim (json.obj_get root (codes "error")) [
    | none ↦ false
    | some e ↦ not (json.is_null e)
  ]

  unfoldable pub response_is_error : Conn → Bool
  unfolding has_error http_status
  response_is_error c =
      if not c.headers_complete || c.recv_len == 0
      then true
      else (if not (eqb_ℤ (http_status c) (pos 200))
          then true
          else elim (root_object c) [ none ↦ true | some root ↦ has_error root ])

  unfoldable pub parse_rpc_error_code : Conn → ℤ
  unfolding root_object member to_int
  parse_rpc_error_code c = elim (root_object c) [
    | none ↦ pos 0
    | some root ↦ elim (member json.is_obj (codes "error") root) [
      | none ↦ pos 0
      | some e ↦ elim (member json.is_int (codes "code") e) [
        | none ↦ pos 0
        | some code ↦ to_int (json.get_sint code)
      ]
    ]
  ]

  unfoldable pub parse_gbt_height : Conn → ℤ
  unfolding root_object member
  parse_gbt_height c = elim (root_object c) [
    | none ↦ negsuc 0
    | some root ↦ elim (member json.is_obj (codes "result") root) [
      | none ↦ negsuc 0
      | some result ↦ elim (member json.is_int (codes "height") result) [
        | none ↦ negsuc 0
        | some height ↦ json.get_sint height
      ]
    ]
  ]

  unfoldable pub parse_gbt_tx_count : Conn → ℕ
  unfolding root_object member
  parse_gbt_tx_count c = elim (root_object c) [
    | none ↦ 0
    | some root ↦ elim (member json.is_obj (codes "result") root) [
      | none ↦ 0
      | some result ↦ elim (member json.is_arr (codes "transactions") result) [
        | none ↦ 0
        | some txs ↦ json.arr_size txs % u32_mod
      ]
    ]
  ]
