-- ===== src/Proxy/Overwrite.antt =====
-- A request that comes while an earlier one is still sent (src/rpc_proxy.c, client_cb): both are in
-- client_recv_buf.
use rpcracer.Prelude.{
  ℕ, zero, suc, ◌+◌, ◌-◌, ◌≤◌, ◌≡◌, inl, inr, refl, ap, ◌∙◌, arith, false, some, List, [], ◌∷◌,
  length, take, drop, leb, Bool-cases,
}
use rpcracer.EventLoop.{Slot}
use rpcracer.Conn.{Conn}
use rpcracer.Framing.{overwrite, write_at}
use rpcracer.Proxy.{Proxy, Env, is_idle, conn_at}
use rpcracer.Proxy.Request.{on_client_bytes, take_request}
use rpcracer.Proxy.Response.{Json}

-- What a connection still has to send, from this buffer.
abbrev pub outgoing : List ℕ → Conn → List ℕ
outgoing buf c = take (c.send_len - c.send_offset) (drop c.send_offset buf)

window-overwrite :
    (m o : ℕ) (xs bs : List ℕ)
    → m + o ≤ length bs
    → length bs ≤ length xs
    → take m (drop o (overwrite xs bs)) ≡ take m (drop o bs)
unfolding overwrite
window-overwrite m o [] [] h k = refl
window-overwrite m o [] (b ∷ bs) h k = absurd (omega arith)
window-overwrite zero zero (x ∷ xs) [] h k = refl
window-overwrite (suc m) zero (x ∷ xs) [] h k = absurd (omega arith)
window-overwrite m (suc o) (x ∷ xs) [] h k = absurd (omega arith)
window-overwrite zero zero (x ∷ xs) (b ∷ bs) h k = refl
window-overwrite (suc m) zero (x ∷ xs) (b ∷ bs) h k =
    ap (λ ys. b ∷ ys) (window-overwrite m zero xs bs (omega arith) (omega arith))
window-overwrite m (suc o) (x ∷ xs) (b ∷ bs) h k =
    window-overwrite m o xs bs (omega arith) (omega arith)

outgoing-overwrite :
    (c : Conn) (xs bs : List ℕ)
    → c.send_len ≤ length bs
    → length bs ≤ length xs
    → outgoing (overwrite xs bs) c ≡ outgoing bs c
outgoing-overwrite c xs bs h k = elim (Bool-cases (leb c.send_offset c.send_len)) [
  | inl e ↦ window-overwrite (c.send_len - c.send_offset) c.send_offset xs bs (ground arith) k
  | inr e ↦ let none_left : (c.send_len - c.send_offset) ≡ 0 = ground arith in rw none_left refl
]

module _ {V : Type 0} (json : Json V) (env : Env) where
  buffer-client_bytes :
      (bytes : List ℕ) (p : Proxy)
      → is_idle p.state ≡ false
      → p.client_recv_len ≡ 0
      → let q = on_client_bytes json env bytes p in
        (q.client_recv_buf ≡ overwrite p.client_recv_buf bytes) × (q.pairs ≡ p.pairs)
  unfolding on_client_bytes take_request write_at
  buffer-client_bytes bytes p racing empty = ground arith

  -- In a race, with the request taken out of the client's buffer: if the bytes that the client sends
  -- next fit the buffer and are at least as many as a connection has to send in all, what the
  -- connection still has to send is taken from them instead of its request.
  pub request_overwrites :
      (bytes : List ℕ) (i : ℕ) (s : Slot) (c : Conn) (p : Proxy)
      → conn_at p i s ≡ some c
      → is_idle p.state ≡ false
      → p.client_recv_len ≡ 0
      → c.send_len ≤ length bytes
      → length bytes ≤ length p.client_recv_buf
      → let q = on_client_bytes json env bytes p in
        (conn_at q i s ≡ some c) × (outgoing q.client_recv_buf c ≡ outgoing bytes c)
  request_overwrites bytes i s c p found racing empty short fits =
      let (buf, same) = buffer-client_bytes bytes p racing empty in
      (
        rw same found,
        ap (λ b. outgoing b c) buf ∙ outgoing-overwrite c p.client_recv_buf bytes short fits,
      )
