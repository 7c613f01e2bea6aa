-- ===== src/Conn/Reassembly.antt =====
-- A response that arrives in pieces (src/rpc_conn.c, the receive branch of conn_epoll_cb and
-- parse_headers).
use rpcracer.Prelude.{
  ℕ, ◌+◌, ◌≤◌, ◌≡◌, ◌⊎◌, refl, arith, true, false, none, some, List, [], ◌∷◌, ◌++◌, length, take,
  length-append, inr,
}
use mathlib.Core.List.{append_assoc, append-nil}
use rpcracer.EventLoop.{Loop}
use rpcracer.Framing.{header_end, write_at}
use rpcracer.Framing.Laws.{take-write_at, length-write_at, header_end-append}
use rpcracer.Conn.{Conn, parse_headers}
use rpcracer.Conn.Epoll.{on_bytes}

-- The pieces, received one after the other.
pub feed : Loop → List (List ℕ) → Conn → Conn
feed l [] c = c
feed l (b ∷ bs) c = feed l bs (on_bytes b c l).0

abbrev pub concat : List (List ℕ) → List ℕ
concat [] = []
concat (b ∷ bs) = b ++ concat bs

-- The framing fields that go with these received bytes.
abbrev pub Framed : List ℕ → Conn → Type 0
Framed bytes c =
    ((c.headers_complete ≡ true) × (header_end bytes ≡ some c.header_len))
    ⊎ ((c.headers_complete ≡ false) × (header_end bytes ≡ none))

pub record Received (bytes : List ℕ) (c : Conn) : Type 0 where
  pub held : take c.recv_len c.recv_buf ≡ bytes
  pub counted : c.recv_len ≡ length bytes
  pub framed : Framed bytes c

parse_headers-recv :
    (c : Conn)
    → ((parse_headers c).0.recv_len ≡ c.recv_len) × ((parse_headers c).0.recv_buf ≡ c.recv_buf)
unfolding parse_headers
parse_headers-recv c = ground arith

-- With the headers complete before, or not complete before the new bytes.
parse_headers-Framed :
    (bytes more : List ℕ) (c : Conn)
    → Framed bytes c
    → take c.recv_len c.recv_buf ≡ bytes ++ more
    → Framed (bytes ++ more) (parse_headers c).0
unfolding parse_headers
parse_headers-Framed bytes more c f e = ground (arith, header_end-append bytes more c.header_len)

on_bytes-Received :
    (l : Loop) (bytes more : List ℕ) (c : Conn)
    → Received bytes c
    → length bytes + length more ≤ length c.recv_buf
    → Received (bytes ++ more) (on_bytes more c l).0
unfolding on_bytes
on_bytes-Received l bytes more c r h =
    let got : Conn = record c {
      recv_buf = write_at c.recv_buf c.recv_len more;
      recv_len = c.recv_len + length more;
    } in
    ground (
      arith,
      take-write_at c.recv_buf c.recv_len more,
      parse_headers-recv got,
      length-append bytes more,
      parse_headers-Framed bytes more got,
    )

length-on_bytes :
    (l : Loop) (more : List ℕ) (c : Conn)
    → length (on_bytes more c l).0.recv_buf ≡ length c.recv_buf
unfolding on_bytes
length-on_bytes l more c =
    let got : Conn = record c {
      recv_buf = write_at c.recv_buf c.recv_len more;
      recv_len = c.recv_len + length more;
    } in
    ground (arith, parse_headers-recv got, length-write_at c.recv_buf c.recv_len more)

feed-Received :
    (l : Loop) (bs : List (List ℕ)) (bytes : List ℕ) (c : Conn)
    → Received bytes c
    → length bytes + length (concat bs) ≤ length c.recv_buf
    → Received (bytes ++ concat bs) (feed l bs c)
unfolding feed
feed-Received l [] bytes c r h = rw append-nil r
feed-Received l (b ∷ bs) bytes c r h = rw (← append_assoc) (
    feed-Received l bs (bytes ++ b) (on_bytes b c l).0
      (on_bytes-Received l bytes b c r (omega (arith, length-append b (concat bs))))
      (omega (arith, length-append b (concat bs), length-append bytes b, length-on_bytes l b c)))

-- A response that fits the buffer is reassembled however it is cut into pieces: from the start of a
-- response, the received prefix is the pieces joined, and the headers are complete, with the
-- length of the first blank line's end, exactly if the joined pieces have one.
pub feed_reassembles :
    (l : Loop) (bs : List (List ℕ)) (c : Conn)
    → c.recv_len ≡ 0
    → c.headers_complete ≡ false
    → length (concat bs) ≤ length c.recv_buf
    → Received (concat bs) (feed l bs c)
unfolding header_end
feed_reassembles l bs c e h fits = feed-Received l bs [] c start (omega arith)
  where
    start : Received [] c
    start = record { held = rw e refl; counted = e; framed = inr (h, refl) }
