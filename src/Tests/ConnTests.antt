-- ===== src/Tests/ConnTests.antt =====
-- One connection, and framing.
use rpcracer.Prelude.{ℕ, ◌≡◌, ◌-◌, refl, arith, some, List, [], ◌∷◌, u64_mod, ◌^◌, drop}
use rpcracer.EventLoop.{epoll_in}
use rpcracer.Framing.{header_end, starts_with}
use rpcracer.Conn.{Conn, receiving, stream, rpc_conn_get_response}
use rpcracer.Conn.Validity.{IsValid, apply, apply-IsValid, event}
use rpcracer.Conn.Notices.{Delivers, conn_epoll_cb-Delivers, get_response_wraps}
use rpcracer.Conn.Reassembly.{Received, feed, concat, feed_reassembles}
use rpcracer.Conn.Epoll.{conn_epoll_cb}
use rpcracer.Tests.Data.{kernel, ok_response, answered_conn, idle_conn, test_loop}

header_end_test : header_end ok_response ≡ some 19
unfolding header_end starts_with
header_end_test = refl

-- A connection that waits for a response, with room for eight bytes.
abbrev waiting : Conn
waiting = record (idle_conn 0 10) { state = receiving }

waiting-IsValid : IsValid waiting
waiting-IsValid = ground arith

apply-IsValid_example :
    IsValid (apply kernel (event epoll_in (stream (1 ∷ 2 ∷ []))) waiting test_loop).0
apply-IsValid_example =
    apply-IsValid kernel (event epoll_in (stream (1 ∷ 2 ∷ []))) waiting test_loop waiting-IsValid

conn_epoll_cb-Delivers_example :
    Delivers (conn_epoll_cb epoll_in (stream (1 ∷ [])) kernel waiting test_loop)
conn_epoll_cb-Delivers_example =
    conn_epoll_cb-Delivers epoll_in (stream (1 ∷ [])) kernel waiting test_loop

abbrev pieces : List (List ℕ)
pieces = (65 ∷ 13 ∷ []) ∷ (10 ∷ 13 ∷ 10 ∷ []) ∷ (66 ∷ []) ∷ []

feed_reassembles_example : Received (concat pieces) (feed test_loop pieces waiting)
feed_reassembles_example = feed_reassembles test_loop pieces waiting refl refl (omega arith)

abbrev endless : Conn
endless = record (answered_conn 0 10) { content_length = 2 ^ 64 - 1 }

get_response_wraps_example : rpc_conn_get_response endless ≡ some (drop 19 ok_response, u64_mod - 1)
get_response_wraps_example =
    get_response_wraps endless refl (omega arith) (omega arith) (omega arith) refl
