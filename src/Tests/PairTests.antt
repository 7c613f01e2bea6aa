-- ===== src/Tests/PairTests.antt =====
-- One pair.
use rpcracer.Prelude.{◌≡◌, refl, true, inr}
use rpcracer.EventLoop.{find_entry, del_fd}
use rpcracer.Conn.{immediate}
use rpcracer.Pair.{Pair, on_rotation_timer, conn_pair_is_available}
use rpcracer.Pair.Rotation.{on_rotation_timer-recovers}
use rpcracer.Tests.Data.{kernel, test_loop, pair_of, closed_conn}

abbrev down : Pair
down = pair_of 0 (closed_conn 0) (closed_conn 0)

on_rotation_timer-recovers_example :
    conn_pair_is_available (on_rotation_timer kernel (immediate 40) down test_loop).0 ≡ true
unfolding find_entry del_fd
on_rotation_timer-recovers_example =
    on_rotation_timer-recovers kernel 40 down test_loop refl (inr refl) refl refl refl refl
