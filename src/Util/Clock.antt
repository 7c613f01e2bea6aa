-- ===== src/Util/Clock.antt =====
-- The clocks of src/util.c and the order of time.
use rpcracer.Prelude.{◌/◌, ◌≤◌, ◌<◌, ◌≡◌, ◌⊎◌, arith}
use rpcracer.Util.{Timespec, clock_monotonic_ns, clock_realtime_us}

-- A time as clock_gettime() gives it, before 2^64 nanoseconds.
abbrev pub IsTime : Timespec → Type 0
IsTime ts = (ts.nsec < 1000000000) × (ts.sec < 18446744073)

-- Not later: an earlier second, or the same second and no later nanosecond.
abbrev pub NotLater : Timespec → Timespec → Type 0
NotLater a b = (a.sec < b.sec) ⊎ ((a.sec ≡ b.sec) × (a.nsec ≤ b.nsec))

pub clock_monotonic_ns_mono :
    (a b : Timespec)
    → IsTime a
    → IsTime b
    → NotLater a b
    → clock_monotonic_ns a ≤ clock_monotonic_ns b
unfolding clock_monotonic_ns
clock_monotonic_ns_mono a b ha hb h = ground arith

-- The microseconds of a time are its nanoseconds over 1000.
pub clock_realtime_us_lem :
    (ts : Timespec) → IsTime ts → clock_realtime_us ts ≡ clock_monotonic_ns ts / 1000
unfolding clock_monotonic_ns clock_realtime_us
clock_realtime_us_lem ts h = omega (arith, h.0, h.1)
