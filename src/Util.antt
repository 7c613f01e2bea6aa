-- ===== src/Util.antt =====
-- src/util.c: the clocks, hexadecimal text and the slow response test. A char is its code; a result of -1 is
-- `none`.
pub mod Clock
pub mod Hex
use rpcracer.Prelude.{
  ℕ, zero, suc, ◌+◌, ◌-◌, ◌*◌, ◌/◌, ◌%◌, Bool, true, false, ◌&&◌, Option, none, some, List, [], ◌∷◌,
  ltb, leb, if◌then◌else◌, u64_mod,
}

-- What clock_gettime() gives: seconds and nanoseconds.
pub record Timespec : Type 0 where
  pub sec : ℕ
  pub nsec : ℕ

unfoldable pub clock_monotonic_ns : Timespec → ℕ
clock_monotonic_ns ts = (ts.sec * 1000000000 + ts.nsec) % u64_mod

unfoldable pub clock_realtime_us : Timespec → ℕ
clock_realtime_us ts = (ts.sec * 1000000 + ts.nsec / 1000) % u64_mod

-- hex_chars[v] for a 4-bit value.
unfoldable pub hex_digit : ℕ → ℕ
hex_digit v = if ltb v 10 then b'0' + v else b'a' + (v - 10)

unfoldable pub hex_encode : List ℕ → List ℕ
unfolding hex_digit
hex_encode [] = []
hex_encode (b ∷ bs) = hex_digit (b / 16 % 16) ∷ hex_digit (b % 16) ∷ hex_encode bs

unfoldable pub hex_char_val : ℕ → Option ℕ
hex_char_val c =
    if leb b'0' c && leb c b'9'
    then some (c - b'0')
    else (if leb b'a' c && leb c b'f'
        then some (c - b'a' + 10)
        else (if leb b'A' c && leb c b'F' then some (c - b'A' + 10) else none))

-- dst[i / 2], when both characters are valid.
unfoldable pub byte_of : Option ℕ → Option ℕ → Option ℕ
byte_of (some hi) (some lo) = some (hi * 16 + lo)
byte_of _ _ = none

-- One round of the loop: a failure of this round or of a later one fails the whole.
unfoldable pub cons_byte : Option ℕ → Option (List ℕ) → Option (List ℕ)
cons_byte (some b) (some bs) = some (b ∷ bs)
cons_byte _ _ = none

-- The loop of hex_decode; an odd character at the end is not reached from hex_decode.
unfoldable pub hex_bytes : List ℕ → Option (List ℕ)
hex_bytes [] = some []
hex_bytes (c ∷ []) = none
hex_bytes (c ∷ d ∷ cs) = cons_byte (byte_of (hex_char_val c) (hex_char_val d)) (hex_bytes cs)

abbrev pub is_even : List ℕ → Bool
is_even [] = true
is_even (c ∷ []) = false
is_even (c ∷ d ∷ cs) = is_even cs

-- hex_decode: empty and odd texts are refused first.
unfoldable pub hex_decode : List ℕ → Option (List ℕ)
hex_decode [] = none
hex_decode (c ∷ cs) = if is_even (c ∷ cs) then hex_bytes (c ∷ cs) else none

abbrev slow_response_threshold_us : ℕ
slow_response_threshold_us = 5000000

unfoldable pub should_log_slow_response : ℕ → Bool
should_log_slow_response elapsed = ltb slow_response_threshold_us elapsed
