-- ===== src/Notifier/Url/Roundtrip.antt =====
-- Writing and reading the notify URL of src/notifier.c.
use rpcracer.Prelude.{
  ℕ, zero, suc, ◌+◌, ◌-◌, ◌*◌, ◌/◌, ◌%◌, ◌≤◌, ◌<◌, ◌≡◌, ◌≢◌, refl, ap, ◌∙◌, arith, some, List, [],
  ◌∷◌, ◌++◌, length, length-append, ltb, if_rule, pos,
}
use rpcracer.Framing.{codes, starts_with, skip_spaces, is_space, decimal}
use rpcracer.Notifier.Url.{
  is_digit, host_part, digits_part, unsigned_part, strtol, port_part, path_part, parse_http_url,
}

abbrev pub IsHost : List ℕ → Type 0
IsHost [] = Unit {0}
IsHost (c ∷ cs) = (c ≢ b':') × (c ≢ b'/') × IsHost cs

abbrev AreDigits : List ℕ → Type 0
AreDigits [] = Unit {0}
AreDigits (c ∷ cs) = (b'0' ≤ c) × (c ≤ b'9') × AreDigits cs

host_part-append :
    (host rest : List ℕ) → IsHost host → host_part (host ++ (b':' ∷ rest)) ≡ (host, b':' ∷ rest)
unfolding host_part
host_part-append [] rest h = ground arith
host_part-append (c ∷ cs) rest h = ground (arith, host_part-append cs rest h.2)

-- The number that digits stand for.
abbrev value : ℕ → List ℕ → ℕ
value acc [] = acc
value acc (c ∷ cs) = value (acc * 10 + (c - b'0')) cs

value-append :
    (acc d : ℕ) (xs : List ℕ) → value acc (xs ++ (d ∷ [])) ≡ value acc xs * 10 + (d - b'0')
value-append acc d [] = refl
value-append acc d (x ∷ xs) = value-append (acc * 10 + (x - b'0')) d xs

digits_part-append :
    (acc : ℕ) (xs path : List ℕ)
    → AreDigits xs
    → digits_part acc (xs ++ (b'/' ∷ path)) ≡ (value acc xs, b'/' ∷ path)
unfolding digits_part is_digit
digits_part-append acc [] path h = refl
digits_part-append acc (x ∷ xs) path h =
    ground (arith, digits_part-append (acc * 10 + (x - b'0')) xs path h.2)

AreDigits-append :
    (xs : List ℕ) (d : ℕ) → AreDigits xs → d < 10 → AreDigits (xs ++ ((b'0' + d) ∷ []))
AreDigits-append [] d h e = (omega arith, omega arith, tt)
AreDigits-append (x ∷ xs) d h e = (h.0, h.1, AreDigits-append xs d h.2 e)

AreDigits-decimal : (fuel n : ℕ) → AreDigits (decimal fuel n)
unfolding decimal
AreDigits-decimal zero n = tt
AreDigits-decimal (suc fuel) n =
    if_rule AreDigits (ltb n 10) _ _ (λ h. (omega arith, ground arith, tt))
      (λ h.
        AreDigits-append (decimal fuel (n / 10)) (n % 10) (AreDigits-decimal fuel (n / 10))
          (omega arith))

abbrev pow10 : ℕ → ℕ
pow10 zero = 1
pow10 (suc k) = 10 * pow10 k

value-decimal : (fuel n : ℕ) → n < pow10 fuel → value 0 (decimal fuel n) ≡ n
unfolding decimal
value-decimal zero n h = omega arith
value-decimal (suc fuel) n h = ground (
  arith,
  value-decimal fuel (n / 10) (omega arith),
  value-append 0 (b'0' + n % 10) (decimal fuel (n / 10)),
)

length-decimal_bound : (fuel n : ℕ) → 0 < length (decimal (suc fuel) n)
unfolding decimal
length-decimal_bound fuel n =
    ground (arith, length-append (decimal fuel (n / 10)) ((b'0' + n % 10) ∷ []))

strtol_digits :
    (xs path : List ℕ)
    → AreDigits xs
    → 0 < length xs
    → strtol (xs ++ (b'/' ∷ path)) ≡ some (pos (value 0 xs), b'/' ∷ path)
unfolding strtol skip_spaces is_space unsigned_part is_digit
strtol_digits [] path h e = absurd (omega arith)
strtol_digits (x ∷ xs) path h e = ground (arith, digits_part-append 0 (x ∷ xs) path h)

strtol-decimal :
    (n : ℕ) (path : List ℕ)
    → n < 100000
    → strtol (decimal 5 n ++ (b'/' ∷ path)) ≡ some (pos n, b'/' ∷ path)
strtol-decimal n path h =
    strtol_digits (decimal 5 n) path (AreDigits-decimal 5 n) (length-decimal_bound 4 n)
    ∙ ap (λ m. some (pos m, b'/' ∷ path)) (value-decimal 5 n h)

-- The URL of a host, a port and a path.
abbrev pub url_of : List ℕ → ℕ → List ℕ → List ℕ
url_of host port path = codes "http://" ++ (host ++ (b':' ∷ (decimal 5 port ++ (b'/' ∷ path))))

-- A URL that is made of a host without ':' and '/', the decimal digits of a port and a path is taken
-- apart into them, if the host is not empty and the host and the path fit their buffers.
pub parse-url_of :
    (host_len path_len port : ℕ) (host path : List ℕ)
    → IsHost host
    → 0 < length host
    → length host < host_len
    → 0 < port
    → port ≤ 65535
    → suc (length path) < path_len
    → parse_http_url host_len path_len (url_of host port path) ≡ some (host, port, b'/' ∷ path)
unfolding parse_http_url starts_with port_part path_part
parse-url_of host_len path_len port host path h nonempty fits least most short =
    rw
      (
        host_part-append host (decimal 5 port ++ (b'/' ∷ path)) h,
        strtol-decimal port path (omega arith),
      )
      (ground arith)
