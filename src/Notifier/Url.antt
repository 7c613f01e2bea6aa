-- ===== src/Notifier/Url.antt =====
-- parse_http_url of src/notifier.c: the host, port and path of the notify URL.
pub mod Roundtrip
use rpcracer.Prelude.{
  ℕ, zero, suc, ◌+◌, ◌-◌, ◌*◌, ◌/◌, ◌%◌, ◌≤◌, ◌<◌, ◌≡◌, ◌≢◌, refl, sym, ap, ◌∙◌, arith, Bool, true,
  false, not, ◌&&◌, ◌||◌, Option, none, some, List, [], ◌∷◌, ◌++◌, length, drop, ltb, leb, ◌==◌,
  if◌then◌else◌, ℤ, pos, sub_ℕ, leb_ℤ, ltb_ℤ, pos_part, ◌>>=◌, ◌>>◌, guard, if_rule,
}
use rpcracer.Framing.{codes, starts_with, skip_spaces, decimal}

-- The bytes up to the first ':' or '/', and the rest.
unfoldable pub host_part : List ℕ → List ℕ × List ℕ
host_part [] = ([], [])
host_part (c ∷ cs) =
    let (host, rest) = host_part cs in
    if c == b':' || c == b'/' then ([], c ∷ cs) else (c ∷ host, rest)

unfoldable pub is_digit : ℕ → Bool
is_digit c = leb b'0' c && leb c b'9'

-- The digits at the front of a text, as a number behind `acc`, and the text behind them.
unfoldable pub digits_part : ℕ → List ℕ → ℕ × List ℕ
unfolding is_digit
digits_part acc [] = (acc, [])
digits_part acc (c ∷ cs) =
    let behind = digits_part (acc * 10 + (c - b'0')) cs in
    if is_digit c then behind else (acc, c ∷ cs)

-- A number, if there is a digit.
unfoldable pub unsigned_part : List ℕ → Option (ℕ × List ℕ)
unfolding is_digit digits_part
unsigned_part [] = none
unsigned_part (c ∷ cs) = if is_digit c then some (digits_part 0 (c ∷ cs)) else none

-- strtol(p, &end, 10): the number and the text from `end` on, or `none` where `end` is `p`. A
-- number that long does not hold is out of the range of a port here as there.
unfoldable pub strtol : List ℕ → Option (ℤ × List ℕ)
unfolding skip_spaces unsigned_part
strtol text = elim (skip_spaces text) [
  | [] ↦ none
  | c ∷ cs ↦
      if c == b'-'
      then (unsigned_part cs >>= λ r. some (sub_ℕ 0 r.0, r.1))
      else (unsigned_part (if c == b'+' then cs else c ∷ cs) >>= λ r. some (pos r.0, r.1))
]

-- The port behind a ':', 80 without one.
unfoldable pub port_part : List ℕ → Option (ℕ × List ℕ)
unfolding strtol
port_part [] = some (80, [])
port_part (c ∷ cs) =
    if c == b':'
    then (strtol cs >>= λ r.
        if leb_ℤ r.0 (pos 0) || ltb_ℤ (pos 65535) r.0 then none else some (pos_part r.0, r.1))
    else some (80, c ∷ cs)

-- The path: the rest of the text if it begins with '/', and "/" otherwise.
unfoldable pub path_part : ℕ → List ℕ → Option (List ℕ)
path_part path_len [] = if ltb path_len 2 then none else some (codes "/")
path_part path_len (c ∷ cs) =
    if c == b'/'
    then (if leb path_len (length (c ∷ cs)) then none else some (c ∷ cs))
    else (if ltb path_len 2 then none else some (codes "/"))

unfoldable pub parse_http_url : ℕ → ℕ → List ℕ → Option (List ℕ × ℕ × List ℕ)
unfolding starts_with host_part port_part path_part
parse_http_url host_len path_len url = do
  guard (starts_with (codes "http://") url)
  let (host, behind_host) = host_part (drop 7 url)
  guard (not (length host == 0) && ltb (length host) host_len)
  (port, behind_port) ← port_part behind_host
  path ← path_part path_len behind_port
  some (host, port, path)
