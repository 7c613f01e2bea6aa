-- ===== src/Framing.antt =====
-- The parts of HTTP/1.1 framing that src/rpc_conn.c (parse_headers) and src/rpc_proxy.c
-- (parse_http_request, extract_json_rpc_method) share, over a buffer as a list of bytes, with the
-- functions of the C library that they call. A pointer into a buffer is the list of bytes from
-- there to the end of the allocation.
pub mod Laws
use Prim.Native.Char.{code}
use Prim.Native.String.{String}
use rpcracer.Prelude.{
  ℕ, zero, suc, ◌≢◌, ◌+◌, ◌-◌, ◌*◌, ◌/◌, ◌%◌, ◌++◌, Bool, true, false, ◌&&◌, ◌||◌, Option, none,
  some, List, [], ◌∷◌, ltb, leb, ◌==◌, if◌then◌else◌, drop, u64_mod, ℤ, pos, sub_ℕ,
}

-- The bytes of a string literal.
abbrev pub codes : String → List ℕ
codes String.[] = []
codes (String.◌∷◌ c s) = code c ∷ codes s

-- memcmp of a prefix.
unfoldable pub starts_with : List ℕ → List ℕ → Bool
starts_with [] xs = true
starts_with (c ∷ cs) [] = false
starts_with (c ∷ cs) (x ∷ xs) = c == x && starts_with cs xs

abbrev pub crlf2 : List ℕ
crlf2 = 13 ∷ 10 ∷ 13 ∷ 10 ∷ []

-- The offset just behind the first "\r\n\r\n" of the received bytes.
unfoldable pub header_end : List ℕ → Option ℕ
header_end [] = none
header_end (x ∷ xs) =
    if starts_with crlf2 (x ∷ xs)
    then some 4
    else elim (header_end xs) [ none ↦ none | some k ↦ some (suc k) ]

-- tolower in the C locale.
unfoldable pub to_lower : ℕ → ℕ
to_lower c = if leb b'A' c && leb c b'Z' then c + 32 else c

-- strncasecmp of a prefix; the needle has no NUL, so a NUL in the text differs.
unfoldable pub starts_with_ci : List ℕ → List ℕ → Bool
unfolding to_lower
starts_with_ci [] xs = true
starts_with_ci (c ∷ cs) [] = false
starts_with_ci (c ∷ cs) (x ∷ xs) = to_lower c == to_lower x && starts_with_ci cs xs

-- strcasestr: the offset of the first match before the terminating NUL. Where the C function
-- would run past the allocation, the search ends.
unfoldable pub strcasestr : List ℕ → List ℕ → Option ℕ
unfolding starts_with_ci
strcasestr [] needle = none
strcasestr (x ∷ xs) needle =
    if x == 0
    then none
    else (if starts_with_ci needle (x ∷ xs)
        then some 0
        else elim (strcasestr xs needle) [ none ↦ none | some k ↦ some (suc k) ])

unfoldable pub is_space : ℕ → Bool
is_space c = c == 32 || leb 9 c && leb c 13

unfoldable pub skip_spaces : List ℕ → List ℕ
unfolding is_space
skip_spaces [] = []
skip_spaces (x ∷ xs) = if is_space x then skip_spaces xs else x ∷ xs

-- `while (*p == ' ' || *p == '\t') p++;`
unfoldable pub skip_blanks : List ℕ → List ℕ
skip_blanks [] = []
skip_blanks (x ∷ xs) = if x == 32 || x == 9 then skip_blanks xs else x ∷ xs

digits : ℕ → List ℕ → ℕ
digits acc [] = acc
digits acc (x ∷ xs) =
    let rest = digits (acc * 10 + (x - b'0')) xs in if leb b'0' x && leb x b'9' then rest else acc

saturate : ℕ → ℕ
saturate n = if ltb n u64_mod then n else u64_mod - 1

signed : List ℕ → ℕ
unfolding digits saturate
signed [] = 0
signed (x ∷ xs) =
    if x == b'-'
    then (if ltb (digits 0 xs) u64_mod then (u64_mod - digits 0 xs) % u64_mod else u64_mod - 1)
    else (if x == b'+' then saturate (digits 0 xs) else saturate (digits 0 (x ∷ xs)))

-- strtoull(p, NULL, 10): leading white space (line ends too), a sign, digits; ULLONG_MAX on overflow.
unfoldable pub strtoull : List ℕ → ℕ
unfolding skip_spaces signed
strtoull xs = signed (skip_spaces xs)

-- atoi(p), where the digits fit an int.
unfoldable pub atoi : List ℕ → ℤ
unfolding skip_spaces digits
atoi xs = elim (skip_spaces xs) [
  | [] ↦ pos 0
  | x ∷ rest ↦
      if x == b'-'
      then sub_ℕ 0 (digits 0 rest)
      else (if x == b'+' then pos (digits 0 rest) else pos (digits 0 (x ∷ rest)))
]

-- strcmp(s, t) == 0 for a text s that may hold a NUL and a literal t.
unfoldable pub str_eq : List ℕ → List ℕ → Bool
str_eq [] [] = true
str_eq (x ∷ xs) [] = x == 0
str_eq [] (c ∷ cs) = false
str_eq (x ∷ xs) (c ∷ cs) = x == c && str_eq xs cs

-- A buffer as a C string: the bytes before the first NUL.
unfoldable pub c_str : List ℕ → List ℕ
c_str [] = []
c_str (x ∷ xs) = let rest = c_str xs in if x == 0 then [] else x ∷ rest

-- No byte of the text is this one.
abbrev pub Lacks : ℕ → List ℕ → Type 0
Lacks c [] = Unit {0}
Lacks c (x ∷ xs) = (x ≢ c) × Lacks c xs

-- strchr, memchr: the offset of the first such byte.
unfoldable pub strchr : ℕ → List ℕ → Option ℕ
strchr c [] = none
strchr c (x ∷ xs) =
    let rest = strchr c xs in
    if x == c then some 0 else elim rest [ none ↦ none | some k ↦ some (suc k) ]

-- strstr: the offset of the first occurrence of a text.
unfoldable pub strstr : List ℕ → List ℕ → Option ℕ
unfolding starts_with
strstr [] needle = none
strstr (x ∷ xs) needle =
    let rest = strstr xs needle in
    if starts_with needle (x ∷ xs)
    then some 0
    else elim rest [ none ↦ none | some k ↦ some (suc k) ]

-- The digits of a number under "%u", "%d" or "%zu", given room for enough of them.
unfoldable pub decimal : ℕ → ℕ → List ℕ
decimal zero n = []
decimal (suc fuel) n =
    let front = decimal fuel (n / 10) in
    if ltb n 10 then (b'0' + n) ∷ [] else front ++ ((b'0' + n % 10) ∷ [])

-- The Content-Length of a buffer whose headers end at `end`: 0 if the header is missing.
unfoldable pub content_length_of : List ℕ → ℕ → ℕ
unfolding strcasestr skip_blanks strtoull
content_length_of buf end = elim (strcasestr buf (codes "Content-Length:")) [
  | none ↦ 0
  | some cl ↦ if ltb cl end then strtoull (skip_blanks (drop (cl + 15) buf)) else 0
]

-- Whether the headers ask for the connection to be closed.
unfoldable pub connection_close_of : List ℕ → ℕ → Bool
unfolding strcasestr skip_blanks starts_with_ci
connection_close_of buf end = elim (strcasestr buf (codes "Connection:")) [
  | none ↦ false
  | some ch ↦
      if ltb ch end
      then starts_with_ci (codes "close") (skip_blanks (drop (ch + 11) buf))
      else false
]

unfoldable pub overwrite : List ℕ → List ℕ → List ℕ
overwrite [] bs = []
overwrite (x ∷ xs) [] = x ∷ xs
overwrite (x ∷ xs) (b ∷ bs) = b ∷ overwrite xs bs

-- recv() into a buffer at an offset; bytes behind the end of the allocation would be lost.
unfoldable pub write_at : List ℕ → ℕ → List ℕ → List ℕ
unfolding overwrite
write_at buf zero bs = overwrite buf bs
write_at [] (suc off) bs = []
write_at (x ∷ xs) (suc off) bs = x ∷ write_at xs off bs
