-- ===== src/Util/Hex.antt =====
-- Round trip of the hexadecimal text (src/util.c).
use rpcracer.Prelude.{
  ℕ, ◌/◌, ◌%◌, ◌<◌, ◌≢◌, ◌≡◌, refl, arith, Bool, true, false, Option, none, some, List, [], ◌∷◌,
  ◌∙◌, sym, subst, inl, inr, ◌+◌, ◌*◌, ◌≤◌, ◌⊎◌, ◌&&◌, is_some, if◌then◌else◌,
}
use rpcracer.Util.{
  hex_digit, hex_encode, hex_char_val, byte_of, cons_byte, hex_bytes, hex_decode, is_even,
}

-- Every element is a byte.
abbrev pub AreBytes : List ℕ → Type 0
AreBytes [] = Unit {0}
AreBytes (b ∷ bs) = (b < 256) × AreBytes bs

char_val-digit : (v : ℕ) → v < 16 → hex_char_val (hex_digit v) ≡ some v
unfolding hex_char_val hex_digit
char_val-digit v h = ground arith

hex_bytes-encode : (bs : List ℕ) → AreBytes bs → hex_bytes (hex_encode bs) ≡ some bs
unfolding hex_bytes hex_encode byte_of cons_byte
hex_bytes-encode [] h = refl
hex_bytes-encode (b ∷ bs) h = ground (
  arith,
  char_val-digit (b / 16 % 16) (omega arith),
  char_val-digit (b % 16) (omega arith),
  hex_bytes-encode bs h.1,
)

is_even-encode : (bs : List ℕ) → is_even (hex_encode bs) ≡ true
unfolding hex_encode
is_even-encode [] = refl
is_even-encode (b ∷ bs) = is_even-encode bs

decode_of_even : (cs : List ℕ) → cs ≢ [] → is_even cs ≡ true → hex_decode cs ≡ hex_bytes cs
unfolding hex_decode
decode_of_even [] n h = absurd (n refl)
decode_of_even (c ∷ cs) n h = ground arith

encode-ne-nil : (bs : List ℕ) → bs ≢ [] → hex_encode bs ≢ []
unfolding hex_encode
encode-ne-nil [] n = n
encode-ne-nil (b ∷ bs) n = λ e. cc

-- Decoding an encoded text of bytes gives them back, if there is at least one.
pub hex_decode-encode : (bs : List ℕ) → bs ≢ [] → AreBytes bs → hex_decode (hex_encode bs) ≡ some bs
hex_decode-encode bs n h =
    decode_of_even (hex_encode bs) (encode-ne-nil bs n) (is_even-encode bs) ∙ hex_bytes-encode bs h

-- Every character is one that is_hex_char of src/http_server.c accepts.
abbrev pub are_hex : List ℕ → Bool
are_hex [] = true
are_hex (c ∷ cs) = is_some (hex_char_val c) && are_hex cs

cons_byte-is_some :
    (b : Option ℕ) (bs : Option (List ℕ)) → is_some (cons_byte b bs) ≡ (is_some b && is_some bs)
unfolding cons_byte
cons_byte-is_some none bs = refl
cons_byte-is_some (some b) none = refl
cons_byte-is_some (some b) (some bs) = refl

byte_of-is_some : (a b : Option ℕ) → is_some (byte_of a b) ≡ (is_some a && is_some b)
unfolding byte_of
byte_of-is_some none b = refl
byte_of-is_some (some a) none = refl
byte_of-is_some (some a) (some b) = refl

-- The Boolean identity that moves the parity test out of the recursion.
and_shuffle : (a b e h : Bool) → ((a && b) && (e && h)) ≡ (e && (a && (b && h)))
and_shuffle true true e h = refl
and_shuffle true false true h = refl
and_shuffle true false false h = refl
and_shuffle false b true h = refl
and_shuffle false b false h = refl

hex_bytes-is_some : (cs : List ℕ) → is_some (hex_bytes cs) ≡ (is_even cs && are_hex cs)
unfolding hex_bytes
hex_bytes-is_some [] = refl
hex_bytes-is_some (c ∷ []) = refl
hex_bytes-is_some (c ∷ d ∷ cs) =
    let a = hex_char_val c in
    let b = hex_char_val d in
    rw (cons_byte-is_some (byte_of a b) (hex_bytes cs), byte_of-is_some a b, hex_bytes-is_some cs)
      (and_shuffle (is_some a) (is_some b) (is_even cs) (are_hex cs))

abbrev pub is_nonempty : List ℕ → Bool
is_nonempty [] = false
is_nonempty (c ∷ cs) = true

guarded :
    (b h : Bool) (o : Option (List ℕ))
    → is_some o ≡ (b && h)
    → is_some (if b then o else none) ≡ (b && h)
guarded true h o e = e
guarded false h o e = refl

-- Decoding succeeds on exactly the texts of even length, not empty, of hexadecimal digits only.
pub hex_decode-is_some :
    (cs : List ℕ) → is_some (hex_decode cs) ≡ (is_nonempty cs && (is_even cs && are_hex cs))
unfolding hex_decode
hex_decode-is_some [] = refl
hex_decode-is_some (c ∷ cs) =
    guarded (is_even (c ∷ cs)) (are_hex (c ∷ cs)) (hex_bytes (c ∷ cs)) (hex_bytes-is_some (c ∷ cs))

-- This character is the hexadecimal digit of this value, in small or capital letters.
abbrev pub IsDigit : ℕ → ℕ → Type 0
IsDigit v c =
    ((v < 10) × (c ≡ b'0' + v))
    ⊎ ((10 ≤ v) × (v < 16) × ((c + 10 ≡ b'a' + v) ⊎ (c + 10 ≡ b'A' + v)))

-- The characters are two digits for each byte, the high one first.
abbrev pub IsText : List ℕ → List ℕ → Type 0
IsText [] [] = Unit {0}
IsText [] (c ∷ cs) = ⊥
IsText (b ∷ bs) [] = ⊥
IsText (b ∷ bs) (c ∷ []) = ⊥
IsText (b ∷ bs) (c ∷ d ∷ cs) =
    ((hi : ℕ) × (lo : ℕ) × IsDigit hi c × IsDigit lo d × (b ≡ hi * 16 + lo)) × IsText bs cs

char_val-IsDigit : (v c : ℕ) → hex_char_val c ≡ some v → IsDigit v c
unfolding hex_char_val
char_val-IsDigit v c h = ground arith

digit-char_val : (v c : ℕ) → IsDigit v c → is_some (hex_char_val c) ≡ true
unfolding hex_char_val
digit-char_val v c (inl h) = ground arith
digit-char_val v c (inr (h, g, inl e)) = ground arith
digit-char_val v c (inr (h, g, inr e)) = ground arith

byte_of-cases :
    (a b : Option ℕ) (x : ℕ)
    → byte_of a b ≡ some x
    → (hi : ℕ) × (lo : ℕ) × (a ≡ some hi) × (b ≡ some lo) × (x ≡ hi * 16 + lo)
unfolding byte_of
byte_of-cases none b x h = absurd (ground arith)
byte_of-cases (some a) none x h = absurd (ground arith)
byte_of-cases (some a) (some b) x h = (a, b, refl, refl, ground arith)

cons_byte-cases :
    (o : Option ℕ) (r : Option (List ℕ)) (hash : List ℕ)
    → cons_byte o r ≡ some hash
    → (b : ℕ) × (bs : List ℕ) × (o ≡ some b) × (r ≡ some bs) × (hash ≡ b ∷ bs)
unfolding cons_byte
cons_byte-cases none r hash h = absurd (ground arith)
cons_byte-cases (some b) none hash h = absurd (ground arith)
cons_byte-cases (some b) (some bs) hash h = (b, bs, refl, refl, cc)

hex_bytes-IsText : (cs hash : List ℕ) → hex_bytes cs ≡ some hash → IsText hash cs
unfolding hex_bytes
hex_bytes-IsText [] [] h = tt
hex_bytes-IsText [] (b ∷ bs) h = absurd (ground arith)
hex_bytes-IsText (c ∷ []) hash h = absurd (ground arith)
hex_bytes-IsText (c ∷ d ∷ cs) hash h =
    let (b, bs, byte, rest, e) =
      cons_byte-cases (byte_of (hex_char_val c) (hex_char_val d)) (hex_bytes cs) hash h in
    let (hi, lo, high, low, sum) = byte_of-cases (hex_char_val c) (hex_char_val d) b byte in
    subst (λ x. IsText x (c ∷ d ∷ cs)) (sym e)
      (
        (hi, lo, char_val-IsDigit hi c high, char_val-IsDigit lo d low, sum),
        hex_bytes-IsText cs bs rest,
      )

-- What a text is decoded to is the bytes that its digits stand for.
pub hex_decode-IsText : (cs hash : List ℕ) → hex_decode cs ≡ some hash → IsText hash cs
unfolding hex_decode
hex_decode-IsText [] hash h = absurd (ground arith)
hex_decode-IsText (c ∷ cs) hash h = hex_bytes-IsText (c ∷ cs) hash (ground arith)

pub are_hex_of_text : (hash cs : List ℕ) → IsText hash cs → are_hex cs ≡ true
are_hex_of_text [] [] t = refl
are_hex_of_text [] (c ∷ cs) t = absurd t
are_hex_of_text (b ∷ bs) [] t = absurd t
are_hex_of_text (b ∷ bs) (c ∷ []) t = absurd t
are_hex_of_text (b ∷ bs) (c ∷ d ∷ cs) ((hi, lo, high, low, sum), t) =
    rw (digit-char_val hi c high, digit-char_val lo d low, are_hex_of_text bs cs t) refl
