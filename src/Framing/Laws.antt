-- ===== src/Framing/Laws.antt =====
-- Facts on framing: where the headers end does not depend on what follows or on how the bytes
-- arrive.
use rpcracer.Prelude.{
  ℕ, zero, suc, ◌+◌, ◌≤◌, ◌≡◌, refl, ap, arith, true, some, Option-cases, Bool-cases, inl, inr,
  List, [], ◌∷◌, ◌++◌, length, take,
}
use rpcracer.Framing.{starts_with, crlf2, header_end, overwrite, write_at}

pub length-overwrite : (xs bs : List ℕ) → length (overwrite xs bs) ≡ length xs
unfolding overwrite
length-overwrite [] bs = refl
length-overwrite (x ∷ xs) [] = refl
length-overwrite (x ∷ xs) (b ∷ bs) = ap suc (length-overwrite xs bs)

-- A receive does not change the size of the buffer.
pub length-write_at :
    (xs : List ℕ) (off : ℕ) (bs : List ℕ) → length (write_at xs off bs) ≡ length xs
unfolding write_at
length-write_at xs zero bs = length-overwrite xs bs
length-write_at [] (suc off) bs = refl
length-write_at (x ∷ xs) (suc off) bs = ap suc (length-write_at xs off bs)

take-overwrite : (xs bs : List ℕ) → length bs ≤ length xs → take (length bs) (overwrite xs bs) ≡ bs
unfolding overwrite
take-overwrite xs [] h = refl
take-overwrite [] (b ∷ bs) h = absurd (omega arith)
take-overwrite (x ∷ xs) (b ∷ bs) h = ap (◌∷◌ b) (take-overwrite xs bs (omega arith))

-- The received prefix after a receive is the prefix before it and the new bytes.
pub take-write_at :
    (xs : List ℕ) (off : ℕ) (bs : List ℕ)
    → off + length bs ≤ length xs
    → take (off + length bs) (write_at xs off bs) ≡ take off xs ++ bs
unfolding write_at
take-write_at xs zero bs h =
    let e : zero + length bs ≡ length bs = omega arith in rw e (take-overwrite xs bs (omega arith))
take-write_at [] (suc off) bs h = absurd (omega arith)
take-write_at (x ∷ xs) (suc off) bs h =
    let e : suc off + length bs ≡ suc (off + length bs) = omega arith in
    rw e (ap (◌∷◌ x) (take-write_at xs off bs (omega arith)))

length-starts_with : (cs xs : List ℕ) → starts_with cs xs ≡ true → length cs ≤ length xs
unfolding starts_with
length-starts_with [] xs h = omega arith
length-starts_with (c ∷ cs) [] h = cc
length-starts_with (c ∷ cs) (x ∷ xs) h = ground (arith, length-starts_with cs xs)

starts_with-append :
    (cs xs ys : List ℕ) → starts_with cs xs ≡ true → starts_with cs (xs ++ ys) ≡ true
unfolding starts_with
starts_with-append [] xs ys h = refl
starts_with-append (c ∷ cs) [] ys h = cc
starts_with-append (c ∷ cs) (x ∷ xs) ys h = ground (arith, starts_with-append cs xs ys)

starts_with-prefix :
    (cs xs ys : List ℕ)
    → length cs ≤ length xs
    → starts_with cs (xs ++ ys) ≡ true
    → starts_with cs xs ≡ true
unfolding starts_with
starts_with-prefix [] xs ys l h = refl
starts_with-prefix (c ∷ cs) [] ys l h = absurd (omega arith)
starts_with-prefix (c ∷ cs) (x ∷ xs) ys l h = ground (arith, starts_with-prefix cs xs ys)

-- The headers end behind four received bytes at least.
pub header_end_bounds : (xs : List ℕ) (k : ℕ) → header_end xs ≡ some k → (4 ≤ k) × (k ≤ length xs)
unfolding header_end
header_end_bounds [] k h = cc
header_end_bounds (x ∷ xs) k h = elim (Bool-cases (starts_with crlf2 (x ∷ xs))) [
  | inl here ↦ ground (arith, length-starts_with crlf2 (x ∷ xs) here)
  | inr later ↦ elim (Option-cases (header_end xs)) [
    | inl e ↦ ground arith
    | inr (j, e) ↦ ground (arith, header_end_bounds xs j e)
  ]
]

-- Bytes that arrive later do not move the end of the headers.
pub header_end-append :
    (xs ys : List ℕ) (k : ℕ) → header_end xs ≡ some k → header_end (xs ++ ys) ≡ some k
unfolding header_end
header_end-append [] ys k h = cc
header_end-append (x ∷ xs) ys k h = elim (Bool-cases (starts_with crlf2 (x ∷ xs))) [
  | inl here ↦ ground (arith, starts_with-append crlf2 (x ∷ xs) ys here)
  | inr later ↦ elim (Option-cases (header_end xs)) [
    | inl e ↦ ground arith
    | inr (j, e) ↦ ground (
      arith,
      header_end_bounds xs j e,
      starts_with-prefix crlf2 (x ∷ xs) ys,
      header_end-append xs ys j e,
    )
  ]
]
