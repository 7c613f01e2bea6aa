-- ===== src/Log/Line.antt =====
-- The line that src/log.c writes, and its length.
use rpcracer.Prelude.{
  ℕ, zero, suc, ◌+◌, ◌≤◌, ◌<◌, ◌≡◌, refl, sym, ap, subst, ◌⊎◌, inl, inr, Option, ◌∙◌, arith, false,
  none, some, List, [], ◌∷◌, ◌++◌, length, take, length-append, ltb, leb, if_rule,
}
use rpcracer.Framing.{codes}
use rpcracer.Log.{tag, prefix, finish, log_msg, log_buf_size}

take_short : (k : ℕ) (xs : List ℕ) → length xs ≤ k → take k xs ≡ xs
take_short zero [] h = refl
take_short zero (x ∷ xs) h = absurd (omega arith)
take_short (suc k) [] h = refl
take_short (suc k) (x ∷ xs) h = ap (λ ys. x ∷ ys) (take_short k xs (omega arith))

take-take : (k : ℕ) (xs : List ℕ) → take k (take (suc k) xs) ≡ take k xs
take-take zero xs = refl
take-take (suc k) [] = refl
take-take (suc k) (x ∷ xs) = ap (λ ys. x ∷ ys) (take-take k xs)

-- The line is the start of the text, as much as fits, and a line end.
abbrev pub line_of : List ℕ → List ℕ
line_of text = take 1022 text ++ (10 ∷ [])

finish_lem : (text : List ℕ) → finish text ≡ line_of text
unfolding finish
finish_lem text =
    if_rule (λ end. take end (take 1023 text) ++ (10 ∷ []) ≡ line_of text) (leb 1023 (length text))
      1022 (length text) (λ h. ap (λ xs. xs ++ (10 ∷ [])) (take-take 1022 text))
      (λ h.
        ap (λ xs. xs ++ (10 ∷ []))
          (ap (take (length text)) (take_short 1023 text (ground arith))
            ∙ (take_short (length text) text (omega arith)
                ∙ sym (take_short 1022 text (ground arith)))))

length-tag : (level : ℕ) → length (tag level) ≡ 4
unfolding tag
length-tag zero = refl
length-tag (suc zero) = refl
length-tag (suc (suc zero)) = refl
length-tag (suc (suc (suc zero))) = refl
length-tag (suc (suc (suc (suc level)))) = refl

length-prefix : (time : List ℕ) (level : ℕ) → length (prefix time level) ≡ length time + 8
unfolding prefix
length-prefix time level = ground (
  arith,
  length-append time (codes " [" ++ (tag level ++ codes "] ")),
  length-append (tag level) (codes "] "),
  length-tag level,
)

leb_of_lt : (a b : ℕ) → a < b → leb b a ≡ false
leb_of_lt a b h = ground arith

-- The name of a level in a line.
abbrev pub level_name : ℕ → List ℕ
level_name zero = codes "CRIT"
level_name (suc zero) = codes "WARN"
level_name (suc (suc zero)) = codes "INFO"
level_name (suc (suc (suc zero))) = codes "DEBG"
level_name (suc (suc (suc (suc level)))) = codes "????"

tag_lem : (level : ℕ) → tag level ≡ level_name level
unfolding tag
tag_lem zero = refl
tag_lem (suc zero) = refl
tag_lem (suc (suc zero)) = refl
tag_lem (suc (suc (suc zero))) = refl
tag_lem (suc (suc (suc (suc level)))) = refl

-- What is written, if the level is not above the verbosity, is this text and a line end, or its
-- first 1022 bytes and a line end if it is longer.
abbrev pub IsWritten : ℕ → ℕ → List ℕ → Option (List ℕ) → Type 0
IsWritten verbosity level text written =
    ((verbosity < level) × (written ≡ none))
    ⊎ ((level ≤ verbosity)
        × (((length text ≤ 1022) × (written ≡ some (text ++ (10 ∷ []))))
            ⊎ ((1022 < length text) × (written ≡ some (take 1022 text ++ (10 ∷ []))))))

line-IsWritten :
    (verbosity level : ℕ) (text : List ℕ)
    → level ≤ verbosity
    → IsWritten verbosity level text (some (line_of text))
line-IsWritten verbosity level text h =
    if_rule (λ (_ : List ℕ). IsWritten verbosity level text (some (line_of text)))
      (leb (length text) 1022) [] []
      (λ short. inr (
        h,
        inl (ground arith, ap (λ xs. some (xs ++ (10 ∷ []))) (take_short 1022 text (ground arith))),
      ))
      (λ long. inr (h, inr (ground arith, refl)))

-- With a time of less than 64 bytes, as log_update_time keeps it, a message is written exactly if its
-- level is not above the verbosity. What is written is the time, the name of the level in brackets
-- and the message, cut off behind 1022 bytes if it is longer, with a line end behind it.
pub log_msg_lem :
    (verbosity level : ℕ) (time message : List ℕ)
    → length time < 64
    → IsWritten verbosity level
        (time ++ (codes " [" ++ (level_name level ++ codes "] ")) ++ message)
        (log_msg verbosity time level message)
unfolding log_msg prefix
log_msg_lem verbosity level time message h =
    let text = prefix time level ++ message in
    let fits : leb log_buf_size (length (prefix time level)) ≡ false =
      leb_of_lt (length (prefix time level)) log_buf_size
        (omega (arith, length-prefix time level)) in
    subst
      (λ name.
        IsWritten verbosity level (time ++ (codes " [" ++ (name ++ codes "] ")) ++ message)
          (log_msg verbosity time level message))
      (tag_lem level)
      (if_rule (IsWritten verbosity level text) (ltb verbosity level) none _
        (λ above. inl (ground arith, refl))
        (λ below. rw (fits, finish_lem text) (line-IsWritten verbosity level text (ground arith))))
