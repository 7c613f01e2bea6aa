-- ===== src/Config/Position.antt =====
-- The line and column that src/config.c reports for a parse error.
use rpcracer.Prelude.{ℕ, suc, ◌+◌, ◌≡◌, arith, List, [], ◌∷◌, ◌++◌, length, ◌==◌, if◌then◌else◌}
use rpcracer.Framing.{Lacks}
use rpcracer.Config.{position}

-- The number of line ends in a text.
abbrev pub line_ends : List ℕ → ℕ
line_ends [] = 0
line_ends (c ∷ cs) = if c == 10 then suc (line_ends cs) else line_ends cs

position-within :
    (line col : ℕ) (before after : List ℕ)
    → Lacks 10 before
    → position line col (length before) (before ++ after) ≡ (line, col + length before)
unfolding position
position-within line col [] after h = ground arith
position-within line col (c ∷ cs) after h =
    ground (arith, position-within line (col + 1) cs after h.1)

position-lines :
    (line col : ℕ) (lines before after : List ℕ)
    → Lacks 10 before
    → position line col (length (lines ++ (10 ∷ before))) ((lines ++ (10 ∷ before)) ++ after)
      ≡ (line + line_ends lines + 1, 1 + length before)
unfolding position
position-lines line col [] before after h =
    ground (arith, position-within (line + 1) 1 before after h)
position-lines line col (c ∷ lines) before after h = ground (
  arith,
  position-lines (line + 1) 1 lines before after h,
  position-lines line (col + 1) lines before after h,
)

-- For an error behind whole lines and the part of a line: the line reported is one more than the
-- line ends in front of it, and the column one more than the bytes between the last of them and the
-- error; on the first line the column is one more than the bytes in front of the error.
pub position_lem :
    (lines before after : List ℕ)
    → Lacks 10 before
    → (position 1 1 (length before) (before ++ after) ≡ (1, 1 + length before))
      × (position 1 1 (length (lines ++ (10 ∷ before))) ((lines ++ (10 ∷ before)) ++ after)
          ≡ (1 + line_ends lines + 1, 1 + length before))
position_lem lines before after h =
    (position-within 1 1 before after h, position-lines 1 1 lines before after h)
