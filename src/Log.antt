-- ===== src/Log.antt =====
-- src/log.c: the line that a message becomes. What gmtime_r gives is the record `Time`; the message
-- is the text that vsnprintf makes of the format and its arguments.
pub mod Line
use rpcracer.Prelude.{
  ℕ, zero, suc, ◌+◌, ◌-◌, ◌/◌, ◌%◌, Bool, true, false, ◌&&◌, Option, none, some, List, [], ◌∷◌,
  ◌++◌, length, take, join, get_elem?, ltb, leb, ◌==◌, if◌then◌else◌,
}
use rpcracer.Framing.{codes, decimal}

-- The calendar fields of the time, and the microseconds of clock_realtime_us().
pub record Time : Type 0 where
  pub year : ℕ
  pub month : ℕ
  pub day : ℕ
  pub hour : ℕ
  pub minute : ℕ
  pub second : ℕ
  pub usec : ℕ

abbrev pub zeros : ℕ → List ℕ
zeros zero = []
zeros (suc k) = b'0' ∷ zeros k

-- "%0<width>d" of a number that is not negative.
unfoldable pub padded : ℕ → ℕ → List ℕ
unfolding decimal
padded width n = zeros (width - length (decimal 10 n)) ++ decimal 10 n

abbrev pub time_parts : Time → List (List ℕ)
time_parts t =
    padded 4 t.year
    ∷ codes "-"
    ∷ padded 2 t.month
    ∷ codes "-"
    ∷ padded 2 t.day
    ∷ codes "T"
    ∷ padded 2 t.hour
    ∷ codes ":"
    ∷ padded 2 t.minute
    ∷ codes ":"
    ∷ padded 2 t.second
    ∷ codes "."
    ∷ padded 6 t.usec
    ∷ codes "Z"
    ∷ []

-- log_update_time: the text in g_time_str, which has 64 bytes.
unfoldable pub time_str : Time → List ℕ
time_str t = take 63 (join (time_parts t))

abbrev pub log_buf_size : ℕ
log_buf_size = 1024

abbrev pub level_tags : List (List ℕ)
level_tags = codes "CRIT" ∷ codes "WARN" ∷ codes "INFO" ∷ codes "DEBG" ∷ []

-- The tag of a level, or "????".
unfoldable pub tag : ℕ → List ℕ
tag level = elim (get_elem? level_tags level) [ none ↦ codes "????" | some text ↦ text ]

unfoldable pub prefix : List ℕ → ℕ → List ℕ
unfolding tag
prefix time level = time ++ (codes " [" ++ (tag level ++ codes "] "))

-- The line from the text that the two snprintf calls make, of which the buffer holds its start.
unfoldable pub finish : List ℕ → List ℕ
finish text =
    let off = length text in
    let end = if leb (log_buf_size - 1) off then log_buf_size - 2 else off in
    take end (take (log_buf_size - 1) text) ++ (10 ∷ [])

-- log_msg: what is written, if anything.
unfoldable pub log_msg : ℕ → List ℕ → ℕ → List ℕ → Option (List ℕ)
unfolding prefix finish
log_msg verbosity time level message =
    if ltb verbosity level
    then none
    else (if leb log_buf_size (length (prefix time level))
        then none
        else some (finish (prefix time level ++ message)))

-- The module's state, g_verbosity and g_time_str.
pub record LogState : Type 0 where
  pub verbosity : ℕ
  pub time : List ℕ

unfoldable pub log_update_time : Time → LogState → LogState
unfolding time_str
log_update_time t s = record s { time = time_str t }

unfoldable pub log_init : ℕ → Time → LogState → LogState
unfolding log_update_time
log_init verbosity t s = log_update_time t (record s { verbosity = verbosity })
