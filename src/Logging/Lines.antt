-- ===== src/Logging/Lines.antt =====
-- One line of the log (software/src/logging.cc, `Log::log`).
use packet_filter.Base.{
  Bool, not, ltb, leb, ℕ, ◌+◌, ◌<◌, ◌==◌, true, false, Bool-cases, if◌then◌else◌, List, [], ◌∷◌,
  ◌++◌, length, length-append, ne→==, some, ◌≡◌, refl, ap, ◌∙◌, inl, inr, arith,
}
use mathlib.Core.List.{append-nil}
use packet_filter.Logging.{
  Level, level_value, ℤ, pos, negsuc, is_filtered, Memory, Clock, current_time, time_buf_size,
  log_buf_size, LineBuf, log,
}
use packet_filter.Logging.Stamp.{date_before, stamp, contents, current_time-stamp}
use packet_filter.Logging.Buffer.{IsWhole, header, log-IsWhole}
use packet_filter.Logging.Output.{Log, returned, until_nul, place, fprintf, print_buf, log_line}

-- `YYYY-MM-DD hh:mm:ss.mmm`.
abbrev pub date : Clock → List ℕ
date clock = date_before clock []

keeps_digit : (v : ℕ) (cs : List ℕ) → until_nul ((48 + v) ∷ cs) ≡ (48 + v) ∷ until_nul cs
unfolding until_nul
keeps_digit v cs = rw (ne→== (48 + v) 0 (λ e. absurd (omega arith))) refl

keeps_mark : (c : ℕ) (cs : List ℕ) → (c == 0) ≡ false → until_nul (c ∷ cs) ≡ c ∷ until_nul cs
unfolding until_nul
keeps_mark c cs e = rw e refl

ends_nul : until_nul (0 ∷ []) ≡ []
unfolding until_nul
ends_nul = refl

date-until_nul : (clock : Clock) → until_nul (stamp clock) ≡ date clock
date-until_nul clock = simp (
  keeps_digit,
  ends_nul,
  keeps_mark b'-' _ refl,
  keeps_mark b' ' _ refl,
  keeps_mark b':' _ refl,
  keeps_mark b'.' _ refl,
)

-- A whole line.
abbrev pub line_text : Level → ℕ → List ℕ → Clock → List ℕ → List ℕ
line_text level line file clock text =
    (header level (place file line) (date clock) ++ text) ++ (10 ∷ [])

-- A level passes that is not above `log_level`.
abbrev pub passes : ℤ → Level → Bool
passes (pos n) level = leb (level_value level) n
passes (negsuc n) level = false

filtered-passes :
    (log_level : ℤ) (level : Level) → is_filtered log_level level ≡ not (passes log_level level)
unfolding is_filtered
filtered-passes (pos n) level = other n (level_value level)
  where
    other : (n v : ℕ) → ltb n v ≡ not (leb v n)
    other n v = ground arith
filtered-passes (negsuc n) level = refl

-- The line of a message for the file `fp`, if its level passes.
abbrev pub lines_of : ℤ → ℕ → Level → List ℕ → List (ℕ × List ℕ)
lines_of log_level fp level text = if passes log_level level then (fp, text) ∷ [] else []

-- What is handed to the streams.
abbrev pub add : Log → List (ℕ × List ℕ) → Log
add s lines = record s { written = s.written ++ lines }

module _ (garbage : Memory) (filename : List ℕ) where
  time_text :
      (clock : Clock)
      → until_nul (contents (current_time clock garbage) 0 time_buf_size) ≡ date clock
  time_text clock =
      ap until_nul (current_time-stamp clock garbage 24 (omega arith)).0 ∙ date-until_nul clock

  print_whole :
      (b : LineBuf) (s : Log) (fp : ℕ) (text : List ℕ)
      → s.fp_s ≡ some fp
      → IsWhole text b
      → print_buf (some b) s ≡ returned (add s ((fp, text) ∷ []))
  unfolding fprintf
  print_whole b s fp text e whole = rw (whole.inside, e, whole.shown) refl

  log_line-passes :
      (level : Level) (line : ℕ) (file : List ℕ) (clock : Clock) (text : List ℕ) (s : Log) (fp : ℕ)
      → s.fp_s ≡ some fp
      → is_filtered s.log_level level ≡ false
      → length (line_text level line file clock text) < log_buf_size
      → log_line garbage filename level line file clock text s
        ≡ returned (add s ((fp, line_text level line file clock text) ∷ []))
  unfolding log_line
  log_line-passes level line file clock text s fp e passes fits =
      let top = header level (place file line) (date clock) in
      let size = length-append (top ++ text) (10 ∷ []) in
      let (b, made, whole) =
        log-IsWhole s.log_level level (place file line) (date clock) text passes
          (omega (arith, size, length-append top text)) in
      rw (time_text clock, made) (print_whole b s fp _ e whole)

  log_line-filtered :
      (level : Level) (line : ℕ) (file : List ℕ) (clock : Clock) (text : List ℕ) (s : Log)
      → is_filtered s.log_level level ≡ true
      → log_line garbage filename level line file clock text s ≡ returned s
  unfolding log_line log
  log_line-filtered level line file clock text s e = rw e refl

  pub log_line-lines :
      (level : Level) (line : ℕ) (file : List ℕ) (clock : Clock) (text : List ℕ) (s : Log) (fp : ℕ)
      → s.fp_s ≡ some fp
      → length (line_text level line file clock text) < log_buf_size
      → log_line garbage filename level line file clock text s
        ≡ returned (add s (lines_of s.log_level fp level (line_text level line file clock text)))
  log_line-lines level line file clock text s fp e fits =
      elim (Bool-cases (passes s.log_level level)) [
        | inl e1 ↦ rw e1 (
            log_line-passes level line file clock text s fp e
              (filtered-passes s.log_level level ∙ ap not e1) fits)
        | inr e1 ↦
            rw (e1, append-nil s.written)
              (log_line-filtered level line file clock text s
                (filtered-passes s.log_level level ∙ ap not e1))
      ]
