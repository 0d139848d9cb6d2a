-- ===== src/Logging/Output.antt =====
-- software/src/logging.cc and deps.h: what the calls of `Log` write, with the level and the file that
-- are set between them. They are taken one after the other, each as a whole: `set_log_level` and
-- `set_log_file` hold `log_mutex`, the other calls take no lock.
use packet_filter.Base.{
  ℕ, zero, suc, ◌==◌, Bool, if◌then◌else◌, List, [], ◌∷◌, ◌++◌, Option, none, some,
}
use packet_filter.Text.Decimal.{decimal}
use packet_filter.Logging.{
  Level, fatal, error, warn, info, debug, level_value, ℤ, pos, Memory, Clock, current_time,
  time_buf_size, LineBuf, log,
}
use packet_filter.Logging.Stamp.{contents}

-- The static members of `Log`, and what was handed to the streams, which are numbers.
pub record Log : Type 0 where
  pub log_level : ℤ
  pub fp_s : Option ℕ
  pub written : List (ℕ × List ℕ)

-- A call returns, ends the process by `abort()`, or does what the C standard leaves undefined.
pub data Ending : Type 0 where
  returned : Log → Ending
  aborted : Log → Ending
  undefined : Ending

-- What `%s` prints.
unfoldable pub until_nul : List ℕ → List ℕ
until_nul [] = []
until_nul (c ∷ cs) = if c == 0 then [] else c ∷ until_nul cs

-- `[%s:%d] `.
abbrev pub place : List ℕ → ℕ → List ℕ
place file line = b'[' ∷ file ++ b':' ∷ decimal (suc line) line ++ b']' ∷ b' ' ∷ []

-- `%s` writes its text up to a 0; no text that the program logs has one.
unfoldable pub fprintf : Option ℕ → List ℕ → Log → Ending
fprintf none text s = undefined
fprintf (some fp) text s = returned (record s { written = s.written ++ (fp, text) ∷ [] })

abbrev pub print_buf : Option LineBuf → Log → Ending
print_buf none s = returned s
print_buf (some b) s = if b.beyond then undefined else fprintf s.fp_s b.shown s

abbrev pub stop : Ending → Ending
stop (returned s) = aborted s
stop (aborted s) = aborted s
stop undefined = undefined

pub data LogCall : Type 0 where
  level_set : ℤ → LogCall
  file_set : Option ℕ → Clock → LogCall
  message : Level → ℕ → List ℕ → Clock → List ℕ → LogCall

abbrev pub and_then : Ending → (Log → Ending) → Ending
and_then (returned s) f = f s
and_then (aborted s) f = aborted s
and_then undefined f = undefined

-- "Log file is not opened".
unfoldable pub not_opened : Unit {0} → List ℕ
not_opened u =
    b'L' ∷ b'o' ∷ b'g' ∷ b' ' ∷ b'f' ∷ b'i' ∷ b'l' ∷ b'e' ∷ b' ' ∷ b'i' ∷ b's' ∷ b' ' ∷ b'n' ∷ b'o'
    ∷ b't' ∷ b' ' ∷ b'o' ∷ b'p' ∷ b'e' ∷ b'n' ∷ b'e' ∷ b'd' ∷ []

-- The static members as logging.cc initialises them.
abbrev pub initial : ℕ → Log
initial stdout = record { log_level = pos (level_value debug); fp_s = some stdout; written = [] }

unfoldable pub set_log_level : ℤ → Log → Ending
set_log_level level s = returned (record s { log_level = level })

-- The constructor of `dummy_class`, with or without `LOG_LEVEL_DEBUG`.
unfoldable pub dummy_class : Bool → Log → Ending
dummy_class log_level_debug s =
    if log_level_debug
    then set_log_level (pos (level_value debug)) s
    else set_log_level (pos (level_value info)) s

-- Its instances, one in each of the `units` that include deps.h.
unfoldable pub initialise : Bool → ℕ → Log → Ending
initialise log_level_debug zero s = returned s
initialise log_level_debug (suc units) s =
    and_then (dummy_class log_level_debug s) (initialise log_level_debug units)

-- `garbage` is in `time_buf` before it is filled, and `filename` is what `__FILENAME__` is in
-- logging.cc.
module _ (garbage : Memory) (filename : List ℕ) where
  -- `Log::log`, for what the format makes of the arguments.
  unfoldable pub log_line : Level → ℕ → List ℕ → Clock → List ℕ → Log → Ending
  log_line level line file clock text s =
      let time_buf = contents (current_time clock garbage) 0 time_buf_size in
      print_buf (log s.log_level level (place file line) (until_nul time_buf) text) s

  -- `Log::debug`, `Log::info`, `Log::warn`, `Log::error` and `Log::fatal`.
  unfoldable pub print : Level → ℕ → List ℕ → Clock → List ℕ → Log → Ending
  print debug line file clock text s = log_line debug line file clock text s
  print info line file clock text s = log_line info line file clock text s
  print warn line file clock text s = log_line warn line file clock text s
  print error line file clock text s = log_line error line file clock text s
  print fatal line file clock text s = stop (log_line fatal line file clock text s)

  unfoldable pub set_log_file : Option ℕ → Clock → Log → Ending
  set_log_file fp clock s = with_file s.fp_s
    where
      with_file : Option ℕ → Ending
      with_file none = print fatal 23 filename clock (not_opened tt) s
      with_file (some old) = returned (record s { fp_s = fp })

  unfoldable pub perform : LogCall → Log → Ending
  perform (level_set level) s = set_log_level level s
  perform (file_set fp clock) s = set_log_file fp clock s
  perform (message level line file clock text) s = print level line file clock text s

  unfoldable pub run : List LogCall → Log → Ending
  run [] s = returned s
  run (call ∷ calls) s = and_then (perform call s) (run calls)
