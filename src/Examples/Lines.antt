-- ===== src/Examples/Lines.antt =====
-- Lines of the log.
use packet_filter.Base.{ℕ, false, List, [], ◌∷◌, ◌++◌, some, ◌≡◌, refl, arith}
use packet_filter.Logging.{
  info, debug, fatal, pos, level_value, Memory, Clock, current_time, time_buf_size, is_filtered,
}
use packet_filter.Logging.Stamp.{stamp, contents, current_time-stamp}
use packet_filter.Text.Decimal.{decimal}
use packet_filter.Logging.Lines.{line_text}
use packet_filter.Logging.Output.{
  Log, returned, aborted, LogCall, level_set, file_set, message, and_then, initial, initialise, run,
}
use packet_filter.Logging.Calls.{lines, built_level, AllOrdinary, started-lines, run-fatal}

-- 2024-02-29 23:59:58.123.
abbrev pub clock : Clock
clock = record {
  tm_year = 124;
  tm_mon = 1;
  tm_mday = 29;
  tm_hour = 23;
  tm_min = 59;
  tm_sec = 58;
  tv_usec = 123456;
}

abbrev pub blank : Memory
blank i = 0

current_time-stamp_example :
    (contents (current_time clock blank) 0 time_buf_size ≡ stamp clock)
    × (current_time clock blank 24 ≡ 0)
current_time-stamp_example = current_time-stamp clock blank 24 (omega arith)

abbrev place : List ℕ
place = b'm' ∷ b'a' ∷ b'i' ∷ b'n' ∷ b' ' ∷ []

abbrev text : List ℕ
text = b'h' ∷ b'i' ∷ []

-- A line of debugging that is left out, a line for the standard output, and one for a file.
abbrev calls : List LogCall
calls =
    message debug 54 place clock text
    ∷ message info 62 place clock text
    ∷ file_set (some 7) clock
    ∷ level_set (pos 4)
    ∷ message debug 67 place clock text
    ∷ []

calls-AllOrdinary : AllOrdinary calls
unfolding decimal
calls-AllOrdinary =
    ((λ e. cc, omega arith), ((λ e. cc, omega arith), (tt, (tt, ((λ e. cc, omega arith), tt)))))

started-lines_example :
    (t : Log) × (and_then (initialise false 3 (initial 1)) (run blank place calls) ≡ returned t)
    × (t.written ≡ lines (pos (level_value (built_level false))) 1 calls)
started-lines_example = started-lines blank place false 3 1 calls (omega arith) calls-AllOrdinary

run-fatal_example :
    (t : Log) × (run blank place (calls ++ message fatal 9 place clock text ∷ []) (initial 1)
      ≡ aborted t)
    × (t.written ≡ [] ++ lines (pos 4) 1 (calls ++ message fatal 9 place clock text ∷ []))
run-fatal_example =
    run-fatal blank place calls (initial 1) 1 9 place clock text refl calls-AllOrdinary
      (unfold decimal in omega arith)

-- The two lines as they stand in their files.
written_lines :
    lines (pos 3) 1 calls
    ≡ (1, line_text info 62 place clock text) ∷ (7, line_text debug 67 place clock text) ∷ []
unfolding is_filtered
written_lines = refl
