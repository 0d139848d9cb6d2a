-- ===== src/Logging/Calls.antt =====
-- The lines that come to the files of the log (software/src/logging.cc and deps.h).
use packet_filter.Base.{
  ℕ, zero, suc, ◌<◌, Bool, true, false, if◌then◌else◌, List, [], ◌∷◌, ◌++◌, length, none, some, ◌≡◌,
  ◌≢◌, refl, ap, ◌∙◌, sym, arith,
}
use mathlib.Core.List.{append-nil, append_assoc}
use packet_filter.Logging.{
  Level, fatal, error, warn, info, debug, level_value, ℤ, pos, Memory, Clock, log_buf_size,
}
use packet_filter.Logging.Lines.{line_text, lines_of, add, log_line-lines}
use packet_filter.Logging.Output.{
  Log, returned, aborted, log_line, print, LogCall, level_set, file_set, message, and_then,
  set_log_level, set_log_file, perform, run, initialise, dummy_class, initial,
}

-- The lines of the messages, each for the level and the file that are set at its turn.
abbrev pub lines : ℤ → ℕ → List LogCall → List (ℕ × List ℕ)
lines log_level fp [] = []
lines log_level fp (level_set level ∷ calls) = lines level fp calls
lines log_level fp (file_set none clock ∷ calls) = []
lines log_level fp (file_set (some file) clock ∷ calls) = lines log_level file calls
lines log_level fp (message level line file clock text ∷ calls) =
    lines_of log_level fp level (line_text level line file clock text) ++ lines log_level fp calls

-- A file that is open, or a message that does not end the process and fits into a line.
abbrev pub IsOrdinary : LogCall → Type 0
IsOrdinary (level_set level) = Unit {0}
IsOrdinary (file_set none clock) = ⊥
IsOrdinary (file_set (some file) clock) = Unit {0}
IsOrdinary (message level line file clock text) =
    (level ≢ fatal) × (length (line_text level line file clock text) < log_buf_size)

abbrev pub AllOrdinary : List LogCall → Type 0
AllOrdinary [] = Unit {0}
AllOrdinary (call ∷ calls) = IsOrdinary call × AllOrdinary calls

-- The level that the instances of `dummy_class` set.
abbrev pub built_level : Bool → Level
built_level log_level_debug = if log_level_debug then debug else info

module _ (garbage : Memory) (filename : List ℕ) where
  print_ordinary :
      (level : Level) (line : ℕ) (file : List ℕ) (clock : Clock) (text : List ℕ) (s : Log)
      → level ≢ fatal
      → print garbage filename level line file clock text s
        ≡ log_line garbage filename level line file clock text s
  unfolding print
  print_ordinary debug line file clock text s h = refl
  print_ordinary info line file clock text s h = refl
  print_ordinary warn line file clock text s h = refl
  print_ordinary error line file clock text s h = refl
  print_ordinary fatal line file clock text s h = absurd (h refl)

  -- After ordinary calls the next one finds a file.
  record Went (calls : List LogCall) (s : Log) (fp : ℕ) : Type 0 where
    log_level : ℤ
    file : ℕ
    added : List (ℕ × List ℕ)
    finds :
        (rest : List LogCall)
        → lines s.log_level fp (calls ++ rest) ≡ added ++ lines log_level file rest
    goes :
        (rest : List LogCall)
        → run garbage filename (calls ++ rest) s
          ≡ run garbage filename rest
              (record { log_level = log_level; fp_s = some file; written = s.written ++ added })

  went :
      (calls : List LogCall) (s : Log) (fp : ℕ)
      → s.fp_s ≡ some fp
      → AllOrdinary calls
      → Went calls s fp
  unfolding run perform set_log_level set_log_file
  went [] s fp e o = record {
    log_level = s.log_level;
    file = fp;
    added = [];
    finds = λ rest. refl;
    goes = λ rest. rw (append-nil s.written, sym e) refl;
  }
  went (level_set level ∷ calls) s fp e o =
      let w = went calls (record s { log_level = level }) fp e o.1 in
      record {
        log_level = w.log_level;
        file = w.file;
        added = w.added;
        finds = w.finds;
        goes = w.goes;
      }
  went (file_set none clock ∷ calls) s fp e o = absurd o.0
  went (file_set (some file) clock ∷ calls) s fp e o =
      let w = went calls (record s { fp_s = some file }) file refl o.1 in
      record {
        log_level = w.log_level;
        file = w.file;
        added = w.added;
        finds = w.finds;
        goes = λ rest. rw e (w.goes rest);
      }
  went (message level line file clock text ∷ calls) s fp e ((ordinary, fits), o) =
      let new = lines_of s.log_level fp level (line_text level line file clock text) in
      let w = went calls (add s new) fp e o in
      record {
        log_level = w.log_level;
        file = w.file;
        added = new ++ w.added;
        finds = λ rest. ap (◌++◌ new) (w.finds rest) ∙ sym (append_assoc new w.added _);
        goes = λ rest.
            rw
              (
                print_ordinary level line file clock text s ordinary,
                log_line-lines garbage filename level line file clock text s fp e fits,
                sym (append_assoc s.written new w.added),
              )
              (w.goes rest);
      }

  -- From a state with an open file, ordinary calls and then a fatal message whose line fits end the
  -- process by `abort()`, and what was handed to the streams until then are exactly the lines of the
  -- messages whose level passes at their turn, the fatal one included, in order, each for the file
  -- that is set then.
  pub run-fatal :
      (calls : List LogCall) (s : Log) (fp line : ℕ) (file : List ℕ) (clock : Clock) (text : List ℕ)
      → s.fp_s ≡ some fp
      → AllOrdinary calls
      → length (line_text fatal line file clock text) < log_buf_size
      → let all = calls ++ message fatal line file clock text ∷ [] in
        (t : Log) × (run garbage filename all s ≡ aborted t)
        × (t.written ≡ s.written ++ lines s.log_level fp all)
  unfolding run perform print
  run-fatal calls s fp line file clock text e o fits =
      let w = went calls s fp e o in
      let last = message fatal line file clock text ∷ [] in
      let here : Log = record {
        log_level = w.log_level;
        fp_s = some w.file;
        written = s.written ++ w.added;
      } in
      let new = lines_of w.log_level w.file fatal (line_text fatal line file clock text) in
      (
        add here new,
        w.goes last
            ∙ rw (log_line-lines garbage filename fatal line file clock text here w.file refl fits)
                refl,
        rw (w.finds last, append-nil new) (append_assoc s.written w.added new),
      )

  pub run-ordinary :
      (calls : List LogCall) (s : Log) (fp : ℕ)
      → s.fp_s ≡ some fp
      → AllOrdinary calls
      → (t : Log) × (run garbage filename calls s ≡ returned t)
        × (t.written ≡ s.written ++ lines s.log_level fp calls)
  unfolding run
  run-ordinary calls s fp e o =
      let w = went calls s fp e o in
      let all = append-nil calls in
      let ran = w.goes [] in
      let found = w.finds [] in
      (
        _,
        ap (λ (cs : List LogCall). run garbage filename cs s) (sym all) ∙ ran,
        ap (◌++◌ s.written) (sym (append-nil w.added) ∙ sym found ∙ ap (lines s.log_level fp) all),
      )

  initialised :
      (log_level_debug : Bool) (units : ℕ) (s : Log)
      → 0 < units
      → initialise log_level_debug units s
        ≡ returned (record s { log_level = pos (level_value (built_level log_level_debug)) })
  unfolding initialise dummy_class set_log_level
  initialised b zero s h = absurd (omega arith)
  initialised true (suc zero) s h = refl
  initialised false (suc zero) s h = refl
  initialised true (suc (suc units)) s h =
      initialised true (suc units) (record s { log_level = pos 4 }) (omega arith)
  initialised false (suc (suc units)) s h =
      initialised false (suc units) (record s { log_level = pos 3 }) (omega arith)

  -- Where at least one unit includes deps.h, which sets the level debug or info with or without
  -- `LOG_LEVEL_DEBUG`: ordinary calls of the log return, and what is handed to the streams are exactly
  -- the lines of the messages whose level passes at their turn, in order, each for the file that is
  -- set then, at first the standard output.
  pub started-lines :
      (log_level_debug : Bool) (units stdout : ℕ) (calls : List LogCall)
      → 0 < units
      → AllOrdinary calls
      → (t : Log) × (and_then
            (initialise log_level_debug units (initial stdout))
            (run garbage filename calls)
          ≡ returned t)
        × (t.written ≡ lines (pos (level_value (built_level log_level_debug))) stdout calls)
  started-lines b units stdout calls pos_units o =
      let (t, ran, found) =
        run-ordinary calls
          (record (initial stdout) { log_level = pos (level_value (built_level b)) }) stdout refl
          o in
      (t, rw (initialised b units (initial stdout) pos_units) ran, found)
