-- ===== src/Logging.antt =====
-- software/src/logging.cc and logging.h, class `Log`: the levels, the time stamp and the line buffer.
pub mod Stamp
pub mod Buffer
pub mod Output
pub mod Lines
pub mod Calls
use packet_filter.Base.{
  ℕ, zero, suc, ◌+◌, ◌-◌, ◌*◌, ◌/◌, ◌%◌, ◌^◌, Bool, true, false, ltb, ◌==◌, not, ◌&&◌, ◌||◌,
  if◌then◌else◌, List, [], ◌∷◌, ◌++◌, length, take, Option, none, some,
}
use Prim.Native.Nat.{min}

-- `Log::Level`.
pub data Level : Type 0 where
  fatal error warn info debug : Level

abbrev pub level_value : Level → ℕ
level_value fatal = 0
level_value error = 1
level_value warn = 2
level_value info = 3
level_value debug = 4

-- An `int` for `log_level`.
pub data ℤ : Type 0 where
  pos : ℕ → ℤ
  negsuc : ℕ → ℤ

-- `level > log_level`.
unfoldable pub is_filtered : ℤ → Level → Bool
is_filtered (pos n) level = ltb n (level_value level)
is_filtered (negsuc n) level = true

-- `level_str`.
abbrev pub level_str : Level → List ℕ
level_str fatal = b'F' ∷ []
level_str error = b'E' ∷ []
level_str warn = b'W' ∷ []
level_str info = b'I' ∷ []
level_str debug = b'D' ∷ []

abbrev pub Memory : Type 0
Memory = ℕ → ℕ

abbrev pub store : Memory → ℕ → ℕ → Memory
store buf p v i = if i == p then v else buf i

-- The loop of `make_int`, with `left` rounds to go and `p` behind the next place.
unfoldable pub make_digits : Memory → ℕ → ℕ → ℕ → Memory
make_digits buf p val zero = buf
make_digits buf p val (suc left) =
    make_digits (store buf (p - 1) (48 + val % 10)) (p - 1) (val / 10) left

-- `make_int(buf + at, val, digits)` for `val` not below 0.
unfoldable pub make_int : Memory → ℕ → ℕ → ℕ → Memory
make_int buf at val digits = make_digits buf (at + digits) val digits

-- What `localtime_r` and `gettimeofday` give.
pub record Clock : Type 0 where
  pub tm_year : ℕ
  pub tm_mon : ℕ
  pub tm_mday : ℕ
  pub tm_hour : ℕ
  pub tm_min : ℕ
  pub tm_sec : ℕ
  pub tv_usec : ℕ

unfoldable pub current_time : Clock → Memory → Memory
current_time clock buf0 =
    let buf1 = store (make_int buf0 0 (clock.tm_year + 1900) 4) 4 b'-' in
    let buf2 = store (make_int buf1 5 (clock.tm_mon + 1) 2) 7 b'-' in
    let buf3 = store (make_int buf2 8 clock.tm_mday 2) 10 b' ' in
    let buf4 = store (make_int buf3 11 clock.tm_hour 2) 13 b':' in
    let buf5 = store (make_int buf4 14 clock.tm_min 2) 16 b':' in
    let buf6 = store (make_int buf5 17 clock.tm_sec 2) 19 b'.' in
    store (make_int buf6 20 (clock.tv_usec / 1000) 3) 23 0

abbrev pub time_buf_size : ℕ
time_buf_size = 24

abbrev pub log_buf_size : ℕ
log_buf_size = 4096

-- `log_buf` while a line is put together: the text in it, `offset`, and whether a byte was written
-- behind its end.
pub record LineBuf : Type 0 where
  pub shown : List ℕ
  pub offset : ℕ
  pub beyond : Bool

-- `offset += snprintf(log_buf + offset, sizeof(log_buf) - offset, …)` for what the format makes of
-- its arguments: with room for `room` bytes, at most `room - 1` characters and a 0 are written, and
-- the length of the whole is returned, as the C standard has it where an `int` holds that length.
unfoldable pub print_piece : List ℕ → LineBuf → LineBuf
print_piece piece b =
    let room = (log_buf_size + (2 ^ 64 - b.offset)) % 2 ^ 64 in
    let written : ℕ = if room == 0 then 0 else min (length piece) (room - 1) + 1 in
    record {
      shown = if ltb b.offset log_buf_size then b.shown ++ take (room - 1) piece else b.shown;
      offset = (b.offset + length piece) % 2 ^ 64;
      beyond = b.beyond || ltb log_buf_size (b.offset + written) && not (written == 0);
    }

abbrev pub empty_buf : LineBuf
empty_buf = record { shown = []; offset = 0; beyond = false }

-- The line buffer of `Log::log`, whose assertions on its level and its file hold, for the place `[<file>:<line>] ` and the time stamp as texts; `none`
-- if the level is filtered out.
unfoldable pub log : ℤ → Level → List ℕ → List ℕ → List ℕ → Option LineBuf
log log_level level place stamp message =
    if is_filtered log_level level
    then none
    else (let b1 = print_piece (level_str level ++ (b' ' ∷ [])) empty_buf in
        let b2 = print_piece place b1 in
        let b3 = print_piece (stamp ++ (b' ' ∷ b'|' ∷ b' ' ∷ [])) b2 in
        let b4 = print_piece message b3 in some (print_piece (10 ∷ []) b4))
