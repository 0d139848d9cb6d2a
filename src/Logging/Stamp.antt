-- ===== src/Logging/Stamp.antt =====
-- The time stamp of a log line (software/src/logging.cc, `make_int` and `current_time`).
use packet_filter.Base.{
  ℕ, zero, suc, ◌+◌, ◌-◌, ◌*◌, ◌/◌, ◌%◌, ◌^◌, ◌≤◌, ◌<◌, if◌then◌else◌, List, [], ◌∷◌, ◌≡◌, ◌≢◌,
  refl, ap, ◌∙◌, ne→==, ==_refl, le→leb, lt→leb, lt→ltb, le→ltb, ltb, leb, ◌&&◌, ◌++◌, arith,
}
use native.Mathlib.Nat.{pow-suc, div-div-eq-div-mul}
use native.Mathlib.Decide.{dec_lt}
use packet_filter.Logging.{Memory, store, make_digits, make_int, Clock, current_time, time_buf_size}

store_other : (buf : Memory) (p v i : ℕ) → i ≢ p → store buf p v i ≡ buf i
store_other buf p v i h = ap (λ b. if b then v else buf i) (ne→== i p h)

store_same : (buf : Memory) (p v : ℕ) → store buf p v p ≡ v
store_same buf p v = ap (λ b. if b then v else buf p) (==_refl p)

-- Places behind the digits stay.
make_digits_above :
    (buf : Memory) (p val left i : ℕ) → left ≤ p → p ≤ i → make_digits buf p val left i ≡ buf i
unfolding make_digits
make_digits_above buf p val zero i room h = refl
make_digits_above buf p val (suc left) i room h =
    make_digits_above (store buf (p - 1) (48 + val % 10)) (p - 1) (val / 10) left i (omega arith)
      (omega arith)
    ∙ store_other buf (p - 1) (48 + val % 10) i (λ e. absurd (omega (arith, e)))

make_digits_below :
    (buf : Memory) (p val left i : ℕ) → i + left < p → make_digits buf p val left i ≡ buf i
unfolding make_digits
make_digits_below buf p val zero i h = refl
make_digits_below buf p val (suc left) i h =
    make_digits_below (store buf (p - 1) (48 + val % 10)) (p - 1) (val / 10) left i (omega arith)
    ∙ store_other buf (p - 1) (48 + val % 10) i (λ e. absurd (omega (arith, e)))

-- The digit `k` places before the end.
make_digits_inside :
    (buf : Memory) (p val left k : ℕ)
    → left ≤ p
    → k < left
    → make_digits buf p val left (p - 1 - k) ≡ 48 + val / 10 ^ k % 10
unfolding make_digits
make_digits_inside buf p val zero k room h = absurd (omega arith)
make_digits_inside buf p val (suc left) zero room h =
    let e : p - 1 - 0 ≡ p - 1 = omega arith in
    rw e (
      make_digits_above (store buf (p - 1) (48 + val % 10)) (p - 1) (val / 10) left (p - 1)
        (omega arith) (omega arith)
      ∙ store_same buf (p - 1) (48 + val % 10)
      ∙ omega arith)
make_digits_inside buf p val (suc left) (suc k) room h =
    let e : p - 1 - suc k ≡ p - 1 - 1 - k = omega arith in
    let power : 10 * 10 ^ k ≡ 10 ^ suc k = omega (arith, pow-suc 10 k) in
    rw e (
      make_digits_inside (store buf (p - 1) (48 + val % 10)) (p - 1) (val / 10) left k (omega arith)
        (omega arith)
      ∙ ap (λ (t : ℕ). 48 + t % 10)
          (div-div-eq-div-mul val 10 (10 ^ k) ∙ ap (λ (t : ℕ). val / t) power))

-- `make_int` writes the last `digits` decimal digits of its value, the highest first, and nothing
-- else: the place of weight `10 ^ k` holds that digit, and every other place of the buffer stays.
make_int-digits :
    (buf : Memory) (at val digits i : ℕ)
    → make_int buf at val digits i ≡ (
        if leb at i && ltb i (at + digits)
        then 48 + val / 10 ^ (at + digits - 1 - i) % 10
        else buf i)
unfolding make_int
make_int-digits buf at val digits i = elim (dec_lt i at) [
  | yes before ↦
      rw (lt→leb at i before) (make_digits_below buf (at + digits) val digits i (omega arith))
  | no after ↦ elim (dec_lt i (at + digits)) [
    | yes inside ↦
        let k = at + digits - 1 - i in
        let place : at + digits - 1 - k ≡ i = omega arith in
        rw (le→leb at i (omega arith), lt→ltb i (at + digits) inside)
          (rw place at
            (make_digits_inside buf (at + digits) val digits k (omega arith) (omega arith)))
    | no behind ↦
        rw (le→leb at i (omega arith), le→ltb i (at + digits) (omega arith))
          (make_digits_above buf (at + digits) val digits i (omega arith) (omega arith))
  ]
]

-- `n` decimal digits of a number.
abbrev pub two_digits : ℕ → List ℕ
two_digits v = (48 + v / 10 % 10) ∷ (48 + v % 10) ∷ []

abbrev pub three_digits : ℕ → List ℕ
three_digits v = (48 + v / 10 / 10 % 10) ∷ two_digits v

abbrev pub four_digits : ℕ → List ℕ
four_digits v = (48 + v / 10 / 10 / 10 % 10) ∷ three_digits v

-- `YYYY-MM-DD hh:mm:ss.mmm`, before `rest`.
abbrev pub date_before : Clock → List ℕ → List ℕ
date_before clock rest =
    four_digits (clock.tm_year + 1900)
    ++ b'-' ∷ two_digits (clock.tm_mon + 1)
    ++ b'-' ∷ two_digits clock.tm_mday
    ++ b' ' ∷ two_digits clock.tm_hour
    ++ b':' ∷ two_digits clock.tm_min
    ++ b':' ∷ two_digits clock.tm_sec
    ++ b'.' ∷ three_digits (clock.tv_usec / 1000)
    ++ rest

-- The date and the terminating 0.
abbrev pub stamp : Clock → List ℕ
stamp clock = date_before clock (0 ∷ [])

-- The first `n` bytes of a buffer from place `i` on.
abbrev pub contents : Memory → ℕ → ℕ → List ℕ
contents buf i zero = []
contents buf i (suc n) = buf i ∷ contents buf (i + 1) n

-- `current_time` fills the `TIME_BUF_SIZE` bytes of its buffer with date and time in digits, in the
-- form `YYYY-MM-DD hh:mm:ss.mmm` with a terminating 0, and touches no byte behind them.
pub current_time-stamp :
    (clock : Clock) (buf : Memory) (i : ℕ)
    → time_buf_size ≤ i
    → (contents (current_time clock buf) 0 time_buf_size ≡ stamp clock)
      × (current_time clock buf i ≡ buf i)
unfolding current_time make_int make_digits
current_time-stamp clock buf i h = (refl, ground arith)
