-- ===== src/Base/Xor.antt =====
-- `^` and `&` on `ap_uint` values, bit by bit.
use Prim.Native.Nat.{ℕ, zero, suc, ◌+◌, ◌*◌, ◌/◌, ◌%◌, ◌^◌, ◌≤◌, ◌<◌, bit_xor, differ}
use Prim.Native.Nat.{bit_xor-bitwise}
use mathlib.Core.Path.{◌≡◌, refl, sym, ap, ◌∙◌}
use native.Mathlib.Nat.{pow-suc, pow-succ', div-div-eq-div-mul, one-le-pow, div-one}
use mathlib.Core.Logic.{◌↔◌}
use native.Mathlib.Omega.{arith}
use packet_filter.Base.Masks.{lowest_digit, mod-double}

-- Bit `i` of `x`.
unfoldable pub bit : ℕ → ℕ → ℕ
bit x i = x / 2 ^ i % 2

differ_bits : (x y : ℕ) → x < 2 → y < 2 → differ x y ≡ (x + y) % 2
differ_bits zero y h k = omega arith
differ_bits (suc zero) zero h k = refl
differ_bits (suc zero) (suc zero) h k = refl
differ_bits (suc zero) (suc (suc y)) h k = absurd (omega arith)
differ_bits (suc (suc x)) y h k = absurd (omega arith)

xor_digits : (a b : ℕ) → bit_xor a b ≡ bit_xor (a / 2) (b / 2) * 2 + differ (a % 2) (b % 2)
xor_digits zero b = simp bit_xor-bitwise (omega arith)
xor_digits (suc a) b = simp bit_xor-bitwise (lowest_digit differ (λ y. y) (suc a) b (omega arith))

-- The lowest bit of `a ^ b` is the sum of the lowest bits, and the others are those of the halves.
bit_xor_step : (a b : ℕ) → bit_xor a b ≡ bit_xor (a / 2) (b / 2) * 2 + (a % 2 + b % 2) % 2
bit_xor_step a b =
    omega (arith, xor_digits a b, differ_bits (a % 2) (b % 2) (omega arith) (omega arith))

bit-suc : (x i : ℕ) → bit x (suc i) ≡ bit (x / 2) i
unfolding bit
bit-suc x i = rw (pow-succ' 2 i, ← div-div-eq-div-mul x 2 (2 ^ i))

bit-zero : (x : ℕ) → bit x 0 ≡ x % 2
unfolding bit
bit-zero x = rw (div-one x)

pub bit-bit_xor : (i a b : ℕ) → bit (bit_xor a b) i ≡ (bit a i + bit b i) % 2
bit-bit_xor zero a b =
    omega (arith, bit_xor_step a b, bit-zero (bit_xor a b), bit-zero a, bit-zero b)
bit-bit_xor (suc i) a b =
    rw (bit-suc (bit_xor a b) i, bit-suc a i, bit-suc b i)
      (ap (λ (t : ℕ). bit t i) (omega (arith, bit_xor_step a b)) ∙ bit-bit_xor i (a / 2) (b / 2))

bit_ext_fuel : (n a b : ℕ) → a ≤ n → b ≤ n → ((i : ℕ) → bit a i ≡ bit b i) → a ≡ b
bit_ext_fuel zero a b ha hb h = omega arith
bit_ext_fuel (suc n) a b ha hb h = omega (
  arith,
  h 0,
  bit-zero a,
  bit-zero b,
  bit_ext_fuel n (a / 2) (b / 2) (omega arith) (omega arith)
      (λ i. sym (bit-suc a i) ∙ h (suc i) ∙ bit-suc b i),
)

-- Numbers with the same bits are equal.
bit_ext : (a b : ℕ) → ((i : ℕ) → bit a i ≡ bit b i) → a ≡ b
bit_ext a b = bit_ext_fuel (a + b) a b (omega arith) (omega arith)

pub bit-lt : (x i : ℕ) → bit x i < 2
unfolding bit
bit-lt x i = omega arith

pub zero-bit : (i : ℕ) → bit 0 i ≡ 0
unfolding bit
zero-bit i = omega arith

pub xor_comm : (a b : ℕ) → bit_xor a b ≡ bit_xor b a
xor_comm a b = bit_ext _ _ λ i. omega (arith, bit-bit_xor i a b, bit-bit_xor i b a)

xor_assoc : (a b c : ℕ) → bit_xor (bit_xor a b) c ≡ bit_xor a (bit_xor b c)
xor_assoc a b c = bit_ext _ _ λ i. omega (
  arith,
  bit-bit_xor i (bit_xor a b) c,
  bit-bit_xor i a b,
  bit-bit_xor i a (bit_xor b c),
  bit-bit_xor i b c,
)

pub xor-zero : (a : ℕ) → bit_xor a 0 ≡ a
xor-zero a = bit_ext _ _ λ i. omega (arith, bit-bit_xor i a 0, zero-bit i, bit-lt a i)

pub xor_self : (a : ℕ) → bit_xor a a ≡ 0
xor_self a = bit_ext _ _ λ i. omega (arith, bit-bit_xor i a a, zero-bit i)

-- Four terms may be regrouped in pairs.
pub xor_regroup :
    (a b c d : ℕ) → bit_xor (bit_xor a b) (bit_xor c d) ≡ bit_xor (bit_xor a c) (bit_xor b d)
xor_regroup a b c d = bit_ext _ _ λ i. omega (
  arith,
  bit-bit_xor i (bit_xor a b) (bit_xor c d),
  bit-bit_xor i (bit_xor a c) (bit_xor b d),
  bit-bit_xor i a b,
  bit-bit_xor i c d,
  bit-bit_xor i a c,
  bit-bit_xor i b d,
)

-- `^` of two `k`-bit numbers has `k` bits.
pub bit_xor-lt : (k a b : ℕ) → a < 2 ^ k → b < 2 ^ k → bit_xor a b < 2 ^ k
bit_xor-lt zero zero zero ha hb = omega arith
bit_xor-lt zero zero (suc b) ha hb = absurd (omega arith)
bit_xor-lt zero (suc a) b ha hb = absurd (omega arith)
bit_xor-lt (suc k) a b ha hb = omega (
  arith,
  bit_xor_step a b,
  pow-suc 2 k,
  bit_xor-lt k (a / 2) (b / 2) (omega (arith, pow-suc 2 k)) (omega (arith, pow-suc 2 k)),
)

xor_join :
    (x y r s : ℕ) → r < 2 → s < 2 → bit_xor (x * 2 + r) (y * 2 + s) ≡ bit_xor x y * 2 + (r + s) % 2
xor_join x y r s hr hs =
    let step = bit_xor_step (x * 2 + r) (y * 2 + s) in
    let left : (x * 2 + r) / 2 ≡ x = omega arith in
    let right : (y * 2 + s) / 2 ≡ y = omega arith in step ∙ rw (left, right) (omega arith)

-- `^` acts on the lowest `k` bits by themselves.
pub xor-mod : (k a b : ℕ) → bit_xor a b % 2 ^ k ≡ bit_xor (a % 2 ^ k) (b % 2 ^ k)
xor-mod zero a b = omega (arith, bit_xor-lt 0 (a % 2 ^ 0) (b % 2 ^ 0) (omega arith) (omega arith))
xor-mod (suc k) a b =
    let pos = one-le-pow k 2 (omega arith) in
    let step = bit_xor_step a b in
    let half : bit_xor a b / 2 ≡ bit_xor (a / 2) (b / 2) = omega arith in
    rw
      (
        pow-suc 2 k,
        mod-double (2 ^ k) (bit_xor a b) pos,
        half,
        xor-mod k (a / 2) (b / 2),
        mod-double (2 ^ k) a pos,
        mod-double (2 ^ k) b pos,
        xor_join (a / 2 % 2 ^ k) (b / 2 % 2 ^ k) (a % 2) (b % 2) (omega arith) (omega arith),
      )
      (omega arith)

-- Only zero leaves a number as it is.
pub xor-eq_left : (a d : ℕ) → (bit_xor a d ≡ a) ↔ (d ≡ 0)
xor-eq_left a d = (
  λ e.
      sym (xor-zero d)
      ∙ xor_comm d 0
      ∙ ap (λ (t : ℕ). bit_xor t d) (sym (xor_self a))
      ∙ xor_assoc a a d
      ∙ ap (bit_xor a) e
      ∙ xor_self a,
  λ e. ap (bit_xor a) e ∙ xor-zero a,
)
