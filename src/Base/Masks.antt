-- ===== src/Base/Masks.antt =====
-- `&` with a mask and `|` of separate halves, as arithmetic.
use Prim.Native.Nat.{
  ℕ, zero, suc, ◌+◌, ◌-◌, ◌*◌, ◌/◌, ◌%◌, ◌^◌, ◌≤◌, ◌<◌, bit_and, bit_or, bit_and-bitwise,
  bit_or-bitwise, digits, bitwise, min, max,
}
use mathlib.Core.Path.{◌≡◌, refl, ap, ◌∙◌}
use native.Mathlib.Nat.{
  pow-suc, one-le-pow, mod-lt, mod-eq_of_lt, mul-add-mod_self_left, div-add-mod,
}
use native.Mathlib.Omega.{arith}

-- Rounds past the size of the first operand change nothing.
spare_rounds :
    (op : ℕ → ℕ → ℕ) (rest : ℕ → ℕ) (used given x y : ℕ)
    → x ≤ used
    → used ≤ given
    → digits rest op given x y ≡ digits rest op used x y
spare_rounds op rest zero zero x y small more = refl
spare_rounds op rest zero (suc given) zero y small more = refl
spare_rounds op rest zero (suc given) (suc x) y small more = absurd (omega arith)
spare_rounds op rest (suc used) zero x y small more = absurd (omega arith)
spare_rounds op rest (suc used) (suc given) zero y small more = refl
spare_rounds op rest (suc used) (suc given) (suc x) y small more =
    ap (λ (t : ℕ). t * 2 + op (suc x % 2) (y % 2))
      (spare_rounds op rest used given (suc x / 2) (y / 2) (omega arith) (omega arith))

-- The operation on the lowest digits, below the operation on the others.
pub lowest_digit :
    (op : ℕ → ℕ → ℕ) (rest : ℕ → ℕ) (x y : ℕ)
    → 0 < x
    → bitwise rest op x y ≡ bitwise rest op (x / 2) (y / 2) * 2 + op (x % 2) (y % 2)
lowest_digit op rest zero y pos = absurd (omega arith)
lowest_digit op rest (suc x) y pos =
    ap (λ (t : ℕ). t * 2 + op (suc x % 2) (y % 2))
      (spare_rounds op rest (suc x / 2) x (suc x / 2) (y / 2) (omega arith) (omega arith))

and_digits : (a b : ℕ) → bit_and a b ≡ bit_and (a / 2) (b / 2) * 2 + min (a % 2) (b % 2)
and_digits zero b = simp bit_and-bitwise (omega arith)
and_digits (suc a) b = simp bit_and-bitwise (lowest_digit min (λ y. 0) (suc a) b (omega arith))

and-zero_fuel : (n a : ℕ) → a ≤ n → bit_and a 0 ≡ 0
and-zero_fuel n zero h = refl
and-zero_fuel zero (suc a) h = absurd (omega arith)
and-zero_fuel (suc n) (suc a) h =
    omega (arith, and_digits (suc a) 0, and-zero_fuel n (suc a / 2) (omega arith))

pub mod-double : (p a : ℕ) → 0 < p → a % (p * 2) ≡ a / 2 % p * 2 + a % 2
mod-double p a h =
    ap (λ (t : ℕ). t % (p * 2)) split
    ∙ mul-add-mod_self_left (p * 2) (a / 2 / p) (a / 2 % p * 2 + a % 2)
    ∙ mod-eq_of_lt (omega (arith, mod-lt (a / 2) h))
  where
    split : a ≡ p * 2 * (a / 2 / p) + (a / 2 % p * 2 + a % 2)
    split = omega (arith, div-add-mod (a / 2) p)

mask_digits : (p : ℕ) → 0 < p → ((p * 2 - 1) / 2 ≡ p - 1) × ((p * 2 - 1) % 2 ≡ 1)
mask_digits p h = omega arith

-- `&` with a mask of `k` ones is the remainder by `2 ^ k`.
pub bit_and_mask : (k a : ℕ) → bit_and a (2 ^ k - 1) ≡ a % 2 ^ k
bit_and_mask zero a = and-zero_fuel a a (omega arith) ∙ omega arith
bit_and_mask (suc k) a =
    let pos = one-le-pow k 2 (omega arith) in
    let mask = mask_digits (2 ^ k) pos in
    rw (pow-suc 2 k, mod-double (2 ^ k) a pos, and_digits a (2 ^ k * 2 - 1), mask.0, mask.1)
      (omega (arith, bit_and_mask k (a / 2)))

or_digits : (a b : ℕ) → bit_or a b ≡ bit_or (a / 2) (b / 2) * 2 + max (a % 2) (b % 2)
or_digits zero b = simp bit_or-bitwise (omega arith)
or_digits (suc a) b = simp bit_or-bitwise (lowest_digit max (λ y. y) (suc a) b (omega arith))

or-zero_fuel : (n a : ℕ) → a ≤ n → bit_or a 0 ≡ a
or-zero_fuel n zero h = refl
or-zero_fuel zero (suc a) h = absurd (omega arith)
or-zero_fuel (suc n) (suc a) h =
    omega (arith, or_digits (suc a) 0, or-zero_fuel n (suc a / 2) (omega arith))

or_join : (p h l : ℕ) → l < p * 2 → bit_or (h * (p * 2)) l ≡ bit_or (h * p) (l / 2) * 2 + l % 2
or_join p h l fits =
    let half : h * (p * 2) / 2 ≡ h * p = omega arith in
    let even : h * (p * 2) % 2 ≡ 0 = omega arith in
    or_digits (h * (p * 2)) l ∙ rw (half, even) (omega arith)

-- `|` puts a number of `k` bits below one that was shifted by `k`.
pub bit_or_halves : (k h l : ℕ) → l < 2 ^ k → bit_or (h * 2 ^ k) l ≡ h * 2 ^ k + l
bit_or_halves zero h zero fits = or-zero_fuel (h * 2 ^ 0) (h * 2 ^ 0) (omega arith) ∙ omega arith
bit_or_halves zero h (suc l) fits = absurd (omega arith)
bit_or_halves (suc k) h l fits =
    rw (pow-suc 2 k, or_join (2 ^ k) h l (omega (arith, pow-suc 2 k)))
      (omega (arith, bit_or_halves k h (l / 2) (omega (arith, pow-suc 2 k))))
