-- ===== src/Base/Powers.antt =====
-- Powers of two, and remainders and quotients by two of them at once.
use Prim.Native.Nat.{ℕ, zero, suc, ◌+◌, ◌-◌, ◌*◌, ◌/◌, ◌%◌, ◌^◌, ◌≤◌, ◌<◌}
use mathlib.Core.Path.{◌≡◌, ap, ◌∙◌}
use native.Mathlib.Nat.{
  pow-suc, one-le-pow, add-zero, mul_assoc, add-mul-div_left, add-mul-mod_self_left, div-eq_of_lt,
  mod-eq_of_lt,
}
use native.Mathlib.Omega.{arith}

pub two-pow_pos : (k : ℕ) → 0 < 2 ^ k
two-pow_pos k = one-le-pow k 2 (omega arith)

pub two-pow-add : (a b : ℕ) → 2 ^ (a + b) ≡ 2 ^ a * 2 ^ b
two-pow-add a zero = omega (arith, ap (λ (t : ℕ). 2 ^ t) (add-zero a))
two-pow-add a (suc b) =
    rw (pow-suc 2 b, ← mul_assoc, ← two-pow-add a b, ← pow-suc 2 (a + b))
      (ap (λ (t : ℕ). 2 ^ t) (omega arith))

-- A power splits at any smaller exponent.
pub two-pow_split : (lo hi : ℕ) → lo ≤ hi → 2 ^ hi ≡ 2 ^ lo * 2 ^ (hi - lo)
two-pow_split lo hi h = ap (λ (t : ℕ). 2 ^ t) (omega arith) ∙ two-pow-add lo (hi - lo)

module _ (p w : ℕ) (p_pos : 0 < p) (w_pos : 0 < w) where
  -- The digit above `p` of a number in the mixed radix `p`, `w`.
  pub radix_top : (a b c : ℕ) → a < p → (a + p * (b + w * c)) / p ≡ b + w * c
  radix_top a b c h = rw (add-mul-div_left a (b + w * c) p_pos, div-eq_of_lt h) (omega arith)

  pub radix_digit : (a b c : ℕ) → a < p → b < w → (a + p * (b + w * c)) / p % w ≡ b
  radix_digit a b c h k = rw (radix_top a b c h, add-mul-mod_self_left b w c) (mod-eq_of_lt k)

  pub radix_low : (a b : ℕ) → a < p → (a + p * b) % p ≡ a
  radix_low a b h = rw (add-mul-mod_self_left a p b) (mod-eq_of_lt h)

  -- What stands above `p * w` does not change the digit.
  pub radix_below : (a c : ℕ) → (a + p * (w * c)) / p % w ≡ a / p % w
  radix_below a c = rw (add-mul-div_left a (w * c) p_pos) (add-mul-mod_self_left (a / p) w c)
