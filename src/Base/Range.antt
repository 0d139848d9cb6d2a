-- ===== src/Base/Range.antt =====
-- `ap_uint<N>` values as numbers: the part select `x.range(hi, lo)`, read and assigned.
pub mod Assigned
use Prim.Native.Nat.{ℕ, zero, suc, ◌+◌, ◌-◌, ◌*◌, ◌/◌, ◌%◌, ◌^◌, ◌≤◌, ◌<◌}
use mathlib.Core.Path.{◌≡◌, refl, sym, ap, ◌∙◌}
use mathlib.Core.Bool.{Bool, true, false, ◌&&◌, ◌||◌}
use mathlib.Core.List.{List, [], ◌∷◌}
use mathlib.Core.Option.{Option, none, some}
use native.Mathlib.Nat.{
  mul_assoc, mod-lt, mod-add-div, mod-mod, add-mul-div_left, div-eq_of_lt, div-div-eq-div-mul,
}
use native.Mathlib.Omega.{arith}
use packet_filter.Base.Tests.{ltb, leb, ◌==◌, if◌then◌else◌, Bool-cases}
use packet_filter.Base.Powers.{
  two-pow_pos, two-pow-add, two-pow_split, radix_top, radix_digit, radix_low, radix_below,
}

-- The number of bits from `lo` to `hi`, both included.
abbrev pub width : ℕ → ℕ → ℕ
width hi lo = hi + 1 - lo

-- `x.range(hi, lo)` on the right of an assignment.
unfoldable pub range : ℕ → ℕ → ℕ → ℕ
range x hi lo = x / 2 ^ lo % 2 ^ width hi lo

-- `x.range(hi, lo) = v`: the bits below `lo` and above `hi` stay, and `v` is cut to the width.
unfoldable pub set_range : ℕ → ℕ → ℕ → ℕ → ℕ
set_range x hi lo v =
    x % 2 ^ lo + 2 ^ lo * (v % 2 ^ width hi lo + 2 ^ width hi lo * (x / 2 ^ (hi + 1)))

pub range-lt : (x hi lo : ℕ) → range x hi lo < 2 ^ width hi lo
unfolding range
range-lt x hi lo = mod-lt _ (two-pow_pos (width hi lo))

-- What was assigned is read back, cut to the width.
pub range-set_range_self : (x hi lo v : ℕ) → range (set_range x hi lo v) hi lo ≡ v % 2 ^ width hi lo
unfolding range set_range
range-set_range_self x hi lo v =
    let p = two-pow_pos lo in
    let w = two-pow_pos (width hi lo) in
    radix_digit (2 ^ lo) (2 ^ width hi lo) p w (x % 2 ^ lo) (v % 2 ^ width hi lo) (x / 2 ^ (hi + 1))
      (mod-lt x p) (mod-lt v w)

-- Bits from `top` on do not show in a part below `top`.
range_below :
    (a b hi lo top : ℕ) → lo ≤ hi → hi < top → range (a + 2 ^ top * b) hi lo ≡ range a hi lo
unfolding range
range_below a b hi lo top wf h =
    rw
      (
        two-pow_split (hi + 1) top (omega arith),
        two-pow_split lo (hi + 1) (omega arith),
        mul_assoc (2 ^ lo * 2 ^ width hi lo) (2 ^ (top - (hi + 1))) b,
        mul_assoc (2 ^ lo) (2 ^ width hi lo) (2 ^ (top - (hi + 1)) * b),
      )
      (radix_below (2 ^ lo) (2 ^ width hi lo) (two-pow_pos lo) (two-pow_pos (width hi lo)) a
        (2 ^ (top - (hi + 1)) * b))

-- An assignment leaves the parts below it alone.
range-set_range_below :
    (x hi lo v hi' lo' : ℕ)
    → lo' ≤ hi'
    → hi' < lo
    → range (set_range x hi lo v) hi' lo' ≡ range x hi' lo'
unfolding set_range
range-set_range_below x hi lo v hi' lo' wf h =
    let kept = range_below (x % 2 ^ lo) (x / 2 ^ lo) hi' lo' lo wf h in
    let whole : x % 2 ^ lo + 2 ^ lo * (x / 2 ^ lo) ≡ x = mod-add-div x (2 ^ lo) in
    range_below (x % 2 ^ lo) _ hi' lo' lo wf h ∙ sym kept ∙ ap (λ (t : ℕ). range t hi' lo') whole

-- The quotient above an assignment is that of the old value.
set_range_top : (x hi lo v : ℕ) → lo ≤ hi → set_range x hi lo v / 2 ^ (hi + 1) ≡ x / 2 ^ (hi + 1)
unfolding set_range
set_range_top x hi lo v wf =
    let p = two-pow_pos lo in
    let w = two-pow_pos (width hi lo) in
    let q = x / 2 ^ (hi + 1) in
    ap (λ (t : ℕ). set_range x hi lo v / t) (two-pow_split lo (hi + 1) (omega arith))
    ∙ sym (div-div-eq-div-mul (set_range x hi lo v) (2 ^ lo) (2 ^ width hi lo))
    ∙ ap (λ (t : ℕ). t / 2 ^ width hi lo)
        (radix_top (2 ^ lo) (2 ^ width hi lo) p w (x % 2 ^ lo) (v % 2 ^ width hi lo) q (mod-lt x p))
    ∙ add-mul-div_left (v % 2 ^ width hi lo) q w
    ∙ omega (arith, div-eq_of_lt (mod-lt v w))

-- An assignment leaves the parts above it alone.
range-set_range_above :
    (x hi lo v hi' lo' : ℕ)
    → lo ≤ hi
    → hi < lo'
    → range (set_range x hi lo v) hi' lo' ≡ range x hi' lo'
unfolding range
range-set_range_above x hi lo v hi' lo' wf h =
    ap (λ (t : ℕ). t % 2 ^ width hi' lo')
      (quotient (set_range x hi lo v)
        ∙ ap (λ (t : ℕ). t / 2 ^ (lo' - (hi + 1))) (set_range_top x hi lo v wf)
        ∙ sym (quotient x))
  where
    quotient : (y : ℕ) → y / 2 ^ lo' ≡ y / 2 ^ (hi + 1) / 2 ^ (lo' - (hi + 1))
    quotient y =
        ap (λ (t : ℕ). y / t) (two-pow_split (hi + 1) lo' (omega arith))
        ∙ sym (div-div-eq-div-mul y (2 ^ (hi + 1)) (2 ^ (lo' - (hi + 1))))

-- Assigning to a part what it holds changes nothing.
pub set_range-range : (x hi lo : ℕ) → lo ≤ hi → set_range x hi lo (range x hi lo) ≡ x
unfolding range set_range
set_range-range x hi lo wf =
    let q = x / 2 ^ lo in
    let top : x / 2 ^ (hi + 1) ≡ q / 2 ^ width hi lo =
      ap (λ (t : ℕ). x / t) (two-pow_split lo (hi + 1) (omega arith))
      ∙ sym (div-div-eq-div-mul x (2 ^ lo) (2 ^ width hi lo)) in
    rw (mod-mod q (2 ^ width hi lo), top, mod-add-div q (2 ^ width hi lo)) (mod-add-div x (2 ^ lo))

-- A part below `top` is determined by the bits below `top`.
pub range-mod : (x hi lo top : ℕ) → lo ≤ hi → hi < top → range (x % 2 ^ top) hi lo ≡ range x hi lo
range-mod x hi lo top wf h =
    sym (range_below (x % 2 ^ top) (x / 2 ^ top) hi lo top wf h)
    ∙ ap (λ (t : ℕ). range t hi lo) (mod-add-div x (2 ^ top))

-- The bits from `top` on are not changed by an assignment below `top`.
pub set_range-div :
    (x hi lo v top : ℕ) → lo ≤ hi → hi < top → set_range x hi lo v / 2 ^ top ≡ x / 2 ^ top
set_range-div x hi lo v top wf h =
    quotient (set_range x hi lo v)
    ∙ ap (λ (t : ℕ). t / 2 ^ (top - (hi + 1))) (set_range_top x hi lo v wf)
    ∙ sym (quotient x)
  where
    quotient : (y : ℕ) → y / 2 ^ top ≡ y / 2 ^ (hi + 1) / 2 ^ (top - (hi + 1))
    quotient y =
        ap (λ (t : ℕ). y / t) (two-pow_split (hi + 1) top (omega arith))
        ∙ sym (div-div-eq-div-mul y (2 ^ (hi + 1)) (2 ^ (top - (hi + 1))))
