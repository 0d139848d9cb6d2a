-- ===== src/Network/Wire.antt =====
-- The bytes on the wire: byte `i` of a frame is bits `8 * i` to `8 * i + 7` of the bus.
use packet_filter.Base.{
  ℕ, zero, suc, ◌+◌, ◌-◌, ◌*◌, ◌/◌, ◌%◌, ◌^◌, ◌<◌, List, [], ◌∷◌, ◌≡◌, ap, ◌∙◌, take, drop, arith,
}
use packet_filter.Base.Powers.{two-pow_pos, two-pow-add, radix_digit}
use packet_filter.Base.Range.{range}

-- The number whose bytes are given, the lowest first.
unfoldable pub wire : List ℕ → ℕ
wire [] = 0
wire (b ∷ bs) = b + 256 * wire bs

abbrev pub IsBytes : List ℕ → Type 0
IsBytes [] = Unit {0}
IsBytes (b ∷ bs) = (b < 256) × IsBytes bs

pow_byte : (n : ℕ) → 2 ^ (8 * suc n) ≡ 256 * 2 ^ (8 * n)
pow_byte n = ap (λ (t : ℕ). 2 ^ t) exponent ∙ two-pow-add 8 (8 * n)
  where
    exponent : 8 * suc n ≡ 8 + 8 * n
    exponent = omega arith

wire-lt : (n : ℕ) (bs : List ℕ) → IsBytes bs → wire (take n bs) < 2 ^ (8 * n)
unfolding wire
wire-lt zero bs h = omega arith
wire-lt (suc n) [] h = two-pow_pos (8 * suc n)
wire-lt (suc n) (b ∷ bs) h = omega (arith, pow_byte n, wire-lt n bs h.1)

wire_split : (n : ℕ) (bs : List ℕ) → wire bs ≡ wire (take n bs) + 2 ^ (8 * n) * wire (drop n bs)
unfolding wire
wire_split zero bs = omega arith
wire_split (suc n) [] = omega arith
wire_split (suc n) (b ∷ bs) = rw (pow_byte n) (omega (arith, wire_split n bs))

IsBytes-drop : (n : ℕ) (bs : List ℕ) → IsBytes bs → IsBytes (drop n bs)
IsBytes-drop zero bs h = h
IsBytes-drop (suc n) [] h = tt
IsBytes-drop (suc n) (b ∷ bs) h = IsBytes-drop n bs h.1

part_width : (k n : ℕ) → 8 * k + 8 * suc n - 1 + 1 - 8 * k ≡ 8 * suc n
part_width k n = omega arith

-- A part of the bus that starts and ends at byte bounds is the number of those bytes.
pub range-wire :
    (bs : List ℕ) (k n : ℕ)
    → IsBytes bs
    → range (wire bs) (8 * k + 8 * suc n - 1) (8 * k) ≡ wire (take (suc n) (drop k bs))
unfolding range
range-wire bs k n h =
    let tail = drop k bs in
    let low = 2 ^ (8 * k) in
    let high = 2 ^ (8 * suc n) in
    let digit = wire (take (suc n) tail) in
    let above = wire (drop (suc n) tail) in
    ap (λ (t : ℕ). wire bs / low % 2 ^ t) (part_width k n)
    ∙ ap (λ (t : ℕ). t / low % high)
        (wire_split k bs ∙ ap (λ (t : ℕ). wire (take k bs) + low * t) (wire_split (suc n) tail))
    ∙ radix_digit low high (two-pow_pos (8 * k)) (two-pow_pos (8 * suc n)) (wire (take k bs)) digit
        above (wire-lt k bs h) (wire-lt (suc n) tail (IsBytes-drop k bs h))
