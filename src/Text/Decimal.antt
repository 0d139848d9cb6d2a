-- ===== src/Text/Decimal.antt =====
-- `stoi` reads back what is printed in decimal.
use packet_filter.Base.{
  ℕ, zero, suc, ◌+◌, ◌-◌, ◌*◌, ◌/◌, ◌%◌, ◌^◌, ◌≤◌, ◌<◌, Bool, true, false, List, [], ◌∷◌, ◌++◌, ltb,
  if◌then◌else◌, ◌≡◌, refl, ap, ◌∙◌, sym, arith,
}
use native.Mathlib.Nat.{pow-suc}
use native.Mathlib.Decide.{dec_lt}
use packet_filter.Text.{
  is_digit, digits_value, positive, invalid_argument, int_in_range, stoi_digits, stoi_sign, stoi,
  skip_spaces,
}

-- The decimal digits of `n`, at most one more than `fuel`.
unfoldable pub decimal : ℕ → ℕ → List ℕ
decimal zero n = (48 + n % 10) ∷ []
decimal (suc fuel) n = elim (ltb n 10) [
  | true ↦ (48 + n) ∷ []
  | false ↦ decimal fuel (n / 10) ++ ((48 + n % 10) ∷ [])
]

abbrev pub IsDigits : List ℕ → Type 0
IsDigits [] = Unit {0}
IsDigits (c ∷ cs) = (is_digit c ≡ true) × IsDigits cs

IsDigits-snoc : (cs : List ℕ) (c : ℕ) → IsDigits cs → is_digit c ≡ true → IsDigits (cs ++ (c ∷ []))
IsDigits-snoc [] c h d = (d, tt)
IsDigits-snoc (x ∷ cs) c h d = (h.0, IsDigits-snoc cs c h.1 d)

digit_char : (d : ℕ) → d < 10 → is_digit (48 + d) ≡ true
digit_char d h = ground arith

decimal_small : (fuel n : ℕ) → n < 10 → decimal (suc fuel) n ≡ (48 + n) ∷ []
unfolding decimal
decimal_small fuel n h = ground arith

decimal_large :
    (fuel n : ℕ) → 10 ≤ n → decimal (suc fuel) n ≡ decimal fuel (n / 10) ++ ((48 + n % 10) ∷ [])
unfolding decimal
decimal_large fuel n h = ground arith

decimal-IsDigits : (fuel n : ℕ) → IsDigits (decimal fuel n)
decimal-IsDigits zero n = unfold decimal in (digit_char (n % 10) (omega arith), tt)
decimal-IsDigits (suc fuel) n = elim (dec_lt n 10) [
  | yes h ↦ rw (decimal_small fuel n h) (digit_char n h, tt)
  | no h ↦ rw (decimal_large fuel n (omega arith)) (
      IsDigits-snoc (decimal fuel (n / 10)) (48 + n % 10) (decimal-IsDigits fuel (n / 10))
        (digit_char (n % 10) (omega arith)))
]

digits_value-cons :
    (n c : ℕ) (cs : List ℕ)
    → is_digit c ≡ true
    → digits_value n (c ∷ cs) ≡ digits_value (n * 10 + (c - 48)) cs
unfolding digits_value
digits_value-cons n c cs d = rw (d, digits_value)

digits_value-snoc :
    (cs : List ℕ) (c n : ℕ)
    → IsDigits cs
    → is_digit c ≡ true
    → digits_value n (cs ++ (c ∷ [])) ≡ digits_value n cs * 10 + (c - 48)
digits_value-snoc [] c n h d = digits_value-cons n c [] d ∙ unfold digits_value in refl
digits_value-snoc (x ∷ cs) c n h d =
    digits_value-cons n x (cs ++ (c ∷ [])) h.0
    ∙ digits_value-snoc cs c (n * 10 + (x - 48)) h.1 d
    ∙ ap (λ (t : ℕ). t * 10 + (c - 48)) (sym (digits_value-cons n x cs h.0))

one_digit : (d : ℕ) → d < 10 → digits_value 0 ((48 + d) ∷ []) ≡ d
one_digit d h = digits_value-cons 0 (48 + d) [] (digit_char d h) ∙ last_digit
  where
    last_digit : digits_value (0 * 10 + (48 + d - 48)) [] ≡ d
    last_digit = unfold digits_value in omega arith

-- The digits of a number below `10 ^ (fuel + 1)` denote it.
digits_value-decimal : (fuel n : ℕ) → n < 10 ^ suc fuel → digits_value 0 (decimal fuel n) ≡ n
digits_value-decimal zero n h =
    ap (digits_value 0) shown ∙ one_digit (n % 10) (omega arith) ∙ omega arith
  where
    shown : decimal 0 n ≡ (48 + n % 10) ∷ []
    shown = unfold decimal in refl
digits_value-decimal (suc fuel) n h = elim (dec_lt n 10) [
  | yes small ↦ rw (decimal_small fuel n small) (one_digit n small)
  | no large ↦
      rw
        (
          decimal_large fuel n (omega arith),
          digits_value-snoc (decimal fuel (n / 10)) (48 + n % 10) 0 (decimal-IsDigits fuel (n / 10))
              (digit_char (n % 10) (omega arith)),
          digits_value-decimal fuel (n / 10) (omega (arith, pow-suc 10 (suc fuel))),
        )
        (omega arith)
]

decimal_nonempty : (fuel n : ℕ) → (c : ℕ) × (cs : List ℕ) × (decimal fuel n ≡ c ∷ cs)
decimal_nonempty zero n = (48 + n % 10, [], unfold decimal in refl)
decimal_nonempty (suc fuel) n = elim (dec_lt n 10) [
  | yes h ↦ (48 + n, [], decimal_small fuel n h)
  | no h ↦
      let (c, cs, e) = decimal_nonempty fuel (n / 10) in
      (
        c,
        cs ++ ((48 + n % 10) ∷ []),
        decimal_large fuel n (omega arith) ∙ ap (λ (l : List ℕ). l ++ ((48 + n % 10) ∷ [])) e,
      )
]

skip_digit : (c : ℕ) (cs : List ℕ) → is_digit c ≡ true → skip_spaces (c ∷ cs) ≡ c ∷ cs
unfolding skip_spaces
skip_digit c cs d = ground arith

sign_digit :
    (c : ℕ) (cs : List ℕ) → is_digit c ≡ true → stoi_sign (c ∷ cs) ≡ stoi_digits false (c ∷ cs)
unfolding stoi_sign
sign_digit c cs d = ground arith

digits_first :
    (c : ℕ) (cs : List ℕ)
    → is_digit c ≡ true
    → stoi_digits false (c ∷ cs) ≡ int_in_range false (digits_value 0 (c ∷ cs))
unfolding stoi_digits
digits_first c cs d =
    ap (λ (b : Bool). if b then int_in_range false (digits_value 0 (c ∷ cs)) else invalid_argument)
      d

stoi_head :
    (c : ℕ) (cs : List ℕ)
    → is_digit c ≡ true
    → stoi (c ∷ cs) ≡ int_in_range false (digits_value 0 (c ∷ cs))
unfolding stoi
stoi_head c cs d = ap stoi_sign (skip_digit c cs d) ∙ sign_digit c cs d ∙ digits_first c cs d

stoi_digits-decimal :
    (l : List ℕ)
    → IsDigits l
    → ((c : ℕ) × (cs : List ℕ) × (l ≡ c ∷ cs))
    → stoi l ≡ int_in_range false (digits_value 0 l)
stoi_digits-decimal [] d (c, cs, e) = cc
stoi_digits-decimal (x ∷ l) d e = stoi_head x l d.0

positive_fits : (n : ℕ) → n < 2 ^ 31 → int_in_range false n ≡ positive n
unfolding int_in_range
positive_fits n h = ground arith

-- `stoi` of the decimal digits of a number that an `int` holds is that number.
pub stoi-decimal :
    (fuel n : ℕ) → n < 10 ^ suc fuel → n < 2 ^ 31 → stoi (decimal fuel n) ≡ positive n
stoi-decimal fuel n h fits =
    stoi_digits-decimal (decimal fuel n) (decimal-IsDigits fuel n) (decimal_nonempty fuel n)
    ∙ ap (int_in_range false) (digits_value-decimal fuel n h)
    ∙ positive_fits n fits
