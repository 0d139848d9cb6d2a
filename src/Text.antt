-- ===== src/Text.antt =====
-- The C++ library's functions on texts that software/src uses, over lists of character codes.
pub mod Decimal
use packet_filter.Base.{
  ℕ, zero, suc, ◌+◌, ◌-◌, ◌*◌, ◌/◌, ◌%◌, ◌^◌, ◌≤◌, ◌<◌, Bool, true, false, List, [], ◌∷◌, ◌++◌,
  ◌&&◌, ◌||◌, ◌==◌, ltb, leb, if◌then◌else◌, Option, none, some,
}

abbrev pub put_first : ℕ → Option (List ℕ × List ℕ) → Option (List ℕ × List ℕ)
put_first x none = none
put_first x (some (a, b)) = some (x ∷ a, b)

-- `s.find(c)` with the two substrings around the first `c`, or `none` for `npos`.
unfoldable pub split_at : ℕ → List ℕ → Option (List ℕ × List ℕ)
split_at c [] = none
split_at c (x ∷ xs) = if x == c then some ([], xs) else put_first x (split_at c xs)

abbrev pub is_digit : ℕ → Bool
is_digit c = leb b'0' c && leb c b'9'

-- `isspace`.
abbrev pub is_space : ℕ → Bool
is_space c = c == 32 || leb 9 c && leb c 13

unfoldable pub skip_spaces : List ℕ → List ℕ
skip_spaces [] = []
skip_spaces (c ∷ cs) = if is_space c then skip_spaces cs else c ∷ cs

-- The number that the digits at the head of a text denote, after the digits of `n`.
unfoldable pub digits_value : ℕ → List ℕ → ℕ
digits_value n [] = n
digits_value n (c ∷ cs) = elim (is_digit c) [
  | true ↦ digits_value (n * 10 + (c - 48)) cs
  | false ↦ n
]

-- `std::stoi`: a number as its sign and its size, or one of the two exceptions.
pub data Stoi : Type 0 where
  positive : ℕ → Stoi
  negative : ℕ → Stoi
  invalid_argument : Stoi
  out_of_range : Stoi

unfoldable pub int_in_range : Bool → ℕ → Stoi
int_in_range false n = if ltb n (2 ^ 31) then positive n else out_of_range
int_in_range true n = if leb n (2 ^ 31) then negative n else out_of_range

unfoldable pub stoi_digits : Bool → List ℕ → Stoi
stoi_digits minus [] = invalid_argument
stoi_digits minus (c ∷ cs) =
    if is_digit c then int_in_range minus (digits_value 0 (c ∷ cs)) else invalid_argument

unfoldable pub stoi_sign : List ℕ → Stoi
stoi_sign [] = invalid_argument
stoi_sign (c ∷ cs) =
    if c == b'-'
    then stoi_digits true cs
    else if c == b'+'
    then stoi_digits false cs
    else stoi_digits false (c ∷ cs)

unfoldable pub stoi : List ℕ → Stoi
stoi s = stoi_sign (skip_spaces s)

-- What a test of `stoi` opens.
unfoldable pub texts : Unit {0}
unfolding stoi stoi_sign skip_spaces stoi_digits int_in_range digits_value split_at
texts = tt
