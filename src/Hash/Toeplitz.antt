-- ===== src/Hash/Toeplitz.antt =====
-- `compute_hash` is the Toeplitz hash (hardware/src/hls/hash.cc).
use packet_filter.Base.{
  ℕ, zero, suc, ◌+◌, ◌-◌, ◌*◌, ◌/◌, ◌%◌, ◌^◌, ◌<◌, ◌≡◌, refl, ap, ◌∙◌, sym, subst, suc-==_zero,
  arith,
}
use native.Mathlib.Nat.{div-div-eq-div-mul}
use packet_filter.Base.Powers.{two-pow-add}
use packet_filter.Base.Range.{range, range-lt, range-mod}
use packet_filter.Base.Xor.{bit, bit-bit_xor, bit-lt, zero-bit, bit_xor-lt}
use packet_filter.Hash.{ToeplitzHash, get_window, hash_rounds, compute_hash}

-- The sum of the key bits under the one bits of the input, at distance `j`.
unfoldable pub matrix_row : ℕ → ℕ → ℕ → ℕ → ℕ
matrix_row key input j zero = 0
matrix_row key input j (suc i) = matrix_row key input j i + bit input i * bit key (i + j)

matrix_row-suc :
    (key input j i : ℕ)
    → matrix_row key input j (suc i) ≡ matrix_row key input j i + bit input i * bit key (i + j)
unfolding matrix_row
matrix_row-suc key input j i = refl

width_bit : (j : ℕ) → j + 1 - j ≡ 1
width_bit j = omega arith

width_window : (o : ℕ) → o + 31 + 1 - o ≡ 32
width_window o = omega arith

bit-range : (x j : ℕ) → bit x j ≡ range x j j
unfolding bit range
bit-range x j = ap (λ (t : ℕ). x / 2 ^ j % 2 ^ t) (sym (width_bit j))

bit-mod : (x w j : ℕ) → j < w → bit (x % 2 ^ w) j ≡ bit x j
bit-mod x w j h = bit-range (x % 2 ^ w) j ∙ range-mod x j j w (omega arith) h ∙ sym (bit-range x j)

bit-div : (x o j : ℕ) → bit (x / 2 ^ o) j ≡ bit x (o + j)
unfolding bit
bit-div x o j =
    ap (λ (t : ℕ). t % 2)
      (div-div-eq-div-mul x (2 ^ o) (2 ^ j) ∙ ap (λ (t : ℕ). x / t) (sym (two-pow-add o j)))

-- A window of 32 key bits, seen at one of them.
bit-window : (key o j : ℕ) → j < 32 → bit (range key (o + 31) o) j ≡ bit key (o + j)
unfolding range
bit-window key o j h =
    ap (λ (t : ℕ). bit (key / 2 ^ o % 2 ^ t) j) (width_window o)
    ∙ bit-mod (key / 2 ^ o) 32 j h
    ∙ bit-div key o j

bit-get_window :
    (h : ToeplitzHash) (b o j : ℕ)
    → b < 2
    → j < 32
    → bit (get_window h b o) j ≡ b * bit h.toeplitz_key (o + j)
unfolding get_window
bit-get_window h zero o j hb hj = zero-bit j ∙ omega arith
bit-get_window h (suc zero) o j hb hj = bit-window h.toeplitz_key o j hj ∙ omega arith
bit-get_window h (suc (suc b)) o j hb hj = absurd (omega arith)

get_window-lt : (h : ToeplitzHash) (b o : ℕ) → get_window h b o < 2 ^ 32
unfolding get_window
get_window-lt h zero o = omega arith
get_window-lt h (suc b) o =
    let key = h.toeplitz_key in
    rw (suc-==_zero b)
      (subst (λ w. range key (o + 31) o < 2 ^ w) (width_window o) (range-lt key (o + 31) o))

hash_rounds-lt :
    (h : ToeplitzHash) (word base hash n : ℕ)
    → hash < 2 ^ 32
    → hash_rounds h word base hash n < 2 ^ 32
unfolding hash_rounds
hash_rounds-lt h word base hash zero fits = fits
hash_rounds-lt h word base hash (suc n) fits =
    bit_xor-lt 32 (hash_rounds h word base hash n) _ (hash_rounds-lt h word base hash n fits)
      (get_window-lt h (bit word n) (n + base))

-- The bits of the input `word`, placed at `base`, add their rows of the key.
bit-hash_rounds :
    (h : ToeplitzHash) (word base hash input j n : ℕ)
    → j < 32
    → ((i : ℕ) → i < n → bit word i ≡ bit input (i + base))
    → bit hash j ≡ matrix_row h.toeplitz_key input j base % 2
    → bit (hash_rounds h word base hash n) j ≡ matrix_row h.toeplitz_key input j (n + base) % 2
unfolding hash_rounds
bit-hash_rounds h word base hash input j zero hj same start =
    start ∙ ap (λ (t : ℕ). matrix_row h.toeplitz_key input j t % 2) (omega arith)
bit-hash_rounds h word base hash input j (suc n) hj same start =
    let before = hash_rounds h word base hash n in
    let key = h.toeplitz_key in
    bit-bit_xor j before (get_window h (bit word n) (n + base))
    ∙ omega (
      arith,
      bit-hash_rounds h word base hash input j n hj (λ i k. same i (omega arith)) start,
      bit-get_window h (bit word n) (n + base) j (bit-lt word n) hj,
      ap (λ (t : ℕ). t * bit key (n + base + j)) (same n (omega arith)),
      matrix_row_next key input j n base,
    )
  where
    matrix_row_next :
        (key input j n base : ℕ)
        → matrix_row key input j (suc n + base)
          ≡ matrix_row key input j (n + base) + bit input (n + base) * bit key (n + base + j)
    matrix_row_next key input j n base =
        ap (matrix_row key input j) (omega arith) ∙ matrix_row-suc key input j (n + base)

-- The input of the hash: the port's 16 bits above the address's 32.
abbrev pub key_input : ℕ → ℕ → ℕ
key_input ip port = ip + 2 ^ 32 * port

-- The hash of an address is below `2 ^ 32`, and its bit `j` is the parity of the key bits at
-- distance `j` from the one bits of the 48-bit input: the matrix product that defines the Toeplitz
-- hash.
pub compute_hash-Toeplitz :
    (h : ToeplitzHash) (ip port : ℕ)
    → ip < 2 ^ 32
    → (compute_hash h ip port < 2 ^ 32)
      × ((j : ℕ)
          → j < 32
          → bit (compute_hash h ip port) j ≡ matrix_row h.toeplitz_key (key_input ip port) j 48 % 2)
unfolding compute_hash matrix_row
compute_hash-Toeplitz h ip port fits = (
  hash_rounds-lt h port 32 _ 16 (hash_rounds-lt h ip 0 0 32 (omega arith)),
  λ j hj.
      bit-hash_rounds h port 32 _ (key_input ip port) j 16 hj (high ip port fits)
        (bit-hash_rounds h ip 0 0 (key_input ip port) j 32 hj (low ip port fits) (zero_row j)),
)
  where
    low :
        (ip port : ℕ) → ip < 2 ^ 32 → (i : ℕ) → i < 32 → bit ip i ≡ bit (key_input ip port) (i + 0)
    low ip port fits i hi =
        ap (λ (t : ℕ). bit t i) (omega arith)
        ∙ bit-mod (key_input ip port) 32 i hi
        ∙ ap (bit (key_input ip port)) (omega arith)

    high :
        (ip port : ℕ)
        → ip < 2 ^ 32
        → (i : ℕ) → i < 16
        → bit port i ≡ bit (key_input ip port) (i + 32)
    high ip port fits i hi =
        ap (λ (t : ℕ). bit t i) (omega arith)
        ∙ bit-div (key_input ip port) 32 i
        ∙ ap (bit (key_input ip port)) (omega arith)

    zero_row : (j : ℕ) → bit 0 j ≡ matrix_row h.toeplitz_key (key_input ip port) j 0 % 2
    zero_row j = zero-bit j
