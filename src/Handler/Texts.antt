-- ===== src/Handler/Texts.antt =====
-- What the printing functions of software/src/main.cc write: the digits of bytes.
use packet_filter.Base.{
  ℕ, zero, suc, ◌+◌, ◌-◌, ◌*◌, ◌/◌, ◌%◌, ◌^◌, ◌≤◌, ◌<◌, bit_and, List, [], ◌∷◌, ◌++◌, ◌≡◌, refl, ap,
  ap₂, ◌∙◌, length, length-append, ltb, if◌then◌else◌, arith,
}
use packet_filter.Base.Masks.{bit_and_mask}
use packet_filter.Text.Decimal.{decimal}
use packet_filter.Handler.Print.{
  Memory, hex_digit, hex_byte, convert_mac_to_str, convert_ip_to_str, bytes_to_str,
  convert_bin_to_str,
}

-- The bytes from a place on.
abbrev pub bytes_at : Memory → ℕ → ℕ → List ℕ
bytes_at p i zero = []
bytes_at p i (suc n) = p i ∷ bytes_at p (i + 1) n

abbrev pub AreBytes : Memory → Type 0
AreBytes p = (i : ℕ) → p i < 256

-- Two digits for each byte.
abbrev pub hex_text : List ℕ → List ℕ
hex_text [] = []
hex_text (b ∷ bs) = hex_byte b ++ hex_text bs

-- Texts with a separator between them.
abbrev pub separated : ℕ → List (List ℕ) → List ℕ
separated sep [] = []
separated sep (t ∷ []) = t
separated sep (t ∷ u ∷ ts) = t ++ (sep ∷ separated sep (u ∷ ts))

bytes_to_str-hex_text : (p : Memory) (i n : ℕ) → bytes_to_str p i n ≡ hex_text (bytes_at p i n)
unfolding bytes_to_str
bytes_to_str-hex_text p i zero = refl
bytes_to_str-hex_text p i (suc n) = ap (◌++◌ (hex_byte (p i))) (bytes_to_str-hex_text p (i + 1) n)

-- The bytes behind a pointer at offset `o`.
bytes_at-offset : (p : Memory) (o i n : ℕ) → bytes_at (λ j. p (o + j)) i n ≡ bytes_at p (o + i) n
bytes_at-offset p o i zero = refl
bytes_at-offset p o i (suc n) =
    ap (◌∷◌ (p (o + i)))
      (bytes_at-offset p o (i + 1) n ∙ ap (λ (k : ℕ). bytes_at p k n) (omega arith))

pub convert_bin_to_str-offset :
    (p : Memory) (o n : ℕ) → convert_bin_to_str (λ j. p (o + j)) n ≡ hex_text (bytes_at p o n)
unfolding convert_bin_to_str
convert_bin_to_str-offset p o n =
    bytes_to_str-hex_text (λ j. p (o + j)) 0 n
    ∙ ap hex_text (bytes_at-offset p o 0 n ∙ ap (λ (k : ℕ). bytes_at p k n) (omega arith))

octet : (x : ℕ) → bit_and x 0xff ≡ x % 256
octet x = bit_and_mask 8 x

-- An address that is given with its first byte highest is printed with its last byte first.
pub convert_ip_to_str-octets :
    (a b c d : ℕ)
    → a < 256
    → b < 256
    → c < 256
    → d < 256
    → convert_ip_to_str (a * 2 ^ 24 + b * 2 ^ 16 + c * 2 ^ 8 + d)
      ≡ separated b'.' (decimal 2 d ∷ decimal 2 c ∷ decimal 2 b ∷ decimal 2 a ∷ [])
unfolding convert_ip_to_str
convert_ip_to_str-octets a b c d ha hb hc hd =
    let ip = a * 2 ^ 24 + b * 2 ^ 16 + c * 2 ^ 8 + d in
    let d_octet : bit_and ip 0xff ≡ d = octet ip ∙ omega arith in
    let c_octet : bit_and (ip / 2 ^ 8) 0xff ≡ c = octet (ip / 2 ^ 8) ∙ omega arith in
    let b_octet : bit_and (ip / 2 ^ 16) 0xff ≡ b = octet (ip / 2 ^ 16) ∙ omega arith in
    let a_octet : bit_and (ip / 2 ^ 24) 0xff ≡ a = octet (ip / 2 ^ 24) ∙ omega arith in
    rw (d_octet, c_octet, b_octet, a_octet)

decimal-length : (n : ℕ) → length (decimal 2 n) ≤ 3
unfolding decimal
decimal-length n = ground arith

-- The buffers that the handler prints into hold the text and its terminating 0: 18 bytes for a MAC
-- address, 16 for any 32-bit address, 3 for each byte of the payload.
buffers_fit :
    (mac : Memory) (ip b : ℕ)
    → (length (convert_mac_to_str mac) + 1 ≤ 18)
      × (length (convert_ip_to_str ip) + 1 ≤ 16)
      × (length (hex_byte b) + 1 ≤ 3)
unfolding convert_mac_to_str convert_ip_to_str
buffers_fit mac ip b = (
  omega arith,
  omega (
    arith,
    length-append (decimal 2 (bit_and ip 0xff)),
    length-append (decimal 2 (bit_and (ip / 2 ^ 8) 0xff)),
    length-append (decimal 2 (bit_and (ip / 2 ^ 16) 0xff)),
    decimal-length,
  ),
  omega arith,
)

-- The value of a hexadecimal digit, and the bytes that pairs of them denote.
unfoldable pub digit_value : ℕ → ℕ
digit_value c = if ltb c 58 then c - 48 else c - 87

unfoldable pub unhex : List ℕ → List ℕ
unhex [] = []
unhex (c ∷ []) = []
unhex (c ∷ e ∷ cs) = (digit_value c * 16 + digit_value e) ∷ unhex cs

digit_value-hex_digit : (d : ℕ) → d < 16 → digit_value (hex_digit d) ≡ d
unfolding digit_value
digit_value-hex_digit d h = ground arith

abbrev pub AllBytes : List ℕ → Type 0
AllBytes [] = Unit {0}
AllBytes (b ∷ bs) = (b < 256) × AllBytes bs

unhex-hex_text : (bs : List ℕ) → AllBytes bs → unhex (hex_text bs) ≡ bs
unfolding unhex
unhex-hex_text [] h = refl
unhex-hex_text (b ∷ bs) h = ap₂ ◌∷◌ byte (unhex-hex_text bs h.1)
  where
    byte : digit_value (hex_digit (b / 16)) * 16 + digit_value (hex_digit (b % 16)) ≡ b
    byte = omega (
      arith,
      digit_value-hex_digit (b / 16) (omega arith),
      digit_value-hex_digit (b % 16) (omega arith),
    )

bytes_at-AllBytes : (p : Memory) (i n : ℕ) → AreBytes p → AllBytes (bytes_at p i n)
bytes_at-AllBytes p i zero h = tt
bytes_at-AllBytes p i (suc n) h = (h i, bytes_at-AllBytes p (i + 1) n h)

-- The hexadecimal text of a payload determines it: its bytes are read back, two digits each.
unhex-convert_bin_to_str :
    (p : Memory) (n : ℕ) → AreBytes p → unhex (convert_bin_to_str p n) ≡ bytes_at p 0 n
unfolding convert_bin_to_str
unhex-convert_bin_to_str p n h =
    ap unhex (bytes_to_str-hex_text p 0 n)
    ∙ unhex-hex_text (bytes_at p 0 n) (bytes_at-AllBytes p 0 n h)
