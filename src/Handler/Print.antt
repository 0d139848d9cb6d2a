-- ===== src/Handler/Print.antt =====
-- software/src/main.cc: the functions inside `network_packet_handler` that print binary data.
use packet_filter.Base.{
  ℕ, zero, suc, ◌+◌, ◌/◌, ◌%◌, ◌^◌, bit_and, ltb, if◌then◌else◌, List, [], ◌∷◌, ◌++◌,
}
use packet_filter.Text.Decimal.{decimal}

-- Bytes from a pointer on.
abbrev pub Memory : Type 0
Memory = ℕ → ℕ

abbrev pub hex_digit : ℕ → ℕ
hex_digit d = if ltb d 10 then 48 + d else 87 + d

-- `%02x` and `%02hhx` of a byte.
abbrev pub hex_byte : ℕ → List ℕ
hex_byte b = hex_digit (b / 16) ∷ hex_digit (b % 16) ∷ []

unfoldable pub convert_mac_to_str : Memory → List ℕ
convert_mac_to_str mac =
    hex_byte (mac 0)
    ++ (b':' ∷ hex_byte (mac 1))
    ++ (b':' ∷ hex_byte (mac 2))
    ++ (b':' ∷ hex_byte (mac 3))
    ++ (b':' ∷ hex_byte (mac 4))
    ++ (b':' ∷ hex_byte (mac 5))

-- `%d` of a number below 256 takes at most three digits.
unfoldable pub convert_ip_to_str : ℕ → List ℕ
convert_ip_to_str ipv4 =
    decimal 2 (bit_and ipv4 0xff)
    ++ (b'.'
        ∷ (decimal 2 (bit_and (ipv4 / 2 ^ 8) 0xff)
            ++ (b'.'
                ∷ (decimal 2 (bit_and (ipv4 / 2 ^ 16) 0xff)
                    ++ (b'.' ∷ decimal 2 (bit_and (ipv4 / 2 ^ 24) 0xff))))))

-- The rounds of the loop of `convert_bin_to_str` from round `i` on, `n` of them left.
unfoldable pub bytes_to_str : Memory → ℕ → ℕ → List ℕ
bytes_to_str bytes i zero = []
bytes_to_str bytes i (suc n) = hex_byte (bytes i) ++ bytes_to_str bytes (i + 1) n

unfoldable pub convert_bin_to_str : Memory → ℕ → List ℕ
convert_bin_to_str bytes len = bytes_to_str bytes 0 len
