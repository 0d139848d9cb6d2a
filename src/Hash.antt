-- ===== src/Hash.antt =====
-- hardware/src/hls/hash.h and hash.cc, `ToeplitzHash`: a table of 32 entries, addressed by a hash.
pub mod Slots
pub mod Toeplitz
pub mod Collisions
use packet_filter.Base.{
  true, false, ℕ, zero, suc, ◌+◌, ◌-◌, ◌*◌, ◌/◌, ◌%◌, ◌^◌, ◌≤◌, ◌<◌, bit_and, bit_xor, ◌≡◌, refl,
  List, [], ◌∷◌, get_or, set, replicate, ◌==◌, if◌then◌else◌,
}
use packet_filter.Base.Range.{range, set_range}
use packet_filter.Base.Xor.{bit}

abbrev pub hash_table_size : ℕ
hash_table_size = 32

-- `__builtin_clz` of a 32-bit value: the zeros above the highest one, `none` left of `bits`.
abbrev pub clz_below : ℕ → ℕ → ℕ
clz_below zero x = 0
clz_below (suc bits) x = elim (bit x bits == 0) [ true ↦ suc (clz_below bits x) | false ↦ 0 ]

abbrev pub builtin_clz : ℕ → ℕ
builtin_clz x = clz_below 32 x

-- `sizeof(int) * 8 - 1 - clz`.
abbrev pub hash_bits : ℕ
hash_bits = 4 * 8 - 1 - builtin_clz hash_table_size

abbrev pub hash_mask : ℕ
hash_mask = (2 ^ hash_bits - 1) % 2 ^ 32

-- `table` has `hash_table_size` entries. The object is static: it starts as zeros.
pub record ToeplitzHash : Type 0 where
  pub toeplitz_key : ℕ
  pub table : List ℕ

-- The assignments of the constructor to the 320-bit key.
unfoldable pub initial_key : ℕ
initial_key =
    let key0 = set_range 0 31 0 0xd6e31417 in
    let key1 = set_range key0 63 32 0x376cc87e in
    let key2 = set_range key1 95 64 0x011ba7a6 in
    let key3 = set_range key2 127 96 0xdc1b91bb in
    let key4 = set_range key3 159 128 0x7872e224 in
    let key5 = set_range key4 191 160 0xbfd0404b in
    let key6 = set_range key5 223 192 0x260374b8 in
    let key7 = set_range key6 255 224 0xd9270f6f in
    let key8 = set_range key7 287 256 0x18dc4386 in set_range key8 319 288 0x7c9c37de

unfoldable pub new : ToeplitzHash
new = record { toeplitz_key = initial_key; table = replicate hash_table_size 0 }

unfoldable pub get_window : ToeplitzHash → ℕ → ℕ → ℕ
get_window h selected offset =
    if selected == 0 then 0 else range h.toeplitz_key (offset + 31) offset

-- `for (i = 0; i < rounds; i++) hash ^= get_window(word[i], i + base)`, from `hash`.
unfoldable pub hash_rounds : ToeplitzHash → ℕ → ℕ → ℕ → ℕ → ℕ
hash_rounds h word base hash zero = hash
hash_rounds h word base hash (suc i) =
    bit_xor (hash_rounds h word base hash i) (get_window h (bit word i) (i + base))

unfoldable pub compute_hash : ToeplitzHash → ℕ → ℕ → ℕ
compute_hash h ip port = let hash = hash_rounds h ip 0 0 32 in hash_rounds h port 32 hash 16

unfoldable pub index_of : ToeplitzHash → ℕ → ℕ → ℕ
index_of h ip port = bit_and (compute_hash h ip port) hash_mask

unfoldable pub lookup : ToeplitzHash → ℕ → ℕ → ℕ
lookup h ip port = get_or h.table (index_of h ip port) 0

unfoldable pub insert : ToeplitzHash → ℕ → ℕ → ℕ → ToeplitzHash
insert h ip port value = record h { table = set h.table (index_of h ip port) value }
