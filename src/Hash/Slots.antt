-- ===== src/Hash/Slots.antt =====
-- The hash table as 32 slots (hardware/src/hls/hash.cc, `lookup` and `insert`).
use packet_filter.Base.{
  ℕ, zero, suc, ◌%◌, ◌<◌, ◌≡◌, refl, ap, ◌∙◌, length, set, length-set, set_twice, get_or,
  get_or-set_self, get_or-set_ne, ◌==◌, if◌then◌else◌, arith,
}
use packet_filter.Base.Masks.{bit_and_mask}
use packet_filter.Base.Xor.{bit}
use packet_filter.Hash.{
  ToeplitzHash, hash_table_size, index_of, compute_hash, hash_rounds, get_window, lookup, insert,
}

-- The array has the size that its declaration states.
abbrev pub HasSlots : ToeplitzHash → Type 0
HasSlots h = length h.table ≡ hash_table_size

pub index_of-mod :
    (h : ToeplitzHash) (ip port : ℕ) → index_of h ip port ≡ compute_hash h ip port % 32
unfolding index_of bit
index_of-mod h ip port = bit_and_mask 5 (compute_hash h ip port)

-- The masked hash of any address is an index of the table.
index_of-lt : (h : ToeplitzHash) (ip port : ℕ) → index_of h ip port < hash_table_size
index_of-lt h ip port = omega (arith, index_of-mod h ip port)

hash_rounds_congr :
    (h g : ToeplitzHash) (word base hash n : ℕ)
    → h.toeplitz_key ≡ g.toeplitz_key
    → hash_rounds h word base hash n ≡ hash_rounds g word base hash n
unfolding hash_rounds get_window
hash_rounds_congr h g word base hash zero e = refl
hash_rounds_congr h g word base hash (suc n) e = rw (hash_rounds_congr h g word base hash n e, e)

-- The slot of an address depends on the key alone.
pub index_of_congr :
    (h g : ToeplitzHash) (ip port : ℕ)
    → h.toeplitz_key ≡ g.toeplitz_key
    → index_of h ip port ≡ index_of g ip port
unfolding index_of compute_hash
index_of_congr h g ip port e = rw (
  hash_rounds_congr h g ip 0 0 32 e,
  hash_rounds_congr h g port 32 (hash_rounds g ip 0 0 32) 16 e,
)

pub insert-key :
    (h : ToeplitzHash) (ip port value : ℕ) → (insert h ip port value).toeplitz_key ≡ h.toeplitz_key
unfolding insert
insert-key h ip port value = refl

pub insert-HasSlots :
    (h : ToeplitzHash) (ip port value : ℕ) → HasSlots h → HasSlots (insert h ip port value)
unfolding insert
insert-HasSlots h ip port value n = length-set h.table (index_of h ip port) value ∙ n

lookup_lem :
    (h : ToeplitzHash) (ip port : ℕ) → lookup h ip port ≡ get_or h.table (index_of h ip port) 0
unfolding lookup
lookup_lem h ip port = refl

lookup_slot :
    (h : ToeplitzHash) (a p value ip port slot : ℕ)
    → index_of (insert h a p value) ip port ≡ slot
    → lookup (insert h a p value) ip port ≡ get_or (set h.table (index_of h a p) value) slot 0
unfolding lookup insert
lookup_slot h a p value ip port slot e = rw e

-- After an insertion, an address reads the inserted value exactly if it falls into the same slot,
-- and what it read before otherwise.
pub lookup-insert :
    (h : ToeplitzHash) (a p value ip port : ℕ)
    → HasSlots h
    → lookup (insert h a p value) ip port
      ≡ (if index_of h a p == index_of h ip port then value else lookup h ip port)
lookup-insert h a p value ip port n =
    let target = index_of h a p in
    let slot = index_of h ip port in
    let here = index_of_congr (insert h a p value) h ip port (insert-key h a p value) in
    lookup_slot h a p value ip port slot here
    ∙ ground (
      arith,
      index_of-lt h a p,
      get_or-set_self h.table target value 0,
      get_or-set_ne h.table target slot value 0,
      lookup_lem h ip port,
    )

-- Storing the same rule again changes nothing.
pub insert_twice :
    (h : ToeplitzHash) (ip port value : ℕ)
    → insert (insert h ip port value) ip port value ≡ insert h ip port value
unfolding insert
insert_twice h ip port value = λ i. record {
  toeplitz_key = h.toeplitz_key;
  table =
      (ap (λ (slot : ℕ). set (set h.table (index_of h ip port) value) slot value)
            (index_of_congr (insert h ip port value) h ip port (insert-key h ip port value))
          ∙ set_twice h.table (index_of h ip port) value value)
        i;
}
