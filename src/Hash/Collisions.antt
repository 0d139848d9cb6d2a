-- ===== src/Hash/Collisions.antt =====
-- Which addresses share a slot (hardware/src/hls/hash.cc, `compute_hash` and `insert`).
use packet_filter.Base.{
  ℕ, zero, suc, ◌+◌, ◌%◌, ◌<◌, bit_xor, ◌≡◌, refl, ap, ◌∙◌, sym, ap₂, ◌↔◌, arith,
}
use packet_filter.Base.Xor.{
  bit, bit-bit_xor, bit-lt, xor_comm, xor-zero, xor_self, xor_regroup, xor-mod, xor-eq_left,
}
use packet_filter.Hash.{ToeplitzHash, get_window, hash_rounds, compute_hash, index_of}
use packet_filter.Hash.Slots.{index_of-mod}

window_add :
    (h : ToeplitzHash) (p q o : ℕ)
    → p < 2
    → q < 2
    → get_window h ((p + q) % 2) o ≡ bit_xor (get_window h p o) (get_window h q o)
unfolding get_window
window_add h zero zero o hp hq = refl
window_add h zero (suc zero) o hp hq = sym (xor_comm 0 _ ∙ xor-zero _)
window_add h (suc zero) zero o hp hq = sym (xor-zero _)
window_add h (suc zero) (suc zero) o hp hq = sym (xor_self _)
window_add h zero (suc (suc q)) o hp hq = absurd (omega arith)
window_add h (suc zero) (suc (suc q)) o hp hq = absurd (omega arith)
window_add h (suc (suc p)) q o hp hq = absurd (omega arith)

hash_rounds-xor :
    (h : ToeplitzHash) (a b base x y n : ℕ)
    → hash_rounds h (bit_xor a b) base (bit_xor x y) n
      ≡ bit_xor (hash_rounds h a base x n) (hash_rounds h b base y n)
unfolding hash_rounds
hash_rounds-xor h a b base x y zero = refl
hash_rounds-xor h a b base x y (suc n) =
    rw
      (
        hash_rounds-xor h a b base x y n,
        bit-bit_xor n a b,
        window_add h (bit a n) (bit b n) (n + base) (bit-lt a n) (bit-lt b n),
      )
      (xor_regroup (hash_rounds h a base x n) (hash_rounds h b base y n)
        (get_window h (bit a n) (n + base)) (get_window h (bit b n) (n + base)))

-- The hash is linear over `^`.
compute_hash-xor :
    (h : ToeplitzHash) (ip d port e : ℕ)
    → compute_hash h (bit_xor ip d) (bit_xor port e)
      ≡ bit_xor (compute_hash h ip port) (compute_hash h d e)
unfolding compute_hash
compute_hash-xor h ip d port e =
    ap (λ (t : ℕ). hash_rounds h (bit_xor port e) 32 t 16) (hash_rounds-xor h ip d 0 0 0 32)
    ∙ hash_rounds-xor h port e 32 (hash_rounds h ip 0 0 32) (hash_rounds h d 0 0 32) 16

-- Two addresses that differ in the bits `d` of the IP and `e` of the port share a slot exactly if
-- `d` and `e` themselves hash to slot 0: there is no tag that tells them apart.
pub same_slot_iff :
    (h : ToeplitzHash) (ip d port e : ℕ)
    → (index_of h (bit_xor ip d) (bit_xor port e) ≡ index_of h ip port) ↔ (index_of h d e ≡ 0)
same_slot_iff h ip d port e =
    let moved : index_of h (bit_xor ip d) (bit_xor port e)
        ≡ bit_xor (index_of h ip port) (index_of h d e) =
      index_of-mod h (bit_xor ip d) (bit_xor port e)
      ∙ ap (λ (t : ℕ). t % 32) (compute_hash-xor h ip d port e)
      ∙ xor-mod 5 (compute_hash h ip port) (compute_hash h d e)
      ∙ ap₂ bit_xor (sym (index_of-mod h ip port)) (sym (index_of-mod h d e)) in
    let zero_iff = xor-eq_left (index_of h ip port) (index_of h d e) in
    (λ q. zero_iff.0 (sym moved ∙ q), λ q. moved ∙ zero_iff.1 q)
