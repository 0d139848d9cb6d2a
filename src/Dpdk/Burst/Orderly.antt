-- ===== src/Dpdk/Burst/Orderly.antt =====
-- The order in which a burst is handled: no buffer is used after it was freed, and each is
-- prefetched before it is given to the callback (software/src/dpdk.cc, `dpdk_rx_loop`).
use packet_filter.Base.{
  ℕ, zero, suc, ◌+◌, ◌≤◌, ◌<◌, if◌then◌else◌, Bool, true, false, List, [], ◌∷◌, ◌++◌, ◌≡◌, refl,
  subst, suc-==_zero, lt→ltb, le→ltb, arith,
}
use Prim.Native.Nat.{min}
use native.Mathlib.Decide.{dec_lt}
use packet_filter.Dpdk.Burst.{
  Action, prefetch, callback, warned, free, prefetch_first, process, rx_burst,
}

-- A sequence of actions on `nb` buffers of which the first `p` are prefetched and the first `k` are
-- handled and freed; `called` says that the callback has buffer `k`. Buffers are prefetched in order;
-- the callback is given buffer `k` once it is prefetched; what is freed is the buffer that the
-- callback had; at the end all are prefetched, handled and freed.
abbrev pub IsOrderly : ℕ → ℕ → ℕ → Bool → List Action → Type 0
IsOrderly nb p k called [] = (p ≡ nb) × (k ≡ nb) × (called ≡ false)
IsOrderly nb p k called (prefetch i ∷ acts) =
    (i ≡ p) × (p < nb) × IsOrderly nb (suc p) k called acts
IsOrderly nb p k called (callback i ∷ acts) =
    (i ≡ k) × (k < p) × (called ≡ false) × IsOrderly nb p k true acts
IsOrderly nb p k called (warned i ∷ acts) = (i ≡ k) × (called ≡ true) × IsOrderly nb p k called acts
IsOrderly nb p k called (free i ∷ acts) =
    (i ≡ k) × (called ≡ true) × IsOrderly nb p (suc k) false acts

-- One round of the second loop.
round :
    (nb p i : ℕ) (bad : Bool) (acts : List Action)
    → i < p
    → IsOrderly nb p (suc i) false acts
    → IsOrderly nb p i false (callback i ∷ ((if bad then warned i ∷ [] else []) ++ (free i ∷ acts)))
round nb p i true acts h rest = (refl, h, refl, (refl, refl, (refl, refl, rest)))
round nb p i false acts h rest = (refl, h, refl, (refl, refl, rest))

moved :
    (nb : ℕ) {p p' k k' : ℕ} (acts : List Action)
    → p ≡ p'
    → k ≡ k'
    → IsOrderly nb p k false acts
    → IsOrderly nb p' k' false acts
moved nb {p' = p'} {k = k} acts e f h =
    subst (λ (n : ℕ). IsOrderly nb p' n false acts) f
      (subst (λ (n : ℕ). IsOrderly nb n k false acts) e h)

process-IsOrderly :
    (negative : ℕ → Bool) (nb i left : ℕ)
    → i + left ≡ nb
    → IsOrderly nb (min (i + 4) nb) i false (process negative nb i left)
unfolding process
process-IsOrderly negative nb i zero e = (omega arith, omega arith, refl)
process-IsOrderly negative nb i (suc left) e =
    let later = process-IsOrderly negative nb (i + 1) left (omega arith) in
    let next : i + 1 ≡ suc i = omega arith in
    round nb (min (i + 4) nb) i (negative i) _ (omega arith) (elim (dec_lt (i + 4) nb) [
      | yes h ↦
          let here : min (i + 4) nb ≡ i + 4 = omega arith in
          let there : min (i + 1 + 4) nb ≡ suc (i + 4) = omega arith in
          rw (lt→ltb (i + 4) nb h, here)
            (refl, h, moved nb (process negative nb (i + 1) left) there next later)
      | no h ↦
          let there : min (i + 1 + 4) nb ≡ min (i + 4) nb = omega arith in
          rw (le→ltb (i + 4) nb (omega arith))
            (moved nb (process negative nb (i + 1) left) there next later)
    ])

prefetch_first-IsOrderly :
    (nb i left : ℕ) (acts : List Action)
    → i ≤ nb
    → IsOrderly nb (min (i + left) nb) 0 false acts
    → IsOrderly nb i 0 false (prefetch_first nb i left ++ acts)
unfolding prefetch_first
prefetch_first-IsOrderly nb i zero acts h rest =
    let here : min (i + 0) nb ≡ i = omega arith in rw here at rest
prefetch_first-IsOrderly nb i (suc left) acts h rest = elim (dec_lt i nb) [
  | yes below ↦
      let same : min (i + suc left) nb ≡ min (i + 1 + left) nb = omega arith in
      let next : i + 1 ≡ suc i = omega arith in
      rw (lt→ltb i nb below) (
        refl,
        below,
        moved nb (prefetch_first nb (i + 1) left ++ acts) next refl
            (prefetch_first-IsOrderly nb (i + 1) left acts (omega arith) (rw same at rest)),
      )
  | no above ↦
      let here : min (i + suc left) nb ≡ i = omega arith in
      rw (le→ltb i nb (omega arith)) (rw here at rest)
]

-- A burst of any size, whatever the callback returns, is handled in order: every buffer is
-- prefetched, given to the callback and freed once, in this order; a warning stands between the last
-- two; and no buffer is used once it was freed.
pub rx_burst-IsOrderly :
    (negative : ℕ → Bool) (nb_rx : ℕ) → IsOrderly nb_rx 0 0 false (rx_burst negative nb_rx)
unfolding rx_burst
rx_burst-IsOrderly negative zero = (refl, refl, refl)
rx_burst-IsOrderly negative (suc n) = rw (suc-==_zero n) (
    prefetch_first-IsOrderly (suc n) 0 4 (process negative (suc n) 0 (suc n)) (omega arith)
      (process-IsOrderly negative (suc n) 0 (suc n) (omega arith)))
