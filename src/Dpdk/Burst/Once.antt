-- ===== src/Dpdk/Burst/Once.antt =====
-- Each buffer of a burst is handled once (software/src/dpdk.cc, `dpdk_rx_loop`).
use Prim.Native.Nat.{min}
use mathlib.Core.List.{append-nil}
use packet_filter.Base.{
  ap₂, suc-==_zero, ℕ, zero, suc, ◌+◌, ◌-◌, ltb, if◌then◌else◌, Bool, true, false, List, [], ◌∷◌,
  ◌++◌, ◌≡◌, refl, ap, ◌∙◌, Bool-cases, inl, inr, lt→ltb, le→ltb, arith,
}
use native.Mathlib.Decide.{dec_lt}
use packet_filter.Dpdk.Burst.{
  Action, prefetch, callback, warned, free, prefetch_first, process, rx_burst,
}

-- The numbers from `i` on.
abbrev pub range_from : ℕ → ℕ → List ℕ
range_from i zero = []
range_from i (suc n) = i ∷ range_from (i + 1) n

abbrev pub prefetched : List Action → List ℕ
prefetched [] = []
prefetched (prefetch i ∷ acts) = i ∷ prefetched acts
prefetched (callback i ∷ acts) = prefetched acts
prefetched (warned i ∷ acts) = prefetched acts
prefetched (free i ∷ acts) = prefetched acts

-- The buffers that were given to the callback and freed right after it, but for a warning between.
abbrev pub handled : List Action → List ℕ
handled [] = []
handled (prefetch i ∷ acts) = handled acts
handled (callback i ∷ acts) = i ∷ handled acts
handled (warned i ∷ acts) = handled acts
handled (free i ∷ acts) = handled acts

abbrev pub freed : List Action → List ℕ
freed [] = []
freed (prefetch i ∷ acts) = freed acts
freed (callback i ∷ acts) = freed acts
freed (warned i ∷ acts) = freed acts
freed (free i ∷ acts) = i ∷ freed acts

prefetched-append :
    (acts more_acts : List Action)
    → prefetched (acts ++ more_acts) ≡ prefetched acts ++ prefetched more_acts
prefetched-append [] more_acts = refl
prefetched-append (prefetch i ∷ acts) more_acts = ap (◌∷◌ i) (prefetched-append acts more_acts)
prefetched-append (callback i ∷ acts) more_acts = prefetched-append acts more_acts
prefetched-append (warned i ∷ acts) more_acts = prefetched-append acts more_acts
prefetched-append (free i ∷ acts) more_acts = prefetched-append acts more_acts

prefetch_first-only :
    (nb i left : ℕ) (acts : List Action)
    → (handled (prefetch_first nb i left ++ acts) ≡ handled acts)
      × (freed (prefetch_first nb i left ++ acts) ≡ freed acts)
unfolding prefetch_first
prefetch_first-only nb i zero acts = (refl, refl)
prefetch_first-only nb i (suc left) acts = elim (Bool-cases (ltb i nb)) [
  | inl e ↦ rw e (prefetch_first-only nb (i + 1) left acts)
  | inr e ↦ rw e (refl, refl)
]

process-once :
    (negative : ℕ → Bool) (nb i left : ℕ)
    → (handled (process negative nb i left) ≡ range_from i left)
      × (freed (process negative nb i left) ≡ range_from i left)
unfolding process
process-once negative nb i zero = (refl, refl)
process-once negative nb i (suc left) =
    round (negative i) (ltb (i + 4) nb) (process-once negative nb (i + 1) left)
  where
    round :
        (bad more : Bool)
        → (handled (process negative nb (i + 1) left) ≡ range_from (i + 1) left)
          × (freed (process negative nb (i + 1) left) ≡ range_from (i + 1) left)
        → let acts =
            callback i
            ∷ ((if bad then warned i ∷ [] else [])
                ++ (free i
                    ∷ ((if more then prefetch (i + 4) ∷ [] else [])
                        ++ process negative nb (i + 1) left))) in
          (handled acts ≡ i ∷ range_from (i + 1) left) × (freed acts ≡ i ∷ range_from (i + 1) left)
    round true true h = (ap (◌∷◌ i) h.0, ap (◌∷◌ i) h.1)
    round true false h = (ap (◌∷◌ i) h.0, ap (◌∷◌ i) h.1)
    round false true h = (ap (◌∷◌ i) h.0, ap (◌∷◌ i) h.1)
    round false false h = (ap (◌∷◌ i) h.0, ap (◌∷◌ i) h.1)

first_prefetched :
    (nb i left : ℕ) → prefetched (prefetch_first nb i left) ≡ range_from i (min left (nb - i))
unfolding prefetch_first
first_prefetched nb i zero = ap (range_from i) {x = 0} {y = min 0 (nb - i)} (omega arith)
first_prefetched nb i (suc left) = elim (dec_lt i nb) [
  | yes h ↦
      let n : min (suc left) (nb - i) ≡ suc (min left (nb - (i + 1))) = omega arith in
      rw (lt→ltb i nb h, n) (ap (◌∷◌ i) (first_prefetched nb (i + 1) left))
  | no h ↦ let n : min (suc left) (nb - i) ≡ 0 = omega arith in rw (le→ltb i nb (omega arith), n)
]

process-prefetched :
    (negative : ℕ → Bool) (nb i left : ℕ)
    → i + left ≡ nb
    → prefetched (process negative nb i left) ≡ range_from (i + 4) (left - 4)
unfolding process
process-prefetched negative nb i zero e = ap (range_from (i + 4)) {x = 0} {y = 0 - 4} (omega arith)
process-prefetched negative nb i (suc left) e =
    round (negative i) (ltb (i + 4) nb) (process-prefetched negative nb (i + 1) left (omega arith))
    ∙ joined
  where
    round :
        (bad more : Bool)
        → prefetched (process negative nb (i + 1) left) ≡ range_from (i + 1 + 4) (left - 4)
        → prefetched (
            (if bad then warned i ∷ [] else [])
            ++ (free i
                ∷ ((if more then prefetch (i + 4) ∷ [] else [])
                    ++ process negative nb (i + 1) left)))
          ≡ (if more then (i + 4) ∷ [] else []) ++ range_from (i + 1 + 4) (left - 4)
    round true true h = ap (◌∷◌ (i + 4)) h
    round true false h = h
    round false true h = ap (◌∷◌ (i + 4)) h
    round false false h = h

    joined :
        (if ltb (i + 4) nb then (i + 4) ∷ [] else []) ++ range_from (i + 1 + 4) (left - 4)
        ≡ range_from (i + 4) (suc left - 4)
    joined = elim (dec_lt (i + 4) nb) [
      | yes h ↦
          let n : suc left - 4 ≡ suc (left - 4) = omega arith in
          let next : i + 1 + 4 ≡ i + 4 + 1 = omega arith in rw (lt→ltb (i + 4) nb h, n, next)
      | no h ↦
          let n : suc left - 4 ≡ 0 = omega arith in
          let m : left - 4 ≡ 0 = omega arith in rw (le→ltb (i + 4) nb (omega arith), n, m)
    ]

range_from-append : (i m n : ℕ) → range_from i m ++ range_from (i + m) n ≡ range_from i (m + n)
range_from-append i zero n =
    ap (λ (k : ℕ). range_from k n) {x = i + 0} {y = i} (omega arith)
    ∙ ap (range_from i) {x = n} {y = 0 + n} (omega arith)
range_from-append i (suc m) n =
    let next : i + suc m ≡ i + 1 + m = omega arith in
    let size : suc m + n ≡ suc (m + n) = omega arith in
    rw (next, size) (ap (◌∷◌ i) (range_from-append (i + 1) m n))

-- A burst of any size: each of its buffers is prefetched once, given to the callback once and freed
-- once, each in the order of the buffers, whatever the callback returns.
rx_burst-once :
    (negative : ℕ → Bool) (nb_rx : ℕ)
    → let acts = rx_burst negative nb_rx in
      (prefetched acts ≡ range_from 0 nb_rx)
      × (handled acts ≡ range_from 0 nb_rx)
      × (freed acts ≡ range_from 0 nb_rx)
unfolding rx_burst
rx_burst-once negative zero = (refl, refl, refl)
rx_burst-once negative (suc n) =
    let rest = process negative (suc n) 0 (suc n) in
    let only = prefetch_first-only (suc n) 0 4 rest in
    let each = process-once negative (suc n) 0 (suc n) in
    rw (suc-==_zero n) (
      prefetched-append (prefetch_first (suc n) 0 4) rest
          ∙ ap₂ ◌++◌ (first_prefetched (suc n) 0 4)
              (process-prefetched negative (suc n) 0 (suc n) (omega arith))
          ∙ whole,
      only.0 ∙ each.0,
      only.1 ∙ each.1,
    )
  where
    whole :
        range_from 0 (min 4 (suc n - 0)) ++ range_from (0 + 4) (suc n - 4) ≡ range_from 0 (suc n)
    whole = elim (dec_lt n 4) [
      | yes h ↦
          let m : min 4 (suc n - 0) ≡ suc n = omega arith in
          let z : suc n - 4 ≡ 0 = omega arith in rw (m, z) (append-nil (range_from 0 (suc n)))
      | no h ↦
          let m : min 4 (suc n - 0) ≡ 4 = omega arith in
          let z : 4 + (suc n - 4) ≡ suc n = omega arith in
          rw m (range_from-append 0 4 (suc n - 4) ∙ ap (range_from 0) z)
    ]
