-- ===== src/Filter/Packets.antt =====
-- The filter on whole packets: every packet passes whole or not at all.
use packet_filter.Base.{
  ℕ, ◌≤◌, Bool, true, false, List, [], ◌∷◌, ◌++◌, ◌≡◌, refl, ap, ◌∙◌, sym, subst, length, replicate,
  if◌then◌else◌,
}
use mathlib.Core.List.{append-nil}
use packet_filter.Hash.{ToeplitzHash}
use packet_filter.Filter.{Phit, Filter, System, Event, cycle, run}
use packet_filter.Filter.Spec.{
  boundary, inside, admits, verdict, next_mode, final_mode, emitted, arrivals,
}
use packet_filter.Filter.Refinement.{Refines, Refines-trans}
use packet_filter.Filter.Runs.{
  IsFixed, Settled, run-Refines, cycles_drain, run-config, cycles-IsFixed, arrivals-cycles,
}

-- A phit without its `last` flag.
pub record Beat : Type 0 where
  pub word : ℕ
  pub keep : ℕ
  pub user : ℕ

abbrev pub phit_of : Bool → Beat → Phit
phit_of l b = record { word = b.word; keep = b.keep; user = b.user; last = l }

-- Beats that are not last, and the last one.
pub record Packet : Type 0 where
  pub body : List Beat
  pub final : Beat

unfoldable pub closing : List Beat → Beat → List Phit
closing [] z = phit_of true z ∷ []
closing (b ∷ bs) z = phit_of false b ∷ closing bs z

unfoldable pub phits : Packet → List Phit
unfolding closing
phits k = closing k.body k.final

unfoldable pub first : Packet → Phit
first k = elim k.body [ [] ↦ phit_of true k.final | b ∷ bs ↦ phit_of false b ]

unfoldable pub stream : List Packet → List Phit
stream [] = []
stream (k ∷ ks) = phits k ++ stream ks

-- The packets whose first phit the table admits.
unfoldable pub admitted : ToeplitzHash → List Packet → List Packet
admitted t [] = []
admitted t (k ∷ ks) = if admits t (first k) then k ∷ admitted t ks else admitted t ks

-- The tail of a packet follows the verdict on its first phit.
pub emitted-closing :
    (t : ToeplitzHash) (b : Bool) (bs : List Beat) (z : Beat) (rest : List Phit)
    → emitted t (inside b) (closing bs z ++ rest)
      ≡ (if b then closing bs z else []) ++ emitted t boundary rest
unfolding emitted closing verdict next_mode
emitted-closing t true [] z rest = refl
emitted-closing t false [] z rest = refl
emitted-closing t true (b ∷ bs) z rest =
    ap (◌∷◌ (phit_of false b)) (emitted-closing t true bs z rest)
emitted-closing t false (b ∷ bs) z rest = emitted-closing t false bs z rest

first_emitted :
    (t : ToeplitzHash) (v : Bool) (p : Phit) (ps rest : List Phit)
    → (if v then p ∷ [] else []) ++ ((if v then ps else []) ++ rest)
      ≡ (if v then p ∷ ps else []) ++ rest
first_emitted t true p ps rest = refl
first_emitted t false p ps rest = refl

emitted_packet :
    (t : ToeplitzHash) (bs : List Beat) (z : Beat) (rest : List Phit)
    → let k : Packet = record { body = bs; final = z } in
      emitted t boundary (phits k ++ rest)
      ≡ (if admits t (first k) then phits k else []) ++ emitted t boundary rest
unfolding emitted phits first verdict next_mode
emitted_packet t [] z rest = refl
emitted_packet t (b ∷ bs) z rest =
    let v = admits t (phit_of false b) in
    ap (◌++◌ (if v then phit_of false b ∷ [] else [])) (emitted-closing t v bs z rest)
    ∙ first_emitted t v (phit_of false b) (closing bs z) (emitted t boundary rest)

stream_if :
    (v : Bool) (k : Packet) (ks : List Packet)
    → (if v then phits k else []) ++ stream ks ≡ stream (if v then k ∷ ks else ks)
unfolding stream
stream_if true k ks = refl
stream_if false k ks = refl

emitted-stream :
    (t : ToeplitzHash) (ks : List Packet) → emitted t boundary (stream ks) ≡ stream (admitted t ks)
unfolding stream admitted emitted
emitted-stream t [] = refl
emitted-stream t (k ∷ ks) =
    emitted_packet t k.body k.final (stream ks)
    ∙ ap (◌++◌ (if admits t (first k) then phits k else [])) (emitted-stream t ks)
    ∙ stream_if (admits t (first k)) k (admitted t ks)

-- From a packet boundary, with the rule in the registers stored and not changed: if what is queued
-- and what arrives during any schedule are whole packets, then after the schedule and as many
-- further cycles as phits are left, the queue is empty and exactly the packets whose first phit the
-- table admits were sent, whole, unchanged and in order.
pub run-stream :
    (es : List Event) (n : ℕ) (s : System) (t : ToeplitzHash) (ks : List Packet)
    → IsFixed es
    → Settled s.config t
    → s.filter.hash_table ≡ t
    → s.filter.phit_idx ≡ 0
    → s.filter.s_axis ++ arrivals es ≡ stream ks
    → length (run es s).filter.s_axis ≤ n
    → let f = (run (replicate n cycle) (run es s)).filter in
      (f.s_axis ≡ []) × (f.m_axis ≡ s.filter.m_axis ++ stream (admitted t ks))
run-stream es n s t ks fixed settled same start whole enough = (
  empty,
  all.output
      ∙ ap (λ (l : List Phit). s.filter.m_axis ++ emitted t boundary l) handled_all
      ∙ ap (◌++◌ s.filter.m_axis) (emitted-stream t ks),
)
  where
    f : Filter
    f = (run (replicate n cycle) (run es s)).filter

    empty : f.s_axis ≡ []
    empty = cycles_drain n (run es s) enough

    r : Refines t boundary (arrivals es) s.filter (run es s).filter
    r = run-Refines es s t boundary fixed settled same start

    q :
        Refines t
          (final_mode t boundary r.handled)
          (arrivals (replicate n cycle))
          (run es s).filter
          f
    q =
        run-Refines (replicate n cycle) (run es s) t (final_mode t boundary r.handled)
          (cycles-IsFixed n) (subst (λ c. Settled c t) (sym (run-config es s fixed)) settled)
          r.table r.agrees

    all : Refines t boundary (arrivals es ++ arrivals (replicate n cycle)) s.filter f
    all = Refines-trans t boundary (arrivals es) (arrivals (replicate n cycle)) r q

    handled_all : all.handled ≡ stream ks
    handled_all =
        sym (append-nil all.handled)
        ∙ ap (◌++◌ all.handled) (sym empty)
        ∙ all.conserved
        ∙ ap (λ (l : List Phit). s.filter.s_axis ++ (arrivals es ++ l)) (arrivals-cycles n)
        ∙ ap (◌++◌ s.filter.s_axis) (append-nil (arrivals es))
        ∙ whole
