-- ===== src/Filter/Runs.antt =====
-- Whole runs of the core while the host leaves the registers alone.
use packet_filter.Base.{
  ℕ, zero, suc, ◌≤◌, List, [], ◌∷◌, ◌++◌, ◌≡◌, refl, ap, ◌∙◌, sym, subst, ◌-◌, if◌then◌else◌,
  length, replicate, arith,
}
use mathlib.Core.List.{append-nil}
use packet_filter.Hash
use packet_filter.Hash.{ToeplitzHash}
use packet_filter.Hash.Slots.{insert_twice}
use packet_filter.Filter.{
  Phit, Filter, Config, System, Event, arrive, configure, cycle, filter_phit, idle_cycle,
  process_queue, process_packet, step, run,
}
use packet_filter.Filter.Spec.{Mode, boundary, inside, verdict, final_mode, emitted, arrivals}
use packet_filter.Filter.Refinement.{
  Agrees, Refines, Refines-refl, Refines-trans, Agrees-next, filter_phit-m_axis,
}

-- The rule in the registers is in the table already: an idle cycle stores it without effect.
abbrev pub Settled : Config → ToeplitzHash → Type 0
Settled cfg t = Hash.insert t cfg.ipv4_addr cfg.udp_port cfg.action ≡ t

-- Any idle cycle settles the rule.
pub idle_cycle-Settled : (cfg : Config) (f : Filter) → Settled cfg (idle_cycle cfg f).hash_table
unfolding idle_cycle
idle_cycle-Settled cfg f = insert_twice f.hash_table cfg.ipv4_addr cfg.udp_port cfg.action

abbrev pub IsFixed : List Event → Type 0
IsFixed [] = Unit {0}
IsFixed (arrive p ∷ es) = IsFixed es
IsFixed (configure c ∷ es) = ⊥
IsFixed (cycle ∷ es) = IsFixed es

pub process_packet-queue :
    (cfg : Config) (f : Filter) {queue : List Phit}
    → f.s_axis ≡ queue
    → process_packet cfg f ≡ process_queue cfg f queue
unfolding process_packet
process_packet-queue cfg f e = ap (process_queue cfg f) e

pub process_idle :
    (cfg : Config) (f : Filter) → f.s_axis ≡ [] → process_packet cfg f ≡ idle_cycle cfg f
unfolding process_queue
process_idle cfg f e = process_packet-queue cfg f e

idle-Refines :
    (cfg : Config) (t : ToeplitzHash) (m : Mode) (f : Filter)
    → Settled cfg t
    → f.hash_table ≡ t
    → Agrees t f m
    → Refines t m [] f (idle_cycle cfg f)
unfolding idle_cycle emitted final_mode
idle-Refines cfg t m f settled same a = record {
  handled = [];
  conserved = sym (append-nil f.s_axis);
  output = sym (append-nil f.m_axis);
  agrees = Agrees_idle m a;
  table =
      ap (λ (h : ToeplitzHash). Hash.insert h cfg.ipv4_addr cfg.udp_port cfg.action) same ∙ settled;
}
  where
    Agrees_idle : (m : Mode) → Agrees t f m → Agrees t (idle_cycle cfg f) m
    Agrees_idle boundary a = a
    Agrees_idle (inside b) a = a

take-Refines :
    (t : ToeplitzHash) (m : Mode) (f : Filter) (p : Phit) (rest : List Phit)
    → f.s_axis ≡ p ∷ rest
    → f.hash_table ≡ t
    → Agrees t f m
    → Refines t m [] f (filter_phit p (record f { s_axis = rest }))
unfolding emitted final_mode
take-Refines t m f p rest e same a =
    let g : Filter = record f { s_axis = rest } in
    record {
      handled = p ∷ [];
      conserved = unfold filter_phit in (sym e ∙ sym (append-nil f.s_axis));
      output =
          filter_phit-m_axis t m p g same (Agrees_queue m a)
          ∙ ap (◌++◌ f.m_axis) (sym (append-nil (if verdict t m p then p ∷ [] else [])));
      agrees = Agrees-next t m p.word p.keep p.user p.last g (Agrees_queue m a);
      table = unfold filter_phit in same;
    }
  where
    Agrees_queue : (m : Mode) → Agrees t f m → Agrees t (record f { s_axis = rest }) m
    Agrees_queue boundary a = a
    Agrees_queue (inside b) a = a

cycle-Refines :
    (cfg : Config) (t : ToeplitzHash) (m : Mode) (f : Filter) (queue : List Phit)
    → f.s_axis ≡ queue
    → Settled cfg t
    → f.hash_table ≡ t
    → Agrees t f m
    → Refines t m [] f (process_packet cfg f)
unfolding process_queue
cycle-Refines cfg t m f [] e settled same a =
    subst (Refines t m [] f) (sym (process_packet-queue cfg f e))
      (idle-Refines cfg t m f settled same a)
cycle-Refines cfg t m f (p ∷ rest) e settled same a =
    subst (Refines t m [] f) (sym (process_packet-queue cfg f e))
      (take-Refines t m f p rest e same a)

arrive-Refines :
    (t : ToeplitzHash) (m : Mode) (f : Filter) (p : Phit)
    → f.hash_table ≡ t
    → Agrees t f m
    → Refines t m (p ∷ []) f (record f { s_axis = f.s_axis ++ (p ∷ []) })
unfolding emitted final_mode
arrive-Refines t m f p same a = record {
  handled = [];
  conserved = refl;
  output = sym (append-nil f.m_axis);
  agrees = Agrees_arrive m a;
  table = same;
}
  where
    Agrees_arrive :
        (m : Mode) → Agrees t f m → Agrees t (record f { s_axis = f.s_axis ++ (p ∷ []) }) m
    Agrees_arrive boundary a = a
    Agrees_arrive (inside b) a = a

-- Whenever the registers stay as they are and their rule is in the table, `process_packet` refines
-- the abstract filter: however arrivals and cycles mix, it handles a prefix of what was queued and
-- arrived, in order, each packet judged by its first phit, and nothing else is sent.
pub run-Refines :
    (es : List Event) (s : System) (t : ToeplitzHash) (m : Mode)
    → IsFixed es
    → Settled s.config t
    → s.filter.hash_table ≡ t
    → Agrees t s.filter m
    → Refines t m (arrivals es) s.filter (run es s).filter
unfolding run step arrivals
run-Refines [] s t m fixed settled same a = Refines-refl t m s.filter a same
run-Refines (arrive p ∷ es) s t m fixed settled same a =
    let r = arrive-Refines t m s.filter p same a in
    Refines-trans t m (p ∷ []) (arrivals es) r (
      run-Refines es (step (arrive p) s) t (final_mode t m r.handled) fixed settled r.table
        r.agrees)
run-Refines (configure c ∷ es) s t m fixed settled same a = absurd fixed
run-Refines (cycle ∷ es) s t m fixed settled same a =
    let r = cycle-Refines s.config t m s.filter s.filter.s_axis refl settled same a in
    Refines-trans t m [] (arrivals es) r
      (run-Refines es (step cycle s) t (final_mode t m r.handled) fixed settled r.table r.agrees)

length_zero {ℓ} : {A : Type ℓ} (xs : List A) → length xs ≤ 0 → xs ≡ []
length_zero [] h = refl
length_zero (x ∷ xs) h = absurd (omega arith)

-- A cycle takes one phit, if there is one.
cycle_drains :
    (cfg : Config) (f : Filter) (queue : List Phit)
    → f.s_axis ≡ queue
    → length (process_packet cfg f).s_axis ≡ length queue - 1
unfolding process_queue filter_phit idle_cycle
cycle_drains cfg f [] e =
    ap (λ (g : Filter). length g.s_axis) (process_packet-queue cfg f e) ∙ ap length e
cycle_drains cfg f (p ∷ rest) e =
    ap (λ (g : Filter). length g.s_axis) (process_packet-queue cfg f e) ∙ omega arith

-- As many cycles as there are queued phits empty the queue.
pub cycles_drain :
    (n : ℕ) (s : System)
    → length s.filter.s_axis ≤ n
    → (run (replicate n cycle) s).filter.s_axis ≡ []
unfolding run step
cycles_drain zero s h = length_zero s.filter.s_axis (omega arith)
cycles_drain (suc n) s h =
    cycles_drain n (step cycle s)
      (omega (arith, cycle_drains s.config s.filter s.filter.s_axis refl))

pub run-config : (es : List Event) (s : System) → IsFixed es → (run es s).config ≡ s.config
unfolding run step
run-config [] s fixed = refl
run-config (arrive p ∷ es) s fixed = run-config es (step (arrive p) s) fixed
run-config (configure c ∷ es) s fixed = absurd fixed
run-config (cycle ∷ es) s fixed = run-config es (step cycle s) fixed

pub cycles-IsFixed : (n : ℕ) → IsFixed (replicate n cycle)
cycles-IsFixed zero = tt
cycles-IsFixed (suc n) = cycles-IsFixed n

pub arrivals-cycles : (n : ℕ) → arrivals (replicate n cycle) ≡ []
unfolding arrivals
arrivals-cycles zero = refl
arrivals-cycles (suc n) = arrivals-cycles n
