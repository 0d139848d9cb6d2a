-- ===== src/Filter/Statistics.antt =====
-- The counters of `statistics_t`, under any schedule, changes of the registers included.
pub mod Histories
use packet_filter.Base.{
  ℕ, ◌+◌, ◌%◌, ◌^◌, Bool, true, false, List, [], ◌∷◌, ◌++◌, ◌==◌, if◌then◌else◌, ◌≡◌, refl, ap, ◌∙◌,
  sym, subst, Bool-cases, inl, inr, arith,
}
use mathlib.Core.List.{Sublistᴰ, append-nil, append_assoc}
use packet_filter.Network
use packet_filter.Hash
use packet_filter.Filter.{
  Phit, Counters, Config, Filter, System, Event, arrive, configure, cycle, count_packet,
  filter_phit, decide_action, idle_cycle, process_queue, process_packet, initial, step, run,
  outgoing,
}
use packet_filter.Filter.Spec.{arrivals}

-- The packets that end in a list of phits.
unfoldable pub packets : List Phit → ℕ
packets [] = 0
packets (p ∷ ps) = packets ps + (if p.last then 1 else 0)

packets-snoc :
    (ps : List Phit) (p : Phit) → packets (ps ++ (p ∷ [])) ≡ packets ps + (if p.last then 1 else 0)
unfolding packets
packets-snoc [] p = refl
packets-snoc (q ∷ ps) p = omega (arith, packets-snoc ps p)

-- The counters after the phits `handled`, of which `sent` were passed on. `phit_in` goes up once
-- for each packet.
pub record Counted (handled sent : List Phit) (c : Counters) : Type 0 where
  pub pkt_in : c.pkt_in ≡ packets handled % 2 ^ 64
  pub pkt_forward : c.pkt_forward ≡ packets sent % 2 ^ 64
  pub pkt_drop : (packets sent + c.pkt_drop) % 2 ^ 64 ≡ packets handled % 2 ^ 64
  pub phit_in : c.phit_in ≡ c.pkt_in

abbrev pub sent_after : ℕ → List Phit → Phit → List Phit
sent_after action sent p = if action == 1 then sent ++ (outgoing p ∷ []) else sent

pub Counted-last :
    (handled sent : List Phit) (p : Phit) (c : Counters) (action : ℕ)
    → p.last ≡ true
    → Counted handled sent c
    → Counted (handled ++ (p ∷ [])) (sent_after action sent p) (count_packet action 0 c)
unfolding count_packet
Counted-last handled sent p c action l k =
    ground (arith, packets-snoc handled p, packets-snoc sent p)

pub Counted-inside :
    (handled sent : List Phit) (p : Phit) (c : Counters) (action : ℕ)
    → p.last ≡ false
    → Counted handled sent c
    → Counted (handled ++ (p ∷ [])) (sent_after action sent p) c
Counted-inside handled sent p c action l k =
    ground (arith, packets-snoc handled p, packets-snoc sent p)
