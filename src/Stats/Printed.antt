-- ===== src/Stats/Printed.antt =====
-- From the phits on the wire to the lines on the screen: what `PacketFilter::show_stats` prints
-- after any history of the core.
use packet_filter.Base.{
  ℕ, ◌-◌, ◌%◌, ◌^◌, ◌≤◌, ◌<◌, ◌==◌, List, [], ◌∷◌, ◌++◌, if◌then◌else◌, ◌≡◌, ◌≢◌, refl, ap, ◌∙◌,
  sym, subst, arith,
}
use Prim.Native.String.{String}
use mathlib.Core.List.{Sublistᴰ, append-nil}
use packet_filter.Filter.{
  Phit, Counters, Config, Filter, System, Event, initial, process_packet, idle_cycle, run,
}
use packet_filter.Filter.Spec.{arrivals}
use packet_filter.Filter.Runs.{process_idle}
use packet_filter.Filter.Statistics.{packets, Counted}
use packet_filter.Filter.Statistics.Histories.{History, run-initial-History}
use packet_filter.Mmio.{Driver, done, Mmio}
use packet_filter.Stats.{Line, title, stat}
use packet_filter.Stats.Core.{StatsRegisters, show_stats, show_stats_lem, print_stats}

packets-sublist : {xs ys : List Phit} → Sublistᴰ xs ys → packets xs ≤ packets ys
unfolding packets
packets-sublist Sublistᴰ.slnil = omega arith
packets-sublist (Sublistᴰ.cons {a = y} s) = omega (arith, packets-sublist s)
packets-sublist (Sublistᴰ.cons-cons {b = b} {l₁ = xs} {l₂ = ys} e s) =
    rw e (omega (arith, packets-sublist {xs = xs} {ys = ys} s))

-- A line for a value that is not 0.
abbrev pub positive : String → ℕ → List Line
positive str val = if val == 0 then [] else stat str val ∷ []

-- The report of `n` packets, of which `forwarded` passed: no line without a packet.
abbrev pub report : ℕ → ℕ → List Line
report n forwarded =
    if n == 0
    then []
    else title "Packet Filter Statistics:"
      ∷ (positive "  Packets In:        %lu" n
          ++ positive "  Phits In:          %lu" n
          ++ positive "  Packets Forwarded: %lu" forwarded
          ++ positive "  Packets Dropped:   %lu" (n - forwarded))

print_stats-report :
    (n forwarded : ℕ)
    → forwarded ≤ n
    → n < 2 ^ 64 - 1
    → print_stats n n forwarded (n - forwarded) ≡ report n forwarded
print_stats-report n forwarded part small = ground arith

-- `print_stats` at the counters of a history in which every phit was handled.
counted_report :
    (handled sent : List Phit) (k : Counters)
    → Counted handled sent k
    → packets sent ≤ packets handled
    → packets handled < 2 ^ 64 - 1
    → print_stats
        (k.pkt_in % 2 ^ 64)
        (k.phit_in % 2 ^ 64)
        (k.pkt_forward % 2 ^ 64)
        (k.pkt_drop % 2 ^ 64)
      ≡ report (packets handled) (packets sent)
counted_report handled sent k counted part small =
    let pkt_in : k.pkt_in % 2 ^ 64 ≡ packets handled = omega (arith, counted.pkt_in) in
    let phit_in : k.phit_in % 2 ^ 64 ≡ packets handled =
      omega (arith, counted.pkt_in, counted.phit_in) in
    let pkt_forward : k.pkt_forward % 2 ^ 64 ≡ packets sent = omega (arith, counted.pkt_forward) in
    let pkt_drop : k.pkt_drop % 2 ^ 64 ≡ packets handled - packets sent =
      omega (arith, counted.pkt_drop) in
    rw (pkt_in, phit_in, pkt_forward, pkt_drop)
      (print_stats-report (packets handled) (packets sent) part small)

-- The core runs from reset under any schedule until its queue is empty, and one idle cycle more;
-- fewer than `2 ^ 64 - 1` packets ended. Then the host's call of `show_stats` ends normally and
-- prints nothing if no packet ended, and otherwise the number of packets that ended in what arrived,
-- that number again as the phits, the number of packets whose last phit was sent and the number of
-- the others, each if it is not 0; and no more packets were sent than arrived.
pub show_stats-run :
    (d : Driver) (m : Mmio) (regs : StatsRegisters d m)
    → m.base_addr ≢ 0
    → (es : List Event) (cfg : Config) (c : d.Card)
    → let s = run es (record { config = cfg; filter = initial }) in
      s.filter.s_axis ≡ []
      → regs.stats_of c ≡ (process_packet s.config s.filter).stats
      → packets (arrivals es) < 2 ^ 64 - 1
      → (packets s.filter.m_axis ≤ packets (arrivals es))
        × (show_stats d m c ≡ done (report (packets (arrivals es)) (packets s.filter.m_axis)) c)
show_stats-run d m regs based es cfg c empty published small = (
  part,
  show_stats_lem d m regs based c
      ∙ ap
          (λ (k : Counters).
            done
              (print_stats (k.pkt_in % 2 ^ 64) (k.phit_in % 2 ^ 64) (k.pkt_forward % 2 ^ 64)
                (k.pkt_drop % 2 ^ 64))
              c)
          (published ∙ now)
      ∙ ap (λ (l : List Line). done l c)
          (counted_report (arrivals es) f.m_axis f.local_stats counted part small),
)
  where
    s : System
    s = run es (record { config = cfg; filter = initial })

    f : Filter
    f = s.filter

    h : History (arrivals es) f
    h = run-initial-History es cfg

    all : h.handled ≡ arrivals es
    all = sym (append-nil h.handled) ∙ ap (◌++◌ h.handled) (sym empty) ∙ h.conserved

    counted : Counted (arrivals es) f.m_axis f.local_stats
    counted = subst (λ (l : List Phit). Counted l f.m_axis f.local_stats) all h.counted

    part : packets f.m_axis ≤ packets (arrivals es)
    part =
        subst (λ (l : List Phit). packets f.m_axis ≤ packets l) all
          (packets-sublist {xs = f.m_axis} {ys = h.handled} h.order)

    now : (process_packet s.config f).stats ≡ f.local_stats
    now = ap (λ (g : Filter). g.stats) (process_idle s.config f empty) ∙ unfold idle_cycle in refl
