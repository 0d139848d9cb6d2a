-- ===== src/Stats/Core.antt =====
-- software/src/packet_filter.cc, `PacketFilter::show_stats`: the counters of the core.
use packet_filter.Base.{ℕ, ◌%◌, ◌^◌, ◌&&◌, ◌==◌, List, [], ◌∷◌, ◌++◌, if◌then◌else◌, ◌≡◌, ◌≢◌, ◌∙◌}
use packet_filter.Filter.{Counters}
use packet_filter.Mmio.{Driver, Outcome, done, Mmio, read, bind_done, ◌>>=◌}
use packet_filter.Stats.{Line, title, print_stat, IsRead, read_counter}

-- `RegisterMap`.
abbrev pub stats_pkt_in_reg : ℕ
stats_pkt_in_reg = 0x28

abbrev pub stats_phit_in_reg : ℕ
stats_phit_in_reg = 0x40

abbrev pub stats_pkt_forwd_reg : ℕ
stats_pkt_forwd_reg = 0x58

abbrev pub stats_pkt_drop_reg : ℕ
stats_pkt_drop_reg = 0x70

-- What is printed, once the four counters are read.
abbrev pub print_stats : ℕ → ℕ → ℕ → ℕ → List Line
print_stats pkt_in phit_in pkt_forwd pkt_drop =
    if pkt_in == 0 && pkt_forwd == 0 && pkt_drop == 0
    then []
    else title "Packet Filter Statistics:"
      ∷ (print_stat "  Packets In:        %lu" pkt_in
          ++ print_stat "  Phits In:          %lu" phit_in
          ++ print_stat "  Packets Forwarded: %lu" pkt_forwd
          ++ print_stat "  Packets Dropped:   %lu" pkt_drop)

-- The lines that the call prints are its value.
unfoldable pub show_stats : (d : Driver) → Mmio → d.Card → Outcome d.Card (List Line)
show_stats d m = do
  pkt_in ← read d 8 m stats_pkt_in_reg
  phit_in ← read d 8 m stats_phit_in_reg
  pkt_forwd ← read d 8 m stats_pkt_forwd_reg
  pkt_drop ← read d 8 m stats_pkt_drop_reg
  done (print_stats pkt_in phit_in pkt_forwd pkt_drop)

-- The registers of the counters, as the generated interface has them: each reads as one word of the
-- core's output `stats`, and a read changes nothing.
pub record StatsRegisters (d : Driver) (m : Mmio) : Type 0 where
  pub stats_of : d.Card → Counters
  pub pkt_in_read :
      (c : d.Card) → IsRead d m stats_pkt_in_reg (stats_of c).pkt_in (stats_of c).pkt_in c c
  pub phit_in_read :
      (c : d.Card) → IsRead d m stats_phit_in_reg (stats_of c).phit_in (stats_of c).phit_in c c
  pub pkt_forward_read :
      (c : d.Card)
      → IsRead d m stats_pkt_forwd_reg (stats_of c).pkt_forward (stats_of c).pkt_forward c c
  pub pkt_drop_read :
      (c : d.Card) → IsRead d m stats_pkt_drop_reg (stats_of c).pkt_drop (stats_of c).pkt_drop c c

-- The report of the counters that a card has, of 64 bits each.
abbrev pub core_report : (d : Driver) (m : Mmio) → StatsRegisters d m → d.Card → List Line
core_report d m regs c =
    let k = regs.stats_of c in
    print_stats (k.pkt_in % 2 ^ 64) (k.phit_in % 2 ^ 64) (k.pkt_forward % 2 ^ 64)
      (k.pkt_drop % 2 ^ 64)

-- The counters of the card are printed.
pub show_stats_lem :
    (d : Driver) (m : Mmio) (regs : StatsRegisters d m)
    → m.base_addr ≢ 0
    → (c : d.Card) → show_stats d m c ≡ done (core_report d m regs c) c
unfolding show_stats
show_stats_lem d m regs based c =
    let k = regs.stats_of c in
    bind_done (read d 8 m stats_pkt_in_reg) _ c
      (read_counter d m based stats_pkt_in_reg k.pkt_in c c (regs.pkt_in_read c))
    ∙ bind_done (read d 8 m stats_phit_in_reg) _ c
        (read_counter d m based stats_phit_in_reg k.phit_in c c (regs.phit_in_read c))
    ∙ bind_done (read d 8 m stats_pkt_forwd_reg) _ c
        (read_counter d m based stats_pkt_forwd_reg k.pkt_forward c c (regs.pkt_forward_read c))
    ∙ bind_done (read d 8 m stats_pkt_drop_reg) _ c
        (read_counter d m based stats_pkt_drop_reg k.pkt_drop c c (regs.pkt_drop_read c))
