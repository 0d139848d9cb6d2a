-- ===== src/Stats/Adapter.antt =====
-- software/src/packet_filter.cc, class `PacketAdapter`: the counters of the card's packet adapter.
use packet_filter.Base.{ℕ, ◌%◌, ◌^◌, ◌&&◌, ◌==◌, List, [], ◌∷◌, ◌++◌, if◌then◌else◌, ◌≡◌, ◌≢◌, ◌∙◌}
use packet_filter.Mmio
use packet_filter.Mmio.{Driver, Outcome, done, Mmio, set_base_addr, read, bind_done, ◌>>=◌}
use packet_filter.Stats.{Line, title, print_stat, IsRead, read_counter}

-- `OPENNIC_ADAP_BASE_ADDR`.
abbrev pub base : ℕ
base = 0xB000

-- `RegisterMap`.
abbrev pub tx_packet_sent_reg : ℕ
tx_packet_sent_reg = 0x00

abbrev pub tx_packet_dropped_reg : ℕ
tx_packet_dropped_reg = 0x10

abbrev pub rx_packet_recv_reg : ℕ
rx_packet_recv_reg = 0x20

abbrev pub rx_packet_dropped_reg : ℕ
rx_packet_dropped_reg = 0x30

abbrev pub rx_packet_error_reg : ℕ
rx_packet_error_reg = 0x40

-- The constructor.
unfoldable pub new : (d : Driver) → ℕ → d.Card → Outcome d.Card Mmio
new d garbage = do mmio ← Mmio.new d garbage 0; done (set_base_addr base mmio)

-- What is printed, once the five counters are read.
abbrev pub print_stats : ℕ → ℕ → ℕ → ℕ → ℕ → List Line
print_stats tx_sent tx_dropped rx_recv rx_dropped rx_error =
    if rx_recv == 0 && tx_sent == 0
    then []
    else title "Packet Adapter Statistics:"
      ∷ (print_stat "  TX Packets Sent:        %lu" tx_sent
          ++ print_stat "  TX Packets Dropped:     %lu" tx_dropped
          ++ print_stat "  RX Packets Received:    %lu" rx_recv
          ++ print_stat "  RX Packets Dropped:     %lu" rx_dropped
          ++ print_stat "  RX Packets Error:       %lu" rx_error)

-- The lines that the call prints are its value.
unfoldable pub show_stats : (d : Driver) → Mmio → d.Card → Outcome d.Card (List Line)
show_stats d m = do
  tx_packet_sent ← read d 8 m tx_packet_sent_reg
  tx_packet_dropped ← read d 8 m tx_packet_dropped_reg
  rx_packet_recv ← read d 8 m rx_packet_recv_reg
  rx_packet_dropped ← read d 8 m rx_packet_dropped_reg
  rx_packet_error ← read d 8 m rx_packet_error_reg
  done (
      print_stats tx_packet_sent tx_packet_dropped rx_packet_recv rx_packet_dropped rx_packet_error)

-- The registers of the counters: each reads as one of the adapter's counters, and a read changes
-- nothing.
pub record AdapterRegisters (d : Driver) (m : Mmio) : Type 0 where
  pub tx_sent : d.Card → ℕ
  pub tx_dropped : d.Card → ℕ
  pub rx_recv : d.Card → ℕ
  pub rx_dropped : d.Card → ℕ
  pub rx_error : d.Card → ℕ
  pub tx_sent_read : (c : d.Card) → IsRead d m tx_packet_sent_reg (tx_sent c) (tx_sent c) c c
  pub tx_dropped_read :
      (c : d.Card) → IsRead d m tx_packet_dropped_reg (tx_dropped c) (tx_dropped c) c c
  pub rx_recv_read : (c : d.Card) → IsRead d m rx_packet_recv_reg (rx_recv c) (rx_recv c) c c
  pub rx_dropped_read :
      (c : d.Card) → IsRead d m rx_packet_dropped_reg (rx_dropped c) (rx_dropped c) c c
  pub rx_error_read : (c : d.Card) → IsRead d m rx_packet_error_reg (rx_error c) (rx_error c) c c

-- The report of the adapter's counters, of 64 bits each.
abbrev pub adapter_report : (d : Driver) (m : Mmio) → AdapterRegisters d m → d.Card → List Line
adapter_report d m regs c =
    print_stats (regs.tx_sent c % 2 ^ 64) (regs.tx_dropped c % 2 ^ 64) (regs.rx_recv c % 2 ^ 64)
      (regs.rx_dropped c % 2 ^ 64) (regs.rx_error c % 2 ^ 64)

-- The counters of the adapter are printed.
pub show_stats_lem :
    (d : Driver) (m : Mmio) (regs : AdapterRegisters d m)
    → m.base_addr ≢ 0
    → (c : d.Card) → show_stats d m c ≡ done (adapter_report d m regs c) c
unfolding show_stats
show_stats_lem d m regs based c =
    bind_done (read d 8 m tx_packet_sent_reg) _ c
      (read_counter d m based tx_packet_sent_reg (regs.tx_sent c) c c (regs.tx_sent_read c))
    ∙ bind_done (read d 8 m tx_packet_dropped_reg) _ c (
        read_counter d m based tx_packet_dropped_reg (regs.tx_dropped c) c c
          (regs.tx_dropped_read c))
    ∙ bind_done (read d 8 m rx_packet_recv_reg) _ c
        (read_counter d m based rx_packet_recv_reg (regs.rx_recv c) c c (regs.rx_recv_read c))
    ∙ bind_done (read d 8 m rx_packet_dropped_reg) _ c (
        read_counter d m based rx_packet_dropped_reg (regs.rx_dropped c) c c
          (regs.rx_dropped_read c))
    ∙ bind_done (read d 8 m rx_packet_error_reg) _ c
        (read_counter d m based rx_packet_error_reg (regs.rx_error c) c c (regs.rx_error_read c))
