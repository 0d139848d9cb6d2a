-- ===== src/Rules/Interrupted.antt =====
-- A rule reaches the core in three writes, and the core may run between them.
use packet_filter.Base.{
  ℕ, ◌<◌, ◌^◌, ◌≡◌, ◌≢◌, refl, ap, ◌∙◌, sym, if◌then◌else◌, Bool, [], ne→==, ==_refl,
}
use packet_filter.Hash
use packet_filter.Hash.{ToeplitzHash}
use packet_filter.Hash.Slots.{HasSlots, lookup-insert, insert-HasSlots, insert-key, index_of_congr}
use packet_filter.Filter.{Config, Filter, idle_cycle, process_packet}
use packet_filter.Filter.Runs.{process_idle}
use packet_filter.Mmio.{Driver, Mmio}
use packet_filter.Mmio.Words.{address}
use packet_filter.Rules.{RuleAction, action_value, ipv4_addr_reg}
use packet_filter.Rules.Written.{rule_writes}
use packet_filter.Rules.Installed.{RuleRegisters, rule_writes-Config}

-- Storing a rule keeps what the other slots hold.
lookup_other :
    (h : ToeplitzHash) (cfg : Config) (ip port : ℕ)
    → HasSlots h
    → Hash.index_of h cfg.ipv4_addr cfg.udp_port ≢ Hash.index_of h ip port
    → Hash.lookup (Hash.insert h cfg.ipv4_addr cfg.udp_port cfg.action) ip port
      ≡ Hash.lookup h ip port
lookup_other h cfg ip port slots other =
    lookup-insert h cfg.ipv4_addr cfg.udp_port cfg.action ip port slots
    ∙ ap (λ (b : Bool). if b then cfg.action else Hash.lookup h ip port)
        (ne→== (Hash.index_of h cfg.ipv4_addr cfg.udp_port) (Hash.index_of h ip port) other)

lookup_same :
    (h : ToeplitzHash) (cfg : Config)
    → HasSlots h
    → Hash.lookup (Hash.insert h cfg.ipv4_addr cfg.udp_port cfg.action) cfg.ipv4_addr cfg.udp_port
      ≡ cfg.action
lookup_same h cfg slots =
    lookup-insert h cfg.ipv4_addr cfg.udp_port cfg.action cfg.ipv4_addr cfg.udp_port slots
    ∙ ap (λ (b : Bool). if b then cfg.action else Hash.lookup h cfg.ipv4_addr cfg.udp_port)
        (==_refl (Hash.index_of h cfg.ipv4_addr cfg.udp_port))

module _ (d : Driver) (m : Mmio) (regs : RuleRegisters d m) where
  -- The host writes a rule while the core, its queue empty, runs one cycle after the first of the
  -- three writes and one after the last. If the new address with the new port and with the old port
  -- fall into different slots, then the new rule is stored, and so is one that nobody asked for: the
  -- new address with the old port has the old action.
  pub interrupted_update :
      (ip port : ℕ) (a : RuleAction) (c : d.Card) (f : Filter)
      → ip < 2 ^ 32
      → port < 2 ^ 16
      → HasSlots f.hash_table
      → f.s_axis ≡ []
      → let old = regs.config_of c in
        Hash.index_of f.hash_table ip port ≢ Hash.index_of f.hash_table ip old.udp_port
        → let half = d.write_reg m.port_id m.bar_id (address m ipv4_addr_reg) ip c in
          let whole = rule_writes d m ip port (action_value a) c in
          let g = process_packet (regs.config_of whole) (process_packet (regs.config_of half) f) in
          (Hash.lookup g.hash_table ip port ≡ action_value a)
          × (Hash.lookup g.hash_table ip (regs.config_of c).udp_port ≡ (regs.config_of c).action)
  interrupted_update ip port a c f ip_fits port_fits slots idle apart = (
    ap (λ (t : ToeplitzHash). Hash.lookup t ip port) tables
        ∙ lookup_same after_half new after_slots,
    ap (λ (t : ToeplitzHash). Hash.lookup t ip old.udp_port) tables
        ∙ lookup_other after_half new ip old.udp_port after_slots
            (λ e. apart (here ip port ∙ e ∙ sym (here ip old.udp_port)))
        ∙ lookup_same f.hash_table mixed slots,
  )
    where
      old : Config
      old = regs.config_of c

      mixed : Config
      mixed = record old { ipv4_addr = ip }

      new : Config
      new = record { ipv4_addr = ip; udp_port = port; action = action_value a }

      after_half : ToeplitzHash
      after_half = Hash.insert f.hash_table ip old.udp_port old.action

      after_slots : HasSlots after_half
      after_slots = insert-HasSlots f.hash_table ip old.udp_port old.action slots

      here : (i p : ℕ) → Hash.index_of f.hash_table i p ≡ Hash.index_of after_half i p
      here i p = sym (
          index_of_congr after_half f.hash_table i p
            (insert-key f.hash_table ip old.udp_port old.action))

      first :
          process_packet
            (regs.config_of (d.write_reg m.port_id m.bar_id (address m ipv4_addr_reg) ip c))
            f
          ≡ idle_cycle mixed f
      first =
          ap (λ (k : Config). process_packet k f) (regs.ip_written ip c ip_fits)
          ∙ process_idle mixed f idle

      still_idle : (idle_cycle mixed f).s_axis ≡ []
      still_idle = unfold idle_cycle in idle

      second :
          process_packet
            (regs.config_of (rule_writes d m ip port (action_value a) c))
            (idle_cycle mixed f)
          ≡ idle_cycle new (idle_cycle mixed f)
      second =
          ap (λ (k : Config). process_packet k (idle_cycle mixed f))
            (rule_writes-Config d m regs ip port a c ip_fits port_fits)
          ∙ process_idle new (idle_cycle mixed f) still_idle

      stored :
          (idle_cycle new (idle_cycle mixed f)).hash_table
          ≡ Hash.insert after_half ip port (action_value a)
      stored = unfold idle_cycle in refl

      tables :
          (process_packet (regs.config_of (rule_writes d m ip port (action_value a) c)) (
            process_packet
              (regs.config_of (d.write_reg m.port_id m.bar_id (address m ipv4_addr_reg) ip c))
              f)).hash_table
          ≡ Hash.insert after_half ip port (action_value a)
      tables =
          ap
            (λ (g : Filter).
              (process_packet (regs.config_of (rule_writes d m ip port (action_value a) c))
                g).hash_table)
            first
          ∙ ap (λ (g : Filter). g.hash_table) second
          ∙ stored
