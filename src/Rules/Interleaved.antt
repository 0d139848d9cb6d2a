-- ===== src/Rules/Interleaved.antt =====
-- The writes of the constructor of `PacketFilter` between any cycles of the core and any phits
-- (software/src/packet_filter.cc and hardware/src/hls/packet_filter.cc).
pub mod Asked
pub mod Turns
pub mod Forwarded
pub mod Delivered
use packet_filter.Base.{ℕ, List, [], ◌∷◌, ◌++◌, ◌≡◌, ap, ◌∙◌, ◌⊎◌}
use packet_filter.Filter.{Config}
use packet_filter.Mmio.{Driver, Mmio}
use packet_filter.Mmio.Words.{address}
use packet_filter.Rules.{forward, htons, ipv4_addr_reg, udp_port_reg, rule_action_reg}
use packet_filter.Rules.Written.{IsAddress, htons-lt}
use packet_filter.Rules.Installed.{RuleRegisters, rule_writes-Config}
use packet_filter.Rules.Constructed.{Rule}

module _ (d : Driver) (m : Mmio) (inet_addr : List ℕ → ℕ) where
  -- The card after the first, the second and the third write of a rule, as `write_rule` makes them.
  abbrev pub ip_write : Rule → d.Card → d.Card
  ip_write r = d.write_reg m.port_id m.bar_id (address m ipv4_addr_reg) (inet_addr r.ip_str)

  abbrev pub port_write : Rule → d.Card → d.Card
  port_write r c =
      d.write_reg m.port_id m.bar_id (address m udp_port_reg) (htons r.port) (ip_write r c)

  abbrev pub action_write : Rule → d.Card → d.Card
  action_write r c = d.write_reg m.port_id m.bar_id (address m rule_action_reg) 1 (port_write r c)

  -- The card after each write of a list of rules.
  abbrev pub card_states : List Rule → d.Card → List d.Card
  card_states [] c = []
  card_states (r ∷ rs) c =
      ip_write r c ∷ port_write r c ∷ action_write r c ∷ card_states rs (action_write r c)

  abbrev pub rule_config : Rule → Config
  rule_config r = record { ipv4_addr = inet_addr r.ip_str; udp_port = htons r.port; action = 1 }

  module _ (is_address : IsAddress inet_addr) (regs : RuleRegisters d m) where
    pub ip_write-Config :
        (r : Rule) (c : d.Card)
        → regs.config_of (ip_write r c)
          ≡ record (regs.config_of c) { ipv4_addr = inet_addr r.ip_str }
    ip_write-Config r c = regs.ip_written (inet_addr r.ip_str) c (is_address r.ip_str)

    pub port_write-Config :
        (r : Rule) (c : d.Card)
        → regs.config_of (port_write r c)
          ≡ record (regs.config_of c) { ipv4_addr = inet_addr r.ip_str; udp_port = htons r.port }
    port_write-Config r c =
        regs.port_written (htons r.port) (ip_write r c) (htons-lt r.port)
        ∙ ap (λ (k : Config). record k { udp_port = htons r.port }) (ip_write-Config r c)

    pub action_write-Config :
        (r : Rule) (c : d.Card) → regs.config_of (action_write r c) ≡ rule_config r
    action_write-Config r c =
        rule_writes-Config d m regs (inet_addr r.ip_str) (htons r.port) forward c
          (is_address r.ip_str) (htons-lt r.port)
