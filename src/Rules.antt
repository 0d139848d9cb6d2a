-- ===== src/Rules.antt =====
-- software/src/packet_filter.cc and packet_filter.h, class `PacketFilter`: rules of the form
-- `<ip>:<port>` are written to the registers of the core. The messages of `log_info` are left out.
pub mod Written
pub mod Installed
pub mod Interrupted
pub mod Constructed
pub mod Paced
pub mod Interleaved
use packet_filter.Base.{
  ℕ, ◌+◌, ◌-◌, ◌*◌, ◌/◌, ◌%◌, ◌^◌, Bool, ◌==◌, not, List, [], ◌∷◌, Option, none, some,
}
use packet_filter.Network.Ethernet.{bswap16}
use packet_filter.Text.{split_at, stoi, Stoi, positive, negative, invalid_argument, out_of_range}
use packet_filter.Mmio
use packet_filter.Mmio.{
  Driver, Outcome, done, fatal, exception, Mmio, write, set_base_addr, log_assert, ◌>>=◌, ◌>>◌,
}

-- `OPENNIC_USER_250_BASE_ADDR + PACKET_FILTER_OFFSET`.
abbrev pub base : ℕ
base = 0x100000 + 0x2000

-- `RegisterMap`.
abbrev pub ipv4_addr_reg : ℕ
ipv4_addr_reg = 0x10

abbrev pub udp_port_reg : ℕ
udp_port_reg = 0x18

abbrev pub rule_action_reg : ℕ
rule_action_reg = 0x20

-- `RuleAction`.
pub data RuleAction : Type 0 where
  drop : RuleAction
  forward : RuleAction

abbrev pub action_value : RuleAction → ℕ
action_value drop = 0
action_value forward = 1

-- `INADDR_NONE`.
abbrev pub inaddr_none : ℕ
inaddr_none = 0xffffffff

-- `htons` on a little-endian host.
abbrev pub htons : ℕ → ℕ
htons x = bswap16 x

-- `static_cast<uint16_t>` of what `stoi` returned.
unfoldable pub port_of_stoi : {C : Type 0} → Stoi → C → Outcome C ℕ
port_of_stoi (positive n) c = done (n % 2 ^ 16) c
port_of_stoi (negative n) c = done ((2 ^ 16 - n % 2 ^ 16) % 2 ^ 16) c
port_of_stoi invalid_argument c = exception c
port_of_stoi out_of_range c = exception c

-- The two texts round the first colon; the end of the process without one.
unfoldable pub split_addr :
    {C : Type 0} → Option (List ℕ × List ℕ) → C → Outcome C (List ℕ × List ℕ)
split_addr none c = fatal c
split_addr (some parts) c = done parts c

-- `inet_addr` is the C library's.
module _ (d : Driver) (inet_addr : List ℕ → ℕ) (m : Mmio) where
  open d use {Card}

  unfoldable pub write_rule : ℕ → ℕ → ℕ → Card → Outcome Card (Unit {0})
  write_rule ip port action = do
    write d 4 m ipv4_addr_reg ip
    write d 2 m udp_port_reg port
    write d 1 m rule_action_reg (action % 2 ^ 8)

  -- Without the line that it logs first.
  unfoldable pub update_rule : List ℕ → RuleAction → Card → Outcome Card (Unit {0})
  update_rule net_addr action = do
    (ip_str, port_str) ← split_addr (split_at b':' net_addr)
    let ip = inet_addr ip_str
    log_assert (not (ip == inaddr_none))
    number ← port_of_stoi (stoi port_str)
    let port = htons number
    log_assert (not (port == 0))
    write_rule ip port (action_value action)

  -- The loop of the constructor over `filter_list`.
  unfoldable pub forward_all : List (List ℕ) → Card → Outcome Card (Unit {0})
  forward_all [] = done tt
  forward_all (filter ∷ filters) = do update_rule filter forward; forward_all filters

-- The constructor.
unfoldable pub new : (d : Driver) → (List ℕ → ℕ) → ℕ → List (List ℕ) → d.Card → Outcome d.Card Mmio
new d inet_addr garbage filter_list = do
  mmio ← Mmio.new d garbage 0
  let m = set_base_addr base mmio
  forward_all d inet_addr m filter_list
  done m
