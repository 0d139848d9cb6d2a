-- ===== src/Rules/Installed.antt =====
-- From the host's call to the core's verdict: a rule that `update_rule` wrote is in the table after
-- one idle cycle, and decides the frames for its address.
use packet_filter.Base.{
  ℕ, ◌+◌, ◌*◌, ◌%◌, ◌^◌, ◌<◌, Bool, true, false, ◌&&◌, ◌==◌, List, [], ◌∷◌, ◌++◌, ◌≡◌, ◌≢◌, ap, ◌∙◌,
  sym, ==_refl, take, drop, if◌then◌else◌, arith,
}
use native.Mathlib.Nat.{mod-eq_of_lt}
use packet_filter.Network
use packet_filter.Network.{NetworkPacket}
use packet_filter.Network.Ethernet.{bswap16}
use packet_filter.Network.Wire.{wire, IsBytes}
use packet_filter.Hash
use packet_filter.Hash.Slots.{HasSlots, lookup-insert}
use packet_filter.Filter.{Phit, Config, Filter, decide_action, idle_cycle, process_packet}
use packet_filter.Filter.Runs.{process_idle}
use packet_filter.Filter.Wire.{field, decide-frame}
use packet_filter.Text.Decimal.{decimal}
use packet_filter.Mmio.{Driver, done, Mmio}
use packet_filter.Mmio.Words.{address}
use packet_filter.Rules.{
  RuleAction, drop as drop_rule, forward, action_value, inaddr_none, htons, ipv4_addr_reg,
  udp_port_reg, rule_action_reg, update_rule,
}
use packet_filter.Rules.Written.{Without, IsAddress, rule_writes, update_rule-decimal, htons-lt}

-- The core's three register arguments behind the card's bus, as the generated interface has them:
-- a write to the register of one sets that one.
pub record RuleRegisters (d : Driver) (m : Mmio) : Type 0 where
  pub config_of : d.Card → Config
  pub ip_written :
      (v : ℕ) (c : d.Card)
      → v < 2 ^ 32
      → config_of (d.write_reg m.port_id m.bar_id (address m ipv4_addr_reg) v c)
        ≡ record (config_of c) { ipv4_addr = v }
  pub port_written :
      (v : ℕ) (c : d.Card)
      → v < 2 ^ 16
      → config_of (d.write_reg m.port_id m.bar_id (address m udp_port_reg) v c)
        ≡ record (config_of c) { udp_port = v }
  pub action_written :
      (v : ℕ) (c : d.Card)
      → v < 2 ^ 8
      → config_of (d.write_reg m.port_id m.bar_id (address m rule_action_reg) v c)
        ≡ record (config_of c) { action = v }

abbrev pub is_forward : RuleAction → Bool
is_forward drop_rule = false
is_forward forward = true

action_fits : (a : RuleAction) → action_value a < 2 ^ 8
action_fits drop_rule = omega arith
action_fits forward = omega arith

module _ (d : Driver) (m : Mmio) (regs : RuleRegisters d m) where
  pub rule_writes-Config :
      (ip port : ℕ) (a : RuleAction) (c : d.Card)
      → ip < 2 ^ 32
      → port < 2 ^ 16
      → regs.config_of (rule_writes d m ip port (action_value a) c)
        ≡ record { ipv4_addr = ip; udp_port = port; action = action_value a }
  rule_writes-Config ip port a c ip_fits port_fits =
      regs.action_written (action_value a) _ (action_fits a)
      ∙ ap (λ (k : Config). record k { action = action_value a })
          (regs.port_written port _ port_fits
            ∙ ap (λ (k : Config). record k { udp_port = port }) (regs.ip_written ip c ip_fits))

-- A table into which a rule was stored gives its action for its address.
lookup_stored :
    (cfg : Config) (f : Filter)
    → HasSlots f.hash_table
    → Hash.lookup (idle_cycle cfg f).hash_table cfg.ipv4_addr cfg.udp_port ≡ cfg.action
unfolding idle_cycle
lookup_stored cfg f slots =
    let slot = Hash.index_of f.hash_table cfg.ipv4_addr cfg.udp_port in
    lookup-insert f.hash_table cfg.ipv4_addr cfg.udp_port cfg.action cfg.ipv4_addr cfg.udp_port
      slots
    ∙ ap
        (λ (b : Bool).
          if b then cfg.action else Hash.lookup f.hash_table cfg.ipv4_addr cfg.udp_port)
        (==_refl slot)

-- The two bytes of a port, high byte first, read as the core reads them.
port_bytes : (hi lo n : ℕ) → hi < 256 → lo < 256 → hi * 256 + lo ≡ n → wire (hi ∷ lo ∷ []) ≡ htons n
unfolding wire bswap16
port_bytes hi lo n hi_fits lo_fits e = omega arith

abbrev test : Hash.ToeplitzHash → ℕ → ℕ → ℕ → ℕ → Bool
test t ethertype protocol ip port =
    ethertype == 0x0008 && protocol == 17 && Hash.lookup t ip port == 1

test_stored :
    (t : Hash.ToeplitzHash) (ip port : ℕ) (a : RuleAction)
    → Hash.lookup t ip port ≡ action_value a
    → test t 0x0008 17 ip port ≡ is_forward a
test_stored t ip port drop_rule found = ap (λ (v : ℕ). v == 1) found
test_stored t ip port forward found = ap (λ (v : ℕ). v == 1) found

-- A UDP frame for the address and the port of a rule.
pub record IsFor (frame : List ℕ) (ip n : ℕ) : Type 0 where
  pub bytes : IsBytes frame
  pub ethertype : field frame 12 2 ≡ 0x0008
  pub protocol : field frame 23 1 ≡ 17
  pub dest_ip : field frame 30 4 ≡ ip
  pub hi : ℕ
  pub lo : ℕ
  pub hi_byte : hi < 256
  pub lo_byte : lo < 256
  pub dest_port : take 2 (drop 36 frame) ≡ hi ∷ lo ∷ []
  pub port_number : hi * 256 + lo ≡ n

pub frame_test :
    (t : Hash.ToeplitzHash) (frame : List ℕ) (ip n : ℕ) (a : RuleAction)
    → IsFor frame ip n
    → Hash.lookup t ip (htons n) ≡ action_value a
    → test t (field frame 12 2) (field frame 23 1) (field frame 30 4) (field frame 36 2)
      ≡ is_forward a
frame_test t frame ip n a is_for found =
    ap (λ (x : ℕ). test t x (field frame 23 1) (field frame 30 4) (field frame 36 2))
      is_for.ethertype
    ∙ ap (λ (x : ℕ). test t 0x0008 x (field frame 30 4) (field frame 36 2)) is_for.protocol
    ∙ ap (λ (x : ℕ). test t 0x0008 17 x (field frame 36 2)) is_for.dest_ip
    ∙ ap (test t 0x0008 17 ip) (
        ap wire is_for.dest_port
        ∙ port_bytes is_for.hi is_for.lo n is_for.hi_byte is_for.lo_byte is_for.port_number)
    ∙ test_stored t ip (htons n) a found

-- The host calls `update_rule` with `<ip>:<port>`, `inet_addr` accepts the address, and the port is
-- a decimal number from 1 to 65535. Then the call ends normally, and once the core, its queue empty,
-- ran one cycle on the new registers, the first phit of any UDP frame for that address and port
-- (the address in the order of `inet_addr`, the port high byte first) is judged by the rule: the
-- action is forward if the rule says so, and not if it says drop.
pub update_rule-decides :
    (d : Driver) (m : Mmio) (regs : RuleRegisters d m) (inet_addr : List ℕ → ℕ)
    → m.base_addr ≢ 0
    → IsAddress inet_addr
    → (ip_str : List ℕ) (n : ℕ) (a : RuleAction) (c : d.Card) (f : Filter) (frame : List ℕ)
    → Without b':' ip_str
    → inet_addr ip_str ≢ inaddr_none
    → n ≢ 0
    → n < 2 ^ 16
    → IsFor frame (inet_addr ip_str) n
    → HasSlots f.hash_table
    → f.s_axis ≡ []
    → (c' : d.Card) × (update_rule d inet_addr m (ip_str ++ (b':' ∷ decimal 4 n)) a c ≡ done tt c')
      × ((old : NetworkPacket) (p : Phit)
          → p.word ≡ wire frame
          → let t = (process_packet (regs.config_of c') f).hash_table in
            (decide_action t (Network.deserialize old p.word 0) == 1) ≡ is_forward a)
update_rule-decides d m regs inet_addr based is_address ip_str n a c f frame free ip_ok pos fits
      is_for slots idle =
    (
      rule_writes d m ip (htons n) (action_value a) c,
      written,
      λ old p carried.
          decide-frame table old p frame is_for.bytes carried
          ∙ frame_test table frame ip n a is_for stored,
    )
  where
    ip : ℕ
    ip = inet_addr ip_str

    cfg : Config
    cfg = record { ipv4_addr = ip; udp_port = htons n; action = action_value a }

    low : n % 2 ^ 16 ≡ n
    low = mod-eq_of_lt fits

    written :
        update_rule d inet_addr m (ip_str ++ (b':' ∷ decimal 4 n)) a c
        ≡ done tt (rule_writes d m ip (htons n) (action_value a) c)
    written =
        update_rule-decimal d inet_addr m based is_address ip_str 4 n a c free ip_ok (omega arith)
          (omega arith) (λ e. pos (sym low ∙ e))
        ∙ ap (λ (k : ℕ). done tt (rule_writes d m ip (htons k) (action_value a) c)) low

    table : Hash.ToeplitzHash
    table =
        (process_packet (regs.config_of (rule_writes d m ip (htons n) (action_value a) c))
          f).hash_table

    same_table : table ≡ (idle_cycle cfg f).hash_table
    same_table =
        ap (λ (k : Config). (process_packet k f).hash_table)
          (rule_writes-Config d m regs ip (htons n) a c (is_address ip_str) (htons-lt n))
        ∙ ap (λ (g : Filter). g.hash_table) (process_idle cfg f idle)

    stored : Hash.lookup table ip (htons n) ≡ action_value a
    stored =
        ap (λ (t : Hash.ToeplitzHash). Hash.lookup t ip (htons n)) same_table
        ∙ lookup_stored cfg f slots
