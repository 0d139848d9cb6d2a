-- ===== src/Examples/Host.antt =====
-- The host's side, over a card that is an array of registers.
use packet_filter.Base.{
  ℕ, Bool, true, ◌==◌, ◌∷◌, ◌++◌, ◌≡◌, ◌≢◌, refl, ap, if◌then◌else◌, ==_refl, ne→==, sym, arith,
}
use packet_filter.Network
use packet_filter.Network.{NetworkPacket}
use packet_filter.Network.Wire.{wire}
use packet_filter.Hash
use packet_filter.Filter.{Phit, decide_action, process_packet, initial}
use packet_filter.Text.Decimal.{decimal}
use packet_filter.Mmio
use packet_filter.Mmio.{Driver, Outcome, done, fatal, exception, Mmio}
use packet_filter.Mmio.Words.{IsMemory, read-write}
use packet_filter.Rules.{forward, htons, update_rule}
use packet_filter.Rules.Written.{
  WholeOrNothing, rule_writes, update_rule-decimal, update_rule-WholeOrNothing,
}
use packet_filter.Rules.Installed.{RuleRegisters, IsFor, update_rule-decides}
use packet_filter.Rules.Interrupted.{interrupted_update}
use packet_filter.Network.Ethernet.{bswap16}
use packet_filter.Base.Range.{range, set_range}
use packet_filter.Base.Xor.{bit}
use packet_filter.Examples.Data.{
  server_ip, server_port, frame, card, blank, mmio, lookup_addr, lookup_addr-IsAddress, server_text,
}

card-IsMemory : IsMemory card
card-IsMemory = record {
  regs = λ port bar reg c. c reg;
  read_regs = λ port bar reg c. refl;
  write_same = λ port bar reg v c h. ap (λ (b : Bool). if b then v else c reg) (==_refl reg);
  write_other = λ port bar reg other v c h.
      ap (λ (b : Bool). if b then v else c other) (ne→== other reg (λ e. h (sym e)));
}

read-write_example :
    (c' : ℕ → ℕ) × (Mmio.write card 8 mmio 0x28 0x123456789abcdef0 blank ≡ done tt c')
    × (Mmio.read card 8 mmio 0x28 c' ≡ done 0x123456789abcdef0 c')
read-write_example =
    read-write card card-IsMemory mmio (omega arith) 8 0x28 0x123456789abcdef0 blank (omega arith)
      (omega arith)

update_rule-decimal_example :
    update_rule card lookup_addr mmio (server_text ++ (b':' ∷ decimal 4 8500)) forward blank
    ≡ done tt (rule_writes card mmio server_ip (htons 8500) 1 blank)
update_rule-decimal_example =
    update_rule-decimal card lookup_addr mmio (omega arith) lookup_addr-IsAddress server_text 4 8500
      forward blank (omega arith) (omega arith) (omega arith) (omega arith) (omega arith)

update_rule-WholeOrNothing_example :
    WholeOrNothing card mmio 1 blank (update_rule card lookup_addr mmio server_text forward blank)
update_rule-WholeOrNothing_example =
    update_rule-WholeOrNothing card lookup_addr mmio (omega arith) lookup_addr-IsAddress server_text
      forward blank

card_rules : RuleRegisters card mmio
card_rules = record {
  config_of = λ c. record { ipv4_addr = c 0x102010; udp_port = c 0x102018; action = c 0x102020 };
  ip_written = λ v c h. refl;
  port_written = λ v c h. refl;
  action_written = λ v c h. refl;
}

pub frame-IsFor : IsFor frame server_ip 8500
frame-IsFor = record {
  bytes = omega arith;
  ethertype = unfold wire in refl;
  protocol = unfold wire in refl;
  dest_ip = unfold wire in refl;
  hi = 0x21;
  lo = 0x34;
  hi_byte = omega arith;
  lo_byte = omega arith;
  dest_port = refl;
  port_number = refl;
}

update_rule-decides_example :
    (c' : ℕ → ℕ) × (update_rule card lookup_addr mmio
        (server_text ++ (b':' ∷ decimal 4 8500))
        forward
        blank
      ≡ done tt c')
    × ((old : NetworkPacket) (p : Phit)
        → p.word ≡ wire frame
        → let t = (process_packet (card_rules.config_of c') initial).hash_table in
          (decide_action t (Network.deserialize old p.word 0) == 1) ≡ true)
update_rule-decides_example =
    update_rule-decides card mmio card_rules lookup_addr (omega arith) lookup_addr-IsAddress
      server_text 8500 forward blank initial frame (omega arith) (omega arith) (omega arith)
      (omega arith) frame-IsFor (unfold Hash.new initial in refl) (unfold initial in refl)

-- The card when the rule for port 8500 is installed.
abbrev configured : ℕ → ℕ
configured reg =
    if reg == 0x102010
    then server_ip
    else if reg == 0x102018
    then server_port
    else if reg == 0x102020
    then 1
    else 0

slots_apart :
    Hash.index_of initial.hash_table 0x5f02a8c0 (htons 8501)
    ≢ Hash.index_of initial.hash_table 0x5f02a8c0 server_port
unfolding initial bswap16 Hash.new Hash.index_of Hash.compute_hash Hash.hash_rounds Hash.get_window
    Hash.initial_key range set_range bit
slots_apart e = omega arith

interrupted_update_example :
    let old = card_rules.config_of configured in
    let half = card.write_reg 0 2 0x102010 0x5f02a8c0 configured in
    let whole = rule_writes card mmio 0x5f02a8c0 (htons 8501) 1 configured in
    let g =
      process_packet
        (card_rules.config_of whole)
        (process_packet (card_rules.config_of half) initial) in
    (Hash.lookup g.hash_table 0x5f02a8c0 (htons 8501) ≡ 1)
    × (Hash.lookup g.hash_table 0x5f02a8c0 old.udp_port ≡ old.action)
unfolding card_rules
interrupted_update_example =
    interrupted_update card mmio card_rules 0x5f02a8c0 (htons 8501) forward configured initial
      (omega arith) (unfold bswap16 in omega arith) (unfold initial Hash.new in refl)
      (unfold initial in refl) slots_apart
