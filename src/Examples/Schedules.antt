-- ===== src/Examples/Schedules.antt =====
-- The writes of the rules between cycles of the core.
use packet_filter.Base.{ℕ, true, List, [], map, ◌++◌, ◌∷◌, ◌≡◌, refl, arith}
use packet_filter.Hash
use packet_filter.Filter.{
  Phit, Config, Event, System, arrive, configure, cycle, initial, zero_counters, run,
}
use packet_filter.Mmio.{Mmio, done}
use packet_filter.Filter.Packets.{Packet, first, phits, closing, stream, admitted}
use packet_filter.Rules
use packet_filter.Rules.Interleaved.Delivered.{delivered}
use packet_filter.Examples.Host.{frame-IsFor}
use mathlib.Core.List.{Memᴰ}
use packet_filter.Filter.Kept.{IsTable}
use packet_filter.Filter.WellFormed.{IsCounted, IsWellFormed, run-IsWellFormed}
use packet_filter.Rules.Constructed.{Rule, rule_text, rules_written, filter_mmio}
use packet_filter.Rules.Paced.{lookup-initial}
use packet_filter.Rules.Interleaved.Asked.{IsAsked, only-IsAsked}
use packet_filter.Rules.Interleaved.Turns.{Turn, schedule}
use packet_filter.Options.{token_loop, filter_tokens}
use packet_filter.Options.Tokens.{filter_tokens-enough}
use packet_filter.Examples.Data.{
  core, server, server_ip, server_port, first_word, frame, head_beat, card, blank, lookup_addr,
  lookup_addr-IsAddress, server_text,
}
use packet_filter.Examples.Setup.{rules, rules-AreRules, card_rules}

abbrev m : Mmio
m = filter_mmio card lookup_addr lookup_addr-IsAddress 2

abbrev phit : Phit
phit = record { word = first_word; keep = 0xffffffff; user = 0; last = true }

zero-IsCounted : IsCounted zero_counters
zero-IsCounted = record {
  pkt_in = omega arith;
  phit_in = omega arith;
  pkt_forward = omega arith;
  pkt_drop = omega arith;
  balance = omega arith;
}

-- The first rule is written and stored; the second is still to come.
abbrev first_rule : List Event
first_rule =
    configure (record { ipv4_addr = server_ip; udp_port = 0; action = 0 })
    ∷ cycle
    ∷ configure (record { ipv4_addr = server_ip; udp_port = server_port; action = 0 })
    ∷ configure server
    ∷ cycle
    ∷ []

abbrev second_rule : List Config
second_rule =
    server
    ∷ record { ipv4_addr = server_ip; udp_port = 0x3500; action = 1 }
    ∷ record { ipv4_addr = server_ip; udp_port = 0x3500; action = 1 }
    ∷ []

only-IsAsked_example :
    (k q : ℕ) × IsAsked lookup_addr rules k q
    × (Hash.index_of initial.hash_table k q
        ≡ Hash.index_of initial.hash_table server_ip server_port)
only-IsAsked_example =
    only-IsAsked card m lookup_addr lookup_addr-IsAddress card_rules first_rule second_rule rules
      blank refl (unfold core in refl) server_ip server_port (unfold core in refl)

-- A phit arrives while the first rule is written, and is handled behind it.
abbrev busy_turn : Turn
busy_turn = record { before = []; between = arrive phit ∷ []; later = cycle ∷ []; behind = [] }

abbrev turns : List (Rule × Turn)
turns =
    (record { ip_str = server_text; port = 8500 }, busy_turn)
    ∷ (
      record { ip_str = server_text; port = 53 },
      record { before = []; between = []; later = []; behind = [] },
    )
    ∷ []

abbrev at_reset : System
at_reset = record { config = card_rules.config_of blank; filter = initial }

initial-IsTable : IsTable initial.hash_table initial.hash_table
unfolding initial Hash.new
initial-IsTable = record { same_key = refl; slots = refl }

-- A packet of one phit for the server.
abbrev packet : Packet
packet = record { body = []; final = head_beat }

abbrev at_work : System
at_work = run (schedule card m lookup_addr card_rules turns blank []) at_reset

abbrev sent : List Packet
sent = admitted at_work.filter.hash_table (packet ∷ [])

delivered_example :
    (Rules.new card lookup_addr 0xcafe (map rule_text rules) blank
      ≡ done m (rules_written card lookup_addr lookup_addr-IsAddress m rules blank))
    × ((run [] (run (arrive phit ∷ cycle ∷ []) at_work)).filter.m_axis
        ≡ at_work.filter.m_axis ++ stream sent)
    × Memᴰ packet sent
unfolding run
delivered_example =
    delivered card lookup_addr lookup_addr-IsAddress 0xcafe 2 refl (omega arith) refl card_rules
      initial.hash_table turns blank at_reset (arrive phit ∷ cycle ∷ []) 0
      (record { ip_str = server_text; port = 8500 }) frame (packet ∷ []) packet rules-AreRules
      initial-IsTable
      ((tt, tt, tt, tt), unfold core in refl, ((tt, tt, tt, tt), unfold core in refl, tt))
      (unfold core in refl) tt (unfold core stream phits closing in refl)
      (unfold core in omega arith) (Memᴰ.head refl) frame-IsFor (Memᴰ.head refl)
      (unfold first in refl)

reset-IsWellFormed : IsWellFormed initial
unfolding initial
reset-IsWellFormed = record {
  table = record { same_key = refl; slots = unfold Hash.new in refl };
  actions = λ ip port. let e = lookup-initial ip port in omega (arith, e);
  network = record {
    eth_valid = record { dest_mac = omega arith; src_mac = omega arith; eth_type = omega arith };
    ip_valid = record {
      version = omega arith;
      ihl = omega arith;
      dscp_ecn = omega arith;
      total_length = omega arith;
      identification = omega arith;
      flags = omega arith;
      fragment_offset = omega arith;
      ttl = omega arith;
      protocol = omega arith;
      header_checksum = omega arith;
      src_ip = omega arith;
      dest_ip = omega arith;
    };
    udp_valid = record {
      src_port = omega arith;
      dest_port = omega arith;
      length = omega arith;
      checksum = omega arith;
    };
  };
  local_stats = zero-IsCounted;
  stats = zero-IsCounted;
}

run-IsWellFormed_example :
    IsWellFormed (run (configure server ∷ cycle ∷ arrive phit ∷ cycle ∷ cycle ∷ []) at_reset).filter
run-IsWellFormed_example =
    run-IsWellFormed (configure server ∷ cycle ∷ arrive phit ∷ cycle ∷ cycle ∷ []) at_reset
      (omega arith) (omega arith, tt) reset-IsWellFormed

filter_tokens-enough_example :
    token_loop 9 b',' (b'a' ∷ b',' ∷ b'b' ∷ []) ≡ filter_tokens (b'a' ∷ b',' ∷ b'b' ∷ [])
filter_tokens-enough_example = filter_tokens-enough 9 (b'a' ∷ b',' ∷ b'b' ∷ []) (omega arith)
