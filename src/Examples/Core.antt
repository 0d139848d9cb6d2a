-- ===== src/Examples/Core.antt =====
-- The core of the card.
use packet_filter.Base.{
  ℕ, ◌*◌, ◌/◌, ◌%◌, ◌^◌, ◌<◌, bit_xor, true, false, ◌&&◌, ◌==◌, List, [], ◌∷◌, ◌++◌, ◌≡◌, ◌↔◌, refl,
  if◌then◌else◌, replicate, arith,
}
use packet_filter.Base.Xor.{bit}
use packet_filter.Network
use packet_filter.Network.{NetworkPacket}
use packet_filter.Network.RoundTrip.{deserialize-serialize}
use packet_filter.Hash
use packet_filter.Hash.{ToeplitzHash}
use packet_filter.Hash.Slots.{lookup-insert}
use packet_filter.Hash.Toeplitz.{compute_hash-Toeplitz, matrix_row, key_input}
use packet_filter.Hash.Collisions.{same_slot_iff}
use packet_filter.Filter.{
  Phit, Config, Filter, System, Event, arrive, configure, cycle, decide_action, count_packet,
  filter_phit, idle_cycle, process_queue, process_packet, initial, step, run,
}
use packet_filter.Filter.Spec.{boundary, admits, arrivals}
use packet_filter.Filter.Refinement.{Refines}
use packet_filter.Filter.Runs.{idle_cycle-Settled, run-Refines}
use packet_filter.Filter.Packets.{
  Beat, Packet, closing, phits, phit_of, stream, admitted, run-stream,
}
use packet_filter.Filter.RuleChange.{rule_change_cuts}
use packet_filter.Filter.Statistics.Histories.{History, run-initial-History}
use packet_filter.Filter.Wire.{field, decide-frame}
use packet_filter.Examples.Data.{
  server_ip, server_port, server, headers, frame, core, first_word, ready, table, head_beat,
  tail_beat,
}

frame_is_headers : Network.deserialize headers first_word 0 ≡ headers
unfolding core
frame_is_headers = refl

headers-IsValid : Network.IsValid headers
headers-IsValid = record {
  eth_valid = omega arith;
  ip_valid = omega arith;
  udp_valid = omega arith;
}

deserialize-serialize_example :
    (Network.deserialize headers (Network.serialize headers 5 0) 0 ≡ headers)
    × (Network.serialize headers 5 0 / 2 ^ (8 * Network.size) ≡ 5 / 2 ^ (8 * Network.size))
    × (Network.serialize headers 5 3 ≡ 5)
    × (Network.deserialize headers 5 3 ≡ headers)
deserialize-serialize_example = deserialize-serialize headers headers 5 2 headers-IsValid

compute_hash-Toeplitz_example :
    (Hash.compute_hash Hash.new server_ip server_port < 2 ^ 32)
    × ((j : ℕ)
        → j < 32
        → bit (Hash.compute_hash Hash.new server_ip server_port) j
          ≡ matrix_row Hash.initial_key (key_input server_ip server_port) j 48 % 2)
unfolding Hash.new
compute_hash-Toeplitz_example = compute_hash-Toeplitz Hash.new server_ip server_port (omega arith)

lookup-insert_example :
    Hash.lookup (Hash.insert Hash.new server_ip server_port 1) 0x0302a8c0 server_port ≡ (
      if Hash.index_of Hash.new server_ip server_port
        == Hash.index_of Hash.new 0x0302a8c0 server_port
      then 1
      else Hash.lookup Hash.new 0x0302a8c0 server_port)
lookup-insert_example =
    lookup-insert Hash.new server_ip server_port 1 0x0302a8c0 server_port (unfold Hash.new in refl)

same_slot_iff_example :
    (Hash.index_of Hash.new (bit_xor server_ip 0x0f) (bit_xor server_port 1)
      ≡ Hash.index_of Hash.new server_ip server_port)
    ↔ (Hash.index_of Hash.new 0x0f 1 ≡ 0)
same_slot_iff_example = same_slot_iff Hash.new server_ip 0x0f server_port 1

-- Two phits for the rule, and one phit of another frame.
abbrev packets : List Packet
packets =
    record { body = head_beat ∷ []; final = tail_beat }
    ∷ record { body = []; final = tail_beat }
    ∷ []

abbrev schedule : List Event
schedule =
    arrive (phit_of false head_beat)
    ∷ arrive (phit_of true tail_beat)
    ∷ cycle
    ∷ arrive (phit_of true tail_beat)
    ∷ []

abbrev system : System
system = record { config = server; filter = ready }

run-Refines_example : Refines table boundary (arrivals schedule) ready (run schedule system).filter
run-Refines_example =
    run-Refines schedule system table boundary tt (idle_cycle-Settled server initial) refl
      (unfold initial idle_cycle in refl)

run-stream_example :
    let f = (run (replicate 3 cycle) (run schedule system)).filter in
    (f.s_axis ≡ []) × (f.m_axis ≡ ready.m_axis ++ stream (admitted table packets))
run-stream_example =
    run-stream schedule 3 system table packets tt (idle_cycle-Settled server initial) refl
      (unfold initial idle_cycle in refl) (unfold core stream phits closing in refl)
      (unfold core in omega arith)

-- The frame for the rule passes whole, and the other one does not pass.
passes : stream (admitted table packets) ≡ phit_of false head_beat ∷ phit_of true tail_beat ∷ []
unfolding core stream admitted admits phits closing packet_filter.Filter.Packets.first
passes = refl

abbrev history : List Event
history = configure server ∷ cycle ∷ schedule

run-initial-History_example :
    History (arrivals history) (run history (record { config = server; filter = initial })).filter
run-initial-History_example = run-initial-History history server

-- Two phits were counted as one.
counts_packets :
    (run (cycle ∷ cycle ∷ cycle ∷ []) (run schedule system)).filter.local_stats.phit_in ≡ 2
unfolding core
counts_packets = refl

-- The first phit of a packet was handled; the host has changed the rule to drop.
abbrev halfway : System
halfway = record {
  config = record server { action = 0 };
  filter = record ready { phit_idx = 1; network = headers };
}

rule_change_cuts_example :
    (run (cycle ∷ arrive (phit_of true tail_beat) ∷ cycle ∷ []) halfway).filter.m_axis
    ≡ ready.m_axis ++ []
rule_change_cuts_example =
    rule_change_cuts (arrive (phit_of true tail_beat) ∷ cycle ∷ []) halfway [] tail_beat
      (unfold core in refl) (unfold core in refl) (omega arith) (unfold core in refl) refl tt
      (unfold core closing in refl) (unfold core in refl)

decide-frame_example : (decide_action table (Network.deserialize headers first_word 0) == 1) ≡ (
    field frame 12 2 == 0x0008
    && field frame 23 1 == 17
    && Hash.lookup table (field frame 30 4) (field frame 36 2) == 1)
decide-frame_example = decide-frame table headers (phit_of false head_beat) frame (omega arith) refl
