-- ===== src/Examples/Received.antt =====
-- The statistics and the packets that the host receives.
use packet_filter.Base.{
  ℕ, zero, suc, ◌+◌, ◌/◌, ◌%◌, ◌^◌, ◌≤◌, ◌<◌, true, false, ◌==◌, ltb, List, [], ◌∷◌, some, ◌≡◌, ◌↔◌,
  refl, if◌then◌else◌, get_or, arith,
}
use packet_filter.Network.Wire.{IsBytes}
use packet_filter.Hash
use packet_filter.Filter.{
  Counters, System, Event, arrive, configure, cycle, initial, process_packet, run,
}
use packet_filter.Filter.Spec.{arrivals}
use packet_filter.Filter.Packets.{phit_of}
use packet_filter.Filter.Statistics.{packets}
use packet_filter.Filter.Wire.{field}
use packet_filter.Mmio.{Driver, done, read}
use packet_filter.Rules.{htons}
use packet_filter.Stats.Core.{StatsRegisters, show_stats}
use packet_filter.Stats.Printed.{report, show_stats-run}
use packet_filter.Stats.Torn.{torn_read}
use packet_filter.Handler.{
  Mbuf, Rte, IsWire, be16, be32, success, failure, too_long, network_packet_handler,
}
use packet_filter.Handler.Print.{Memory}
use packet_filter.Handler.Texts.{AreBytes}
use packet_filter.Handler.Frame.{IsFlat, shown_len, frame_report, frame_verdict, handler-frame}
use packet_filter.Handler.Payload.{payload_within}
use packet_filter.Handler.Forwarded.{Holds, forwarded_is_reported}
use packet_filter.Examples.Data.{server, headers, frame, core, table, head_beat, tail_beat, mmio}

-- A card that has the counters of the core in its registers, and counters at other addresses.
abbrev counter_word : ℕ → Counters → ℕ
counter_word reg k =
    if reg == 0x102028
    then k.pkt_in % 2 ^ 32
    else if reg == 0x10202c
    then k.pkt_in / 2 ^ 32 % 2 ^ 32
    else if reg == 0x102040
    then k.phit_in % 2 ^ 32
    else if reg == 0x102044
    then k.phit_in / 2 ^ 32 % 2 ^ 32
    else if reg == 0x102058
    then k.pkt_forward % 2 ^ 32
    else if reg == 0x10205c
    then k.pkt_forward / 2 ^ 32 % 2 ^ 32
    else if reg == 0x102070
    then k.pkt_drop % 2 ^ 32
    else if reg == 0x102074
    then k.pkt_drop / 2 ^ 32 % 2 ^ 32
    else 0

abbrev counters : Driver
counters = record {
  Card = Counters;
  get_device = λ port. port == 0;
  count_avail = 1;
  get_bar_details = λ port. some 2;
  write_reg = λ port bar reg v k. k;
  read_reg = λ port bar reg k. (counter_word reg k, k);
}

counters_regs : StatsRegisters counters mmio
counters_regs = record {
  stats_of = λ k. k;
  pkt_in_read = λ k. record { between = k; low = refl; high = refl };
  phit_in_read = λ k. record { between = k; low = refl; high = refl };
  pkt_forward_read = λ k. record { between = k; low = refl; high = refl };
  pkt_drop_read = λ k. record { between = k; low = refl; high = refl };
}

-- A packet for the rule and another one, both handled.
abbrev traffic : List Event
traffic =
    configure server
    ∷ cycle
    ∷ arrive (phit_of false head_beat)
    ∷ arrive (phit_of true tail_beat)
    ∷ cycle
    ∷ arrive (phit_of true tail_beat)
    ∷ cycle
    ∷ cycle
    ∷ []

abbrev later : System
later = run traffic (record { config = server; filter = initial })

abbrev published : Counters
published = (process_packet later.config later.filter).stats

show_stats-run_example :
    (packets later.filter.m_axis ≤ packets (arrivals traffic))
    × (show_stats counters mmio published
        ≡ done (report (packets (arrivals traffic)) (packets later.filter.m_axis)) published)
unfolding counters_regs
show_stats-run_example =
    show_stats-run counters mmio counters_regs (omega arith) traffic server published
      (unfold core in refl) refl (unfold core packets in omega arith)

-- Two packets ended, and one of them was forwarded.
packets_counted : (packets (arrivals traffic) ≡ 2) × (packets later.filter.m_axis ≡ 1)
unfolding core packets
packets_counted = (refl, refl)

-- A card with one counter, which steps from `2 ^ 32 - 1` to `2 ^ 32` behind the first read.
abbrev torn : Driver
torn = record {
  Card = ℕ;
  get_device = λ port. port == 0;
  count_avail = 1;
  get_bar_details = λ port. some 2;
  write_reg = λ port bar reg v k. k;
  read_reg =
      λ port bar reg k. if reg == 0x102028 then (k % 2 ^ 32, k + 1) else (k / 2 ^ 32 % 2 ^ 32, k);
}

torn_read_example :
    (value : ℕ) × (read torn 8 mmio 0x28 0xffffffff ≡ done value 0x100000000)
    × (0xffffffff ≤ value)
    × ((value ≤ 0x100000000) ↔ (0xffffffff % 2 ^ 32 ≤ 0x100000000 % 2 ^ 32))
torn_read_example =
    torn_read torn mmio (omega arith) 0x28 0xffffffff 0x100000000 0xffffffff 0x100000000
      (omega arith) (omega arith) (record { between = 0x100000000; low = refl; high = refl })

-- The structs as bytes, on a machine whose numbers have the first byte highest.
abbrev pub rte : Rte
rte = record {
  sizeof_ether_hdr = 14;
  sizeof_ipv4_hdr = 20;
  sizeof_udp_hdr = 8;
  ether_type_ipv4 = 0x0800;
  be_to_cpu_16 = λ v. v;
  be_to_cpu_32 = λ v. v;
  ether_type = λ p. be16 p 12;
  ether_src = λ p i. p (6 + i);
  ether_dst = λ p i. p i;
  next_proto_id = λ p. p 9;
  total_length = λ p. be16 p 2;
  ip_src = λ p. be32 p 12;
  ip_dst = λ p. be32 p 16;
  src_port = λ p. be16 p 0;
  dst_port = λ p. be16 p 2;
  dgram_len = λ p. be16 p 4;
}

pub rte-IsWire : IsWire rte
rte-IsWire = record {
  ether_size = refl;
  ipv4_size = refl;
  udp_size = refl;
  ipv4_type = refl;
  ether_type = λ p. refl;
  ether_src = λ p i. refl;
  ether_dst = λ p i. refl;
  next_proto_id = λ p. refl;
  total_length = λ p. refl;
  ip_src = λ p. refl;
  ip_dst = λ p. refl;
  src_port = λ p. refl;
  dst_port = λ p. refl;
  dgram_len = λ p. refl;
}

-- The frame in memory, with 0 behind it.
abbrev pub buf : Memory
buf i = get_or frame i 0

get_or-byte : (bs : List ℕ) (i : ℕ) → IsBytes bs → get_or bs i 0 < 256
get_or-byte [] i h = omega arith
get_or-byte (b ∷ bs) zero h = h.0
get_or-byte (b ∷ bs) (suc i) h = get_or-byte bs i h.1

pub buf-AreBytes : AreBytes buf
buf-AreBytes i = get_or-byte frame i (omega arith)

abbrev pub mbuf : Mbuf
mbuf = record { pkt_len = 50; mtod_offset = λ o. some (λ i. buf (o + i)) }

pub mbuf-IsFlat : IsFlat mbuf buf
mbuf-IsFlat o = refl

handler-frame_example : network_packet_handler rte 3 (some mbuf) ≡ frame_verdict 3 buf 50
handler-frame_example = handler-frame rte rte-IsWire 3 buf buf-AreBytes mbuf mbuf-IsFlat

payload_within_example :
    (network_packet_handler rte 3 (some mbuf) ≡ success (frame_report 3 buf))
    × ((42 + shown_len (be16 buf 38) ≤ 50) ↔ (8 ≤ be16 buf 38))
payload_within_example =
    payload_within rte rte-IsWire 3 buf buf-AreBytes mbuf mbuf-IsFlat refl refl (omega arith)
      (omega arith)

buf-Holds : Holds buf frame
buf-Holds = record { bytes = buf-AreBytes; headers = λ i h. refl }

forwarded_is_reported_example :
    (network_packet_handler rte 3 (some mbuf) ≡ (
      if ltb 50 (34 + be16 buf 38)
      then failure (too_long (34 + be16 buf 38) 50 ∷ [])
      else success (frame_report 3 buf)))
    × (Hash.lookup table (field frame 30 4) (htons (be16 buf 36)) ≡ 1)
forwarded_is_reported_example =
    forwarded_is_reported buf frame buf-Holds rte rte-IsWire 3 mbuf table headers
      (phit_of false head_beat) mbuf-IsFlat (omega arith) refl (unfold core in refl)
