-- ===== src/Examples/Data.antt =====
-- A frame for 192.168.2.1:8500 and the rule for it, and a card that is an array of registers.
use packet_filter.Base.{ℕ, ◌==◌, List, [], ◌∷◌, some, if◌then◌else◌, arith}
use packet_filter.Base.Range.{range, set_range}
use packet_filter.Base.Xor.{bit}
use packet_filter.Network
use packet_filter.Network.{NetworkPacket}
use packet_filter.Network.Ethernet
use packet_filter.Network.Ipv4
use packet_filter.Network.Udp
use packet_filter.Network.Wire.{wire}
use packet_filter.Hash
use packet_filter.Hash.{ToeplitzHash}
use packet_filter.Filter.{
  Config, Filter, decide_action, count_packet, filter_phit, idle_cycle, process_queue,
  process_packet, initial, step, run,
}
use packet_filter.Filter.Spec.{arrivals}
use packet_filter.Filter.Packets.{Beat}
use packet_filter.Mmio.{Driver, Mmio}
use packet_filter.Rules
use packet_filter.Rules.Written.{IsAddress}

-- The address as `inet_addr` gives it, and the port as `htons` does.
abbrev pub server_ip : ℕ
server_ip = 0x0102a8c0

abbrev pub server_port : ℕ
server_port = 0x3421

abbrev pub server : Config
server = record { ipv4_addr = server_ip; udp_port = server_port; action = 1 }

abbrev pub headers : NetworkPacket
headers = record {
  eth_hdr = record { dest_mac = 0x665544332211; src_mac = 0xffeeddccbbaa; eth_type = 0x0008 };
  ip_hdr = record {
    version = 5;
    ihl = 4;
    dscp_ecn = 0;
    total_length = 0x2400;
    identification = 0;
    flags = 0;
    fragment_offset = 0;
    ttl = 64;
    protocol = 17;
    header_checksum = 0;
    src_ip = 0x0202a8c0;
    dest_ip = server_ip;
  };
  udp_hdr = record { src_port = 0x3930; dest_port = server_port; length = 0x1000; checksum = 0 };
}

-- The same frame as bytes.
abbrev pub frame : List ℕ
frame =
    0x11 ∷ 0x22 ∷ 0x33 ∷ 0x44 ∷ 0x55 ∷ 0x66 ∷ 0xaa ∷ 0xbb ∷ 0xcc ∷ 0xdd ∷ 0xee ∷ 0xff ∷ 0x08 ∷ 0x00
    ∷ 0x45 ∷ 0 ∷ 0 ∷ 0x24 ∷ 0 ∷ 0 ∷ 0 ∷ 0 ∷ 64 ∷ 17 ∷ 0 ∷ 0 ∷ 192 ∷ 168 ∷ 2 ∷ 2 ∷ 192 ∷ 168 ∷ 2 ∷ 1
    ∷ 0x30 ∷ 0x39 ∷ 0x21 ∷ 0x34 ∷ 0 ∷ 0x10 ∷ 0 ∷ 0 ∷ 1 ∷ 2 ∷ 3 ∷ 4 ∷ 5 ∷ 6 ∷ 7 ∷ 8 ∷ []

-- All that the core computes with.
unfoldable pub core : Unit {0}
unfolding range set_range bit Network.serialize Network.deserialize Ethernet.serialize
    Ethernet.deserialize Ethernet.is_ipv4 Ethernet.bswap16 Ipv4.serialize Ipv4.deserialize
    Ipv4.is_udp Udp.serialize Udp.deserialize Hash.initial_key Hash.new Hash.get_window
    Hash.hash_rounds Hash.compute_hash Hash.index_of Hash.lookup Hash.insert decide_action
    count_packet filter_phit idle_cycle process_queue process_packet initial step run arrivals wire
core = tt

abbrev pub first_word : ℕ
first_word = wire frame

-- The core after one idle cycle on the rule.
abbrev pub ready : Filter
ready = idle_cycle server initial

abbrev pub table : ToeplitzHash
table = ready.hash_table

abbrev pub head_beat : Beat
head_beat = record { word = first_word; keep = 0xffffffff; user = 0 }

abbrev pub tail_beat : Beat
tail_beat = record { word = 0xabc; keep = 0xff; user = 0 }

-- A card with one port, whose registers are a function of their address.
abbrev pub card : Driver
card = record {
  Card = ℕ → ℕ;
  get_device = λ port. port == 0;
  count_avail = 1;
  get_bar_details = λ port. some 2;
  write_reg = λ port bar reg v c. λ r. if r == reg then v else c r;
  read_reg = λ port bar reg c. (c reg, c);
}

abbrev pub blank : ℕ → ℕ
blank reg = 0

abbrev pub mmio : Mmio
mmio = record { base_addr = Rules.base; port_id = 0; bar_id = 2 }

-- `inet_addr` at "192.168.2.1".
abbrev pub lookup_addr : List ℕ → ℕ
lookup_addr [] = Rules.inaddr_none
lookup_addr (c ∷ cs) = server_ip

pub lookup_addr-IsAddress : IsAddress lookup_addr
lookup_addr-IsAddress [] = omega arith
lookup_addr-IsAddress (c ∷ cs) = omega arith

abbrev pub server_text : List ℕ
server_text = b'1' ∷ b'9' ∷ b'2' ∷ b'.' ∷ b'1' ∷ b'6' ∷ b'8' ∷ b'.' ∷ b'2' ∷ b'.' ∷ b'1' ∷ []
