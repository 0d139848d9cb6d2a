-- ===== src/Filter.antt =====
-- hardware/src/hls/packet_filter.cc: `process_packet`, called once a cycle, and the cycles around it.
pub mod Spec
pub mod Refinement
pub mod Runs
pub mod Packets
pub mod RuleChange
pub mod Install
pub mod Origin
pub mod Kept
pub mod WellFormed
pub mod Wire
pub mod Statistics
use packet_filter.Base.{
  ℕ, ◌+◌, ◌%◌, ◌^◌, Bool, true, false, List, [], ◌∷◌, ◌++◌, ◌&&◌, ◌==◌, if◌then◌else◌,
}
use packet_filter.Network
use packet_filter.Network.{NetworkPacket}
use packet_filter.Network.Ethernet
use packet_filter.Network.Ipv4
use packet_filter.Hash
use packet_filter.Hash.{ToeplitzHash}

-- `axis_250_t`: one beat of the bus. The code copies no `strb`.
pub record Phit : Type 0 where
  pub word : ℕ
  pub keep : ℕ
  pub user : ℕ
  pub last : Bool

-- `statistics_t`, four counters of 64 bits.
pub record Counters : Type 0 where
  pub pkt_in : ℕ
  pub phit_in : ℕ
  pub pkt_forward : ℕ
  pub pkt_drop : ℕ

-- The registers that the host writes.
pub record Config : Type 0 where
  pub ipv4_addr : ℕ
  pub udp_port : ℕ
  pub action : ℕ

-- The two streams, the static variables of `process_packet` and its output `stats`. An arriving
-- phit stands at the end of `s_axis`; `m_axis` keeps all that was sent.
pub record Filter : Type 0 where
  pub s_axis : List Phit
  pub m_axis : List Phit
  pub hash_table : ToeplitzHash
  pub local_stats : Counters
  pub phit_idx : ℕ
  pub network : NetworkPacket
  pub stats : Counters

-- `x++` and `x += n` on `uint64_t`.
abbrev pub add64 : ℕ → ℕ → ℕ
add64 x n = (x + n) % 2 ^ 64

-- `table_action` for the headers in `network`.
unfoldable pub decide_action : ToeplitzHash → NetworkPacket → ℕ
decide_action hash_table network =
    if Ethernet.is_ipv4 network.eth_hdr && Ipv4.is_udp network.ip_hdr
    then Hash.lookup hash_table network.ip_hdr.dest_ip network.udp_hdr.dest_port
    else 0

-- The counting at the last phit of a packet; `phit_idx` is already that of the next phit.
unfoldable pub count_packet : ℕ → ℕ → Counters → Counters
count_packet table_action phit_idx c = record {
  pkt_in = add64 c.pkt_in 1;
  phit_in = add64 c.phit_in (phit_idx + 1);
  pkt_forward = if table_action == 1 then add64 c.pkt_forward 1 else c.pkt_forward;
  pkt_drop = if table_action == 1 then c.pkt_drop else add64 c.pkt_drop 1;
}

abbrev pub outgoing : Phit → Phit
outgoing p = record { word = p.word; keep = p.keep; user = p.user; last = p.last }

-- The rest of `process_packet`, once a phit was taken from `s_axis`.
unfoldable pub filter_phit : Phit → Filter → Filter
filter_phit incoming f =
    let network = Network.deserialize f.network incoming.word f.phit_idx in
    let table_action = decide_action f.hash_table network in
    let phit_idx : ℕ = if incoming.last then 0 else f.phit_idx + 1 in
    record f {
      m_axis = if table_action == 1 then f.m_axis ++ (outgoing incoming ∷ []) else f.m_axis;
      local_stats =
          if incoming.last then count_packet table_action phit_idx f.local_stats else f.local_stats;
      phit_idx = phit_idx;
      network = network;
    }

-- An idle cycle: the rule in the registers is stored, and the counters are published.
unfoldable pub idle_cycle : Config → Filter → Filter
idle_cycle cfg f = record f {
  hash_table = Hash.insert f.hash_table cfg.ipv4_addr cfg.udp_port cfg.action;
  stats = f.local_stats;
}

-- `process_packet`, with what `s_axis` holds.
unfoldable pub process_queue : Config → Filter → List Phit → Filter
process_queue cfg f [] = idle_cycle cfg f
process_queue cfg f (incoming ∷ rest) = filter_phit incoming (record f { s_axis = rest })

unfoldable pub process_packet : Config → Filter → Filter
process_packet cfg f = process_queue cfg f f.s_axis

abbrev pub zero_counters : Counters
zero_counters = record { pkt_in = 0; phit_in = 0; pkt_forward = 0; pkt_drop = 0 }

abbrev pub zero_network : NetworkPacket
zero_network = record {
  eth_hdr = record { dest_mac = 0; src_mac = 0; eth_type = 0 };
  ip_hdr = record {
    version = 0;
    ihl = 0;
    dscp_ecn = 0;
    total_length = 0;
    identification = 0;
    flags = 0;
    fragment_offset = 0;
    ttl = 0;
    protocol = 0;
    header_checksum = 0;
    src_ip = 0;
    dest_ip = 0;
  };
  udp_hdr = record { src_port = 0; dest_port = 0; length = 0; checksum = 0 };
}

-- Static variables start as zeros.
unfoldable pub initial : Filter
initial = record {
  s_axis = [];
  m_axis = [];
  hash_table = Hash.new;
  local_stats = zero_counters;
  phit_idx = 0;
  network = zero_network;
  stats = zero_counters;
}

-- What may happen around the core: a phit arrives, the host changes the registers, a cycle runs.
pub data Event : Type 0 where
  arrive : Phit → Event
  configure : Config → Event
  cycle : Event

pub record System : Type 0 where
  pub config : Config
  pub filter : Filter

unfoldable pub step : Event → System → System
step (arrive p) s = record s { filter = record (s.filter) { s_axis = s.filter.s_axis ++ (p ∷ []) } }
step (configure c) s = record s { config = c }
step cycle s = record s { filter = process_packet s.config s.filter }

unfoldable pub run : List Event → System → System
run [] s = s
run (e ∷ es) s = run es (step e s)
