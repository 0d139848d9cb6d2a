-- ===== src/Handler.antt =====
-- software/src/main.cc, `network_packet_handler`: what the host does with a packet that the card
-- passed on. A log line is a value of `Entry`: what it prints, in the order of its format.
pub mod Print
pub mod Texts
pub mod Frame
pub mod Payload
pub mod Forwarded
pub mod Messages
pub mod Overflow
pub mod Reported
use packet_filter.Base.{
  ℕ, ◌+◌, ◌-◌, ◌*◌, ◌%◌, ◌^◌, ◌≡◌, ◌==◌, ltb, not, if◌then◌else◌, List, [], ◌∷◌, Option, none, some,
}
use Print.{Memory, convert_mac_to_str, convert_ip_to_str, convert_bin_to_str}

-- `rte_mbuf`: its length by `rte_pktmbuf_pkt_len`, and the pointer that `rte_pktmbuf_mtod_offset`
-- gives for an offset, `none` for a null pointer.
pub record Mbuf : Type 0 where
  pub pkt_len : ℕ
  pub mtod_offset : ℕ → Option Memory

-- What the handler uses of DPDK's headers: sizes, constants, byte order and the fields of the
-- structs, read through a pointer to the struct.
pub record Rte : Type 0 where
  pub sizeof_ether_hdr : ℕ
  pub sizeof_ipv4_hdr : ℕ
  pub sizeof_udp_hdr : ℕ
  pub ether_type_ipv4 : ℕ
  pub be_to_cpu_16 : ℕ → ℕ
  pub be_to_cpu_32 : ℕ → ℕ
  pub ether_type : Memory → ℕ
  pub ether_src : Memory → Memory
  pub ether_dst : Memory → Memory
  pub next_proto_id : Memory → ℕ
  pub total_length : Memory → ℕ
  pub ip_src : Memory → ℕ
  pub ip_dst : Memory → ℕ
  pub src_port : Memory → ℕ
  pub dst_port : Memory → ℕ
  pub dgram_len : Memory → ℕ

-- `IPPROTO_UDP`.
abbrev pub ipproto_udp : ℕ
ipproto_udp = 17

pub data Entry : Type 0 where
  no_ether_header no_ipv4_header no_udp_header no_udp_payload : Entry
  non_ipv4 non_udp : Entry
  too_long : ℕ → ℕ → Entry
  received : ℕ → Entry
  ether_line : List ℕ → List ℕ → ℕ → Entry
  ipv4_line : List ℕ → List ℕ → ℕ → ℕ → Entry
  udp_line : ℕ → ℕ → ℕ → Entry
  payload_line : ℕ → List ℕ → Entry

-- The return values 0 and -1, with the lines that were logged; or the end by `log_assert`.
pub data Handled : Type 0 where
  success : List Entry → Handled
  failure : List Entry → Handled
  aborted : Handled

module _ (rte : Rte) (thread_id : ℕ) where
  open rte use {
    sizeof_ether_hdr, sizeof_ipv4_hdr, sizeof_udp_hdr, ether_type_ipv4, be_to_cpu_16, be_to_cpu_32,
    ether_type, ether_src, ether_dst, next_proto_id, total_length, ip_src, ip_dst, src_port,
    dst_port, dgram_len,
  }

  -- The packet information.
  unfoldable pub packet_info : Memory → Memory → Memory → ℕ → Memory → List Entry
  packet_info eth_hdr ip_hdr udp_hdr payload_len udp_payload =
      received thread_id
      ∷ ether_line (convert_mac_to_str (ether_src eth_hdr)) (convert_mac_to_str (ether_dst eth_hdr))
          (be_to_cpu_16 (ether_type eth_hdr))
      ∷ ipv4_line (convert_ip_to_str (be_to_cpu_32 (ip_src ip_hdr)))
          (convert_ip_to_str (be_to_cpu_32 (ip_dst ip_hdr))) (be_to_cpu_16 (total_length ip_hdr))
          (next_proto_id ip_hdr)
      ∷ udp_line (be_to_cpu_16 (src_port udp_hdr)) (be_to_cpu_16 (dst_port udp_hdr))
          (be_to_cpu_16 (dgram_len udp_hdr))
      ∷ payload_line payload_len (convert_bin_to_str udp_payload payload_len)
      ∷ []

  -- The handler from the payload's pointer on; `size_t` subtraction wraps.
  unfoldable pub handle_payload : Memory → Memory → Memory → ℕ → Option Memory → Handled
  handle_payload eth_hdr ip_hdr udp_hdr udp_payload_len none = failure (no_udp_payload ∷ [])
  handle_payload eth_hdr ip_hdr udp_hdr udp_payload_len (some udp_payload) =
      let payload_len = (udp_payload_len + (2 ^ 64 - sizeof_udp_hdr)) % 2 ^ 64 in
      success (packet_info eth_hdr ip_hdr udp_hdr payload_len udp_payload)

  -- From the UDP header's pointer on, with the size sanity check.
  unfoldable pub handle_udp : Mbuf → Memory → Memory → ℕ → Option Memory → Handled
  handle_udp mbuf eth_hdr ip_hdr buffer_offset none = failure (no_udp_header ∷ [])
  handle_udp mbuf eth_hdr ip_hdr buffer_offset (some udp_hdr) =
      let udp_payload_len = be_to_cpu_16 (dgram_len udp_hdr) in
      if ltb mbuf.pkt_len (buffer_offset + udp_payload_len)
      then failure (too_long (buffer_offset + udp_payload_len) mbuf.pkt_len ∷ [])
      else handle_payload eth_hdr ip_hdr udp_hdr udp_payload_len
          (mbuf.mtod_offset (buffer_offset + sizeof_udp_hdr))

  unfoldable pub handle_ipv4 : Mbuf → Memory → ℕ → Option Memory → Handled
  handle_ipv4 mbuf eth_hdr buffer_offset none = failure (no_ipv4_header ∷ [])
  handle_ipv4 mbuf eth_hdr buffer_offset (some ip_hdr) =
      if not (next_proto_id ip_hdr == ipproto_udp)
      then success (non_udp ∷ [])
      else handle_udp mbuf eth_hdr ip_hdr (buffer_offset + sizeof_ipv4_hdr)
          (mbuf.mtod_offset (buffer_offset + sizeof_ipv4_hdr))

  unfoldable pub handle_ether : Mbuf → Option Memory → Handled
  handle_ether mbuf none = failure (no_ether_header ∷ [])
  handle_ether mbuf (some eth_hdr) =
      if not (be_to_cpu_16 (ether_type eth_hdr) == ether_type_ipv4)
      then success (non_ipv4 ∷ [])
      else handle_ipv4 mbuf eth_hdr sizeof_ether_hdr (mbuf.mtod_offset sizeof_ether_hdr)

  -- The whole handler; `none` is a null `mbuf`.
  unfoldable pub network_packet_handler : Option Mbuf → Handled
  unfolding handle_ether handle_ipv4 handle_udp handle_payload packet_info
  network_packet_handler none = aborted
  network_packet_handler (some mbuf) = handle_ether mbuf (mbuf.mtod_offset 0)

-- The layout of the structs and the byte order as DPDK documents them: packed headers of 14, 20 and
-- 8 bytes, whose fields of several bytes have the first byte highest.
abbrev pub be16 : Memory → ℕ → ℕ
be16 p o = p o * 2 ^ 8 + p (o + 1)

abbrev pub be32 : Memory → ℕ → ℕ
be32 p o = p o * 2 ^ 24 + p (o + 1) * 2 ^ 16 + p (o + 2) * 2 ^ 8 + p (o + 3)

pub record IsWire (rte : Rte) : Type 0 where
  pub ether_size : rte.sizeof_ether_hdr ≡ 14
  pub ipv4_size : rte.sizeof_ipv4_hdr ≡ 20
  pub udp_size : rte.sizeof_udp_hdr ≡ 8
  pub ipv4_type : rte.ether_type_ipv4 ≡ 0x0800
  pub ether_type : (p : Memory) → rte.be_to_cpu_16 (rte.ether_type p) ≡ be16 p 12
  pub ether_src : (p : Memory) (i : ℕ) → rte.ether_src p i ≡ p (6 + i)
  pub ether_dst : (p : Memory) (i : ℕ) → rte.ether_dst p i ≡ p i
  pub next_proto_id : (p : Memory) → rte.next_proto_id p ≡ p 9
  pub total_length : (p : Memory) → rte.be_to_cpu_16 (rte.total_length p) ≡ be16 p 2
  pub ip_src : (p : Memory) → rte.be_to_cpu_32 (rte.ip_src p) ≡ be32 p 12
  pub ip_dst : (p : Memory) → rte.be_to_cpu_32 (rte.ip_dst p) ≡ be32 p 16
  pub src_port : (p : Memory) → rte.be_to_cpu_16 (rte.src_port p) ≡ be16 p 0
  pub dst_port : (p : Memory) → rte.be_to_cpu_16 (rte.dst_port p) ≡ be16 p 2
  pub dgram_len : (p : Memory) → rte.be_to_cpu_16 (rte.dgram_len p) ≡ be16 p 4
