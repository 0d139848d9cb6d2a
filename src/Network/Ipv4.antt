-- ===== src/Network/Ipv4.antt =====
-- hardware/src/hls/network.h and network.cc, `IPv4Header`.
use packet_filter.Base.{ℕ, ◌^◌, ◌<◌, Bool, List, [], ◌∷◌, ◌==◌, if◌then◌else◌}
use packet_filter.Base.Range.{range, set_range}
use packet_filter.Base.Range.Assigned.{Assignment, part}

pub record Ipv4Header : Type 0 where
  pub version : ℕ
  pub ihl : ℕ
  pub dscp_ecn : ℕ
  pub total_length : ℕ
  pub identification : ℕ
  pub flags : ℕ
  pub fragment_offset : ℕ
  pub ttl : ℕ
  pub protocol : ℕ
  pub header_checksum : ℕ
  pub src_ip : ℕ
  pub dest_ip : ℕ

-- Each field fits the width of its `ap_uint`.
pub record IsValid (h : Ipv4Header) : Type 0 where
  pub version : h.version < 2 ^ 4
  pub ihl : h.ihl < 2 ^ 4
  pub dscp_ecn : h.dscp_ecn < 2 ^ 8
  pub total_length : h.total_length < 2 ^ 16
  pub identification : h.identification < 2 ^ 16
  pub flags : h.flags < 2 ^ 3
  pub fragment_offset : h.fragment_offset < 2 ^ 13
  pub ttl : h.ttl < 2 ^ 8
  pub protocol : h.protocol < 2 ^ 8
  pub header_checksum : h.header_checksum < 2 ^ 16
  pub src_ip : h.src_ip < 2 ^ 32
  pub dest_ip : h.dest_ip < 2 ^ 32

-- `data` is 512 bits wide; only the first phit, number 0, holds the header.
unfoldable pub serialize : Ipv4Header → ℕ → ℕ → ℕ
serialize hdr word phit_idx =
    if phit_idx == 0
    then (let word1 = set_range word 115 112 hdr.version in
        let word2 = set_range word1 119 116 hdr.ihl in
        let word3 = set_range word2 127 120 hdr.dscp_ecn in
        let word4 = set_range word3 143 128 hdr.total_length in
        let word5 = set_range word4 159 144 hdr.identification in
        let word6 = set_range word5 162 160 hdr.flags in
        let word7 = set_range word6 175 163 hdr.fragment_offset in
        let word8 = set_range word7 183 176 hdr.ttl in
        let word9 = set_range word8 191 184 hdr.protocol in
        let word10 = set_range word9 207 192 hdr.header_checksum in
        let word11 = set_range word10 239 208 hdr.src_ip in set_range word11 271 240 hdr.dest_ip)
    else word

unfoldable pub deserialize : Ipv4Header → ℕ → ℕ → Ipv4Header
deserialize hdr word phit_idx =
    if phit_idx == 0
    then record {
      version = range word 115 112;
      ihl = range word 119 116;
      dscp_ecn = range word 127 120;
      total_length = range word 143 128;
      identification = range word 159 144;
      flags = range word 162 160;
      fragment_offset = range word 175 163;
      ttl = range word 183 176;
      protocol = range word 191 184;
      header_checksum = range word 207 192;
      src_ip = range word 239 208;
      dest_ip = range word 271 240;
    }
    else hdr

-- In bytes.
abbrev pub size : ℕ
size = 20

-- `IPv4Header::UDP`.
abbrev pub udp : ℕ
udp = 17

unfoldable pub is_udp : Ipv4Header → Bool
is_udp hdr = hdr.protocol == udp

-- The assignments that `serialize` makes, the last one first.
abbrev pub parts : Ipv4Header → List Assignment
parts hdr =
    part 271 240 hdr.dest_ip
    ∷ part 239 208 hdr.src_ip
    ∷ part 207 192 hdr.header_checksum
    ∷ part 191 184 hdr.protocol
    ∷ part 183 176 hdr.ttl
    ∷ part 175 163 hdr.fragment_offset
    ∷ part 162 160 hdr.flags
    ∷ part 159 144 hdr.identification
    ∷ part 143 128 hdr.total_length
    ∷ part 127 120 hdr.dscp_ecn
    ∷ part 119 116 hdr.ihl
    ∷ part 115 112 hdr.version
    ∷ []
