-- ===== src/Network/RoundTrip.antt =====
-- Writing headers to the first phit and reading them back (hardware/src/hls/network.cc).
use packet_filter.Base.{suc-==_zero, ℕ, zero, suc, ◌/◌, ◌*◌, ◌^◌, ◌≡◌, refl, ap, ◌∙◌, arith}
use packet_filter.Base.Range.{set_range-range, range-lt}
use packet_filter.Base.Range.Assigned.{assign_all, assigned_value, assign_all-div}
use packet_filter.Network
use packet_filter.Network.{NetworkPacket, IsValid, serialize, deserialize, parts}
use packet_filter.Network.Ethernet
use packet_filter.Network.Ethernet.{EthernetHeader}
use packet_filter.Network.Ipv4
use packet_filter.Network.Ipv4.{Ipv4Header}
use packet_filter.Network.Udp
use packet_filter.Network.Udp.{UdpHeader}

serialize-assign_all :
    (p : NetworkPacket) (word : ℕ) → serialize p word 0 ≡ assign_all (parts p) word
unfolding serialize Ethernet.serialize Ipv4.serialize Udp.serialize
serialize-assign_all p word = refl

module _ (p : NetworkPacket) (word : ℕ) (valid : IsValid p) where
  abbrev written : ℕ
  written = assign_all (parts p) word

  eth_read : (old : EthernetHeader) → Ethernet.deserialize old written 0 ≡ p.eth_hdr
  unfolding Ethernet.deserialize
  eth_read old = λ i. record {
    dest_mac = assigned_value (parts p) word 47 0 refl (omega arith) valid.eth_valid.dest_mac i;
    src_mac = assigned_value (parts p) word 95 48 refl (omega arith) valid.eth_valid.src_mac i;
    eth_type = assigned_value (parts p) word 111 96 refl (omega arith) valid.eth_valid.eth_type i;
  }

  ip_read : (old : Ipv4Header) → Ipv4.deserialize old written 0 ≡ p.ip_hdr
  unfolding Ipv4.deserialize
  ip_read old = λ i. record {
    version = assigned_value (parts p) word 115 112 refl (omega arith) valid.ip_valid.version i;
    ihl = assigned_value (parts p) word 119 116 refl (omega arith) valid.ip_valid.ihl i;
    dscp_ecn = assigned_value (parts p) word 127 120 refl (omega arith) valid.ip_valid.dscp_ecn i;
    total_length =
        assigned_value (parts p) word 143 128 refl (omega arith) valid.ip_valid.total_length i;
    identification =
        assigned_value (parts p) word 159 144 refl (omega arith) valid.ip_valid.identification i;
    flags = assigned_value (parts p) word 162 160 refl (omega arith) valid.ip_valid.flags i;
    fragment_offset =
        assigned_value (parts p) word 175 163 refl (omega arith) valid.ip_valid.fragment_offset i;
    ttl = assigned_value (parts p) word 183 176 refl (omega arith) valid.ip_valid.ttl i;
    protocol = assigned_value (parts p) word 191 184 refl (omega arith) valid.ip_valid.protocol i;
    header_checksum =
        assigned_value (parts p) word 207 192 refl (omega arith) valid.ip_valid.header_checksum i;
    src_ip = assigned_value (parts p) word 239 208 refl (omega arith) valid.ip_valid.src_ip i;
    dest_ip = assigned_value (parts p) word 271 240 refl (omega arith) valid.ip_valid.dest_ip i;
  }

  udp_read : (old : UdpHeader) → Udp.deserialize old written 0 ≡ p.udp_hdr
  unfolding Udp.deserialize
  udp_read old = λ i. record {
    src_port = assigned_value (parts p) word 287 272 refl (omega arith) valid.udp_valid.src_port i;
    dest_port =
        assigned_value (parts p) word 303 288 refl (omega arith) valid.udp_valid.dest_port i;
    length = assigned_value (parts p) word 319 304 refl (omega arith) valid.udp_valid.length i;
    checksum = assigned_value (parts p) word 335 320 refl (omega arith) valid.udp_valid.checksum i;
  }

  packet_read : (old : NetworkPacket) → deserialize old written 0 ≡ p
  unfolding deserialize
  packet_read old = λ i. record {
    eth_hdr = eth_read old.eth_hdr i;
    ip_hdr = ip_read old.ip_hdr i;
    udp_hdr = udp_read old.udp_hdr i;
  }

serialize_later : (p : NetworkPacket) (word k : ℕ) → serialize p word (suc k) ≡ word
unfolding serialize Ethernet.serialize Ipv4.serialize Udp.serialize
serialize_later p word k = rw (suc-==_zero k)

pub deserialize_later : (old : NetworkPacket) (word k : ℕ) → deserialize old word (suc k) ≡ old
unfolding deserialize Ethernet.deserialize Ipv4.deserialize Udp.deserialize
deserialize_later old word k = rw (suc-==_zero k)

-- Writing the headers of a valid packet into the first phit and reading them back gives the same
-- headers, whatever they held before; the bits of the phit past the headers are kept; and on any
-- later phit both operations change nothing.
pub deserialize-serialize :
    (p old : NetworkPacket) (word phit_idx : ℕ)
    → IsValid p
    → (deserialize old (serialize p word 0) 0 ≡ p)
      × (serialize p word 0 / 2 ^ (8 * Network.size) ≡ word / 2 ^ (8 * Network.size))
      × (serialize p word (suc phit_idx) ≡ word)
      × (deserialize old word (suc phit_idx) ≡ old)
deserialize-serialize p old word phit_idx valid = (
  ap (λ (w : ℕ). deserialize old w 0) (serialize-assign_all p word) ∙ packet_read p word valid old,
  ap (λ (w : ℕ). w / 2 ^ 336) (serialize-assign_all p word)
      ∙ assign_all-div (parts p) word 336 (omega arith),
  serialize_later p word phit_idx,
  deserialize_later old word phit_idx,
)

eth_rewrite :
    (old : EthernetHeader) (word : ℕ)
    → Ethernet.serialize (Ethernet.deserialize old word 0) word 0 ≡ word
unfolding Ethernet.serialize Ethernet.deserialize
eth_rewrite old word = simp (
  set_range-range word 47 0 (omega arith),
  set_range-range word 95 48 (omega arith),
  set_range-range word 111 96 (omega arith),
)

ip_rewrite :
    (old : Ipv4Header) (word : ℕ) → Ipv4.serialize (Ipv4.deserialize old word 0) word 0 ≡ word
unfolding Ipv4.serialize Ipv4.deserialize
ip_rewrite old word = simp (
  set_range-range word 115 112 (omega arith),
  set_range-range word 119 116 (omega arith),
  set_range-range word 127 120 (omega arith),
  set_range-range word 143 128 (omega arith),
  set_range-range word 159 144 (omega arith),
  set_range-range word 162 160 (omega arith),
  set_range-range word 175 163 (omega arith),
  set_range-range word 183 176 (omega arith),
  set_range-range word 191 184 (omega arith),
  set_range-range word 207 192 (omega arith),
  set_range-range word 239 208 (omega arith),
  set_range-range word 271 240 (omega arith),
)

udp_rewrite :
    (old : UdpHeader) (word : ℕ) → Udp.serialize (Udp.deserialize old word 0) word 0 ≡ word
unfolding Udp.serialize Udp.deserialize
udp_rewrite old word = simp (
  set_range-range word 287 272 (omega arith),
  set_range-range word 303 288 (omega arith),
  set_range-range word 319 304 (omega arith),
  set_range-range word 335 320 (omega arith),
)

-- Writing the headers that were read from a phit back into it changes nothing.
serialize-deserialize :
    (old : NetworkPacket) (word : ℕ) → serialize (deserialize old word 0) word 0 ≡ word
unfolding serialize deserialize
serialize-deserialize old word =
    rw (eth_rewrite old.eth_hdr word, ip_rewrite old.ip_hdr word) (udp_rewrite old.udp_hdr word)

eth_fits :
    (old : EthernetHeader) (word k : ℕ)
    → Ethernet.IsValid old
    → Ethernet.IsValid (Ethernet.deserialize old word k)
unfolding Ethernet.deserialize
eth_fits old word zero v = record {
  dest_mac = range-lt word 47 0;
  src_mac = range-lt word 95 48;
  eth_type = range-lt word 111 96;
}
eth_fits old word (suc k) v = rw (suc-==_zero k) v

ip_fits :
    (old : Ipv4Header) (word k : ℕ) → Ipv4.IsValid old → Ipv4.IsValid (Ipv4.deserialize old word k)
unfolding Ipv4.deserialize
ip_fits old word zero v = record {
  version = range-lt word 115 112;
  ihl = range-lt word 119 116;
  dscp_ecn = range-lt word 127 120;
  total_length = range-lt word 143 128;
  identification = range-lt word 159 144;
  flags = range-lt word 162 160;
  fragment_offset = range-lt word 175 163;
  ttl = range-lt word 183 176;
  protocol = range-lt word 191 184;
  header_checksum = range-lt word 207 192;
  src_ip = range-lt word 239 208;
  dest_ip = range-lt word 271 240;
}
ip_fits old word (suc k) v = rw (suc-==_zero k) v

udp_fits :
    (old : UdpHeader) (word k : ℕ) → Udp.IsValid old → Udp.IsValid (Udp.deserialize old word k)
unfolding Udp.deserialize
udp_fits old word zero v = record {
  src_port = range-lt word 287 272;
  dest_port = range-lt word 303 288;
  length = range-lt word 319 304;
  checksum = range-lt word 335 320;
}
udp_fits old word (suc k) v = rw (suc-==_zero k) v

-- Reading any phit keeps every header field within the width of its `ap_uint`.
pub deserialize-IsValid :
    (old : NetworkPacket) (word phit_idx : ℕ)
    → IsValid old
    → IsValid (deserialize old word phit_idx)
unfolding deserialize
deserialize-IsValid old word phit_idx v = record {
  eth_valid = eth_fits old.eth_hdr word phit_idx v.eth_valid;
  ip_valid = ip_fits old.ip_hdr word phit_idx v.ip_valid;
  udp_valid = udp_fits old.udp_hdr word phit_idx v.udp_valid;
}
