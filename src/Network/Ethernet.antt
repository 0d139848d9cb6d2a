-- ===== src/Network/Ethernet.antt =====
-- hardware/src/hls/network.h and network.cc, `EthernetHeader`.
use packet_filter.Base.{ℕ, ◌+◌, ◌*◌, ◌/◌, ◌%◌, ◌^◌, ◌<◌, Bool, List, [], ◌∷◌, ◌==◌, if◌then◌else◌}
use packet_filter.Base.Range.{range, set_range}
use packet_filter.Base.Range.Assigned.{Assignment, part}

pub record EthernetHeader : Type 0 where
  pub dest_mac : ℕ
  pub src_mac : ℕ
  pub eth_type : ℕ

-- Each field fits the width of its `ap_uint`.
pub record IsValid (h : EthernetHeader) : Type 0 where
  pub dest_mac : h.dest_mac < 2 ^ 48
  pub src_mac : h.src_mac < 2 ^ 48
  pub eth_type : h.eth_type < 2 ^ 16

-- `data` is 512 bits wide; only the first phit, number 0, holds the header.
unfoldable pub serialize : EthernetHeader → ℕ → ℕ → ℕ
serialize hdr word phit_idx =
    if phit_idx == 0
    then (let word1 = set_range word 47 0 hdr.dest_mac in
        let word2 = set_range word1 95 48 hdr.src_mac in set_range word2 111 96 hdr.eth_type)
    else word

unfoldable pub deserialize : EthernetHeader → ℕ → ℕ → EthernetHeader
deserialize hdr word phit_idx =
    if phit_idx == 0
    then record {
      dest_mac = range word 47 0;
      src_mac = range word 95 48;
      eth_type = range word 111 96;
    }
    else hdr

-- In bytes.
abbrev pub size : ℕ
size = 14

-- `__builtin_bswap16`.
unfoldable pub bswap16 : ℕ → ℕ
bswap16 x = x % 2 ^ 8 * 2 ^ 8 + x / 2 ^ 8 % 2 ^ 8

-- `EthernetHeader::IPV4`.
abbrev pub ipv4 : ℕ
ipv4 = 0x0800

unfoldable pub is_ipv4 : EthernetHeader → Bool
unfolding bswap16
is_ipv4 hdr = hdr.eth_type == bswap16 ipv4

-- The assignments that `serialize` makes, the last one first.
abbrev pub parts : EthernetHeader → List Assignment
parts hdr = part 111 96 hdr.eth_type ∷ part 95 48 hdr.src_mac ∷ part 47 0 hdr.dest_mac ∷ []
