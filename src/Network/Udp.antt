-- ===== src/Network/Udp.antt =====
-- hardware/src/hls/network.h and network.cc, `UDPHeader`.
use packet_filter.Base.{ℕ, ◌^◌, ◌<◌, List, [], ◌∷◌, ◌==◌, if◌then◌else◌}
use packet_filter.Base.Range.{range, set_range}
use packet_filter.Base.Range.Assigned.{Assignment, part}

pub record UdpHeader : Type 0 where
  pub src_port : ℕ
  pub dest_port : ℕ
  pub length : ℕ
  pub checksum : ℕ

-- Each field fits the width of its `ap_uint`.
pub record IsValid (h : UdpHeader) : Type 0 where
  pub src_port : h.src_port < 2 ^ 16
  pub dest_port : h.dest_port < 2 ^ 16
  pub length : h.length < 2 ^ 16
  pub checksum : h.checksum < 2 ^ 16

-- `data` is 512 bits wide; only the first phit, number 0, holds the header.
unfoldable pub serialize : UdpHeader → ℕ → ℕ → ℕ
serialize hdr word phit_idx =
    if phit_idx == 0
    then (let word1 = set_range word 287 272 hdr.src_port in
        let word2 = set_range word1 303 288 hdr.dest_port in
        let word3 = set_range word2 319 304 hdr.length in set_range word3 335 320 hdr.checksum)
    else word

unfoldable pub deserialize : UdpHeader → ℕ → ℕ → UdpHeader
deserialize hdr word phit_idx =
    if phit_idx == 0
    then record {
      src_port = range word 287 272;
      dest_port = range word 303 288;
      length = range word 319 304;
      checksum = range word 335 320;
    }
    else hdr

-- In bytes.
abbrev pub size : ℕ
size = 8

-- The assignments that `serialize` makes, the last one first.
abbrev pub parts : UdpHeader → List Assignment
parts hdr =
    part 335 320 hdr.checksum
    ∷ part 319 304 hdr.length
    ∷ part 303 288 hdr.dest_port
    ∷ part 287 272 hdr.src_port
    ∷ []
