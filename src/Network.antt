-- ===== src/Network.antt =====
-- hardware/src/hls/network.h and network.cc, `NetworkPacket`: the three headers of a packet.
pub mod Ethernet
pub mod Ipv4
pub mod Udp
pub mod RoundTrip
pub mod Wire
use packet_filter.Base.{ℕ, ◌+◌, List, ◌++◌}
use packet_filter.Base.Range.Assigned.{Assignment}
use Ethernet.{EthernetHeader}
use Ipv4.{Ipv4Header}
use Udp.{UdpHeader}

pub record NetworkPacket : Type 0 where
  pub eth_hdr : EthernetHeader
  pub ip_hdr : Ipv4Header
  pub udp_hdr : UdpHeader

pub record IsValid (p : NetworkPacket) : Type 0 where
  pub eth_valid : Ethernet.IsValid p.eth_hdr
  pub ip_valid : Ipv4.IsValid p.ip_hdr
  pub udp_valid : Udp.IsValid p.udp_hdr

unfoldable pub serialize : NetworkPacket → ℕ → ℕ → ℕ
serialize p word phit_idx =
    let word1 = Ethernet.serialize p.eth_hdr word phit_idx in
    let word2 = Ipv4.serialize p.ip_hdr word1 phit_idx in Udp.serialize p.udp_hdr word2 phit_idx

unfoldable pub deserialize : NetworkPacket → ℕ → ℕ → NetworkPacket
deserialize p word phit_idx = record {
  eth_hdr = Ethernet.deserialize p.eth_hdr word phit_idx;
  ip_hdr = Ipv4.deserialize p.ip_hdr word phit_idx;
  udp_hdr = Udp.deserialize p.udp_hdr word phit_idx;
}

abbrev pub size : ℕ
size = Ethernet.size + Ipv4.size + Udp.size

abbrev pub parts : NetworkPacket → List Assignment
parts p = Udp.parts p.udp_hdr ++ Ipv4.parts p.ip_hdr ++ Ethernet.parts p.eth_hdr
