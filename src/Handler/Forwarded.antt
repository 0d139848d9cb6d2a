-- ===== src/Handler/Forwarded.antt =====
-- The core and the host agree: what the core passes on, the host's handler takes for UDP
-- (hardware/src/hls/packet_filter.cc and software/src/main.cc).
use packet_filter.Base.{
  ℕ, zero, suc, ◌+◌, ◌*◌, ◌^◌, ◌<◌, Bool, true, ◌&&◌, not, ◌==◌, ltb, if◌then◌else◌, List, [], ◌∷◌,
  some, ◌≡◌, refl, ap, ◌∙◌, sym, get_or, take, drop, ==→eq, eq→==, arith,
}
use packet_filter.Network
use packet_filter.Network.{NetworkPacket}
use packet_filter.Network.Ethernet.{bswap16}
use packet_filter.Network.Wire.{wire, IsBytes}
use packet_filter.Hash
use packet_filter.Hash.{ToeplitzHash}
use packet_filter.Filter.{Phit, decide_action}
use packet_filter.Filter.Wire.{field, decide-frame}
use packet_filter.Rules.{htons}
use packet_filter.Handler.Print.{Memory}
use packet_filter.Handler.Texts.{AreBytes}
use packet_filter.Handler.{
  Mbuf, Rte, IsWire, be16, Handled, success, failure, too_long, network_packet_handler,
}
use packet_filter.Handler.Frame.{IsFlat, frame_report, handler-frame}

past_headers :
    (ethertype protocol : Bool) (x y w : Handled)
    → ethertype ≡ true
    → protocol ≡ true
    → (if not ethertype then x else if not protocol then y else w) ≡ w
past_headers ethertype protocol x y w e p = rw (e, p)

two_bytes :
    (k : ℕ) (bs : List ℕ) → wire (take 2 (drop k bs)) ≡ get_or bs k 0 + 256 * get_or bs (k + 1) 0
unfolding wire
two_bytes zero [] = omega arith
two_bytes zero (b ∷ []) = omega arith
two_bytes zero (b ∷ c ∷ bs) = omega arith
two_bytes (suc k) [] = omega arith
two_bytes (suc k) (b ∷ bs) = let e : suc k + 1 ≡ suc (k + 1) = omega arith in rw e (two_bytes k bs)

one_byte : (k : ℕ) (bs : List ℕ) → wire (take 1 (drop k bs)) ≡ get_or bs k 0
unfolding wire
one_byte zero [] = refl
one_byte zero (b ∷ bs) = omega arith
one_byte (suc k) [] = refl
one_byte (suc k) (b ∷ bs) = one_byte k bs

test_parts : (a b c : Bool) → (a && b && c) ≡ true → (a ≡ true) × (b ≡ true) × (c ≡ true)
test_parts a b c h = ground arith

-- The memory of a received packet holds the frame, up to the end of the UDP header.
pub record Holds (buf : Memory) (frame : List ℕ) : Type 0 where
  pub bytes : AreBytes buf
  pub headers : (i : ℕ) → i < 42 → buf i ≡ get_or frame i 0

ethertype_of : (a b : ℕ) → a < 256 → b < 256 → a + 256 * b ≡ 0x0008 → a * 2 ^ 8 + b ≡ 0x0800
ethertype_of a b ha hb h = omega arith

port_of : (a b : ℕ) → a < 256 → b < 256 → a + 256 * b ≡ htons (a * 2 ^ 8 + b)
unfolding bswap16
port_of a b ha hb = omega arith

module _ (buf : Memory) (frame : List ℕ) (holds : Holds buf frame) where
  little_endian : (k : ℕ) → k + 1 < 42 → field frame k 2 ≡ buf k + 256 * buf (k + 1)
  little_endian k h =
      omega (arith, two_bytes k frame, holds.headers k (omega arith), holds.headers (k + 1) h)

  port_key : field frame 36 2 ≡ htons (be16 buf 36)
  port_key =
      little_endian 36 (omega arith) ∙ port_of (buf 36) (buf 37) (holds.bytes 36) (holds.bytes 37)

  -- A first phit carries the bytes of a frame, the core forwards it, and a packet in one piece of
  -- memory with the frame's headers reaches the handler. Then the handler takes the packet neither
  -- for non-IPv4 nor for non-UDP: it fails if the datagram length goes past the packet and reports
  -- the packet otherwise. And the table of the core holds 1 for the frame's destination address and
  -- for the destination port that the handler reports, in network order.
  pub forwarded_is_reported :
      (rte : Rte) (rte_wire : IsWire rte) (thread_id : ℕ) (mbuf : Mbuf) (t : ToeplitzHash)
      (old : NetworkPacket) (p : Phit)
      → IsFlat mbuf buf
      → IsBytes frame
      → p.word ≡ wire frame
      → (decide_action t (Network.deserialize old p.word 0) == 1) ≡ true
      → (network_packet_handler rte thread_id (some mbuf) ≡ (
          if ltb mbuf.pkt_len (34 + be16 buf 38)
          then failure (too_long (34 + be16 buf 38) mbuf.pkt_len ∷ [])
          else success (frame_report thread_id buf)))
        × (Hash.lookup t (field frame 30 4) (htons (be16 buf 36)) ≡ 1)
  forwarded_is_reported rte rte_wire thread_id mbuf t old p flat bytes carried forwarded = (
    handler-frame rte rte_wire thread_id buf holds.bytes mbuf flat
        ∙ past_headers (be16 buf 12 == 0x0800) (buf 23 == 17) _ _ _
            (eq→== (be16 buf 12) 0x0800 ethertype) (eq→== (buf 23) 17 protocol),
    ap (Hash.lookup t (field frame 30 4)) (sym port_key)
        ∙ ==→eq (Hash.lookup t (field frame 30 4) (field frame 36 2)) 1 tests.2,
  )
    where
      tests :
          ((field frame 12 2 == 0x0008) ≡ true)
          × ((field frame 23 1 == 17) ≡ true)
          × ((Hash.lookup t (field frame 30 4) (field frame 36 2) == 1) ≡ true)
      tests = test_parts _ _ _ (sym (decide-frame t old p frame bytes carried) ∙ forwarded)

      ethertype : be16 buf 12 ≡ 0x0800
      ethertype =
          ethertype_of (buf 12) (buf 13) (holds.bytes 12) (holds.bytes 13)
            (sym (little_endian 12 (omega arith)) ∙ ==→eq (field frame 12 2) 0x0008 tests.0)

      protocol : buf 23 ≡ 17
      protocol =
          holds.headers 23 (omega arith)
          ∙ sym (one_byte 23 frame)
          ∙ ==→eq (field frame 23 1) 17 tests.1
