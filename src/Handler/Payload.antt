-- ===== src/Handler/Payload.antt =====
-- Which bytes `network_packet_handler` (software/src/main.cc) prints as the payload.
use packet_filter.Base.{
  ℕ, ◌+◌, ◌^◌, ◌≤◌, ◌<◌, Bool, true, false, not, ◌==◌, ltb, if◌then◌else◌, some, ◌≡◌, ◌↔◌, ◌∙◌,
  eq→==, le→ltb, arith,
}
use packet_filter.Handler.Print.{Memory}
use packet_filter.Handler.Texts.{AreBytes}
use packet_filter.Handler.{Mbuf, Rte, IsWire, be16, Handled, success, network_packet_handler}
use packet_filter.Handler.Frame.{IsFlat, shown_len, frame_report, frame_verdict, handler-frame}

past_tests :
    (ethertype protocol long : Bool) (x y z w : Handled)
    → ethertype ≡ true
    → protocol ≡ true
    → long ≡ false
    → (if not ethertype then x else if not protocol then y else if long then z else w) ≡ w
past_tests ethertype protocol long x y z w e p l = rw (e, p, l)

accepted :
    (thread_id : ℕ) (buf : Memory) (pkt_len : ℕ)
    → be16 buf 12 ≡ 0x0800
    → buf 23 ≡ 17
    → 34 + be16 buf 38 ≤ pkt_len
    → frame_verdict thread_id buf pkt_len ≡ success (frame_report thread_id buf)
accepted thread_id buf pkt_len e p fits =
    past_tests (be16 buf 12 == 0x0800) (buf 23 == 17) (ltb pkt_len (34 + be16 buf 38)) _ _ _ _
      (eq→== (be16 buf 12) 0x0800 e) (eq→== (buf 23) 17 p) (le→ltb pkt_len (34 + be16 buf 38) fits)

shown_within :
    (len pkt_len : ℕ)
    → 34 + len ≤ pkt_len
    → pkt_len < 2 ^ 63
    → (42 + shown_len len ≤ pkt_len) ↔ (8 ≤ len)
shown_within len pkt_len fits small = ((λ h. ground arith), (λ h. ground arith))

-- A UDP packet in one piece of memory whose datagram length passes the size check is reported. The
-- bytes printed as its payload, from byte 42 on, all lie in the packet exactly if that length is at
-- least 8, the size of the UDP header; below 8 the printed length wraps round.
pub payload_within :
    (rte : Rte) (wire : IsWire rte) (thread_id : ℕ) (buf : Memory)
    → AreBytes buf
    → (mbuf : Mbuf) → IsFlat mbuf buf
    → be16 buf 12 ≡ 0x0800
    → buf 23 ≡ 17
    → 34 + be16 buf 38 ≤ mbuf.pkt_len
    → mbuf.pkt_len < 2 ^ 63
    → (network_packet_handler rte thread_id (some mbuf) ≡ success (frame_report thread_id buf))
      × ((42 + shown_len (be16 buf 38) ≤ mbuf.pkt_len) ↔ (8 ≤ be16 buf 38))
payload_within rte wire thread_id buf bytes mbuf flat ethertype protocol fits small = (
  handler-frame rte wire thread_id buf bytes mbuf flat
      ∙ accepted thread_id buf mbuf.pkt_len ethertype protocol fits,
  shown_within (be16 buf 38) mbuf.pkt_len fits small,
)
