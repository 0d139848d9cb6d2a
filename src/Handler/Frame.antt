-- ===== src/Handler/Frame.antt =====
-- The handler on a packet in one piece of memory, in the bytes of the frame.
use packet_filter.Base.{
  ℕ, ◌+◌, ◌-◌, ◌%◌, ◌^◌, ◌<◌, not, List, [], ◌∷◌, ◌≡◌, ap, fun_ext, ◌∙◌, ltb, ◌==◌, if◌then◌else◌,
  some, arith,
}
use packet_filter.Text.Decimal.{decimal}
use packet_filter.Handler.Print.{Memory, hex_byte, convert_mac_to_str, convert_ip_to_str}
use packet_filter.Handler.Texts.{
  bytes_at, AreBytes, hex_text, separated, convert_bin_to_str-offset, convert_ip_to_str-octets,
}
use packet_filter.Handler.{
  Mbuf, Rte, IsWire, be16, Entry, Handled, success, failure, non_ipv4, non_udp, too_long, received,
  ether_line, ipv4_line, udp_line, payload_line, packet_info, network_packet_handler,
}

-- Every offset has a pointer, into one piece of memory.
abbrev pub IsFlat : Mbuf → Memory → Type 0
IsFlat mbuf buf = (o : ℕ) → mbuf.mtod_offset o ≡ some (λ i. buf (o + i))

abbrev pub mac_text : Memory → ℕ → List ℕ
mac_text buf o = separated b':' (
    hex_byte (buf o)
    ∷ hex_byte (buf (o + 1))
    ∷ hex_byte (buf (o + 2))
    ∷ hex_byte (buf (o + 3))
    ∷ hex_byte (buf (o + 4))
    ∷ hex_byte (buf (o + 5))
    ∷ [])

-- The four bytes of an address from its last one to its first one.
abbrev pub reversed_ip_text : Memory → ℕ → List ℕ
reversed_ip_text buf o = separated b'.' (
    decimal 2 (buf (o + 3))
    ∷ decimal 2 (buf (o + 2))
    ∷ decimal 2 (buf (o + 1))
    ∷ decimal 2 (buf o)
    ∷ [])

-- The payload that is printed: 8 less than the length in the UDP header, which wraps below 8.
abbrev pub shown_len : ℕ → ℕ
shown_len dgram_len = if ltb dgram_len 8 then 2 ^ 64 - (8 - dgram_len) else dgram_len - 8

abbrev pub frame_report : ℕ → Memory → List Entry
frame_report thread_id buf =
    received thread_id
    ∷ ether_line (mac_text buf 6) (mac_text buf 0) (be16 buf 12)
    ∷ ipv4_line (reversed_ip_text buf 26) (reversed_ip_text buf 30) (be16 buf 16) (buf 23)
    ∷ udp_line (be16 buf 34) (be16 buf 36) (be16 buf 38)
    ∷ payload_line (shown_len (be16 buf 38)) (hex_text (bytes_at buf 42 (shown_len (be16 buf 38))))
    ∷ []

abbrev pub frame_verdict : ℕ → Memory → ℕ → Handled
frame_verdict thread_id buf pkt_len =
    if not (be16 buf 12 == 0x0800)
    then success (non_ipv4 ∷ [])
    else if not (buf 23 == 17)
    then success (non_udp ∷ [])
    else if ltb pkt_len (34 + be16 buf 38)
    then failure (too_long (34 + be16 buf 38) pkt_len ∷ [])
    else success (frame_report thread_id buf)

shown : (n : ℕ) → n < 2 ^ 16 → (n + (2 ^ 64 - 8)) % 2 ^ 64 ≡ shown_len n
shown n h = ground arith

module _ (rte : Rte) (wire : IsWire rte) (thread_id : ℕ) (buf : Memory) (bytes : AreBytes buf) where
  abbrev at_offset : ℕ → Memory
  at_offset o i = buf (o + i)

  src_mac : convert_mac_to_str (rte.ether_src (at_offset 0)) ≡ mac_text buf 6
  unfolding convert_mac_to_str
  src_mac = ap convert_mac_to_str (fun_ext (wire.ether_src (at_offset 0)))

  dst_mac : convert_mac_to_str (rte.ether_dst (at_offset 0)) ≡ mac_text buf 0
  unfolding convert_mac_to_str
  dst_mac = ap convert_mac_to_str (fun_ext (wire.ether_dst (at_offset 0)))

  src_ip :
      convert_ip_to_str (rte.be_to_cpu_32 (rte.ip_src (at_offset 14))) ≡ reversed_ip_text buf 26
  src_ip =
      ap convert_ip_to_str (wire.ip_src (at_offset 14))
      ∙ convert_ip_to_str-octets (buf 26) (buf 27) (buf 28) (buf 29) (bytes 26) (bytes 27)
          (bytes 28) (bytes 29)

  dst_ip :
      convert_ip_to_str (rte.be_to_cpu_32 (rte.ip_dst (at_offset 14))) ≡ reversed_ip_text buf 30
  dst_ip =
      ap convert_ip_to_str (wire.ip_dst (at_offset 14))
      ∙ convert_ip_to_str-octets (buf 30) (buf 31) (buf 32) (buf 33) (bytes 30) (bytes 31)
          (bytes 32) (bytes 33)

  info :
      (n : ℕ)
      → packet_info rte thread_id (at_offset 0) (at_offset 14) (at_offset 34) n (at_offset 42)
        ≡ received thread_id
          ∷ ether_line (mac_text buf 6) (mac_text buf 0) (be16 buf 12)
          ∷ ipv4_line (reversed_ip_text buf 26) (reversed_ip_text buf 30) (be16 buf 16) (buf 23)
          ∷ udp_line (be16 buf 34) (be16 buf 36) (be16 buf 38)
          ∷ payload_line n (hex_text (bytes_at buf 42 n))
          ∷ []
  unfolding packet_info
  info n = rw (
    src_mac,
    dst_mac,
    src_ip,
    dst_ip,
    wire.ether_type (at_offset 0),
    wire.total_length (at_offset 14),
    wire.next_proto_id (at_offset 14),
    wire.src_port (at_offset 34),
    wire.dst_port (at_offset 34),
    wire.dgram_len (at_offset 34),
    convert_bin_to_str-offset buf 42 n,
  )

  -- On a packet in one piece of memory with the frame's bytes, the handler fails on none of its null
  -- tests: it skips what is not IPv4 by bytes 12 and 13, then what is not UDP by byte 23, fails if
  -- the length in bytes 38 and 39 goes past the packet, counted from byte 34, and otherwise logs the
  -- MAC addresses in order, the IP addresses with their bytes reversed, the ports and lengths, and
  -- the payload from byte 42 in hexadecimal: 8 bytes less than that length, modulo `2 ^ 64`.
  pub handler-frame :
      (mbuf : Mbuf)
      → IsFlat mbuf buf
      → network_packet_handler rte thread_id (some mbuf) ≡ frame_verdict thread_id buf mbuf.pkt_len
  unfolding network_packet_handler
  handler-frame mbuf flat =
      let fits : be16 buf 38 < 2 ^ 16 = omega (arith, bytes 38, bytes 39) in
      rw (
        flat 0,
        wire.ether_type (at_offset 0),
        wire.ipv4_type,
        wire.ether_size,
        flat 14,
        wire.next_proto_id (at_offset 14),
        wire.ipv4_size,
        flat 34,
        wire.dgram_len (at_offset 34),
        wire.udp_size,
        flat 42,
        shown (be16 buf 38) fits,
        info (shown_len (be16 buf 38)),
      )
