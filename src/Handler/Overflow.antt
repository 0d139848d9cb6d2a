-- ===== src/Handler/Overflow.antt =====
-- When the line with the payload of a packet is written behind the line buffer of the log
-- (software/src/main.cc and logging.cc).
use packet_filter.Base.{
  ℕ, zero, suc, ◌+◌, ◌-◌, ◌*◌, ◌/◌, ◌%◌, ◌^◌, ◌≤◌, ◌<◌, false, ltb, List, [], ◌∷◌, ◌++◌, length,
  length-append, some, ◌≡◌, refl, ap, ◌∙◌, Bool, true, arith,
}
use packet_filter.Text.Decimal.{decimal}
use packet_filter.Logging.{ℤ, is_filtered, info, LineBuf, log, log_buf_size}
use packet_filter.Logging.Buffer.{header, log-beyond}
use packet_filter.Handler.{
  Mbuf, Rte, IsWire, be16, success, Entry, received, ether_line, ipv4_line, udp_line, payload_line,
  network_packet_handler,
}
use packet_filter.Handler.Print.{Memory}
use packet_filter.Handler.Texts.{AreBytes, bytes_at, hex_text}
use packet_filter.Handler.Frame.{IsFlat, mac_text, reversed_ip_text, shown_len}
use packet_filter.Handler.Payload.{payload_within}
use packet_filter.Handler.Messages.{entry_text}

-- What is reported before the payload.
abbrev pub headers_report : ℕ → Memory → List Entry
headers_report thread_id buf =
    received thread_id
    ∷ ether_line (mac_text buf 6) (mac_text buf 0) (be16 buf 12)
    ∷ ipv4_line (reversed_ip_text buf 26) (reversed_ip_text buf 30) (be16 buf 16) (buf 23)
    ∷ udp_line (be16 buf 34) (be16 buf 36) (be16 buf 38)
    ∷ []

pub hex_text-length : (p : Memory) (i n : ℕ) → length (hex_text (bytes_at p i n)) ≡ 2 * n
hex_text-length p i zero = refl
hex_text-length p i (suc n) = let rest = hex_text-length p (i + 1) n in omega arith

pub payload_text-length :
    (n : ℕ) (text : List ℕ)
    → length (entry_text (payload_line n text)) ≡ 24 + length (decimal 19 n) + length text
unfolding entry_text
payload_text-length n text =
    let unit : List ℕ = b' ' ∷ b'b' ∷ b'y' ∷ b't' ∷ b'e' ∷ b's' ∷ b')' ∷ b':' ∷ b' ' ∷ [] in
    omega (arith, length-append (decimal 19 n ++ unit) text, length-append (decimal 19 n) unit)

pub decimal-length : (fuel n : ℕ) → length (decimal fuel n) ≤ fuel + 1
unfolding decimal
decimal-length zero n = omega arith
decimal-length (suc fuel) n = either (decimal-length fuel (n / 10)) (ltb n 10)
  where
    digits : Bool → List ℕ
    digits b = elim b [
      | true ↦ (48 + n) ∷ []
      | false ↦ decimal fuel (n / 10) ++ ((48 + n % 10) ∷ [])
    ]

    either :
        length (decimal fuel (n / 10)) ≤ fuel + 1 → (b : Bool) → length (digits b) ≤ suc fuel + 1
    either shorter true = omega arith
    either shorter false =
        let size = length-append (decimal fuel (n / 10)) ((48 + n % 10) ∷ []) in omega arith

pub shown_long : (len : ℕ) → 8 ≤ len → shown_len len ≡ len - 8
shown_long len h = ground arith

-- A UDP packet in one piece of memory whose datagram length passes the size check and is at least 8
-- is reported, and the last line of the report gives its payload. If the level info passes and the
-- header of that line is shorter than `log_buf`, bytes are written behind the end of `log_buf`
-- exactly if the header, two digits for each byte of the payload, the digits of its length and 24
-- characters more are longer than the 4096 bytes of the buffer.
pub payload-beyond :
    (rte : Rte) (wire : IsWire rte) (thread_id : ℕ) (buf : Memory)
    → AreBytes buf
    → (mbuf : Mbuf) → IsFlat mbuf buf
    → be16 buf 12 ≡ 0x0800
    → buf 23 ≡ 17
    → 34 + be16 buf 38 ≤ mbuf.pkt_len
    → mbuf.pkt_len < 2 ^ 63
    → 8 ≤ be16 buf 38
    → (log_level : ℤ) (place stamp : List ℕ) → is_filtered log_level info ≡ false
    → length (header info place stamp) < log_buf_size
    → let n = be16 buf 38 - 8 in
      (network_packet_handler rte thread_id (some mbuf)
        ≡ success
            (headers_report thread_id buf ++ payload_line n (hex_text (bytes_at buf 42 n)) ∷ []))
      × ((b : LineBuf) × (log log_level info place stamp
              (entry_text (payload_line n (hex_text (bytes_at buf 42 n))))
            ≡ some b)
          × (b.beyond
              ≡ ltb log_buf_size
                  (length (header info place stamp) + (24 + length (decimal 19 n) + 2 * n))))
payload-beyond rte wire thread_id buf bytes mbuf flat ethertype protocol fits small long log_level
      place stamp passes short =
    let n = be16 buf 38 - 8 in
    let text = hex_text (bytes_at buf 42 n) in
    let size =
      payload_text-length n text
      ∙ ap (◌+◌ (24 + length (decimal 19 n))) (hex_text-length buf 42 n) in
    let (b, made, beyond) =
      log-beyond log_level info place stamp (entry_text (payload_line n text)) passes short
        (omega (arith, size, decimal-length 19 n, word)) in
    (
      (payload_within rte wire thread_id buf bytes mbuf flat ethertype protocol fits small).0
          ∙ ap
              (λ (k : ℕ). success (
                headers_report thread_id buf ++ payload_line k (hex_text (bytes_at buf 42 k)) ∷ []))
              (shown_long (be16 buf 38) long),
      (
        b,
        made,
        beyond ∙ ap (λ (k : ℕ). ltb log_buf_size (length (header info place stamp) + k)) size,
      ),
    )
  where
    word : be16 buf 38 < 2 ^ 16
    word = let hi = bytes 38 in let lo = bytes 39 in omega arith
