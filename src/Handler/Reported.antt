-- ===== src/Handler/Reported.antt =====
-- The lines that the report of a packet brings to the log (software/src/main.cc and logging.cc).
use packet_filter.Base.{
  ℕ, zero, suc, ◌+◌, ◌-◌, ◌/◌, ◌%◌, ◌^◌, ◌≤◌, ◌<◌, true, false, ltb, List, [], ◌∷◌, ◌++◌, map,
  length, length-append, some, ◌≡◌, ◌≢◌, refl, ap, ◌∙◌, Bool, arith,
}
use packet_filter.Logging.{info, fatal, Memory, Clock, log_buf_size}
use packet_filter.Logging.Buffer.{header, header_length}
use packet_filter.Logging.Lines.{passes, date, line_text}
use packet_filter.Logging.Output.{Log, returned, place, run}
use packet_filter.Logging.Calls.{lines, AllOrdinary, run-ordinary}
use packet_filter.Handler.{
  Mbuf, Rte, IsWire, be16, success, Entry, received, ether_line, ipv4_line, udp_line, payload_line,
  network_packet_handler,
}
use packet_filter.Handler.Print.{hex_digit}
use packet_filter.Handler.Texts.{AreBytes, bytes_at, hex_text}
use packet_filter.Handler.Frame.{IsFlat, mac_text, reversed_ip_text, shown_len, frame_report}
use packet_filter.Handler.Payload.{payload_within}
use packet_filter.Handler.Overflow.{
  decimal-length, hex_text-length, payload_text-length, shown_long,
}
use packet_filter.Handler.Messages.{hex, entry_text, entry_call}

ip-length : (buf : ℕ → ℕ) (o : ℕ) → length (reversed_ip_text buf o) ≤ 15
ip-length buf o = omega (arith, length-append {A = ℕ}, decimal-length)

hex-length : (fuel n : ℕ) → length (hex fuel n) ≤ fuel + 1
unfolding hex
hex-length zero n = omega arith
hex-length (suc fuel) n = either (hex-length fuel (n / 16)) (ltb n 16)
  where
    digits : Bool → List ℕ
    digits b = elim b [
      | true ↦ hex_digit n ∷ []
      | false ↦ hex fuel (n / 16) ++ (hex_digit (n % 16) ∷ [])
    ]

    either : length (hex fuel (n / 16)) ≤ fuel + 1 → (b : Bool) → length (digits b) ≤ suc fuel + 1
    either shorter true = omega arith
    either shorter false =
        let size = length-append (hex fuel (n / 16)) (hex_digit (n % 16) ∷ []) in omega arith

udp-length : (a b c : ℕ) → length (entry_text (udp_line a b c)) ≤ 60
unfolding entry_text
udp-length a b c = grind (arith, length-append {A = ℕ}, decimal-length)

ether-length :
    (buf : ℕ → ℕ) (a b c : ℕ)
    → length (entry_text (ether_line (mac_text buf a) (mac_text buf b) c)) ≤ 100
unfolding entry_text
ether-length buf a b c = omega (arith, length-append {A = ℕ}, hex-length)

ipv4-length :
    (src dst : List ℕ) (total_length protocol : ℕ)
    → length src ≤ 15
    → length dst ≤ 15
    → length (entry_text (ipv4_line src dst total_length protocol)) ≤ 100
unfolding entry_text
ipv4-length src dst total_length protocol short_src short_dst =
    grind (arith, length-append {A = ℕ}, decimal-length, hex-length)

received-length : (n : ℕ) → length (entry_text (received n)) ≤ 60
unfolding entry_text
received-length n = grind (arith, length-append {A = ℕ}, decimal-length)

line_text-length :
    (line : ℕ) (file : List ℕ) (clock : Clock) (text : List ℕ)
    → length (line_text info line file clock text) ≡ 29 + length (place file line) + length text
line_text-length line file clock text =
    let top = header info (place file line) (date clock) in
    omega (
      arith,
      length-append (top ++ text) (10 ∷ []),
      length-append top text,
      header_length info (place file line) (date clock),
    )

module _ (file : List ℕ) (line_of : Entry → ℕ) (clock_of : Entry → Clock)
    (near : (e : Entry) → length (place file (line_of e)) ≤ 1000) where
  fits :
      (e : Entry)
      → length (entry_text e) < 3067
      → length (line_text info (line_of e) file (clock_of e) (entry_text e)) < log_buf_size
  fits e short =
      let size = line_text-length (line_of e) file (clock_of e) (entry_text e) in
      let start = near e in omega arith

  report-AllOrdinary :
      (thread_id : ℕ) (buf : Memory)
      → 8 ≤ be16 buf 38
      → be16 buf 38 ≤ 1480
      → AllOrdinary (map (entry_call file line_of clock_of) (frame_report thread_id buf))
  report-AllOrdinary thread_id buf long short = (
    (not_fatal, fits (received thread_id) (omega (arith, received-length thread_id))),
    (
      (
        not_fatal,
        fits (ether_line (mac_text buf 6) (mac_text buf 0) (be16 buf 12))
            (omega (arith, ether-length buf 6 0 (be16 buf 12))),
      ),
      (
        (
          not_fatal,
          fits
              (ipv4_line (reversed_ip_text buf 26) (reversed_ip_text buf 30) (be16 buf 16) (buf 23))
              (omega (
                arith,
                ipv4-length (reversed_ip_text buf 26) (reversed_ip_text buf 30) (be16 buf 16)
                    (buf 23) (ip-length buf 26) (ip-length buf 30),
              )),
        ),
        (
          (
            not_fatal,
            fits (udp_line (be16 buf 34) (be16 buf 36) (be16 buf 38))
                (omega (arith, udp-length (be16 buf 34) (be16 buf 36) (be16 buf 38))),
          ),
          ((not_fatal, fits (payload_line n (hex_text (bytes_at buf 42 n))) payload_short), tt),
        ),
      ),
    ),
  )
    where
      not_fatal : info ≢ fatal
      not_fatal e = cc

      n : ℕ
      n = shown_len (be16 buf 38)

      payload_short : length (entry_text (payload_line n (hex_text (bytes_at buf 42 n)))) < 3067
      payload_short =
          let size = payload_text-length n (hex_text (bytes_at buf 42 n)) in
          let digits = hex_text-length buf 42 n in
          let count = decimal-length 19 n in
          let value : n ≡ be16 buf 38 - 8 = shown_long (be16 buf 38) long in omega arith

  -- A UDP packet in one piece of memory, whose datagram length passes the size check and lies between
  -- 8 and 1480, where the place in front of each line takes at most 1000 characters: the handler
  -- succeeds with the report of the packet's headers and payload; and its calls of the log, with the
  -- level info passing and a file that is open, return and write exactly the five lines of the report,
  -- whole and in order, to that file.
  pub report-lines :
      (rte : Rte) (wire : IsWire rte) (thread_id : ℕ) (buf : Memory)
      → AreBytes buf
      → (mbuf : Mbuf) → IsFlat mbuf buf
      → be16 buf 12 ≡ 0x0800
      → buf 23 ≡ 17
      → 34 + be16 buf 38 ≤ mbuf.pkt_len
      → mbuf.pkt_len < 2 ^ 63
      → 8 ≤ be16 buf 38
      → be16 buf 38 ≤ 1480
      → (garbage : Memory) (filename : List ℕ) (s : Log) (fp : ℕ) → s.fp_s ≡ some fp
      → passes s.log_level info ≡ true
      → let es = frame_report thread_id buf in
        (network_packet_handler rte thread_id (some mbuf) ≡ success es)
        × ((t : Log) × (run garbage filename (map (entry_call file line_of clock_of) es) s
              ≡ returned t)
            × (t.written
                ≡ s.written
                  ++ map
                      (λ e. (fp, line_text info (line_of e) file (clock_of e) (entry_text e)))
                      es))
  report-lines rte wire thread_id buf bytes mbuf flat ethertype protocol checked small long short
        garbage filename s fp opened shown =
      let calls = map (entry_call file line_of clock_of) (frame_report thread_id buf) in
      let (t, ran, found) =
        run-ordinary garbage filename calls s fp opened
          (report-AllOrdinary thread_id buf long short) in
      (
        (payload_within rte wire thread_id buf bytes mbuf flat ethertype protocol checked small).0,
        (t, ran, found ∙ ap (◌++◌ s.written) five),
      )
    where
      five :
          lines s.log_level fp (map (entry_call file line_of clock_of) (frame_report thread_id buf))
          ≡ map
              (λ e. (fp, line_text info (line_of e) file (clock_of e) (entry_text e)))
              (frame_report thread_id buf)
      five = rw shown refl
