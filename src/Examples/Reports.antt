-- ===== src/Examples/Reports.antt =====
-- The report of a packet in the log.
use packet_filter.Base.{ℕ, ◌+◌, ◌*◌, ltb, List, [], ◌∷◌, ◌++◌, map, length, some, ◌≡◌, refl, arith}
use packet_filter.Text.Decimal.{decimal}
use packet_filter.Logging.{pos, info, is_filtered, LineBuf, log, log_buf_size}
use packet_filter.Logging.Buffer.{header}
use packet_filter.Logging.Lines.{line_text}
use packet_filter.Logging.Output.{Log, returned, initial, run}
use packet_filter.Handler.{success, Entry, payload_line, network_packet_handler}
use packet_filter.Handler.Texts.{bytes_at, hex_text}
use packet_filter.Handler.Frame.{frame_report}
use packet_filter.Handler.Messages.{entry_text, entry_call}
use packet_filter.Handler.Overflow.{headers_report, payload-beyond}
use packet_filter.Handler.Reported.{report-lines}
use packet_filter.Examples.Received.{rte, rte-IsWire, buf, buf-AreBytes, mbuf, mbuf-IsFlat}
use packet_filter.Examples.Lines.{clock, blank}

abbrev file : List ℕ
file = b'm' ∷ b'.' ∷ b'c' ∷ b'c' ∷ []

abbrev payload : Entry
payload = payload_line 8 (hex_text (bytes_at buf 42 8))

payload-beyond_example :
    (network_packet_handler rte 3 (some mbuf) ≡ success (headers_report 3 buf ++ payload ∷ []))
    × ((b : LineBuf) × (log (pos 3) info file file (entry_text payload) ≡ some b)
        × (b.beyond
            ≡ ltb log_buf_size
                (length (header info file file) + (24 + length (decimal 19 8) + 2 * 8))))
unfolding is_filtered
payload-beyond_example =
    payload-beyond rte rte-IsWire 3 buf buf-AreBytes mbuf mbuf-IsFlat refl refl (omega arith)
      (omega arith) (omega arith) (pos 3) file file refl (omega arith)

abbrev lines_at : Entry → ℕ
lines_at e = 200

report-lines_example :
    (network_packet_handler rte 3 (some mbuf) ≡ success (frame_report 3 buf))
    × ((t : Log) × (run blank file
            (map (entry_call file lines_at (λ e. clock)) (frame_report 3 buf))
            (initial 1)
          ≡ returned t)
        × (t.written
            ≡ []
              ++ map (λ e. (1, line_text info 200 file clock (entry_text e))) (frame_report 3 buf)))
report-lines_example =
    report-lines file lines_at (λ e. clock) (λ e. unfold decimal in omega arith) rte rte-IsWire 3
      buf buf-AreBytes mbuf mbuf-IsFlat refl refl (omega arith) (omega arith) (omega arith)
      (omega arith) blank file (initial 1) 1 refl refl
