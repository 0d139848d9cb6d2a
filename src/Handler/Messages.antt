-- ===== src/Handler/Messages.antt =====
-- software/src/main.cc: the messages that `network_packet_handler` logs, as their formats print them.
use packet_filter.Base.{ℕ, zero, suc, ◌/◌, ◌%◌, ltb, List, [], ◌∷◌, ◌++◌, true, false}
use packet_filter.Text.Decimal.{decimal}
use packet_filter.Logging.{Level, error, warn, info, debug, Clock}
use packet_filter.Logging.Output.{LogCall, message}
use packet_filter.Handler.Print.{hex_digit}
use packet_filter.Handler.{
  Entry, no_ether_header, no_ipv4_header, no_udp_header, no_udp_payload, non_ipv4, non_udp,
  too_long, received, ether_line, ipv4_line, udp_line, payload_line,
}

-- `%x`: the hexadecimal digits of `n`, at most one more than `fuel`.
unfoldable pub hex : ℕ → ℕ → List ℕ
hex zero n = hex_digit (n % 16) ∷ []
hex (suc fuel) n = elim (ltb n 16) [
  | true ↦ hex_digit n ∷ []
  | false ↦ hex fuel (n / 16) ++ (hex_digit (n % 16) ∷ [])
]

abbrev pub entry_level : Entry → Level
entry_level no_ether_header = warn
entry_level no_ipv4_header = warn
entry_level no_udp_header = warn
entry_level no_udp_payload = warn
entry_level non_ipv4 = debug
entry_level non_udp = debug
entry_level (too_long needed pkt_len) = error
entry_level (received thread_id) = info
entry_level (ether_line src dst ether_type) = info
entry_level (ipv4_line src dst total_length next_proto_id) = info
entry_level (udp_line src_port dst_port dgram_len) = info
entry_level (payload_line payload_len bytes) = info

-- What `printf` makes of the formats; 20 digits are enough for a `size_t`, 5 decimal and 4 hexadecimal
-- ones for 16 bits.
unfoldable pub entry_text : Entry → List ℕ
entry_text no_ether_header =
    (b'F' ∷ b'a' ∷ b'i' ∷ b'l' ∷ b'e' ∷ b'd' ∷ b' ' ∷ b't' ∷ b'o' ∷ b' ' ∷ b'g' ∷ b'e' ∷ b't' ∷ b' '
      ∷ b'E' ∷ b't' ∷ b'h' ∷ b'e' ∷ b'r' ∷ b'n' ∷ b'e' ∷ b't' ∷ b' ' ∷ b'h' ∷ b'e' ∷ b'a' ∷ b'd'
      ∷ b'e' ∷ b'r' ∷ [])
entry_text no_ipv4_header =
    (b'F' ∷ b'a' ∷ b'i' ∷ b'l' ∷ b'e' ∷ b'd' ∷ b' ' ∷ b't' ∷ b'o' ∷ b' ' ∷ b'g' ∷ b'e' ∷ b't' ∷ b' '
      ∷ b'I' ∷ b'P' ∷ b'v' ∷ b'4' ∷ b' ' ∷ b'h' ∷ b'e' ∷ b'a' ∷ b'd' ∷ b'e' ∷ b'r' ∷ [])
entry_text no_udp_header =
    (b'F' ∷ b'a' ∷ b'i' ∷ b'l' ∷ b'e' ∷ b'd' ∷ b' ' ∷ b't' ∷ b'o' ∷ b' ' ∷ b'g' ∷ b'e' ∷ b't' ∷ b' '
      ∷ b'U' ∷ b'D' ∷ b'P' ∷ b' ' ∷ b'h' ∷ b'e' ∷ b'a' ∷ b'd' ∷ b'e' ∷ b'r' ∷ [])
entry_text no_udp_payload =
    (b'F' ∷ b'a' ∷ b'i' ∷ b'l' ∷ b'e' ∷ b'd' ∷ b' ' ∷ b't' ∷ b'o' ∷ b' ' ∷ b'g' ∷ b'e' ∷ b't' ∷ b' '
      ∷ b'U' ∷ b'D' ∷ b'P' ∷ b' ' ∷ b'p' ∷ b'a' ∷ b'y' ∷ b'l' ∷ b'o' ∷ b'a' ∷ b'd' ∷ [])
entry_text non_ipv4 =
    (b'N' ∷ b'o' ∷ b'n' ∷ b'-' ∷ b'I' ∷ b'P' ∷ b'v' ∷ b'4' ∷ b' ' ∷ b'p' ∷ b'a' ∷ b'c' ∷ b'k' ∷ b'e'
      ∷ b't' ∷ b' ' ∷ b'r' ∷ b'e' ∷ b'c' ∷ b'e' ∷ b'i' ∷ b'v' ∷ b'e' ∷ b'd' ∷ b',' ∷ b' ' ∷ b's'
      ∷ b'k' ∷ b'i' ∷ b'p' ∷ b'p' ∷ b'i' ∷ b'n' ∷ b'g' ∷ [])
entry_text non_udp =
    (b'N' ∷ b'o' ∷ b'n' ∷ b'-' ∷ b'U' ∷ b'D' ∷ b'P' ∷ b' ' ∷ b'p' ∷ b'a' ∷ b'c' ∷ b'k' ∷ b'e' ∷ b't'
      ∷ b' ' ∷ b'r' ∷ b'e' ∷ b'c' ∷ b'e' ∷ b'i' ∷ b'v' ∷ b'e' ∷ b'd' ∷ b',' ∷ b' ' ∷ b's' ∷ b'k'
      ∷ b'i' ∷ b'p' ∷ b'p' ∷ b'i' ∷ b'n' ∷ b'g' ∷ [])
entry_text (too_long needed pkt_len) =
    (b'U' ∷ b'D' ∷ b'P' ∷ b' ' ∷ b'p' ∷ b'a' ∷ b'y' ∷ b'l' ∷ b'o' ∷ b'a' ∷ b'd' ∷ b' ' ∷ b'l' ∷ b'e'
      ∷ b'n' ∷ b'g' ∷ b't' ∷ b'h' ∷ b' ' ∷ b'e' ∷ b'x' ∷ b'c' ∷ b'e' ∷ b'e' ∷ b'd' ∷ b's' ∷ b' '
      ∷ b'p' ∷ b'a' ∷ b'c' ∷ b'k' ∷ b'e' ∷ b't' ∷ b' ' ∷ b'l' ∷ b'e' ∷ b'n' ∷ b'g' ∷ b't' ∷ b'h'
      ∷ b' ' ∷ [])
    ++ decimal 19 needed
    ++ (b' ' ∷ b'>' ∷ b' ' ∷ [])
    ++ decimal 19 pkt_len
entry_text (received thread_id) =
    (b'R' ∷ b'e' ∷ b'c' ∷ b'e' ∷ b'i' ∷ b'v' ∷ b'e' ∷ b'd' ∷ b' ' ∷ b'U' ∷ b'D' ∷ b'P' ∷ b' ' ∷ b'p'
      ∷ b'a' ∷ b'c' ∷ b'k' ∷ b'e' ∷ b't' ∷ b' ' ∷ b'o' ∷ b'n' ∷ b' ' ∷ b't' ∷ b'h' ∷ b'r' ∷ b'e'
      ∷ b'a' ∷ b'd' ∷ b'_' ∷ b'i' ∷ b'd' ∷ b' ' ∷ [])
    ++ decimal 4 thread_id
entry_text (ether_line src dst ether_type) =
    (b' ' ∷ b' ' ∷ b'e' ∷ b't' ∷ b'h' ∷ b'e' ∷ b'r' ∷ b'_' ∷ b'h' ∷ b'd' ∷ b'r' ∷ b':' ∷ b' ' ∷ b's'
      ∷ b'r' ∷ b'c' ∷ b'=' ∷ [])
    ++ src
    ++ (b',' ∷ b' ' ∷ b'd' ∷ b's' ∷ b't' ∷ b'=' ∷ [])
    ++ dst
    ++ (b',' ∷ b' ' ∷ b'e' ∷ b't' ∷ b'h' ∷ b'e' ∷ b'r' ∷ b'_' ∷ b't' ∷ b'y' ∷ b'p' ∷ b'e' ∷ b'='
        ∷ [])
    ++ hex 3 ether_type
entry_text (ipv4_line src dst total_length next_proto_id) =
    (b' ' ∷ b' ' ∷ b'i' ∷ b'p' ∷ b'v' ∷ b'4' ∷ b'_' ∷ b'h' ∷ b'd' ∷ b'r' ∷ b':' ∷ b' ' ∷ b's' ∷ b'r'
      ∷ b'c' ∷ b'=' ∷ [])
    ++ src
    ++ (b',' ∷ b' ' ∷ b'd' ∷ b's' ∷ b't' ∷ b'=' ∷ [])
    ++ dst
    ++ (b',' ∷ b' ' ∷ b't' ∷ b'o' ∷ b't' ∷ b'a' ∷ b'l' ∷ b'_' ∷ b'l' ∷ b'e' ∷ b'n' ∷ b'g' ∷ b't'
        ∷ b'h' ∷ b'=' ∷ [])
    ++ decimal 4 total_length
    ++ (b',' ∷ b' ' ∷ b'n' ∷ b'e' ∷ b'x' ∷ b't' ∷ b'_' ∷ b'p' ∷ b'r' ∷ b'o' ∷ b't' ∷ b'o' ∷ b'_'
        ∷ b'i' ∷ b'd' ∷ b'=' ∷ [])
    ++ hex 3 next_proto_id
entry_text (udp_line src_port dst_port dgram_len) =
    (b' ' ∷ b' ' ∷ b'u' ∷ b'd' ∷ b'p' ∷ b'_' ∷ b'h' ∷ b'd' ∷ b'r' ∷ b':' ∷ b' ' ∷ b's' ∷ b'r' ∷ b'c'
      ∷ b'_' ∷ b'p' ∷ b'o' ∷ b'r' ∷ b't' ∷ b'=' ∷ [])
    ++ decimal 4 src_port
    ++ (b',' ∷ b' ' ∷ b'd' ∷ b's' ∷ b't' ∷ b'_' ∷ b'p' ∷ b'o' ∷ b'r' ∷ b't' ∷ b'=' ∷ [])
    ++ decimal 4 dst_port
    ++ (b',' ∷ b' ' ∷ b'd' ∷ b'g' ∷ b'r' ∷ b'a' ∷ b'm' ∷ b'_' ∷ b'l' ∷ b'e' ∷ b'n' ∷ b'=' ∷ [])
    ++ decimal 4 dgram_len
entry_text (payload_line payload_len bytes) =
    (b' ' ∷ b' ' ∷ b'u' ∷ b'd' ∷ b'p' ∷ b'_' ∷ b'p' ∷ b'a' ∷ b'y' ∷ b'l' ∷ b'o' ∷ b'a' ∷ b'd' ∷ b' '
      ∷ b'(' ∷ [])
    ++ decimal 19 payload_len
    ++ (b' ' ∷ b'b' ∷ b'y' ∷ b't' ∷ b'e' ∷ b's' ∷ b')' ∷ b':' ∷ b' ' ∷ [])
    ++ bytes

-- The call of `Log`, where the compiler gives `__FILENAME__` and `__LINE__`.
abbrev pub entry_call : List ℕ → (Entry → ℕ) → (Entry → Clock) → Entry → LogCall
entry_call file line_of clock_of e =
    message (entry_level e) (line_of e) file (clock_of e) (entry_text e)
