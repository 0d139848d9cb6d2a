-- ===== src/Examples/Program.antt =====
-- The whole program on a card with registers of 32 bits.
use packet_filter.Base.{
  ℕ, ◌+◌, ◌*◌, ◌%◌, ◌^◌, ◌==◌, Bool, true, List, [], ◌∷◌, some, map, if◌then◌else◌,
}
use packet_filter.Mmio.{Driver, Mmio}
use packet_filter.Rules.Constructed.{Rule, rule_text, rules_written}
use packet_filter.Options.Parsed.{Setting, config, filters, seconds}
use packet_filter.Dpdk.Calls.{
  Call, eal_init, pool_create, is_valid_port, dev_info_get, dev_configure, adjust_desc,
  rx_queue_setup, dev_start, stats_reset, notify_ready, Trace,
}
use packet_filter.Examples.Data.{blank, lookup_addr, lookup_addr-IsAddress, server_text}

abbrev card : Driver
card = record {
  Card = ℕ → ℕ;
  get_device = λ port. port == 0;
  count_avail = 1;
  get_bar_details = λ port. some 2;
  write_reg = λ port bar reg v c. λ r. if r == reg then v else c r;
  read_reg = λ port bar reg c. (c reg % 2 ^ 32, c);
}

-- Two registers as one number, and its two words.
abbrev wide : ℕ → (ℕ → ℕ) → ℕ
wide reg c = c reg % 2 ^ 32 + c (reg + 4) % 2 ^ 32 * 2 ^ 32

abbrev at_filter : Mmio
at_filter = record { base_addr = 0x102000; port_id = 0; bar_id = 2 }

abbrev at_adapter : Mmio
at_adapter = record { base_addr = 0xB000; port_id = 0; bar_id = 2 }

-- `-c "-l 0" -f <ip>:8500 -d 60`.
abbrev rules : List Rule
rules = record { ip_str = server_text; port = 8500 } ∷ []

abbrev config_str : List ℕ
config_str = b'-' ∷ b'l' ∷ b' ' ∷ b'0' ∷ []

abbrev settings : List Setting
settings = config config_str ∷ filters (map rule_text rules) ∷ seconds 60 ∷ []

abbrev succeeds : Trace → Call → Bool
succeeds trace c = true

abbrev rings : ℕ → ℕ
rings port = 1024

-- While the program waits, 7 packets come in.
abbrev elapsed : ℕ → (ℕ → ℕ) → ℕ → ℕ
elapsed time c reg = if reg == 0x102028 then 7 else c reg

-- The calls of DPDK for one port and one thread.
abbrev trace : Trace
trace =
    eal_init ((b'-' ∷ b'l' ∷ []) ∷ (b'0' ∷ []) ∷ [])
    ∷ pool_create 0 8192 250
    ∷ is_valid_port 0
    ∷ dev_info_get 0
    ∷ dev_configure 0 1 0
    ∷ adjust_desc 0 2048 0
    ∷ rx_queue_setup 0 0 1024 64 0
    ∷ dev_start 0
    ∷ stats_reset 0
    ∷ notify_ready
    ∷ []

-- It stands for the function that is registered.
abbrev handler : ℕ
handler = 7

abbrev written : ℕ → ℕ
written = rules_written card lookup_addr lookup_addr-IsAddress at_filter rules blank
