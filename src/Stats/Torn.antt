-- ===== src/Stats/Torn.antt =====
-- A counter that changes between the two reads of `read<uint64_t>`.
use packet_filter.Base.{ℕ, ◌+◌, ◌*◌, ◌/◌, ◌%◌, ◌^◌, ◌≤◌, ◌<◌, ◌≡◌, ◌≢◌, ◌↔◌, arith}
use packet_filter.Mmio.{Driver, done, Mmio, read}
use packet_filter.Stats.{IsRead, read_words}

-- A 64-bit counter is `older` when its low register is read and `newer`, not less, when its high
-- register is. Then the value that `read<uint64_t>` returns is at least `older`; and it is at most
-- `newer` exactly if the low word of `newer` is not below that of `older`. Once the low word went
-- over in between, more is reported than was ever counted.
pub torn_read :
    (d : Driver) (m : Mmio)
    → m.base_addr ≢ 0
    → (offset older newer : ℕ) (c c' : d.Card) → older ≤ newer
    → newer < 2 ^ 64
    → IsRead d m offset older newer c c'
    → (value : ℕ) × (read d 8 m offset c ≡ done value c')
      × (older ≤ value)
      × ((value ≤ newer) ↔ (older % 2 ^ 32 ≤ newer % 2 ^ 32))
torn_read d m based offset older newer c c' grows fits r = (
  newer / 2 ^ 32 % 2 ^ 32 * 2 ^ 32 + older % 2 ^ 32,
  read_words d m based offset older newer c c' r,
  omega arith,
  ((λ h. omega arith), (λ h. omega arith)),
)
