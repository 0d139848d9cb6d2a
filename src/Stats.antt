-- ===== src/Stats.antt =====
-- software/src/packet_filter.cc: the statistics that the host prints. What both `show_stats` share:
-- the macro `PRINT_STAT` and a counter of 64 bits in two registers.
pub mod Core
pub mod Adapter
pub mod Printed
pub mod Torn
use packet_filter.Base.{
  ℕ, ◌+◌, ◌-◌, ◌*◌, ◌/◌, ◌%◌, ◌^◌, ◌<◌, ◌&&◌, ◌==◌, ltb, not, List, [], ◌∷◌, if◌then◌else◌, ◌≡◌,
  ◌≢◌, ap, ap₂, ◌∙◌, ne→==, arith,
}
use Prim.Native.Nat.{bit_or}
use Prim.Native.String.{String}
use packet_filter.Base.Masks.{bit_or_halves}
use packet_filter.Mmio.{Driver, done, Mmio, mmio_reg_read, read, bind_done}
use packet_filter.Mmio.Words.{address}

-- A call of `log_info`: its format with no value, or with one.
pub data Line : Type 0 where
  title : String → Line
  stat : String → ℕ → Line

-- `PRINT_STAT` for a `uint64_t`.
abbrev pub print_stat : String → ℕ → List Line
print_stat str val = if ltb 0 val && not (val == 2 ^ 64 - 1) then stat str val ∷ [] else []

-- The two registers of a counter, as reads of the driver see them: the low word at `offset` when
-- the counter was `older`, then the high word behind it when it was `newer`.
pub record IsRead (d : Driver) (m : Mmio) (offset older newer : ℕ) (c c' : d.Card) : Type 0 where
  pub between : d.Card
  pub low : d.read_reg m.port_id m.bar_id (address m offset) c ≡ (older % 2 ^ 32, between)
  pub high :
      d.read_reg m.port_id m.bar_id (address m ((offset + 4) % 2 ^ 32)) between
      ≡ (newer / 2 ^ 32 % 2 ^ 32, c')

module _ (d : Driver) (m : Mmio) (based : m.base_addr ≢ 0) where
  reg_read :
      (offset value : ℕ) (c c' : d.Card)
      → d.read_reg m.port_id m.bar_id (address m offset) c ≡ (value, c')
      → mmio_reg_read d m offset c ≡ done value c'
  unfolding mmio_reg_read
  reg_read offset value c c' e = rw (ne→== m.base_addr 0 based, e)

  -- A wide read puts the high word of the later moment before the low word of the earlier.
  pub read_words :
      (offset older newer : ℕ) (c c' : d.Card)
      → IsRead d m offset older newer c c'
      → read d 8 m offset c ≡ done (newer / 2 ^ 32 % 2 ^ 32 * 2 ^ 32 + older % 2 ^ 32) c'
  unfolding read
  read_words offset older newer c c' r =
      bind_done (mmio_reg_read d m offset) _ c (reg_read offset (older % 2 ^ 32) c r.between r.low)
      ∙ bind_done (mmio_reg_read d m ((offset + 4) % 2 ^ 32)) _ r.between
          (reg_read ((offset + 4) % 2 ^ 32) (newer / 2 ^ 32 % 2 ^ 32) r.between c' r.high)
      ∙ ap (λ (t : ℕ). done t c') (joined (newer / 2 ^ 32) (older % 2 ^ 32) (omega arith))
    where
      joined :
          (high low : ℕ)
          → low < 2 ^ 32
          → bit_or (high % 2 ^ 32 * 2 ^ 32 % 2 ^ 64) low % 2 ^ 64 ≡ high % 2 ^ 32 * 2 ^ 32 + low
      joined high low fits =
          let wide : high % 2 ^ 32 * 2 ^ 32 % 2 ^ 64 ≡ high % 2 ^ 32 * 2 ^ 32 = omega arith in
          ap (λ (t : ℕ). bit_or t low % 2 ^ 64) wide
          ∙ ap (λ (t : ℕ). t % 2 ^ 64) (bit_or_halves 32 (high % 2 ^ 32) low fits)
          ∙ omega arith

  -- A counter that rests is read modulo `2 ^ 64`.
  pub read_counter :
      (offset value : ℕ) (c c' : d.Card)
      → IsRead d m offset value value c c'
      → read d 8 m offset c ≡ done (value % 2 ^ 64) c'
  read_counter offset value c c' r =
      read_words offset value value c c' r ∙ ap (λ (t : ℕ). done t c') whole
    where
      whole : value / 2 ^ 32 % 2 ^ 32 * 2 ^ 32 + value % 2 ^ 32 ≡ value % 2 ^ 64
      whole = omega arith
