-- ===== src/Mmio/Words.antt =====
-- What `write<T>` stores, `read<T>` gives back (software/src/packet_filter.h).
use packet_filter.Base.{
  ℕ, ◌+◌, ◌*◌, ◌/◌, ◌%◌, ◌^◌, ◌≤◌, ◌<◌, ◌≡◌, ◌≢◌, ap, ap₂, ◌∙◌, ne→==, le→leb, lt→leb, arith,
}
use Prim.Native.Nat.{bit_or}
use native.Mathlib.Nat.{mod-mod, mod-eq_of_lt, pow-le-pow_right, le_trans}
use native.Mathlib.Decide.{dec_le}
use packet_filter.Base.Masks.{bit_and_mask, bit_or_halves}
use packet_filter.Mmio.{Driver, done, Mmio, mmio_reg_write, mmio_reg_read, write, read, bind_done}

-- Registers that hold what was last written to them, as the driver's documentation has it for
-- plain registers: `regs` reads one without changing the card.
pub record IsMemory (d : Driver) : Type 0 where
  pub regs : ℕ → ℕ → ℕ → d.Card → ℕ
  pub read_regs :
      (port bar reg : ℕ) (c : d.Card) → d.read_reg port bar reg c ≡ (regs port bar reg c, c)
  pub write_same :
      (port bar reg v : ℕ) (c : d.Card)
      → v < 2 ^ 32
      → regs port bar reg (d.write_reg port bar reg v c) ≡ v
  pub write_other :
      (port bar reg other v : ℕ) (c : d.Card)
      → reg ≢ other
      → regs port bar other (d.write_reg port bar reg v c) ≡ regs port bar other c

-- The address of the register at `offset`.
abbrev pub address : Mmio → ℕ → ℕ
address m offset = (m.base_addr + offset) % 2 ^ 32

abbrev joined : ℕ → ℕ → ℕ → ℕ
joined size high low = bit_or (high * 2 ^ 32 % 2 ^ 64) low % 2 ^ (8 * size)

-- The two halves of a value of `size` bytes make up the value.
halves :
    (size value : ℕ)
    → size ≤ 8
    → value < 2 ^ (8 * size)
    → joined size (value / 2 ^ 32 % 2 ^ 32) (value % 2 ^ 32) ≡ value
halves size value size_fits value_fits =
    let wide : value < 2 ^ 64 =
      le_trans value_fits (pow-le-pow_right {n = 2} (omega arith) {j = 64} (omega arith)) in
    let high : value / 2 ^ 32 % 2 ^ 32 * 2 ^ 32 % 2 ^ 64 ≡ value / 2 ^ 32 * 2 ^ 32 = omega arith in
    ap (λ (t : ℕ). bit_or t (value % 2 ^ 32) % 2 ^ (8 * size)) high
    ∙ ap (λ (t : ℕ). t % 2 ^ (8 * size))
        (bit_or_halves 32 (value / 2 ^ 32) (value % 2 ^ 32) (omega arith) ∙ whole)
    ∙ mod-eq_of_lt value_fits
  where
    whole : value / 2 ^ 32 * 2 ^ 32 + value % 2 ^ 32 ≡ value
    whole = omega arith

module _ (d : Driver) (m : Mmio) (based : m.base_addr ≢ 0) where
  reg_write :
      (offset value : ℕ) (c : d.Card)
      → mmio_reg_write d m offset value c
        ≡ done tt (d.write_reg m.port_id m.bar_id (address m offset) value c)
  unfolding mmio_reg_write
  reg_write offset value c = rw (ne→== m.base_addr 0 based)

  pub write_word :
      (size offset value : ℕ) (c : d.Card)
      → size ≤ 4
      → write d size m offset value c
        ≡ done tt (d.write_reg m.port_id m.bar_id (address m offset) (value % 2 ^ 32) c)
  unfolding write
  write_word size offset value c small =
      rw (le→leb size 4 small) (reg_write offset (value % 2 ^ 32) c)

  write_pair :
      (size offset value : ℕ) (c : d.Card)
      → 4 < size
      → write d size m offset value c
        ≡ done tt (
            d.write_reg m.port_id m.bar_id
              (address m ((offset + 4) % 2 ^ 32))
              (value / 2 ^ 32 % 2 ^ 32)
              (d.write_reg m.port_id m.bar_id (address m offset) (value % 2 ^ 32) c))
  unfolding write
  write_pair size offset value c large =
      rw
        (
          lt→leb size 4 large,
          bit_and_mask 32 value,
          bit_and_mask 32 (value / 2 ^ 32),
          mod-mod value (2 ^ 32),
          mod-mod (value / 2 ^ 32) (2 ^ 32),
        )
        (bind_done (mmio_reg_write d m offset (value % 2 ^ 32)) _ c
            (reg_write offset (value % 2 ^ 32) c)
          ∙ reg_write ((offset + 4) % 2 ^ 32) (value / 2 ^ 32 % 2 ^ 32) _)

module _ (d : Driver) (mem : IsMemory d) (m : Mmio) (based : m.base_addr ≢ 0) where
  pub reg_read :
      (offset : ℕ) (c : d.Card)
      → mmio_reg_read d m offset c ≡ done (mem.regs m.port_id m.bar_id (address m offset) c) c
  unfolding mmio_reg_read
  reg_read offset c =
      rw (ne→== m.base_addr 0 based, mem.read_regs m.port_id m.bar_id (address m offset) c)

  read_word :
      (size offset : ℕ) (c : d.Card)
      → size ≤ 4
      → read d size m offset c
        ≡ done (mem.regs m.port_id m.bar_id (address m offset) c % 2 ^ (8 * size)) c
  unfolding read
  read_word size offset c small =
      rw (le→leb size 4 small) (bind_done (mmio_reg_read d m offset) _ c (reg_read offset c))

  -- A wide read puts the two registers together.
  read_pair :
      (size offset : ℕ) (c : d.Card)
      → 4 < size
      → let low = mem.regs m.port_id m.bar_id (address m offset) c in
        let high = mem.regs m.port_id m.bar_id (address m ((offset + 4) % 2 ^ 32)) c in
        read d size m offset c ≡ done (bit_or (high * 2 ^ 32 % 2 ^ 64) low % 2 ^ (8 * size)) c
  unfolding read
  read_pair size offset c large = rw (lt→leb size 4 large) (
      bind_done (mmio_reg_read d m offset) _ c (reg_read offset c)
      ∙ bind_done (mmio_reg_read d m ((offset + 4) % 2 ^ 32)) _ c
          (reg_read ((offset + 4) % 2 ^ 32) c))

  apart : (offset : ℕ) → address m ((offset + 4) % 2 ^ 32) ≢ address m offset
  apart offset e = omega arith

  -- What was written by `write<T>` is read back by `read<T>`, for every unsigned `T` of up to 8
  -- bytes, through a base address that is set and registers that hold what is written to them.
  pub read-write :
      (size offset value : ℕ) (c : d.Card)
      → size ≤ 8
      → value < 2 ^ (8 * size)
      → (c' : d.Card) × (write d size m offset value c ≡ done tt c')
        × (read d size m offset c' ≡ done value c')
  read-write size offset value c size_fits value_fits = elim (dec_le size 4) [
    | yes small ↦
        let narrow : value < 2 ^ 32 =
          le_trans value_fits (pow-le-pow_right {n = 2} (omega arith) {j = 32} (omega arith)) in
        let c' = d.write_reg m.port_id m.bar_id (address m offset) (value % 2 ^ 32) c in
        (
          c',
          write_word d m based size offset value c small,
          read_word size offset c' small
              ∙ ap (λ (t : ℕ). done (t % 2 ^ (8 * size)) c')
                  (mem.write_same m.port_id m.bar_id (address m offset) (value % 2 ^ 32) c
                      (omega arith)
                    ∙ mod-eq_of_lt narrow)
              ∙ ap (λ (t : ℕ). done t c') (mod-eq_of_lt value_fits),
        )
    | no large ↦
        let low_at = address m offset in
        let high_at = address m ((offset + 4) % 2 ^ 32) in
        let c₁ = d.write_reg m.port_id m.bar_id low_at (value % 2 ^ 32) c in
        let c' = d.write_reg m.port_id m.bar_id high_at (value / 2 ^ 32 % 2 ^ 32) c₁ in
        let low : mem.regs m.port_id m.bar_id low_at c' ≡ value % 2 ^ 32 =
          mem.write_other m.port_id m.bar_id high_at low_at (value / 2 ^ 32 % 2 ^ 32) c₁
            (apart offset)
          ∙ mem.write_same m.port_id m.bar_id low_at (value % 2 ^ 32) c (omega arith) in
        let high : mem.regs m.port_id m.bar_id high_at c' ≡ value / 2 ^ 32 % 2 ^ 32 =
          mem.write_same m.port_id m.bar_id high_at (value / 2 ^ 32 % 2 ^ 32) c₁ (omega arith) in
        (
          c',
          write_pair d m based size offset value c (omega arith),
          read_pair size offset c' (omega arith)
              ∙ ap (λ (t : ℕ). done t c')
                  (ap₂ (joined size) high low ∙ halves size value size_fits value_fits),
        )
  ]
