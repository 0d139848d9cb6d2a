-- ===== src/Mmio.antt =====
-- software/src/packet_filter.h and packet_filter.cc, class `MMIO`: the registers of the card, as the
-- driver gives access to them.
pub mod Words
use packet_filter.Base.{
  ℕ, ◌+◌, ◌-◌, ◌*◌, ◌/◌, ◌%◌, ◌^◌, bit_and, Bool, true, false, ◌==◌, ltb, leb, if◌then◌else◌,
  Option, none, some, not, ◌≡◌,
}
use Prim.Native.Nat.{bit_or}

-- The functions of the driver that the class calls, over a state of the card. A read may change it.
-- `get_bar_details` gives the user BAR, or `none` for an error.
pub record Driver : Type 1 where
  pub Card : Type 0
  pub get_device : ℕ → Bool
  pub count_avail : ℕ
  pub get_bar_details : ℕ → Option ℕ
  pub write_reg : ℕ → ℕ → ℕ → ℕ → Card → Card
  pub read_reg : ℕ → ℕ → ℕ → Card → ℕ × Card

-- A value and the card after it; or the end of the process by `log_fatal`; or an exception.
pub data Outcome (C A : Type 0) : Type 0 where
  done : A → C → Outcome C A
  fatal : C → Outcome C A
  exception : C → Outcome C A

infixl 5 ◌>>=◌ ◌>>◌
abbrev pub ◌>>=◌ : {C A B : Type 0} → (C → Outcome C A) → (A → C → Outcome C B) → C → Outcome C B
◌>>=◌ m f c = elim (m c) [ done a c' ↦ f a c' | fatal c' ↦ fatal c' | exception c' ↦ exception c' ]

abbrev pub ◌>>◌ : {C B : Type 0} → (C → Outcome C (Unit {0})) → (C → Outcome C B) → C → Outcome C B
m >> k = m >>= λ _. k

-- A step that ends normally hands its value and its card on.
pub bind_done :
    {C A B : Type 0} (m : C → Outcome C A) (f : A → C → Outcome C B) (c : C) {a : A} {c' : C}
    → m c ≡ done a c'
    → (m >>= f) c ≡ f a c'
bind_done m f c e = rw (e, ◌>>=◌)

-- A step that ends the process ends the whole.
pub bind_fatal :
    {C A B : Type 0} (m : C → Outcome C A) (f : A → C → Outcome C B) (c : C) {c' : C}
    → m c ≡ fatal c'
    → (m >>= f) c ≡ fatal c'
bind_fatal m f c e = rw (e, ◌>>=◌)

-- `log_assert`.
abbrev pub log_assert : {C : Type 0} → Bool → C → Outcome C (Unit {0})
log_assert true c = done tt c
log_assert false c = fatal c

pub record Mmio : Type 0 where
  pub base_addr : ℕ
  pub port_id : ℕ
  pub bar_id : ℕ

unfoldable pub set_base_addr : ℕ → Mmio → Mmio
set_base_addr addr m = record m { base_addr = addr }

module _ (d : Driver) where
  open d use {Card, get_device, count_avail, get_bar_details, write_reg, read_reg}

  -- The end of the constructor, once the BARs are asked for.
  abbrev pub with_bar : ℕ → ℕ → Option ℕ → Card → Outcome Card Mmio
  with_bar base_addr port_id none c = fatal c
  with_bar base_addr port_id (some user_bar) c =
      done (record { base_addr = base_addr; port_id = port_id; bar_id = user_bar % 2 ^ 32 }) c

  -- The constructor; `base_addr` is what the field holds before `set_base_addr`.
  unfoldable pub new : ℕ → ℕ → Card → Outcome Card Mmio
  new base_addr port_id = do
    log_assert (get_device port_id)
    let port_num = count_avail % 2 ^ 8
    log_assert (ltb port_id port_num)
    with_bar base_addr port_id (get_bar_details port_id)

  unfoldable pub mmio_reg_write : Mmio → ℕ → ℕ → Card → Outcome Card (Unit {0})
  mmio_reg_write m offset value = do
    log_assert (not (m.base_addr == 0))
    λ c. done tt (write_reg m.port_id m.bar_id ((m.base_addr + offset) % 2 ^ 32) value c)

  unfoldable pub mmio_reg_read : Mmio → ℕ → Card → Outcome Card ℕ
  mmio_reg_read m offset = do
    log_assert (not (m.base_addr == 0))
    λ c.
        let (value, c') = read_reg m.port_id m.bar_id ((m.base_addr + offset) % 2 ^ 32) c in
        done value c'

  -- `write<T>` for an unsigned `T` of `size` bytes.
  unfoldable pub write : ℕ → Mmio → ℕ → ℕ → Card → Outcome Card (Unit {0})
  write size m offset value = if leb size 4 then mmio_reg_write m offset (value % 2 ^ 32) else (do
    mmio_reg_write m offset (bit_and value 0xffffffff % 2 ^ 32)
    mmio_reg_write m ((offset + 4) % 2 ^ 32) (bit_and (value / 2 ^ 32) 0xffffffff % 2 ^ 32))

  -- `read<T>` for an unsigned `T` of `size` bytes.
  unfoldable pub read : ℕ → Mmio → ℕ → Card → Outcome Card ℕ
  read size m offset =
      if leb size 4 then (do value ← mmio_reg_read m offset; done (value % 2 ^ (8 * size))) else (do
        low ← mmio_reg_read m offset
        high ← mmio_reg_read m ((offset + 4) % 2 ^ 32)
        done (bit_or (high * 2 ^ 32 % 2 ^ 64) low % 2 ^ (8 * size)))
