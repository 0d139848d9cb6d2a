-- ===== src/Rules/Written.antt =====
-- What `update_rule` leaves in the registers (software/src/packet_filter.cc).
use packet_filter.Base.{
  ℕ, suc, ◌-◌, ◌%◌, ◌^◌, ◌≤◌, ◌<◌, Bool, ◌==◌, not, List, [], ◌∷◌, ◌++◌, some, ◌≡◌, ◌≢◌, inl, inr,
  refl, ap, ◌∙◌, ne→==, ==→ne, Bool-cases, Option-cases, if◌then◌else◌, arith,
}
use native.Mathlib.Nat.{mod-eq_of_lt}
use packet_filter.Network.Ethernet.{bswap16}
use packet_filter.Text.{
  split_at, put_first, stoi, Stoi, positive, negative, invalid_argument, out_of_range,
}
use packet_filter.Text.Decimal.{decimal, stoi-decimal}
use packet_filter.Mmio.{
  Driver, Outcome, done, fatal, exception, Mmio, write, log_assert, bind_done, ◌>>=◌, ◌>>◌,
}
use packet_filter.Mmio.Words.{address, write_word}
use packet_filter.Rules.{
  RuleAction, drop, forward, action_value, inaddr_none, htons, ipv4_addr_reg, udp_port_reg,
  rule_action_reg, port_of_stoi, split_addr, write_rule, update_rule,
}

abbrev pub Without : ℕ → List ℕ → Type 0
Without c [] = Unit {0}
Without c (x ∷ xs) = (x ≢ c) × Without c xs

-- A text is split at its first separator.
split_at-append :
    (c : ℕ) (xs ys : List ℕ) → Without c xs → split_at c (xs ++ (c ∷ ys)) ≡ some (xs, ys)
unfolding split_at
split_at-append c [] ys h = ground arith
split_at-append c (x ∷ xs) ys h =
    ap
      (λ (b : Bool).
        if b then some ([], xs ++ (c ∷ ys)) else put_first x (split_at c (xs ++ (c ∷ ys))))
      (ne→== x c h.0)
    ∙ ap (put_first x) (split_at-append c xs ys h.1)

-- The card after a rule was written: address, port and action, in this order.
abbrev pub rule_writes : (d : Driver) → Mmio → ℕ → ℕ → ℕ → d.Card → d.Card
rule_writes d m ip port action c =
    d.write_reg m.port_id m.bar_id (address m rule_action_reg) action (
      d.write_reg m.port_id m.bar_id (address m udp_port_reg) port
        (d.write_reg m.port_id m.bar_id (address m ipv4_addr_reg) ip c))

action_fits : (a : RuleAction) → action_value a % 2 ^ 8 % 2 ^ 32 ≡ action_value a
action_fits drop = refl
action_fits forward = refl

pub htons-lt : (x : ℕ) → htons x < 2 ^ 16
unfolding bswap16
htons-lt x = omega arith

htons-ne_zero : (x : ℕ) → x < 2 ^ 16 → x ≢ 0 → htons x ≢ 0
unfolding bswap16
htons-ne_zero x h ne = omega arith

-- `inet_addr` returns a `uint32_t`.
abbrev pub IsAddress : (List ℕ → ℕ) → Type 0
IsAddress inet_addr = (s : List ℕ) → inet_addr s < 2 ^ 32

-- What an outcome says of the card: a rule was written as a whole, or nothing was.
abbrev pub WholeOrNothing : (d : Driver) → Mmio → ℕ → d.Card → Outcome d.Card (Unit {0}) → Type 0
WholeOrNothing d m action c (done x c') =
    (ip : ℕ) × (port : ℕ) × (ip ≢ inaddr_none)
    × (port ≢ 0)
    × (c' ≡ rule_writes d m ip port action c)
WholeOrNothing d m action c (fatal c') = c' ≡ c
WholeOrNothing d m action c (exception c') = c' ≡ c

module _ (d : Driver) (m : Mmio) (based : m.base_addr ≢ 0) where
  word_written :
      (size offset value : ℕ) (c : d.Card)
      → size ≤ 4
      → value < 2 ^ 32
      → write d size m offset value c
        ≡ done tt (d.write_reg m.port_id m.bar_id (address m offset) value c)
  word_written size offset value c small fits =
      write_word d m based size offset value c small
      ∙ ap (λ (v : ℕ). done tt (d.write_reg m.port_id m.bar_id (address m offset) v c))
          (mod-eq_of_lt fits)

module _ (d : Driver) (inet_addr : List ℕ → ℕ) (m : Mmio) (based : m.base_addr ≢ 0)
    (is_address : IsAddress inet_addr) where
  write_rule_lem :
      (ip port : ℕ) (a : RuleAction) (c : d.Card)
      → ip < 2 ^ 32
      → port < 2 ^ 16
      → write_rule d inet_addr m ip port (action_value a) c
        ≡ done tt (rule_writes d m ip port (action_value a) c)
  unfolding write_rule
  write_rule_lem ip port a c ip_fits port_fits =
      bind_done (write d 4 m ipv4_addr_reg ip) _ c
        (word_written d m based 4 ipv4_addr_reg ip c (omega arith) ip_fits)
      ∙ bind_done (write d 2 m udp_port_reg port) _ _
          (word_written d m based 2 udp_port_reg port _ (omega arith) (omega arith))
      ∙ write_word d m based 1 rule_action_reg (action_value a % 2 ^ 8) _ (omega arith)
      ∙ ap
          (λ (v : ℕ). done tt (
            d.write_reg m.port_id m.bar_id (address m rule_action_reg) v (
              d.write_reg m.port_id m.bar_id (address m udp_port_reg) port
                (d.write_reg m.port_id m.bar_id (address m ipv4_addr_reg) ip c))))
          (action_fits a)

  -- A rule whose parts are good is written.
  update_rule_good :
      (s : List ℕ) (a : RuleAction) (c : d.Card) (ip_str port_str : List ℕ) (number : ℕ)
      → split_at b':' s ≡ some (ip_str, port_str)
      → inet_addr ip_str ≢ inaddr_none
      → port_of_stoi (stoi port_str) c ≡ done number c
      → number < 2 ^ 16
      → number ≢ 0
      → update_rule d inet_addr m s a c
        ≡ done tt (rule_writes d m (inet_addr ip_str) (htons number) (action_value a) c)
  unfolding update_rule split_addr
  update_rule_good s a c ip_str port_str number split ip_ok parsed fits port_ok =
      bind_done (split_addr (split_at b':' s)) _ c (ap (λ o. split_addr o c) split)
      ∙ bind_done (log_assert (not (inet_addr ip_str == inaddr_none))) _ c
          (ap (λ (b : Bool). log_assert (not b) c) (ne→== (inet_addr ip_str) inaddr_none ip_ok))
      ∙ bind_done (port_of_stoi (stoi port_str)) _ c parsed
      ∙ bind_done (log_assert (not (htons number == 0))) _ c (
          ap (λ (b : Bool). log_assert (not b) c)
            (ne→== (htons number) 0 (htons-ne_zero number fits port_ok)))
      ∙ write_rule_lem (inet_addr ip_str) (htons number) a c (is_address ip_str) (htons-lt number)

  -- A filter `<ip>:<port>`, with an address that `inet_addr` accepts and a port in decimal that an
  -- `int` holds and that is not 0 in its low 16 bits, writes these three registers, in this order:
  -- the address, the port's low 16 bits in network order, and the action.
  pub update_rule-decimal :
      (ip_str : List ℕ) (fuel n : ℕ) (a : RuleAction) (c : d.Card)
      → Without b':' ip_str
      → inet_addr ip_str ≢ inaddr_none
      → n < 10 ^ suc fuel
      → n < 2 ^ 31
      → n % 2 ^ 16 ≢ 0
      → update_rule d inet_addr m (ip_str ++ (b':' ∷ decimal fuel n)) a c
        ≡ done tt (rule_writes d m (inet_addr ip_str) (htons (n % 2 ^ 16)) (action_value a) c)
  update_rule-decimal ip_str fuel n a c free ip_ok short fits port_ok =
      update_rule_good (ip_str ++ (b':' ∷ decimal fuel n)) a c ip_str (decimal fuel n) (n % 2 ^ 16)
        (split_at-append b':' ip_str (decimal fuel n) free) ip_ok
        (unfold port_of_stoi in ap (λ st. port_of_stoi st c) (stoi-decimal fuel n short fits))
        (omega arith) port_ok

  -- The steps of `update_rule`, from its end to its beginning.
  checked_port :
      (ip number : ℕ) (a : RuleAction) (c : d.Card)
      → ip < 2 ^ 32
      → ip ≢ inaddr_none
      → WholeOrNothing d m (action_value a) c (
          (log_assert (not (htons number == 0))
              >> write_rule d inet_addr m ip (htons number) (action_value a))
            c)
  checked_port ip number a c fits ok = elim (Bool-cases (htons number == 0)) [
    | inl e ↦ rw e refl
    | inr e ↦
        rw (e, write_rule_lem ip (htons number) a c fits (htons-lt number))
          (ip, htons number, ok, ==→ne (htons number) 0 e, refl)
  ]

  checked_number :
      (ip : ℕ) (st : Stoi) (a : RuleAction) (c : d.Card)
      → ip < 2 ^ 32
      → ip ≢ inaddr_none
      → WholeOrNothing d m (action_value a) c (
          (port_of_stoi st >>= λ number.
          log_assert (not (htons number == 0))
          >> write_rule d inet_addr m ip (htons number) (action_value a))
            c)
  unfolding port_of_stoi
  checked_number ip (positive n) a c fits ok = checked_port ip (n % 2 ^ 16) a c fits ok
  checked_number ip (negative n) a c fits ok =
      checked_port ip ((2 ^ 16 - n % 2 ^ 16) % 2 ^ 16) a c fits ok
  checked_number ip invalid_argument a c fits ok = refl
  checked_number ip out_of_range a c fits ok = refl

  checked_ip :
      (ip : ℕ) (port_str : List ℕ) (a : RuleAction) (c : d.Card)
      → ip < 2 ^ 32
      → WholeOrNothing d m (action_value a) c (
          (log_assert (not (ip == inaddr_none))
              >> (port_of_stoi (stoi port_str) >>= λ number.
                  log_assert (not (htons number == 0))
                  >> write_rule d inet_addr m ip (htons number) (action_value a)))
            c)
  checked_ip ip port_str a c fits = elim (Bool-cases (ip == inaddr_none)) [
    | inl e ↦ rw e refl
    | inr e ↦ rw e (checked_number ip (stoi port_str) a c fits (==→ne ip inaddr_none e))
  ]

  -- For every text, `update_rule` either writes one rule to the card, its address one that
  -- `inet_addr` accepts and its port not 0, or ends the process or throws with the card untouched.
  pub update_rule-WholeOrNothing :
      (s : List ℕ) (a : RuleAction) (c : d.Card)
      → WholeOrNothing d m (action_value a) c (update_rule d inet_addr m s a c)
  unfolding update_rule split_addr
  update_rule-WholeOrNothing s a c = elim (Option-cases (split_at b':' s)) [
    | inl e ↦ rw e refl
    | inr ((ip_str, port_str), e) ↦
        rw e (checked_ip (inet_addr ip_str) port_str a c (is_address ip_str))
  ]
