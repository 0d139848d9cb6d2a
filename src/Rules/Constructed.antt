-- ===== src/Rules/Constructed.antt =====
-- The constructor of `PacketFilter` over a list of filters (software/src/packet_filter.cc).
use packet_filter.Base.{
  ℕ, ◌%◌, ◌^◌, ◌<◌, true, List, [], ◌∷◌, ◌++◌, none, some, map, ◌≡◌, ◌≢◌, refl, ap, ◌∙◌, sym, ne→==,
  lt→ltb, arith,
}
use mathlib.Core.List.{append-nil}
use native.Mathlib.Nat.{mod-eq_of_lt}
use packet_filter.Text.{split_at}
use packet_filter.Text.Decimal.{decimal}
use packet_filter.Mmio
use packet_filter.Mmio.{
  Driver, Outcome, done, fatal, Mmio, log_assert, bind_done, bind_fatal, set_base_addr, ◌>>=◌, ◌>>◌,
}
use packet_filter.Rules.{
  forward, inaddr_none, htons, base, split_addr, update_rule, forward_all, new,
}
use packet_filter.Rules.Written.{Without, IsAddress, rule_writes, update_rule-decimal}

-- A rule as its user writes it.
pub record Rule : Type 0 where
  pub ip_str : List ℕ
  pub port : ℕ

abbrev pub rule_text : Rule → List ℕ
rule_text r = r.ip_str ++ (b':' ∷ decimal 4 r.port)

-- An address that `inet_addr` accepts, and a port from 1 to 65535.
pub record IsRule (inet_addr : List ℕ → ℕ) (r : Rule) : Type 0 where
  pub free : Without b':' r.ip_str
  pub address : inet_addr r.ip_str ≢ inaddr_none
  pub port_ne : r.port ≢ 0
  pub port_fits : r.port < 2 ^ 16

abbrev pub AreRules : (List ℕ → ℕ) → List Rule → Type 0
AreRules inet_addr [] = Unit {0}
AreRules inet_addr (r ∷ rs) = IsRule inet_addr r × AreRules inet_addr rs

split_at-none : (c : ℕ) (s : List ℕ) → Without c s → split_at c s ≡ none
unfolding split_at
split_at-none c [] h = refl
split_at-none c (x ∷ s) h = rw (ne→== x c h.0, split_at-none c s h.1)

module _ (d : Driver) (inet_addr : List ℕ → ℕ) (is_address : IsAddress inet_addr) where
  -- The card after the rules were written, each to forward, in order.
  abbrev pub rules_written : Mmio → List Rule → d.Card → d.Card
  rules_written m [] c = c
  rules_written m (r ∷ rs) c =
      rules_written m rs (rule_writes d m (inet_addr r.ip_str) (htons r.port) 1 c)

  one_rule :
      (m : Mmio) (r : Rule) (c : d.Card)
      → m.base_addr ≢ 0
      → IsRule inet_addr r
      → update_rule d inet_addr m (rule_text r) forward c
        ≡ done tt (rule_writes d m (inet_addr r.ip_str) (htons r.port) 1 c)
  one_rule m r c based ok =
      let low : r.port % 2 ^ 16 ≡ r.port = mod-eq_of_lt ok.port_fits in
      let open_port : r.port ≢ 0 = ok.port_ne in
      let fits : r.port < 2 ^ 16 = ok.port_fits in
      update_rule-decimal d inet_addr m based is_address r.ip_str 4 r.port forward c ok.free
        ok.address (omega arith) (omega arith) (omega arith)
      ∙ ap (λ (k : ℕ). done tt (rule_writes d m (inet_addr r.ip_str) (htons k) 1 c)) low

  -- The loop over rules, and what follows them in the list.
  rules_first :
      (m : Mmio) (rs : List Rule) (more : List (List ℕ)) (c : d.Card)
      → m.base_addr ≢ 0
      → AreRules inet_addr rs
      → forward_all d inet_addr m (map rule_text rs ++ more) c
        ≡ forward_all d inet_addr m more (rules_written m rs c)
  unfolding forward_all
  rules_first m [] more c based h = refl
  rules_first m (r ∷ rs) more c based h =
      bind_done (update_rule d inet_addr m (rule_text r) forward) _ c (one_rule m r c based h.0)
      ∙ rules_first m rs more _ based h.1

  no_colon :
      (m : Mmio) (s : List ℕ) (c : d.Card)
      → Without b':' s
      → update_rule d inet_addr m s forward c ≡ fatal c
  unfolding update_rule split_addr
  no_colon m s c h =
      bind_fatal (split_addr (split_at b':' s)) _ c
        (ap (λ o. split_addr o c) (split_at-none b':' s h))

  abbrev pub filter_mmio : ℕ → Mmio
  filter_mmio bar = record { base_addr = base; port_id = 0; bar_id = bar % 2 ^ 32 }

  module _ (garbage bar : ℕ) (present : d.get_device 0 ≡ true) (counted : 0 < d.count_avail % 2 ^ 8)
      (mapped : d.get_bar_details 0 ≡ some bar) where
    pub opened :
        (c : d.Card)
        → Mmio.new d garbage 0 c
          ≡ done (record { base_addr = garbage; port_id = 0; bar_id = bar % 2 ^ 32 }) c
    unfolding Mmio.new
    opened c = rw (present, lt→ltb 0 (d.count_avail % 2 ^ 8) counted, mapped)

    -- On a card whose port 0 is there, with its user BAR, the constructor over filters
    -- `<ip>:<port>`, each with an address that `inet_addr` accepts and a port from 1 to 65535,
    -- ends normally with the registers at the core's base address in that BAR, and with all rules
    -- written to forward, in the order of the list.
    pub new-rules :
        (rs : List Rule) (c : d.Card)
        → AreRules inet_addr rs
        → new d inet_addr garbage (map rule_text rs) c
          ≡ done (filter_mmio bar) (rules_written (filter_mmio bar) rs c)
    unfolding new set_base_addr forward_all
    new-rules rs c h =
        let m = filter_mmio bar in
        let based : base ≢ 0 = omega arith in
        bind_done (Mmio.new d garbage 0) _ c (opened c)
        ∙ bind_done (forward_all d inet_addr m (map rule_text rs)) _ c (
            ap (λ (l : List (List ℕ)). forward_all d inet_addr m l c)
              (sym (append-nil (map rule_text rs)))
            ∙ rules_first m rs [] c based h)

    -- If a filter without a colon stands behind such rules, the constructor ends the process with
    -- exactly the rules before it written, whatever follows it.
    pub new-no_colon :
        (rs : List Rule) (s : List ℕ) (more : List (List ℕ)) (c : d.Card)
        → AreRules inet_addr rs
        → Without b':' s
        → new d inet_addr garbage (map rule_text rs ++ (s ∷ more)) c
          ≡ fatal (rules_written (filter_mmio bar) rs c)
    unfolding new set_base_addr forward_all
    new-no_colon rs s more c h free =
        let m = filter_mmio bar in
        let based : base ≢ 0 = omega arith in
        bind_done (Mmio.new d garbage 0) _ c (opened c)
        ∙ bind_fatal (forward_all d inet_addr m (map rule_text rs ++ (s ∷ more))) _ c (
            rules_first m rs (s ∷ more) c based h
            ∙ bind_fatal (update_rule d inet_addr m s forward) _ (rules_written m rs c)
                (no_colon m s (rules_written m rs c) free))
