-- ===== src/Rules/Interleaved/Asked.antt =====
-- What can be in the table while the constructor writes its rules: nothing but what was asked for,
-- and the address of a rule with the port of the rule before it.
use packet_filter.Base.{
  ℕ, List, [], ◌∷◌, ◌++◌, map, ◌≡◌, ◌⊎◌, inl, inr, refl, ap, ◌∙◌, sym, subst, arith,
}
use packet_filter.Hash
use packet_filter.Hash.{ToeplitzHash}
use packet_filter.Filter.{Config, Event, initial, run}
use packet_filter.Filter.Origin.{configures, AllConfigs, HasOrigins, run-HasOrigins}
use packet_filter.Mmio.{Driver, Mmio}
use packet_filter.Rules.{htons}
use packet_filter.Rules.Written.{IsAddress}
use packet_filter.Rules.Installed.{RuleRegisters}
use packet_filter.Rules.Constructed.{Rule}
use packet_filter.Rules.Paced.{lookup-initial}
use packet_filter.Rules.Interleaved.{
  action_write, card_states, rule_config, ip_write-Config, port_write-Config, action_write-Config,
}

-- The address of the next rule, and the port of this one.
abbrev pub IsMixed : (List ℕ → ℕ) → Rule → List Rule → ℕ → ℕ → Type 0
IsMixed inet_addr r [] ip port = ⊥
IsMixed inet_addr r (q ∷ rs) ip port = (ip ≡ inet_addr q.ip_str) × (port ≡ htons r.port)

-- Address and port of one of the rules, or mixed from two that follow one another.
abbrev pub IsAsked : (List ℕ → ℕ) → List Rule → ℕ → ℕ → Type 0
IsAsked inet_addr [] ip port = ⊥
IsAsked inet_addr (r ∷ rs) ip port =
    ((ip ≡ inet_addr r.ip_str) × (port ≡ htons r.port))
    ⊎ (IsMixed inet_addr r rs ip port ⊎ IsAsked inet_addr rs ip port)

AllConfigs-left :
    (P : Config → Type 0) (cs ks : List Config) → AllConfigs P (cs ++ ks) → AllConfigs P cs
AllConfigs-left P [] ks h = tt
AllConfigs-left P (c ∷ cs) ks h = (h.0, AllConfigs-left P cs ks h.1)

module _ (d : Driver) (m : Mmio) (inet_addr : List ℕ → ℕ) (is_address : IsAddress inet_addr)
    (regs : RuleRegisters d m) where
  -- A state of the registers that stores no 1, or stores one for what was asked.
  abbrev Harmless : List Rule → Config → Type 0
  Harmless all k = (k.action ≡ 0) ⊎ IsAsked inet_addr all k.ipv4_addr k.udp_port

  -- Behind a rule `q`, the rules `q ∷ rs` standing at the end of all.
  later_states :
      (all : List Rule) (q : Rule) (rs : List Rule) (c : d.Card)
      → regs.config_of c ≡ rule_config d m inet_addr q
      → ((ip port : ℕ) → IsAsked inet_addr (q ∷ rs) ip port → IsAsked inet_addr all ip port)
      → AllConfigs (Harmless all) (map regs.config_of (card_states d m inet_addr rs c))
  later_states all q [] c e sub = tt
  later_states all q (r ∷ rs) c e sub =
      let first = ip_write-Config d m inet_addr is_address regs r c in
      let second = port_write-Config d m inet_addr is_address regs r c in
      let third = action_write-Config d m inet_addr is_address regs r c in
      (
        inr (
            sub _ _ (
              inr (
                inl (
                  ap (λ (k : Config). k.ipv4_addr) first,
                  ap (λ (k : Config). k.udp_port)
                      (first ∙ ap (λ (k : Config). record k { ipv4_addr = inet_addr r.ip_str }) e),
                )))),
        (
          inr (
              sub _ _ (
                inr (
                  inr (
                    inl (
                      ap (λ (k : Config). k.ipv4_addr) second,
                      ap (λ (k : Config). k.udp_port) second,
                    ))))),
          (
            inr (
                sub _ _ (
                  inr (
                    inr (
                      inl (
                        ap (λ (k : Config). k.ipv4_addr) third,
                        ap (λ (k : Config). k.udp_port) third,
                      ))))),
            later_states all r rs (action_write d m inet_addr r c) third
                (λ ip port h. sub ip port (inr (inr h))),
          ),
        ),
      )

  states-Harmless :
      (rs : List Rule) (c : d.Card)
      → (regs.config_of c).action ≡ 0
      → AllConfigs (Harmless rs) (map regs.config_of (card_states d m inet_addr rs c))
  states-Harmless [] c e = tt
  states-Harmless (r ∷ rs) c e =
      let first = ip_write-Config d m inet_addr is_address regs r c in
      let second = port_write-Config d m inet_addr is_address regs r c in
      let third = action_write-Config d m inet_addr is_address regs r c in
      (
        inl (ap (λ (k : Config). k.action) first ∙ e),
        (
          inl (ap (λ (k : Config). k.action) second ∙ e),
          (
            inr (
                inl
                  (ap (λ (k : Config). k.ipv4_addr) third, ap (λ (k : Config). k.udp_port) third)),
            later_states (r ∷ rs) r rs (action_write d m inet_addr r c) third (λ ip port h. h),
          ),
        ),
      )

  -- From reset, with the action register at 0, any phits and any cycles between the writes of the
  -- constructor, at any time until its end: if the table holds 1 for an address, the address shares
  -- its slot with one of the filters, or with the IP address of a filter together with the port of
  -- the filter before it in the list.
  pub only-IsAsked :
      (es : List Event) (to_come : List Config) (rs : List Rule) (c : d.Card)
      → (regs.config_of c).action ≡ 0
      → configures es ++ to_come ≡ map regs.config_of (card_states d m inet_addr rs c)
      → (ip port : ℕ)
      → Hash.lookup
          (run es (record { config = regs.config_of c; filter = initial })).filter.hash_table
          ip
          port
        ≡ 1
      → (k q : ℕ) × IsAsked inet_addr rs k q
        × (Hash.index_of initial.hash_table k q ≡ Hash.index_of initial.hash_table ip port)
  only-IsAsked es to_come rs c off writes ip port found =
      asked (final.origin ip port (λ z. absurd (omega (arith, z, found))))
    where
      key : ToeplitzHash
      key = initial.hash_table

      harmless : AllConfigs (Harmless rs) (configures es)
      harmless =
          AllConfigs-left (Harmless rs) (configures es) to_come
            (subst (AllConfigs (Harmless rs)) (sym writes) (states-Harmless rs c off))

      empty : HasOrigins key (Harmless rs) key
      empty = record {
        same_key = refl;
        slots = unfold initial Hash.new in refl;
        origin = λ i p ne. absurd (ne (lookup-initial i p));
      }

      final :
          HasOrigins key
            (Harmless rs)
            (run es (record { config = regs.config_of c; filter = initial })).filter.hash_table
      final =
          run-HasOrigins key (Harmless rs) es
            (record { config = regs.config_of c; filter = initial }) (inl off) harmless empty

      asked :
          ((k : Config) × Harmless rs k
            × (Hash.index_of key k.ipv4_addr k.udp_port ≡ Hash.index_of key ip port)
            × (k.action
                ≡ Hash.lookup
                    (run es
                      (record { config = regs.config_of c; filter = initial })).filter.hash_table
                    ip
                    port))
          → (k q : ℕ) × IsAsked inet_addr rs k q
            × (Hash.index_of key k q ≡ Hash.index_of key ip port)
      asked (k, inl zero_action, slot, action) = absurd (omega (arith, zero_action, action, found))
      asked (k, inr a, slot, action) = (k.ipv4_addr, k.udp_port, a, slot)
