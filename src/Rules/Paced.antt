-- ===== src/Rules/Paced.antt =====
-- The rules of the constructor of `PacketFilter` in the core's table (software/src/packet_filter.cc
-- and hardware/src/hls/packet_filter.cc).
use packet_filter.Base.{
  ℕ, zero, suc, ◌%◌, ◌^◌, ◌<◌, Bool, true, false, ◌||◌, ◌==◌, List, [], ◌∷◌, some, map,
  if◌then◌else◌, replicate, get_or, ◌≡◌, refl, ap, ◌∙◌, arith,
}
use packet_filter.Hash
use packet_filter.Hash.{ToeplitzHash}
use packet_filter.Filter.{Config, Filter, initial, idle_cycle, process_packet}
use packet_filter.Filter.Runs.{process_idle}
use packet_filter.Filter.Install.{stored, last_action, lookup-stored}
use packet_filter.Mmio.{Driver, done, Mmio}
use packet_filter.Rules.{forward, htons, new}
use packet_filter.Rules.Written.{IsAddress, rule_writes, htons-lt}
use packet_filter.Rules.Installed.{RuleRegisters, rule_writes-Config}
use packet_filter.Rules.Constructed.{
  Rule, rule_text, AreRules, rules_written, filter_mmio, new-rules,
}

-- Whether one of the rules falls into a slot.
abbrev pub covers : (List ℕ → ℕ) → ToeplitzHash → List Rule → ℕ → Bool
covers inet_addr t [] slot = false
covers inet_addr t (r ∷ rs) slot =
    Hash.index_of t (inet_addr r.ip_str) (htons r.port) == slot || covers inet_addr t rs slot

module _ (d : Driver) (inet_addr : List ℕ → ℕ) (is_address : IsAddress inet_addr) (m : Mmio)
    (regs : RuleRegisters d m) where
  abbrev rule_config : Rule → Config
  rule_config r = record { ipv4_addr = inet_addr r.ip_str; udp_port = htons r.port; action = 1 }

  -- The core after one cycle on each of the rules, which the host writes one after the other.
  abbrev pub core_after : List Rule → d.Card → Filter → Filter
  core_after [] c f = f
  core_after (r ∷ rs) c f =
      let c' = rule_writes d m (inet_addr r.ip_str) (htons r.port) 1 c in
      core_after rs c' (process_packet (regs.config_of c') f)

  written :
      (r : Rule) (c : d.Card)
      → regs.config_of (rule_writes d m (inet_addr r.ip_str) (htons r.port) 1 c) ≡ rule_config r
  written r c =
      rule_writes-Config d m regs (inet_addr r.ip_str) (htons r.port) forward c
        (is_address r.ip_str) (htons-lt r.port)

  one_cycle :
      (r : Rule) (c : d.Card) (f : Filter)
      → f.s_axis ≡ []
      → process_packet (regs.config_of (rule_writes d m (inet_addr r.ip_str) (htons r.port) 1 c)) f
        ≡ idle_cycle (rule_config r) f
  one_cycle r c f idle =
      ap (λ (k : Config). process_packet k f) (written r c) ∙ process_idle (rule_config r) f idle

  core_after_table :
      (rs : List Rule) (c : d.Card) (f : Filter)
      → f.s_axis ≡ []
      → (core_after rs c f).hash_table ≡ stored f.hash_table (map rule_config rs)
  unfolding idle_cycle
  core_after_table [] c f idle = refl
  core_after_table (r ∷ rs) c f idle =
      let c' = rule_writes d m (inet_addr r.ip_str) (htons r.port) 1 c in
      ap (λ (g : Filter). (core_after rs c' g).hash_table) (one_cycle r c f idle)
      ∙ core_after_table rs c' (idle_cycle (rule_config r) f) idle

  last_action-covers :
      (t : ToeplitzHash) (slot found : ℕ) (rs : List Rule)
      → last_action t slot found (map rule_config rs)
        ≡ (if covers inet_addr t rs slot then 1 else found)
  last_action-covers t slot found [] = refl
  last_action-covers t slot found (r ∷ rs) =
      let here = Hash.index_of t (inet_addr r.ip_str) (htons r.port) == slot in
      last_action-covers t slot (if here then 1 else found) rs
      ∙ either here (covers inet_addr t rs slot)
    where
      either :
          (a b : Bool) → (if b then 1 else (if a then 1 else found)) ≡ (if a || b then 1 else found)
      either a b = ground arith

no_action : (n i : ℕ) → get_or {A = ℕ} (replicate n 0) i 0 ≡ 0
no_action zero i = refl
no_action (suc n) zero = refl
no_action (suc n) (suc i) = no_action n i

pub lookup-initial : (ip port : ℕ) → Hash.lookup initial.hash_table ip port ≡ 0
unfolding initial Hash.new Hash.lookup
lookup-initial ip port = no_action 32 (Hash.index_of initial.hash_table ip port)

-- The card has port 0 and its user BAR, and the filters have accepted addresses and ports from 1 to
-- 65535. Then the constructor ends normally with all rules written; and if the core starts from
-- reset and runs one cycle, without a phit, after each rule, its table holds 1 for exactly the
-- addresses that share a slot with one of the filters, and 0 for the others.
pub new-forwards :
    (d : Driver) (inet_addr : List ℕ → ℕ) (is_address : IsAddress inet_addr) (garbage bar : ℕ)
    → d.get_device 0 ≡ true
    → 0 < d.count_avail % 2 ^ 8
    → d.get_bar_details 0 ≡ some bar
    → let m = filter_mmio d inet_addr is_address bar in
      (regs : RuleRegisters d m) (rs : List Rule) (c : d.Card)
      → AreRules inet_addr rs
      → (ip port : ℕ)
      → (new d inet_addr garbage (map rule_text rs) c
          ≡ done m (rules_written d inet_addr is_address m rs c))
        × (Hash.lookup (core_after d inet_addr is_address m regs rs c initial).hash_table ip port
            ≡ (if covers inet_addr initial.hash_table rs (Hash.index_of initial.hash_table ip port)
                then 1
                else 0))
new-forwards d inet_addr is_address garbage bar present counted mapped regs rs c ok ip port =
    let m = filter_mmio d inet_addr is_address bar in
    let t = initial.hash_table in
    let slot = Hash.index_of t ip port in
    (
      new-rules d inet_addr is_address garbage bar present counted mapped rs c ok,
      ap (λ (u : ToeplitzHash). Hash.lookup u ip port)
            (core_after_table d inet_addr is_address m regs rs c initial (unfold initial in refl))
          ∙ lookup-stored t (map (rule_config d inet_addr is_address m regs) rs) ip port
              (unfold initial Hash.new in refl)
          ∙ last_action-covers d inet_addr is_address m regs t slot (Hash.lookup t ip port) rs
          ∙ ap (λ (v : ℕ). if covers inet_addr t rs slot then 1 else v) (lookup-initial ip port),
    )
