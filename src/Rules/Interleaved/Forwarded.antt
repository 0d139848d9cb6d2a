-- ===== src/Rules/Interleaved/Forwarded.antt =====
-- Every filter of the constructor reaches the table, if the core has an idle cycle behind each.
use packet_filter.Base.{
  ℕ, ◌==◌, ◌||◌, Bool, true, false, List, [], ◌∷◌, if◌then◌else◌, ◌≡◌, ap, ◌∙◌, sym, subst,
  Bool-cases, inl, inr, ==→eq, eq→==, arith,
}
use packet_filter.Hash
use packet_filter.Hash.{ToeplitzHash}
use packet_filter.Hash.Slots.{lookup-insert, index_of_congr}
use packet_filter.Filter.{
  Config, Filter, System, Event, cycle, idle_cycle, process_packet, step, run,
}
use packet_filter.Filter.Runs.{process_idle}
use packet_filter.Filter.Origin.{configures, AllConfigs}
use packet_filter.Filter.Kept.{
  insert-IsTable, AllConfigs-fixed, IsTable, Forwards, run-IsTable, run-Forwards,
}
use packet_filter.Mmio.{Driver, Mmio}
use packet_filter.Rules.{htons}
use packet_filter.Rules.Written.{IsAddress}
use packet_filter.Rules.Installed.{RuleRegisters}
use packet_filter.Rules.Constructed.{Rule}
use packet_filter.Rules.Paced.{covers}
use packet_filter.Rules.Interleaved.{
  action_write, rule_config, ip_write-Config, port_write-Config, action_write-Config,
}
use packet_filter.Rules.Interleaved.Turns.{
  Turn, IsQuiet, turn_events, schedule, IsPaced, rules_of, run-turn, turn-config,
}

or_right : (a b : Bool) → a ≡ false → (a || b) ≡ true → b ≡ true
or_right a b e h = ground arith

module _ (d : Driver) (m : Mmio) (inet_addr : List ℕ → ℕ) (is_address : IsAddress inet_addr)
    (regs : RuleRegisters d m) (key : ToeplitzHash) where
  abbrev pub Forwarding : Config → Type 0
  Forwarding k = k.action ≡ 1

  turn_forwards :
      (r : Rule) (c : d.Card) (t : Turn) (rest : List Event)
      → Forwarding (regs.config_of c)
      → IsQuiet t
      → AllConfigs Forwarding (configures rest)
      → AllConfigs Forwarding (configures (turn_events d m inet_addr regs r c t rest))
  turn_forwards r c t rest on quiet h =
      let action = λ (k : Config). k.action in
      AllConfigs-fixed Forwarding t.before _ quiet.0 (
        ap action (ip_write-Config d m inet_addr is_address regs r c) ∙ on,
        AllConfigs-fixed Forwarding t.between _ quiet.1 (
          ap action (port_write-Config d m inet_addr is_address regs r c) ∙ on,
          AllConfigs-fixed Forwarding t.later _ quiet.2 (
            ap action (action_write-Config d m inet_addr is_address regs r c),
            AllConfigs-fixed Forwarding t.behind rest quiet.3 h,
          ),
        ),
      )

  -- Behind the first rule, the registers say to forward at all times.
  schedule_forwards :
      (ts : List (Rule × Turn)) (c : d.Card) (es : List Event) (s : System)
      → Forwarding (regs.config_of c)
      → IsPaced d m inet_addr regs ts c s
      → AllConfigs Forwarding (configures es)
      → AllConfigs Forwarding (configures (schedule d m inet_addr regs ts c es))
  schedule_forwards [] c es s on paced h = h
  schedule_forwards ((r, t) ∷ ts) c es s on (quiet, idle, more) h = turn_forwards r c t _ on quiet (
      schedule_forwards ts (action_write d m inet_addr r c) es _
        (ap (λ (k : Config). k.action) (action_write-Config d m inet_addr is_address regs r c)) more
        h)

  -- The idle cycle behind a rule stores it.
  stored_here :
      (r : Rule) (s : System) (ip port : ℕ)
      → s.config ≡ rule_config d m inet_addr r
      → s.filter.s_axis ≡ []
      → IsTable key s.filter.hash_table
      → (Hash.index_of key (inet_addr r.ip_str) (htons r.port) == Hash.index_of key ip port) ≡ true
      → Forwards key ip port (run (cycle ∷ []) s).filter.hash_table
  unfolding run step idle_cycle
  stored_here r s ip port e idle h same = subst (Forwards key ip port) (sym now) (
    insert-IsTable key (rule_config d m inet_addr r) t h,
    lookup-insert t (inet_addr r.ip_str) (htons r.port) 1 ip port h.slots
        ∙ ap (λ (b : Bool). if b then 1 else Hash.lookup t ip port) here,
  )
    where
      t : ToeplitzHash
      t = s.filter.hash_table

      now :
          (process_packet s.config s.filter).hash_table
          ≡ Hash.insert t (inet_addr r.ip_str) (htons r.port) 1
      now =
          ap (λ (f : Filter). f.hash_table) (process_idle s.config s.filter idle)
          ∙ ap (λ (k : Config). Hash.insert t k.ipv4_addr k.udp_port k.action) e

      here : (Hash.index_of t (inet_addr r.ip_str) (htons r.port) == Hash.index_of t ip port) ≡ true
      here = eq→== _ _ (
          index_of_congr t key (inet_addr r.ip_str) (htons r.port) h.same_key
          ∙ ==→eq _ _ same
          ∙ sym (index_of_congr t key ip port h.same_key))

  -- The writes of the constructor with any phits and cycles before, between and behind them, and an
  -- empty queue at one cycle behind each rule before the next one is written; then anything that
  -- leaves the registers at forwarding rules. From any table of 32 slots, at the end every address
  -- that shares its slot with one of the filters is forwarded.
  pub filters_forwarded :
      (ts : List (Rule × Turn)) (c : d.Card) (es : List Event) (s : System)
      → IsTable key s.filter.hash_table
      → IsPaced d m inet_addr regs ts c s
      → AllConfigs Forwarding (configures es)
      → (ip port : ℕ) → covers inet_addr key (rules_of ts) (Hash.index_of key ip port) ≡ true
      → Hash.lookup (run (schedule d m inet_addr regs ts c es) s).filter.hash_table ip port ≡ 1
  unfolding run
  filters_forwarded [] c es s h paced later ip port asked = cc
  filters_forwarded ((r, t) ∷ ts) c es s h (quiet, idle, more) later ip port asked =
      ap (λ (u : System). Hash.lookup u.filter.hash_table ip port)
        (run-turn d m inet_addr is_address regs r c t (cycle ∷ rest) s)
      ∙ elim (Bool-cases here) [
        | inl e ↦
            (run-Forwards key ip port rest stored forwarding
              (schedule_forwards ts c' es stored forwarding_card more later)
              (stored_here r now ip port rule idle now_table e)).1
        | inr e ↦
            filters_forwarded ts c' es stored (run-IsTable key (cycle ∷ []) now now_table) more
              later ip port (or_right here _ e asked)
      ]
    where
      c' : d.Card
      c' = action_write d m inet_addr r c

      here : Bool
      here = Hash.index_of key (inet_addr r.ip_str) (htons r.port) == Hash.index_of key ip port

      now : System
      now = run (turn_events d m inet_addr regs r c t []) s

      stored : System
      stored = run (cycle ∷ []) now

      rest : List Event
      rest = schedule d m inet_addr regs ts c' es

      rule : now.config ≡ rule_config d m inet_addr r
      rule = turn-config d m inet_addr is_address regs r c t s quiet

      forwarding : stored.config.action ≡ 1
      forwarding = unfold step in ap (λ (k : Config). k.action) rule

      forwarding_card : (regs.config_of c').action ≡ 1
      forwarding_card =
          ap (λ (k : Config). k.action) (action_write-Config d m inet_addr is_address regs r c)

      now_table : IsTable key now.filter.hash_table
      now_table = run-IsTable key (turn_events d m inet_addr regs r c t []) s h
