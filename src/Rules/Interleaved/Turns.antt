-- ===== src/Rules/Interleaved/Turns.antt =====
-- When every filter of the constructor reaches the table: an idle cycle of the core behind each
-- whole rule, and any phits and cycles besides.
use packet_filter.Base.{ℕ, List, [], ◌∷◌, ◌++◌, ◌≡◌, refl, ap, ◌∙◌, sym}
use packet_filter.Filter.{Config, System, Event, configure, cycle, step, run}
use packet_filter.Filter.Runs.{IsFixed, run-config}
use packet_filter.Filter.Kept.{run-append}
use packet_filter.Mmio.{Driver, Mmio}
use packet_filter.Rules.Written.{IsAddress}
use packet_filter.Rules.Installed.{RuleRegisters}
use packet_filter.Rules.Constructed.{Rule}
use packet_filter.Rules.Interleaved.{
  ip_write, port_write, action_write, rule_config, action_write-Config,
}

-- What happens around the three writes of a rule: before, between and behind them.
pub record Turn : Type 0 where
  pub before : List Event
  pub between : List Event
  pub later : List Event
  pub behind : List Event

-- Phits and cycles only.
abbrev pub IsQuiet : Turn → Type 0
IsQuiet t = IsFixed t.before × IsFixed t.between × IsFixed t.later × IsFixed t.behind

module _ (d : Driver) (m : Mmio) (inet_addr : List ℕ → ℕ) (regs : RuleRegisters d m) where
  abbrev pub turn_events : Rule → d.Card → Turn → List Event → List Event
  turn_events r c t rest =
      t.before
      ++ (configure (regs.config_of (ip_write d m inet_addr r c))
          ∷ (t.between
              ++ (configure (regs.config_of (port_write d m inet_addr r c))
                  ∷ (t.later
                      ++ (configure (regs.config_of (action_write d m inet_addr r c))
                          ∷ (t.behind ++ rest))))))

  -- The writes of all rules with their turns, a cycle behind each rule, and what comes after.
  abbrev pub schedule : List (Rule × Turn) → d.Card → List Event → List Event
  schedule [] c es = es
  schedule ((r, t) ∷ ts) c es =
      turn_events r c t (cycle ∷ schedule ts (action_write d m inet_addr r c) es)

  -- The queue is empty at these cycles.
  abbrev pub IsPaced : List (Rule × Turn) → d.Card → System → Type 0
  IsPaced [] c s = Unit {0}
  IsPaced ((r, t) ∷ ts) c s =
      let now = run (turn_events r c t []) s in
      IsQuiet t
      × (now.filter.s_axis ≡ [])
      × IsPaced ts (action_write d m inet_addr r c) (run (cycle ∷ []) now)

abbrev pub rules_of : List (Rule × Turn) → List Rule
rules_of [] = []
rules_of ((r, t) ∷ ts) = r ∷ rules_of ts

module _ (d : Driver) (m : Mmio) (inet_addr : List ℕ → ℕ) (is_address : IsAddress inet_addr)
    (regs : RuleRegisters d m) where
  -- What follows a turn.
  pub run-turn :
      (r : Rule) (c : d.Card) (t : Turn) (rest : List Event) (s : System)
      → run (turn_events d m inet_addr regs r c t rest) s
        ≡ run rest (run (turn_events d m inet_addr regs r c t []) s)
  unfolding run
  run-turn r c t rest s = split t.before _ _ s (λ s1.
      split t.between _ _ _
        (λ s2. split t.later _ _ _ (λ s3. split t.behind rest [] _ (λ s4. refl))))
    where
      split :
          (xs ys zs : List Event) (s : System)
          → ((t : System) → run ys t ≡ run rest (run zs t))
          → run (xs ++ ys) s ≡ run rest (run (xs ++ zs) s)
      split xs ys zs s h =
          run-append xs ys s ∙ h (run xs s) ∙ ap (run rest) (sym (run-append xs zs s))

  -- Behind the turn of a rule, the rule stands in the registers.
  pub turn-config :
      (r : Rule) (c : d.Card) (t : Turn) (s : System)
      → IsQuiet t
      → (run (turn_events d m inet_addr regs r c t []) s).config ≡ rule_config d m inet_addr r
  unfolding run step
  turn-config r c t s quiet =
      behind t.before _ _ s (λ s1. behind t.between _ _ _ (λ s2. behind t.later _ _ _ (λ s3.
        ap (λ (u : System). u.config) (run-append t.behind [] _) ∙ run-config t.behind _ quiet.3)))
      ∙ action_write-Config d m inet_addr is_address regs r c
    where
      behind :
          (xs ys : List Event) (k : Config) (s : System)
          → ((t : System) → (run ys t).config ≡ k)
          → (run (xs ++ ys) s).config ≡ k
      behind xs ys k s h = ap (λ (t : System). t.config) (run-append xs ys s) ∙ h (run xs s)
