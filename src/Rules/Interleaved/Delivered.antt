-- ===== src/Rules/Interleaved/Delivered.antt =====
-- From the filters of the constructor to the packets that the core sends on
-- (software/src/packet_filter.cc and hardware/src/hls/packet_filter.cc).
use packet_filter.Base.{
  ℕ, ◌≤◌, ◌<◌, ◌%◌, ◌^◌, ◌==◌, ◌||◌, Bool, true, false, some, List, [], ◌∷◌, ◌++◌, length,
  replicate, map, ◌≡◌, refl, ap, ◌∙◌, sym, subst, Bool-cases, inl, inr, ==_refl,
}
use mathlib.Core.List.{Memᴰ}
use packet_filter.Hash
use packet_filter.Hash.{ToeplitzHash}
use packet_filter.Network.Wire.{wire}
use packet_filter.Filter.{Phit, Filter, System, Event, cycle, idle_cycle, step, run}
use packet_filter.Filter.Spec.{admits, arrivals}
use packet_filter.Filter.Runs.{IsFixed, Settled, idle_cycle-Settled, process_idle}
use packet_filter.Filter.Packets.{Packet, first, stream, admitted, run-stream}
use packet_filter.Filter.Wire.{admits-frame}
use packet_filter.Filter.Kept.{IsTable}
use packet_filter.Mmio.{Driver, done}
use packet_filter.Rules.{forward, htons, new}
use packet_filter.Rules.Written.{IsAddress}
use packet_filter.Rules.Installed.{RuleRegisters, IsFor, frame_test}
use packet_filter.Rules.Constructed.{
  Rule, rule_text, AreRules, rules_written, filter_mmio, new-rules,
}
use packet_filter.Rules.Paced.{covers}
use packet_filter.Rules.Interleaved.{action_write}
use packet_filter.Rules.Interleaved.Turns.{Turn, schedule, IsPaced, rules_of, run-turn}
use packet_filter.Rules.Interleaved.Forwarded.{filters_forwarded}

covers-mem :
    (inet_addr : List ℕ → ℕ) (key : ToeplitzHash) (r : Rule) (rs : List Rule)
    → Memᴰ r rs
    → covers inet_addr key rs (Hash.index_of key (inet_addr r.ip_str) (htons r.port)) ≡ true
covers-mem inet_addr key r [] h = elim h [ ]
covers-mem inet_addr key r (x ∷ rs) (Memᴰ.head e) =
    subst
      (λ (q : Rule).
        covers inet_addr key (x ∷ rs) (Hash.index_of key (inet_addr q.ip_str) (htons q.port))
        ≡ true)
      (sym e)
      (ap
        (λ (b : Bool).
          b || covers inet_addr key rs (Hash.index_of key (inet_addr x.ip_str) (htons x.port)))
        (==_refl (Hash.index_of key (inet_addr x.ip_str) (htons x.port))))
covers-mem inet_addr key r (x ∷ rs) (Memᴰ.tail h) =
    or_true
      (Hash.index_of key (inet_addr x.ip_str) (htons x.port)
        == Hash.index_of key (inet_addr r.ip_str) (htons r.port))
      _ (covers-mem inet_addr key r rs h)
  where
    or_true : (a b : Bool) → b ≡ true → (a || b) ≡ true
    or_true true b e = refl
    or_true false b e = e

admitted-mem :
    (t : ToeplitzHash) (k : Packet) (ks : List Packet)
    → Memᴰ k ks
    → admits t (first k) ≡ true
    → Memᴰ k (admitted t ks)
unfolding admitted
admitted-mem t k [] m h = elim m [ ]
admitted-mem t k (x ∷ ks) (Memᴰ.head e) h =
    let here : admits t (first x) ≡ true = subst (λ (q : Packet). admits t (first q) ≡ true) e h in
    rw here (Memᴰ.head e)
admitted-mem t k (x ∷ ks) (Memᴰ.tail m) h = elim (Bool-cases (admits t (first x))) [
  | inl e ↦ rw e (Memᴰ.tail (admitted-mem t k ks m h))
  | inr e ↦ rw e (admitted-mem t k ks m h)
]

module _ (d : Driver) (inet_addr : List ℕ → ℕ) (is_address : IsAddress inet_addr) (garbage bar : ℕ)
    (present : d.get_device 0 ≡ true) (counted : 0 < d.count_avail % 2 ^ 8)
    (mapped : d.get_bar_details 0 ≡ some bar)
    (regs : RuleRegisters d (filter_mmio d inet_addr is_address bar)) where
  abbrev written : List (Rule × Turn) → d.Card → List Event
  written ts c = schedule d (filter_mmio d inet_addr is_address bar) inet_addr regs ts c []

  -- The rule of the registers is in the table, and the queue is empty.
  record Rests (s : System) : Type 0 where
    stored : Settled s.config s.filter.hash_table
    idle : s.filter.s_axis ≡ []

  cycle-Rests : (s : System) → s.filter.s_axis ≡ [] → Rests (run (cycle ∷ []) s)
  unfolding run step
  cycle-Rests s e =
      let same = sym (process_idle s.config s.filter e) in
      record {
        stored =
            subst (λ (f : Filter). Settled s.config f.hash_table) same
              (idle_cycle-Settled s.config s.filter);
        idle = subst (λ (f : Filter). f.s_axis ≡ []) same (unfold idle_cycle in e);
      }

  written-Rests :
      (x : Rule × Turn) (ts : List (Rule × Turn)) (c : d.Card) (s : System)
      → IsPaced d (filter_mmio d inet_addr is_address bar) inet_addr regs (x ∷ ts) c s
      → Rests (run (written (x ∷ ts) c) s)
  unfolding run
  written-Rests (r, t) [] c s (quiet, idle, more) =
      subst Rests
        (sym (
          run-turn d (filter_mmio d inet_addr is_address bar) inet_addr is_address regs r c t
            (cycle ∷ []) s))
        (cycle-Rests _ idle)
  written-Rests (r, t) (y ∷ ts) c s (quiet, idle, more) =
      let m = filter_mmio d inet_addr is_address bar in
      let c' = action_write d m inet_addr r c in
      subst Rests
        (sym (run-turn d m inet_addr is_address regs r c t (cycle ∷ written (y ∷ ts) c') s))
        (written-Rests y ts c' _ more)

  rested :
      (r : Rule) (ts : List (Rule × Turn)) (c : d.Card) (s : System)
      → Memᴰ r (rules_of ts)
      → IsPaced d (filter_mmio d inet_addr is_address bar) inet_addr regs ts c s
      → Rests (run (written ts c) s)
  rested r [] c s h paced = elim h [ ]
  rested r (x ∷ ts) c s h paced = written-Rests x ts c s paced

  -- Any phits and cycles fall between the writes of the constructor over well-formed filters, with a
  -- cycle behind each rule at which the queue is empty, and then whole packets arrive under any
  -- schedule. Then the constructor ends normally with its rules written, and once as many cycles ran
  -- as phits are left, the packets that the table admits were sent whole and in order, and any packet
  -- with a UDP frame for the address and port of one of the filters is among them.
  pub delivered :
      (key : ToeplitzHash) (ts : List (Rule × Turn)) (c : d.Card) (s : System) (es : List Event)
      (n : ℕ) (r : Rule) (frame : List ℕ) (ks : List Packet) (k : Packet)
      → AreRules inet_addr (rules_of ts)
      → IsTable key s.filter.hash_table
      → IsPaced d (filter_mmio d inet_addr is_address bar) inet_addr regs ts c s
      → (run (written ts c) s).filter.phit_idx ≡ 0
      → IsFixed es
      → arrivals es ≡ stream ks
      → length (run es (run (written ts c) s)).filter.s_axis ≤ n
      → Memᴰ r (rules_of ts)
      → IsFor frame (inet_addr r.ip_str) r.port
      → Memᴰ k ks
      → (first k).word ≡ wire frame
      → let u = run (written ts c) s in
        let m = filter_mmio d inet_addr is_address bar in
        let sent = admitted u.filter.hash_table ks in
        (new d inet_addr garbage (map rule_text (rules_of ts)) c
          ≡ done m (rules_written d inet_addr is_address m (rules_of ts) c))
        × ((run (replicate n cycle) (run es u)).filter.m_axis ≡ u.filter.m_axis ++ stream sent)
        × Memᴰ k sent
  delivered key ts c s es n r frame ks k ok table paced idx fixed whole enough asked is_for arrived
        carried =
      (
        new-rules d inet_addr is_address garbage bar present counted mapped (rules_of ts) c ok,
        (run-stream es n u u.filter.hash_table ks fixed rest.stored refl idx
            (ap (λ (q : List Phit). q ++ arrivals es) rest.idle ∙ whole) enough).1,
        admitted-mem u.filter.hash_table k ks arrived admitted_first,
      )
    where
      u : System
      u = run (written ts c) s

      rest : Rests u
      rest = rested r ts c s asked paced

      found : Hash.lookup u.filter.hash_table (inet_addr r.ip_str) (htons r.port) ≡ 1
      found =
          filters_forwarded d (filter_mmio d inet_addr is_address bar) inet_addr is_address regs key
            ts c [] s table paced tt (inet_addr r.ip_str) (htons r.port)
            (covers-mem inet_addr key r (rules_of ts) asked)

      admitted_first : admits u.filter.hash_table (first k) ≡ true
      admitted_first =
          admits-frame u.filter.hash_table (first k) frame is_for.bytes carried
          ∙ frame_test u.filter.hash_table frame (inet_addr r.ip_str) r.port forward is_for found
