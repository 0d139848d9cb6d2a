-- ===== src/Filter/Origin.antt =====
-- Where the entries of the table come from (hardware/src/hls/packet_filter.cc, the idle branch of
-- `process_packet`), whatever the host and the network do.
use packet_filter.Base.{
  ℕ, ◌==◌, Bool, List, [], ◌∷◌, if◌then◌else◌, ◌≡◌, ◌≢◌, ap, ◌∙◌, sym, inl, inr, Bool-cases, ==→eq,
}
use packet_filter.Hash
use packet_filter.Hash.{ToeplitzHash}
use packet_filter.Hash.Slots.{HasSlots, lookup-insert, insert-HasSlots, insert-key, index_of_congr}
use packet_filter.Filter.{
  Phit, Config, Filter, System, Event, arrive, configure, cycle, filter_phit, idle_cycle,
  process_packet, process_queue, step, run,
}

-- What the host writes to the registers in a schedule, in order.
abbrev pub configures : List Event → List Config
configures [] = []
configures (arrive p ∷ es) = configures es
configures (configure c ∷ es) = c ∷ configures es
configures (cycle ∷ es) = configures es

abbrev pub AllConfigs : (Config → Type 0) → List Config → Type 0
AllConfigs P [] = Unit {0}
AllConfigs P (c ∷ cs) = P c × AllConfigs P cs

-- A table of which every entry but 0 is the action of a rule with the property `P` for its slot.
pub record HasOrigins (key : ToeplitzHash) (P : Config → Type 0) (t : ToeplitzHash) : Type 0 where
  pub same_key : t.toeplitz_key ≡ key.toeplitz_key
  pub slots : HasSlots t
  pub origin :
      (ip port : ℕ)
      → Hash.lookup t ip port ≢ 0
      → (c : Config) × P c
        × (Hash.index_of key c.ipv4_addr c.udp_port ≡ Hash.index_of key ip port)
        × (c.action ≡ Hash.lookup t ip port)

module _ (key : ToeplitzHash) (P : Config → Type 0) where
  insert-HasOrigins :
      (c : Config) (t : ToeplitzHash)
      → P c
      → HasOrigins key P t
      → HasOrigins key P (Hash.insert t c.ipv4_addr c.udp_port c.action)
  insert-HasOrigins c t p h = record {
    same_key = insert-key t c.ipv4_addr c.udp_port c.action ∙ h.same_key;
    slots = insert-HasSlots t c.ipv4_addr c.udp_port c.action h.slots;
    origin = from;
  }
    where
      found : (ip port : ℕ) → Bool
      found ip port = Hash.index_of t c.ipv4_addr c.udp_port == Hash.index_of t ip port

      read :
          (ip port : ℕ)
          → Hash.lookup (Hash.insert t c.ipv4_addr c.udp_port c.action) ip port
            ≡ (if found ip port then c.action else Hash.lookup t ip port)
      read ip port = lookup-insert t c.ipv4_addr c.udp_port c.action ip port h.slots

      from :
          (ip port : ℕ)
          → Hash.lookup (Hash.insert t c.ipv4_addr c.udp_port c.action) ip port ≢ 0
          → (k : Config) × P k
            × (Hash.index_of key k.ipv4_addr k.udp_port ≡ Hash.index_of key ip port)
            × (k.action ≡ Hash.lookup (Hash.insert t c.ipv4_addr c.udp_port c.action) ip port)
      from ip port ne = elim (Bool-cases (found ip port)) [
        | inl e ↦ (
          c,
          p,
          sym (index_of_congr t key c.ipv4_addr c.udp_port h.same_key)
              ∙ ==→eq _ _ e
              ∙ index_of_congr t key ip port h.same_key,
          sym (read ip port ∙ ap (λ (b : Bool). if b then c.action else Hash.lookup t ip port) e),
        )
        | inr e ↦
            let kept : Hash.lookup (Hash.insert t c.ipv4_addr c.udp_port c.action) ip port
                ≡ Hash.lookup t ip port =
              read ip port ∙ ap (λ (b : Bool). if b then c.action else Hash.lookup t ip port) e in
            let (k, q, slot, action) = h.origin ip port (λ z. ne (kept ∙ z)) in
            (k, q, slot, action ∙ sym kept)
      ]

  cycle-HasOrigins :
      (c : Config) (f : Filter) (queue : List Phit)
      → P c
      → HasOrigins key P f.hash_table
      → HasOrigins key P (process_queue c f queue).hash_table
  unfolding process_queue idle_cycle filter_phit
  cycle-HasOrigins c f [] p h = insert-HasOrigins c f.hash_table p h
  cycle-HasOrigins c f (x ∷ queue) p h = h

  -- Over any schedule whose registers always have the property, all entries have such an origin.
  pub run-HasOrigins :
      (es : List Event) (s : System)
      → P s.config
      → AllConfigs P (configures es)
      → HasOrigins key P s.filter.hash_table
      → HasOrigins key P (run es s).filter.hash_table
  unfolding run step process_packet
  run-HasOrigins [] s p ps h = h
  run-HasOrigins (arrive x ∷ es) s p ps h = run-HasOrigins es _ p ps h
  run-HasOrigins (configure c ∷ es) s p ps h = run-HasOrigins es _ ps.0 ps.1 h
  run-HasOrigins (cycle ∷ es) s p ps h =
      run-HasOrigins es _ p ps (cycle-HasOrigins s.config s.filter s.filter.s_axis p h)
