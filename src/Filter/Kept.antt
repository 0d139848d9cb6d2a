-- ===== src/Filter/Kept.antt =====
-- What runs of the core keep in its table (hardware/src/hls/packet_filter.cc, `process_packet`).
use packet_filter.Base.{
  ℕ, ◌==◌, Bool, true, false, List, [], ◌∷◌, ◌++◌, if◌then◌else◌, ◌≡◌, refl, ◌∙◌,
}
use packet_filter.Hash
use packet_filter.Hash.{ToeplitzHash}
use packet_filter.Hash.Slots.{HasSlots, lookup-insert, insert-HasSlots, insert-key}
use packet_filter.Filter.{
  Phit, Config, Filter, System, Event, arrive, configure, cycle, filter_phit, idle_cycle,
  process_packet, process_queue, step, run,
}
use packet_filter.Filter.Runs.{IsFixed}
use packet_filter.Filter.Origin.{configures, AllConfigs}

pub run-append : (xs ys : List Event) (s : System) → run (xs ++ ys) s ≡ run ys (run xs s)
unfolding run
run-append [] ys s = refl
run-append (x ∷ xs) ys s = run-append xs ys (step x s)

pub AllConfigs-fixed :
    (P : Config → Type 0) (xs ys : List Event)
    → IsFixed xs
    → AllConfigs P (configures ys)
    → AllConfigs P (configures (xs ++ ys))
AllConfigs-fixed P [] ys fixed h = h
AllConfigs-fixed P (arrive x ∷ xs) ys fixed h = AllConfigs-fixed P xs ys fixed h
AllConfigs-fixed P (configure c ∷ xs) ys fixed h = absurd fixed
AllConfigs-fixed P (cycle ∷ xs) ys fixed h = AllConfigs-fixed P xs ys fixed h

-- A table of 32 slots under a key.
pub record IsTable (key t : ToeplitzHash) : Type 0 where
  pub same_key : t.toeplitz_key ≡ key.toeplitz_key
  pub slots : HasSlots t

module _ (key : ToeplitzHash) where
  pub insert-IsTable :
      (c : Config) (t : ToeplitzHash)
      → IsTable key t
      → IsTable key (Hash.insert t c.ipv4_addr c.udp_port c.action)
  insert-IsTable c t h = record {
    same_key = insert-key t c.ipv4_addr c.udp_port c.action ∙ h.same_key;
    slots = insert-HasSlots t c.ipv4_addr c.udp_port c.action h.slots;
  }

  cycle-IsTable :
      (c : Config) (f : Filter) (queue : List Phit)
      → IsTable key f.hash_table
      → IsTable key (process_queue c f queue).hash_table
  unfolding process_queue idle_cycle filter_phit
  cycle-IsTable c f [] h = insert-IsTable c f.hash_table h
  cycle-IsTable c f (x ∷ queue) h = h

  pub run-IsTable :
      (es : List Event) (s : System)
      → IsTable key s.filter.hash_table
      → IsTable key (run es s).filter.hash_table
  unfolding run step process_packet
  run-IsTable [] s h = h
  run-IsTable (arrive x ∷ es) s h = run-IsTable es _ h
  run-IsTable (configure c ∷ es) s h = run-IsTable es _ h
  run-IsTable (cycle ∷ es) s h =
      run-IsTable es _ (cycle-IsTable s.config s.filter s.filter.s_axis h)

  -- Such a table, with 1 for an address.
  abbrev pub Forwards : ℕ → ℕ → ToeplitzHash → Type 0
  Forwards ip port t = IsTable key t × (Hash.lookup t ip port ≡ 1)

  module _ (ip port : ℕ) where
    cycle-Forwards :
        (c : Config) (f : Filter) (queue : List Phit)
        → c.action ≡ 1
        → Forwards ip port f.hash_table
        → Forwards ip port (process_queue c f queue).hash_table
    unfolding process_queue idle_cycle filter_phit
    cycle-Forwards c f [] one h = (
      insert-IsTable c f.hash_table h.0,
      lookup-insert f.hash_table c.ipv4_addr c.udp_port c.action ip port h.0.slots
          ∙ either (
              Hash.index_of f.hash_table c.ipv4_addr c.udp_port
              == Hash.index_of f.hash_table ip port),
    )
      where
        either : (b : Bool) → (if b then c.action else Hash.lookup f.hash_table ip port) ≡ 1
        either true = one
        either false = h.1
    cycle-Forwards c f (x ∷ queue) one h = h

    -- While the registers say to forward, what is forwarded stays so.
    pub run-Forwards :
        (es : List Event) (s : System)
        → s.config.action ≡ 1
        → AllConfigs (λ c. c.action ≡ 1) (configures es)
        → Forwards ip port s.filter.hash_table
        → Forwards ip port (run es s).filter.hash_table
    unfolding run step process_packet
    run-Forwards [] s one ones h = h
    run-Forwards (arrive x ∷ es) s one ones h = run-Forwards es _ one ones h
    run-Forwards (configure c ∷ es) s one ones h = run-Forwards es _ ones.0 ones.1 h
    run-Forwards (cycle ∷ es) s one ones h =
        run-Forwards es _ one ones (cycle-Forwards s.config s.filter s.filter.s_axis one h)
