-- ===== src/Filter/WellFormed.antt =====
-- The state of the core (hardware/src/hls/packet_filter.cc) stays within the widths of its variables.
use packet_filter.Base.{
  ℕ, ◌+◌, ◌%◌, ◌^◌, ◌<◌, ◌==◌, Bool, true, false, Bool-cases, List, [], ◌∷◌, if◌then◌else◌, ◌≡◌,
  inl, inr, arith,
}
use packet_filter.Network
use packet_filter.Network.RoundTrip.{deserialize-IsValid}
use packet_filter.Hash
use packet_filter.Hash.{ToeplitzHash}
use packet_filter.Hash.Slots.{lookup-insert}
use packet_filter.Filter.{
  Phit, Config, Counters, Filter, System, Event, arrive, configure, cycle, filter_phit, idle_cycle,
  count_packet, decide_action, process_packet, process_queue, step, run,
}
use packet_filter.Filter.Origin.{configures, AllConfigs}
use packet_filter.Filter.Kept.{IsTable, insert-IsTable}

-- 64-bit counters; every packet is forwarded or dropped.
pub record IsCounted (c : Counters) : Type 0 where
  pub pkt_in : c.pkt_in < 2 ^ 64
  pub phit_in : c.phit_in < 2 ^ 64
  pub pkt_forward : c.pkt_forward < 2 ^ 64
  pub pkt_drop : c.pkt_drop < 2 ^ 64
  pub balance : (c.pkt_forward + c.pkt_drop) % 2 ^ 64 ≡ c.pkt_in

-- A table of 32 slots under the key of the constructor, with actions of 8 bits; header fields within
-- their widths; and counters.
pub record IsWellFormed (f : Filter) : Type 0 where
  pub table : IsTable Hash.new f.hash_table
  pub actions : (ip port : ℕ) → Hash.lookup f.hash_table ip port < 2 ^ 8
  pub network : Network.IsValid f.network
  pub local_stats : IsCounted f.local_stats
  pub stats : IsCounted f.stats

-- An action that the 8 bits of the register hold.
abbrev pub FitsRegister : Config → Type 0
FitsRegister c = c.action < 2 ^ 8

count_packet-IsCounted :
    (action phits : ℕ) (c : Counters) → IsCounted c → IsCounted (count_packet action phits c)
unfolding count_packet
count_packet-IsCounted action phits c h =
    let in_lt = h.pkt_in in
    let forward_lt = h.pkt_forward in
    let drop_lt = h.pkt_drop in
    let balance = h.balance in
    elim (Bool-cases (action == 1)) [
      | inl e ↦ rw e (record {
        pkt_in = omega arith;
        phit_in = omega arith;
        pkt_forward = omega arith;
        pkt_drop = drop_lt;
        balance = omega arith;
      })
      | inr e ↦ rw e (record {
        pkt_in = omega arith;
        phit_in = omega arith;
        pkt_forward = forward_lt;
        pkt_drop = omega arith;
        balance = omega arith;
      })
    ]

idle_cycle-IsWellFormed :
    (c : Config) (f : Filter) → FitsRegister c → IsWellFormed f → IsWellFormed (idle_cycle c f)
unfolding idle_cycle
idle_cycle-IsWellFormed c f fits h = record {
  table = insert-IsTable Hash.new c f.hash_table h.table;
  actions = λ ip port.
      rw (lookup-insert f.hash_table c.ipv4_addr c.udp_port c.action ip port h.table.slots) (
        either ip port (
          Hash.index_of f.hash_table c.ipv4_addr c.udp_port == Hash.index_of f.hash_table ip port));
  network = h.network;
  local_stats = h.local_stats;
  stats = h.local_stats;
}
  where
    either :
        (ip port : ℕ) (b : Bool)
        → (if b then c.action else Hash.lookup f.hash_table ip port) < 2 ^ 8
    either ip port true = fits
    either ip port false = h.actions ip port

filter_phit-IsWellFormed : (p : Phit) (f : Filter) → IsWellFormed f → IsWellFormed (filter_phit p f)
unfolding filter_phit
filter_phit-IsWellFormed p f h = record {
  table = h.table;
  actions = h.actions;
  network = deserialize-IsValid f.network p.word f.phit_idx h.network;
  local_stats = counted p.last;
  stats = h.stats;
}
  where
    counted :
        (last : Bool)
        → IsCounted (
            if last
            then count_packet
                (decide_action f.hash_table (Network.deserialize f.network p.word f.phit_idx))
                (if last then 0 else f.phit_idx + 1)
                f.local_stats
            else f.local_stats)
    counted true = count_packet-IsCounted _ 0 f.local_stats h.local_stats
    counted false = h.local_stats

-- Whatever arrives, however the host changes the registers, as long as what it writes fits into the 8
-- bits of the action, and however often the core runs in between: it keeps its 32 slots and its key,
-- actions of 8 bits, the widths of all header fields, and counters of 64 bits in which the packets
-- that were forwarded and those that were dropped add up to those that came in.
pub run-IsWellFormed :
    (es : List Event) (s : System)
    → FitsRegister s.config
    → AllConfigs FitsRegister (configures es)
    → IsWellFormed s.filter
    → IsWellFormed (run es s).filter
unfolding run step process_packet process_queue
run-IsWellFormed [] s fits all h = h
run-IsWellFormed (arrive x ∷ es) s fits all h = run-IsWellFormed es _ fits all (record {
  table = h.table;
  actions = h.actions;
  network = h.network;
  local_stats = h.local_stats;
  stats = h.stats;
})
run-IsWellFormed (configure c ∷ es) s fits all h = run-IsWellFormed es _ all.0 all.1 h
run-IsWellFormed (cycle ∷ es) s fits all h = run-IsWellFormed es _ fits all (served s.filter.s_axis)
  where
    served : (queue : List Phit) → IsWellFormed (process_queue s.config s.filter queue)
    served [] = idle_cycle-IsWellFormed s.config s.filter fits h
    served (x ∷ queue) =
        filter_phit-IsWellFormed x (record (s.filter) { s_axis = queue })
          (record {
            table = h.table;
            actions = h.actions;
            network = h.network;
            local_stats = h.local_stats;
            stats = h.stats;
          })
