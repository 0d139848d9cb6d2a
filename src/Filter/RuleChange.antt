-- ===== src/Filter/RuleChange.antt =====
-- A rule that changes while a packet is under way: an idle cycle between two of its phits stores the
-- rule of the registers, and the verdict on the packet is not kept.
use packet_filter.Base.{
  ℕ, Bool, true, List, [], ◌∷◌, ◌++◌, ◌&&◌, ◌==◌, if◌then◌else◌, ◌≡◌, ◌≢◌, refl, ap, ◌∙◌, sym,
  subst, ==_refl,
}
use mathlib.Core.List.{append-nil}
use packet_filter.Network.Ethernet
use packet_filter.Network.Ipv4
use packet_filter.Hash
use packet_filter.Hash.Slots.{HasSlots, lookup-insert}
use packet_filter.Filter.{
  Phit, Filter, System, Event, Config, cycle, run, step, process_packet, idle_cycle, decide_action,
}
use packet_filter.Filter.Spec.{Mode, boundary, inside, emitted, arrivals}
use packet_filter.Filter.Refinement.{Agrees, Refines}
use packet_filter.Filter.Runs.{IsFixed, run-Refines, process_idle, idle_cycle-Settled}
use packet_filter.Filter.Packets.{Beat, closing, emitted-closing}

decide-insert :
    (cfg : Config) (f : Filter)
    → HasSlots f.hash_table
    → (Ethernet.is_ipv4 f.network.eth_hdr && Ipv4.is_udp f.network.ip_hdr) ≡ true
    → Hash.index_of f.hash_table cfg.ipv4_addr cfg.udp_port
      ≡ Hash.index_of f.hash_table f.network.ip_hdr.dest_ip f.network.udp_hdr.dest_port
    → decide_action (idle_cycle cfg f).hash_table f.network ≡ cfg.action
unfolding decide_action idle_cycle
decide-insert cfg f slots udp same =
    let ip = f.network.ip_hdr.dest_ip in
    let port = f.network.udp_hdr.dest_port in
    let slot = Hash.index_of f.hash_table ip port in
    ap (λ (b : Bool). if b then Hash.lookup (idle_cycle cfg f).hash_table ip port else 0) udp
    ∙ lookup-insert f.hash_table cfg.ipv4_addr cfg.udp_port cfg.action ip port slots
    ∙ ap (λ (b : Bool). if b then cfg.action else Hash.lookup f.hash_table ip port)
        (ap (λ (k : ℕ). k == slot) same ∙ ==_refl slot)

-- Between two phits of a UDP packet, with an empty queue, one idle cycle under a rule for the
-- packet's slot decides the rest of the packet: when the rest has arrived and been handled, it was
-- sent if the rule's action is forward, and dropped otherwise, whatever was done with the phits
-- before.
pub rule_change_cuts :
    (es : List Event) (s : System) (bs : List Beat) (z : Beat)
    → HasSlots s.filter.hash_table
    → s.filter.s_axis ≡ []
    → s.filter.phit_idx ≢ 0
    → (Ethernet.is_ipv4 s.filter.network.eth_hdr && Ipv4.is_udp s.filter.network.ip_hdr) ≡ true
    → Hash.index_of s.filter.hash_table s.config.ipv4_addr s.config.udp_port
      ≡ Hash.index_of s.filter.hash_table s.filter.network.ip_hdr.dest_ip
          s.filter.network.udp_hdr.dest_port
    → IsFixed es
    → arrivals es ≡ closing bs z
    → (run (cycle ∷ es) s).filter.s_axis ≡ []
    → (run (cycle ∷ es) s).filter.m_axis
      ≡ s.filter.m_axis ++ (if s.config.action == 1 then closing bs z else [])
unfolding run step
rule_change_cuts es s bs z slots idle inside_packet udp same fixed rest drained =
    r.output
    ∙ ap (λ (l : List Phit). (process_packet s.config f).m_axis ++ emitted t mode l) handled_all
    ∙ ap (λ (g : Filter). g.m_axis ++ emitted t mode (closing bs z)) now
    ∙ sent_before
  where
    f : Filter
    f = s.filter

    t : Hash.ToeplitzHash
    t = (idle_cycle s.config f).hash_table

    mode : Mode
    mode = inside (s.config.action == 1)

    now : process_packet s.config f ≡ idle_cycle s.config f
    now = process_idle s.config f idle

    r : Refines t mode (arrivals es) (process_packet s.config f) (run es (step cycle s)).filter
    r =
        run-Refines es (step cycle s) t mode fixed (idle_cycle-Settled s.config f)
          (ap (λ (g : Filter). g.hash_table) now)
          (subst (λ g. Agrees t g mode) (sym now)
            (
              unfold idle_cycle in inside_packet,
              unfold idle_cycle in ap (λ (a : ℕ). a == 1) (decide-insert s.config f slots udp same),
            ))

    queued : (idle_cycle s.config f).s_axis ++ arrivals es ≡ arrivals es
    queued = unfold idle_cycle in ap (λ (l : List Phit). l ++ arrivals es) idle

    handled_all : r.handled ≡ closing bs z
    handled_all =
        sym (append-nil r.handled)
        ∙ ap (◌++◌ r.handled) (sym drained)
        ∙ r.conserved
        ∙ ap (λ (g : Filter). g.s_axis ++ arrivals es) now
        ∙ queued
        ∙ rest

    nothing_more : emitted t boundary [] ≡ []
    nothing_more = unfold emitted in refl

    tail : emitted t mode (closing bs z) ≡ (if s.config.action == 1 then closing bs z else [])
    tail =
        ap (emitted t mode) (sym (append-nil (closing bs z)))
        ∙ emitted-closing t (s.config.action == 1) bs z []
        ∙ ap (◌++◌ (if s.config.action == 1 then closing bs z else [])) nothing_more
        ∙ append-nil (if s.config.action == 1 then closing bs z else [])

    sent_before :
        (idle_cycle s.config f).m_axis ++ emitted t mode (closing bs z)
        ≡ f.m_axis ++ (if s.config.action == 1 then closing bs z else [])
    sent_before = unfold idle_cycle in ap (◌++◌ f.m_axis) tail
