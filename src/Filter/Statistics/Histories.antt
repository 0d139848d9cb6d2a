-- ===== src/Filter/Statistics/Histories.antt =====
-- The counters and the output over any history of the core, from reset.
use packet_filter.Base.{
  ℕ, ◌+◌, Bool, true, false, List, [], ◌∷◌, ◌++◌, ◌==◌, if◌then◌else◌, ◌≡◌, refl, ap, ◌∙◌, sym,
  subst,
}
use mathlib.Core.List.{Sublistᴰ, append-nil, append_assoc}
use packet_filter.Network
use packet_filter.Filter.{
  Phit, Counters, Config, Filter, System, Event, arrive, configure, cycle, count_packet,
  filter_phit, decide_action, idle_cycle, process_queue, process_packet, initial, step, run,
}
use packet_filter.Filter.Spec.{arrivals}
use packet_filter.Filter.Runs.{process_packet-queue}
use packet_filter.Filter.Statistics.{Counted, sent_after, Counted-last, Counted-inside, packets}

sublist-snoc :
    (p : Phit) {xs ys : List Phit} → Sublistᴰ xs ys → Sublistᴰ (xs ++ (p ∷ [])) (ys ++ (p ∷ []))
sublist-snoc p Sublistᴰ.slnil = Sublistᴰ.cons-cons refl Sublistᴰ.slnil
sublist-snoc p (Sublistᴰ.cons s) = Sublistᴰ.cons (sublist-snoc p s)
sublist-snoc p (Sublistᴰ.cons-cons e s) = Sublistᴰ.cons-cons e (sublist-snoc p s)

sublist_skip : (p : Phit) {xs ys : List Phit} → Sublistᴰ xs ys → Sublistᴰ xs (ys ++ (p ∷ []))
sublist_skip p Sublistᴰ.slnil = Sublistᴰ.cons Sublistᴰ.slnil
sublist_skip p (Sublistᴰ.cons s) = Sublistᴰ.cons (sublist_skip p s)
sublist_skip p (Sublistᴰ.cons-cons e s) = Sublistᴰ.cons-cons e (sublist_skip p s)

-- Counters that were right when `before` had been handled, and `sent` of it sent.
pub record Snapshot (handled : List Phit) (c : Counters) : Type 0 where
  pub before : List Phit
  pub after : List Phit
  pub sent : List Phit
  pub split : before ++ after ≡ handled
  pub order : Sublistᴰ sent before
  pub counted : Counted before sent c

-- The phits `fed` were handled in order up to those that are queued; a part of the handled ones was
-- sent, in order; the local counters count them; and the published counters are a snapshot.
pub record History (fed : List Phit) (f : Filter) : Type 0 where
  pub handled : List Phit
  pub conserved : handled ++ f.s_axis ≡ fed
  pub order : Sublistᴰ f.m_axis handled
  pub counted : Counted handled f.m_axis f.local_stats
  pub published : Snapshot handled f.stats

Snapshot-snoc :
    (handled : List Phit) (p : Phit) (c : Counters)
    → Snapshot handled c
    → Snapshot (handled ++ (p ∷ [])) c
Snapshot-snoc handled p c s = record {
  before = s.before;
  after = s.after ++ (p ∷ []);
  sent = s.sent;
  split =
      sym (append_assoc s.before s.after (p ∷ [])) ∙ ap (λ (l : List Phit). l ++ (p ∷ [])) s.split;
  order = s.order;
  counted = s.counted;
}

initial-History : History [] initial
unfolding initial packets
initial-History = record {
  handled = [];
  conserved = refl;
  order = Sublistᴰ.slnil;
  counted = zero_counted;
  published = record {
    before = [];
    after = [];
    sent = [];
    split = refl;
    order = Sublistᴰ.slnil;
    counted = zero_counted;
  };
}
  where
    zero_counted : Counted [] [] initial.local_stats
    zero_counted = record { pkt_in = refl; pkt_forward = refl; pkt_drop = refl; phit_in = refl }

sent-order :
    (b : Bool) (p : Phit) {sent handled : List Phit}
    → Sublistᴰ sent handled
    → Sublistᴰ (if b then sent ++ (p ∷ []) else sent) (handled ++ (p ∷ []))
sent-order true p s = sublist-snoc p s
sent-order false p s = sublist_skip p s

idle-History :
    (cfg : Config) (fed : List Phit) (f : Filter) → History fed f → History fed (idle_cycle cfg f)
unfolding idle_cycle
idle-History cfg fed f h = record {
  handled = h.handled;
  conserved = h.conserved;
  order = h.order;
  counted = h.counted;
  published = record {
    before = h.handled;
    after = [];
    sent = f.m_axis;
    split = append-nil h.handled;
    order = h.order;
    counted = h.counted;
  };
}

take-History :
    (fed : List Phit) (f : Filter) (p : Phit) (rest : List Phit)
    → f.s_axis ≡ p ∷ rest
    → History fed f
    → History fed (filter_phit p (record f { s_axis = rest }))
unfolding filter_phit
take-History fed f p rest e h =
    let action = decide_action f.hash_table (Network.deserialize f.network p.word f.phit_idx) in
    record {
      handled = h.handled ++ (p ∷ []);
      conserved = append_assoc h.handled (p ∷ []) rest ∙ ap (◌++◌ h.handled) (sym e) ∙ h.conserved;
      order = sent-order (action == 1) p h.order;
      counted =
          taken p.word p.keep p.user p.last h.handled f.m_axis f.local_stats action (f.phit_idx + 1)
            h.counted;
      published = Snapshot-snoc h.handled p f.stats h.published;
    }
  where
    taken :
        (word keep user : ℕ) (last : Bool) (handled sent : List Phit) (c : Counters)
        (action next : ℕ)
        → Counted handled sent c
        → let p : Phit = record { word = word; keep = keep; user = user; last = last } in
          Counted
            (handled ++ (p ∷ []))
            (sent_after action sent p)
            (if last then count_packet action (if last then 0 else next) c else c)
    taken word keep user true handled sent c action next k =
        Counted-last handled sent _ c action refl k
    taken word keep user false handled sent c action next k =
        Counted-inside handled sent _ c action refl k

cycle-History :
    (cfg : Config) (fed : List Phit) (f : Filter) (queue : List Phit)
    → f.s_axis ≡ queue
    → History fed f
    → History fed (process_packet cfg f)
unfolding process_queue
cycle-History cfg fed f [] e h =
    subst (History fed) (sym (process_packet-queue cfg f e)) (idle-History cfg fed f h)
cycle-History cfg fed f (p ∷ rest) e h =
    subst (History fed) (sym (process_packet-queue cfg f e)) (take-History fed f p rest e h)

arrive-History :
    (fed : List Phit) (f : Filter) (p : Phit)
    → History fed f
    → History (fed ++ (p ∷ [])) (record f { s_axis = f.s_axis ++ (p ∷ []) })
arrive-History fed f p h = record {
  handled = h.handled;
  conserved =
      sym (append_assoc h.handled f.s_axis (p ∷ []))
      ∙ ap (λ (l : List Phit). l ++ (p ∷ [])) h.conserved;
  order = h.order;
  counted = h.counted;
  published = h.published;
}

run-History :
    (es : List Event) (s : System) (fed : List Phit)
    → History fed s.filter
    → History (fed ++ arrivals es) (run es s).filter
unfolding run step arrivals
run-History [] s fed h = rw (append-nil fed) h
run-History (arrive p ∷ es) s fed h =
    subst (λ l. History l (run es (step (arrive p) s)).filter)
      (append_assoc fed (p ∷ []) (arrivals es))
      (run-History es (step (arrive p) s) (fed ++ (p ∷ [])) (arrive-History fed s.filter p h))
run-History (configure c ∷ es) s fed h = run-History es (step (configure c) s) fed h
run-History (cycle ∷ es) s fed h =
    run-History es (step cycle s) fed (cycle-History s.config fed s.filter s.filter.s_axis refl h)

-- From reset, under any schedule of arrivals, cycles and changes of the registers: the phits are
-- handled in the order of their arrival; those sent are some of the handled ones, unchanged and in
-- order; modulo `2 ^ 64`, `pkt_in` counts the packets handled, `pkt_forward` those that ended in a
-- sent phit and `pkt_drop` the others; `phit_in` equals `pkt_in`; and the published counters are
-- those of an earlier moment.
pub run-initial-History :
    (es : List Event) (cfg : Config)
    → History (arrivals es) (run es (record { config = cfg; filter = initial })).filter
run-initial-History es cfg =
    run-History es (record { config = cfg; filter = initial }) [] initial-History
