-- ===== src/Filter/Refinement.antt =====
-- `process_packet` keeps the promise of `Filter.Spec`, under any arrival of phits.
use packet_filter.Base.{
  ℕ, zero, suc, Bool, true, false, List, [], ◌∷◌, ◌++◌, ◌==◌, if◌then◌else◌, ◌≡◌, ◌≢◌, refl, ap,
  ◌∙◌, sym, arith,
}
use mathlib.Core.List.{append-nil, append_assoc}
use packet_filter.Network
use packet_filter.Network.{NetworkPacket}
use packet_filter.Network.Ethernet
use packet_filter.Network.Ipv4
use packet_filter.Network.Udp
use packet_filter.Network.RoundTrip.{deserialize_later}
use packet_filter.Hash.{ToeplitzHash}
use packet_filter.Filter.{Phit, Filter, decide_action, filter_phit, outgoing}
use packet_filter.Filter.Spec.{
  admits, Mode, boundary, inside, verdict, next_mode, final_mode, emitted,
}

-- How the static variables stand for the mode.
abbrev pub Agrees : ToeplitzHash → Filter → Mode → Type 0
Agrees t f boundary = f.phit_idx ≡ 0
Agrees t f (inside b) = (f.phit_idx ≢ 0) × ((decide_action t f.network == 1) ≡ b)

-- The headers of a first phit decide as the wire's view says.
pub decide_first :
    (t : ToeplitzHash) (old : NetworkPacket) (p : Phit)
    → (decide_action t (Network.deserialize old p.word 0) == 1) ≡ admits t p
unfolding decide_action admits Network.deserialize Ethernet.deserialize Ipv4.deserialize
    Udp.deserialize Ethernet.is_ipv4 Ipv4.is_udp
decide_first t old p = ground arith

deserialize_inside :
    (old : NetworkPacket) (word k : ℕ) → k ≢ 0 → Network.deserialize old word k ≡ old
deserialize_inside old word zero h = absurd (h refl)
deserialize_inside old word (suc k) h = deserialize_later old word k

decide-verdict :
    (t : ToeplitzHash) (m : Mode) (p : Phit) (f : Filter)
    → Agrees t f m
    → (decide_action t (Network.deserialize f.network p.word f.phit_idx) == 1) ≡ verdict t m p
unfolding verdict
decide-verdict t boundary p f a =
    ap (λ (k : ℕ). decide_action t (Network.deserialize f.network p.word k) == 1) a
    ∙ decide_first t f.network p
decide-verdict t (inside b) p f a =
    ap (λ (n : NetworkPacket). decide_action t n == 1)
      (deserialize_inside f.network p.word f.phit_idx a.0)
    ∙ a.1

action-verdict :
    (t : ToeplitzHash) (m : Mode) (p : Phit) (f : Filter)
    → f.hash_table ≡ t
    → Agrees t f m
    → (decide_action f.hash_table (Network.deserialize f.network p.word f.phit_idx) == 1)
      ≡ verdict t m p
action-verdict t m p f same a =
    ap
      (λ (h : ToeplitzHash). decide_action h (Network.deserialize f.network p.word f.phit_idx) == 1)
      same
    ∙ decide-verdict t m p f a

if_append {ℓ} :
    {A : Type ℓ} (b : Bool) (xs ys : List A)
    → (if b then xs ++ ys else xs) ≡ xs ++ (if b then ys else [])
if_append true xs ys = refl
if_append false xs ys = sym (append-nil xs)

-- One phit, taken from the queue.
pub filter_phit-m_axis :
    (t : ToeplitzHash) (m : Mode) (p : Phit) (f : Filter)
    → f.hash_table ≡ t
    → Agrees t f m
    → (filter_phit p f).m_axis ≡ f.m_axis ++ (if verdict t m p then p ∷ [] else [])
unfolding filter_phit
filter_phit-m_axis t m p f same a =
    ap (λ (b : Bool). if b then f.m_axis ++ (outgoing p ∷ []) else f.m_axis)
      (action-verdict t m p f same a)
    ∙ if_append (verdict t m p) f.m_axis (p ∷ [])

abbrev pub phit : ℕ → ℕ → ℕ → Bool → Phit
phit word keep user last = record { word = word; keep = keep; user = user; last = last }

pub Agrees-next :
    (t : ToeplitzHash) (m : Mode) (word keep user : ℕ) (last : Bool) (f : Filter)
    → Agrees t f m
    → Agrees t (filter_phit (phit word keep user last) f) (next_mode t m (phit word keep user last))
unfolding filter_phit next_mode
Agrees-next t m word keep user true f a = refl
Agrees-next t m word keep user false f a =
    (λ e. absurd (omega arith), decide-verdict t m (phit word keep user false) f a)

-- A change from `f` to `g` that took in `fed` phits: those at the head of the queue were handled as
-- the promise says, in their order, and the table was kept.
pub record Refines (t : ToeplitzHash) (m : Mode) (fed : List Phit) (f g : Filter) : Type 0 where
  pub handled : List Phit
  pub conserved : handled ++ g.s_axis ≡ f.s_axis ++ fed
  pub output : g.m_axis ≡ f.m_axis ++ emitted t m handled
  pub agrees : Agrees t g (final_mode t m handled)
  pub table : g.hash_table ≡ t

emitted-append :
    (t : ToeplitzHash) (m : Mode) (ps qs : List Phit)
    → emitted t m (ps ++ qs) ≡ emitted t m ps ++ emitted t (final_mode t m ps) qs
unfolding emitted final_mode
emitted-append t m [] qs = refl
emitted-append t m (p ∷ ps) qs =
    rw (emitted-append t (next_mode t m p) ps qs)
      (sym (append_assoc (if verdict t m p then p ∷ [] else []) _ _))

final_mode-append :
    (t : ToeplitzHash) (m : Mode) (ps qs : List Phit)
    → final_mode t m (ps ++ qs) ≡ final_mode t (final_mode t m ps) qs
unfolding final_mode
final_mode-append t m [] qs = refl
final_mode-append t m (p ∷ ps) qs = final_mode-append t (next_mode t m p) ps qs

pub Refines-refl :
    (t : ToeplitzHash) (m : Mode) (f : Filter)
    → Agrees t f m
    → f.hash_table ≡ t
    → Refines t m [] f f
unfolding emitted final_mode
Refines-refl t m f a same = record {
  handled = [];
  conserved = sym (append-nil f.s_axis);
  output = sym (append-nil f.m_axis);
  agrees = a;
  table = same;
}

pub Refines-trans :
    (t : ToeplitzHash) (m : Mode) (fed later : List Phit) {f g h : Filter}
    → (r : Refines t m fed f g) → Refines t (final_mode t m r.handled) later g h
    → Refines t m (fed ++ later) f h
Refines-trans t m fed later {f} {g} {h} r q = record {
  handled = r.handled ++ q.handled;
  conserved =
      append_assoc r.handled q.handled h.s_axis
      ∙ ap (◌++◌ r.handled) q.conserved
      ∙ sym (append_assoc r.handled g.s_axis later)
      ∙ ap (λ (l : List Phit). l ++ later) r.conserved
      ∙ append_assoc f.s_axis fed later;
  output =
      q.output
      ∙ ap (λ (l : List Phit). l ++ emitted t (final_mode t m r.handled) q.handled) r.output
      ∙ append_assoc f.m_axis (emitted t m r.handled) _
      ∙ ap (◌++◌ f.m_axis) (sym (emitted-append t m r.handled q.handled));
  agrees = rw (final_mode-append t m r.handled q.handled) q.agrees;
  table = q.table;
}
