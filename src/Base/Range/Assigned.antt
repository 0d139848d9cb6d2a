-- ===== src/Base/Range/Assigned.antt =====
-- A run of assignments to parts of one `ap_uint`, and what a part holds after it.
use Prim.Native.Nat.{ℕ, ◌%◌, ◌/◌, ◌^◌, ◌≤◌, ◌<◌}
use mathlib.Core.Path.{◌≡◌, refl, ◌∙◌, subst}
use mathlib.Core.Bool.{true, ◌&&◌, ◌||◌}
use mathlib.Core.List.{List, [], ◌∷◌}
use mathlib.Core.Logic.{inl, inr}
use native.Mathlib.Nat.{mod-eq_of_lt}
use native.Mathlib.Omega.{arith}
use packet_filter.Base.Tests.{ltb, leb, ◌==◌, if◌then◌else◌, Bool-cases}
use packet_filter.Base.Range.{
  width, range, set_range, range-set_range_self, range-set_range_below, range-set_range_above,
  set_range-div,
}

pub record Assignment : Type 0 where
  pub hi : ℕ
  pub lo : ℕ
  pub value : ℕ

abbrev pub part : ℕ → ℕ → ℕ → Assignment
part hi lo v = record { hi = hi; lo = lo; value = v }

-- The last assignment stands first.
abbrev pub assign_all : List Assignment → ℕ → ℕ
assign_all [] x = x
assign_all (a ∷ as') x = set_range (assign_all as' x) a.hi a.lo a.value

pub data Content : Type 0 where
  assigned : ℕ → Content
  untouched : Content
  overlapped : Content

-- What the part from `lo` to `hi` holds, if no assignment cuts it.
abbrev pub content : List Assignment → ℕ → ℕ → Content
content [] hi lo = untouched
content (a ∷ as') hi lo =
    if hi == a.hi && lo == a.lo
    then assigned a.value
    else if leb a.lo a.hi && (ltb hi a.lo || ltb a.hi lo)
    then content as' hi lo
    else overlapped

abbrev pub Holds : ℕ → ℕ → ℕ → ℕ → Content → Type 0
Holds old new hi lo (assigned v) = range new hi lo ≡ v % 2 ^ width hi lo
Holds old new hi lo untouched = range new hi lo ≡ range old hi lo
Holds old new hi lo overlapped = Unit {0}

Holds-trans :
    (old mid new hi lo : ℕ) (c : Content)
    → range new hi lo ≡ range mid hi lo
    → Holds old mid hi lo c
    → Holds old new hi lo c
Holds-trans old mid new hi lo (assigned v) e h = e ∙ h
Holds-trans old mid new hi lo untouched e h = e ∙ h
Holds-trans old mid new hi lo overlapped e h = tt

range-set_range_apart :
    (x : ℕ) (a : Assignment) (hi lo : ℕ)
    → lo ≤ hi
    → (leb a.lo a.hi && (ltb hi a.lo || ltb a.hi lo)) ≡ true
    → range (set_range x a.hi a.lo a.value) hi lo ≡ range x hi lo
range-set_range_apart x a hi lo wf apart = ground (
  arith,
  range-set_range_below x a.hi a.lo a.value hi lo,
  range-set_range_above x a.hi a.lo a.value hi lo,
)

-- `content` is right about every part that is not empty.
assign_all-Holds :
    (as' : List Assignment) (x hi lo : ℕ)
    → lo ≤ hi
    → Holds x (assign_all as' x) hi lo (content as' hi lo)
assign_all-Holds [] x hi lo wf = refl
assign_all-Holds (a ∷ as') x hi lo wf =
    let mid = assign_all as' x in
    elim (Bool-cases (hi == a.hi && lo == a.lo)) [
      | inl same ↦
          let here : (hi ≡ a.hi) × (lo ≡ a.lo) = ground arith in
          rw (same, here.0, here.1) (range-set_range_self mid a.hi a.lo a.value)
      | inr other ↦ elim (Bool-cases (leb a.lo a.hi && (ltb hi a.lo || ltb a.hi lo))) [
        | inr cut ↦ rw (other, cut) tt
        | inl apart ↦
            rw (other, apart)
              (Holds-trans x mid (set_range mid a.hi a.lo a.value) hi lo (content as' hi lo)
                (range-set_range_apart mid a hi lo wf apart) (assign_all-Holds as' x hi lo wf))
      ]
    ]

-- A part that was assigned a value of its width holds that value.
pub assigned_value :
    (as' : List Assignment) (x hi lo : ℕ) {v : ℕ}
    → content as' hi lo ≡ assigned v
    → lo ≤ hi
    → v < 2 ^ width hi lo
    → range (assign_all as' x) hi lo ≡ v
assigned_value as' x hi lo e wf h =
    subst (Holds x (assign_all as' x) hi lo) e (assign_all-Holds as' x hi lo wf) ∙ mod-eq_of_lt h

-- Every assignment is to a part below `top`.
abbrev pub Below : ℕ → List Assignment → Type 0
Below top [] = Unit {0}
Below top (a ∷ as') = (a.lo ≤ a.hi) × (a.hi < top) × Below top as'

pub assign_all-div :
    (as' : List Assignment) (x top : ℕ) → Below top as' → assign_all as' x / 2 ^ top ≡ x / 2 ^ top
assign_all-div [] x top b = refl
assign_all-div (a ∷ as') x top b =
    set_range-div (assign_all as' x) a.hi a.lo a.value top b.0 b.1 ∙ assign_all-div as' x top b.2
