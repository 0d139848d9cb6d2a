-- ===== src/Timeout/Runs.antt =====
-- How many steps `wait_for` and the signals take in a run (software/src/main.cc, class `Timeout`).
use packet_filter.Base.{ℕ, suc, ◌+◌, ◌*◌, ◌≤◌, ◌<◌, true, ◌≡◌, ◌≢◌, ◌⊎◌, inl, inr, refl, ap, arith}
use packet_filter.Timeout.{
  Timeout, Main, entering, testing, blocking, asleep, woken, expired, late, returned, Handler,
  quiet, wanting, locked, served, start, notified, is_idle, Step, enter, pass, refuse, sleep,
  spurious, expire, relock, regain, give_up, raise, lock, notify, Reach, here, next,
}
use packet_filter.Timeout.Signals.{Inv, Reach-Inv}

-- A new signal.
abbrev pub IsRaise : {s t : Timeout} → Step s t → Type 0
IsRaise (enter s r e f) = ⊥
IsRaise (pass s r e f) = ⊥
IsRaise (refuse s r e f) = ⊥
IsRaise (sleep s r e) = ⊥
IsRaise (spurious s e) = ⊥
IsRaise (expire s e) = ⊥
IsRaise (relock s r e f) = ⊥
IsRaise (regain s r e f) = ⊥
IsRaise (give_up s r e) = ⊥
IsRaise (raise s b e) = Unit {0}
IsRaise (lock s e f) = ⊥
IsRaise (notify s e) = ⊥

raised : {s t : Timeout} → Step s t → ℕ
raised (enter s r e f) = 0
raised (pass s r e f) = 0
raised (refuse s r e f) = 0
raised (sleep s r e) = 0
raised (spurious s e) = 0
raised (expire s e) = 0
raised (relock s r e f) = 0
raised (regain s r e f) = 0
raised (give_up s r e) = 0
raised (raise s b e) = 1
raised (lock s e f) = 0
raised (notify s e) = 0

pub steps : {s t : Timeout} → Reach s t → ℕ
steps here = 0
steps (next r st) = suc (steps r)

-- The signals that come in a run.
pub signals : {s t : Timeout} → Reach s t → ℕ
signals here = 0
signals (next r st) = signals r + raised st

-- The steps that are left to the main thread, and to the handler.
rank : Main → ℕ
rank entering = 2
rank testing = 1
rank blocking = 0
rank asleep = 0
rank woken = 2
rank expired = 2
rank late = 1
rank returned = 0

handler_rank : Handler → ℕ
handler_rank quiet = 0
handler_rank wanting = 2
handler_rank locked = 1
handler_rank served = 0

rank-le : (x : Main) → rank x ≤ 2
unfolding rank
rank-le entering = omega arith
rank-le testing = omega arith
rank-le blocking = omega arith
rank-le asleep = omega arith
rank-le woken = omega arith
rank-le expired = omega arith
rank-le late = omega arith
rank-le returned = omega arith

rank-notified : (x : Main) → x ≢ asleep → rank (notified x) ≤ rank x
unfolding rank
rank-notified entering n = omega arith
rank-notified testing n = omega arith
rank-notified blocking n = omega arith
rank-notified asleep n = absurd (n refl)
rank-notified woken n = omega arith
rank-notified expired n = omega arith
rank-notified late n = omega arith
rank-notified returned n = omega arith

idle-rank : (h : Handler) → is_idle h ≡ true → handler_rank h ≡ 0
unfolding handler_rank
idle-rank quiet e = refl
idle-rank wanting e = absurd cc
idle-rank locked e = absurd cc
idle-rank served e = refl

left : Timeout → ℕ
left s = rank s.main + handler_rank s.signal

pub Reach-trans : {s t u : Timeout} → Reach s t → Reach t u → Reach s u
Reach-trans r here = r
Reach-trans r (next q st) = next (Reach-trans r q) st

-- Once `terminate` is set, each step but a new signal leaves fewer of them.
told_step :
    {s t : Timeout}
    → Inv s
    → s.terminate ≡ true
    → (st : Step s t) → (t.terminate ≡ true) × (1 + left t ≤ left s + 3 * raised st)
unfolding rank handler_rank left raised
told_step inv on (enter s r m f) = (on, rw m (omega arith))
told_step inv on (pass s r m f) = (on, rw m (omega arith))
told_step inv on (refuse s r m f) = absurd cc
told_step inv on (sleep s r m) = let off = inv.blocks m in absurd cc
told_step inv on (spurious s m) = let off = inv.awake m in absurd cc
told_step inv on (expire s m) = let off = inv.awake m in absurd cc
told_step inv on (relock s r m f) = (on, rw m (omega arith))
told_step inv on (regain s r m f) = (on, rw m (omega arith))
told_step inv on (give_up s r m) = (on, rw m (omega arith))
told_step inv on (raise s b f) = (on, omega (arith, idle-rank s.signal f))
told_step inv on (lock s f g) = (on, rw f (omega arith))
told_step inv on (notify s f) =
    let less = rank-notified s.main (λ a. let off = inv.awake a in cc) in (refl, rw f (omega arith))

told_run :
    {s t : Timeout}
    → Reach start s
    → s.terminate ≡ true
    → (p : Reach s t) → (t.terminate ≡ true) × (steps p + left t ≤ left s + 3 * signals p)
unfolding steps signals
told_run r e here = (e, omega arith)
told_run r e (next p st) =
    let (e', le) = told_run r e p in
    let (e'', less) = told_step (Reach-Inv (Reach-trans r p)) e' st in (e'', omega arith)

served_step :
    {s t : Timeout} → s.signal ≡ served → (st : Step s t) → (0 < raised st) ⊎ (t.signal ≡ served)
unfolding raised
served_step e (enter s r m f) = inr e
served_step e (pass s r m f) = inr e
served_step e (refuse s r m f) = inr e
served_step e (sleep s r m) = inr e
served_step e (spurious s m) = inr e
served_step e (expire s m) = inr e
served_step e (relock s r m f) = inr e
served_step e (regain s r m f) = inr e
served_step e (give_up s r m) = inr e
served_step e (raise s b f) = inl (omega arith)
served_step e (lock s f g) = absurd cc
served_step e (notify s f) = inr refl

pub served_run :
    {s t : Timeout} → s.signal ≡ served → (p : Reach s t) → (0 < signals p) ⊎ (t.signal ≡ served)
unfolding signals
served_run e here = inr e
served_run e (next p st) = elim (served_run e p) [
  | inl some_signal ↦ inl (omega arith)
  | inr e' ↦ elim (served_step e' st) [ inl one ↦ inl (omega arith) | inr e'' ↦ inr e'' ]
]

-- From a reached state in which the handler of the last signal returned: a run has at most two steps
-- and three for each further signal.
pub steps-le :
    {s t : Timeout}
    → Reach start s
    → s.signal ≡ served
    → (p : Reach s t) → steps p ≤ 2 + 3 * signals p
unfolding left handler_rank
steps-le {s} r e p =
    let (on, le) = told_run r ((Reach-Inv r).served_ended e) p in
    let idle : handler_rank s.signal ≡ 0 = ap handler_rank e in
    omega (arith, le, idle, rank-le s.main)
