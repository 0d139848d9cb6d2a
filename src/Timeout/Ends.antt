-- ===== src/Timeout/Ends.antt =====
-- How long `wait_for` goes on once a signal was handled (software/src/main.cc, class `Timeout`), and
-- where it does not end.
use packet_filter.Base.{◌+◌, ◌*◌, ◌≤◌, ◌<◌, Bool, true, false, ◌≡◌, ◌≢◌, ◌⊎◌, inl, inr, refl, ap}
use packet_filter.Timeout.{
  Timeout, Holder, nobody, waiter, handler, Main, entering, testing, blocking, asleep, woken,
  expired, late, returned, Handler, quiet, wanting, locked, served, start, is_idle, Step, enter,
  pass, refuse, sleep, expire, relock, regain, give_up, lock, notify, Reach,
}
use packet_filter.Timeout.Signals.{Inv, Reach-Inv, Unlocked, mutex_free}
use packet_filter.Timeout.Runs.{IsRaise, steps, signals, Reach-trans, served_run, steps-le}

-- The handler of a signal runs on the main thread, which holds the lock that it waits for.
pub record IsDeadlocked (s : Timeout) : Type 0 where
  pub held : s.mutex ≡ waiter
  pub waits : s.signal ≡ wanting
  pub suspends : s.suspended ≡ true

abbrev Moves : Timeout → Type 0
Moves t = (u : Timeout) × (st : Step t u) × ¬ IsRaise st

-- The main thread, when no handler stands in its way.
main-Moves :
    (t : Timeout) → Inv t → t.suspended ≡ false → t.signal ≢ locked → (t.main ≡ returned) ⊎ Moves t
main-Moves t inv runs n = go t.main refl
  where
    free : Unlocked t.main → t.mutex ≡ nobody
    free u = mutex_free t inv n u

    go : (m : Main) → t.main ≡ m → (t.main ≡ returned) ⊎ Moves t
    go entering e = inr (_, enter t runs e (free (λ q. cc, λ q. cc, λ q. cc)), λ i. i)
    go testing e = inr (tested t.terminate refl)
      where
        tested : (b : Bool) → t.terminate ≡ b → Moves t
        tested true f = (_, pass t runs e f, λ i. i)
        tested false f = (_, refuse t runs e f, λ i. i)
    go blocking e = inr (_, sleep t runs e, λ i. i)
    go asleep e = inr (_, expire t e, λ i. i)
    go woken e = inr (_, relock t runs e (free (λ q. cc, λ q. cc, λ q. cc)), λ i. i)
    go expired e = inr (_, regain t runs e (free (λ q. cc, λ q. cc, λ q. cc)), λ i. i)
    go late e = inr (_, give_up t runs e, λ i. i)
    go returned e = inl e

any-Moves : (t : Timeout) → Inv t → (t.main ≡ returned) ⊎ (Moves t ⊎ IsDeadlocked t)
any-Moves t inv = by_signal t.signal refl
  where
    either : (t.main ≡ returned) ⊎ Moves t → (t.main ≡ returned) ⊎ (Moves t ⊎ IsDeadlocked t)
    either (inl e) = inl e
    either (inr m) = inr (inl m)

    by_suspended :
        t.signal ≡ wanting
        → t.mutex ≡ waiter
        → (b : Bool) → t.suspended ≡ b
        → (t.main ≡ returned) ⊎ (Moves t ⊎ IsDeadlocked t)
    by_suspended w x true r = inr (inr (record { held = x; waits = w; suspends = r }))
    by_suspended w x false r = either (main-Moves t inv r (λ q. cc))

    by_mutex :
        t.signal ≡ wanting
        → (h : Holder) → t.mutex ≡ h
        → (t.main ≡ returned) ⊎ (Moves t ⊎ IsDeadlocked t)
    by_mutex w nobody x = inr (inl (_, lock t w x, λ i. i))
    by_mutex w waiter x = by_suspended w x t.suspended refl
    by_mutex w handler x = absurd (let l = inv.locked_handler x in cc)

    by_signal : (h : Handler) → t.signal ≡ h → (t.main ≡ returned) ⊎ (Moves t ⊎ IsDeadlocked t)
    by_signal quiet e = either (main-Moves t inv (inv.free (ap is_idle e)) (λ q. cc))
    by_signal wanting e = by_mutex e t.mutex refl
    by_signal locked e = inr (inl (_, notify t e, λ i. i))
    by_signal served e = either (main-Moves t inv (inv.free (ap is_idle e)) (λ q. cc))

-- In any state that is reached, whatever signals came, one behind the other: once the handler of the
-- last one returned, every run of any steps has at most two of them and three for each further
-- signal; and where it stops, the main thread has left `wait_for`, or a step that is no further
-- signal is possible, or a further signal came in the run and is handled on the main thread while
-- that holds the lock, and waits for it. So without a further signal the wait ends, however the
-- threads are scheduled.
pub wait_terminates :
    {s t : Timeout}
    → Reach start s
    → s.signal ≡ served
    → (p : Reach s t)
    → (steps p ≤ 2 + 3 * signals p)
      × ((t.main ≡ returned)
          ⊎ (((u : Timeout) × (st : Step t u) × ¬ IsRaise st) ⊎ (IsDeadlocked t × (0 < signals p))))
wait_terminates {s} {t} r e p =
    (steps-le r e p, where_stopped (any-Moves t (Reach-Inv (Reach-trans r p))))
  where
    with_signal :
        IsDeadlocked t → (0 < signals p) ⊎ (t.signal ≡ served) → IsDeadlocked t × (0 < signals p)
    with_signal dead (inl came) = (dead, came)
    with_signal dead (inr still) = absurd (let w = dead.waits in cc)

    where_stopped :
        (t.main ≡ returned) ⊎ (Moves t ⊎ IsDeadlocked t)
        → (t.main ≡ returned) ⊎ (Moves t ⊎ (IsDeadlocked t × (0 < signals p)))
    where_stopped (inl e1) = inl e1
    where_stopped (inr (inl m)) = inr (inl m)
    where_stopped (inr (inr dead)) = inr (inr (with_signal dead (served_run e p)))

-- Where no step is possible but a signal, and no signal waits for the main thread's own lock, the
-- main thread has left `wait_for`.
pub rest_returned :
    {t : Timeout}
    → Reach start t
    → ¬ ((u : Timeout) × (st : Step t u) × ¬ IsRaise st)
    → ¬ IsDeadlocked t
    → t.main ≡ returned
rest_returned {t} r still alive = elim (any-Moves t (Reach-Inv r)) [
  | inl e ↦ e
  | inr (inl moves) ↦ absurd (still moves)
  | inr (inr dead) ↦ absurd (alive dead)
]
