-- ===== src/Timeout/Signals.antt =====
-- Whether a signal ends the wait of the main thread (software/src/main.cc).
use packet_filter.Base.{true, false, ◌≡◌, ◌≢◌, refl, ap, arith}
use packet_filter.Timeout.{
  Holder, nobody, waiter, handler, Main, entering, testing, blocking, asleep, woken, expired, late,
  returned, wanting, locked, served, Timeout, start, Step, enter, pass, refuse, sleep, spurious,
  expire, relock, regain, give_up, is_idle, raise, lock, notify, Reach, here, next, IsOwn, Alone,
  still, move,
}

pub record Inv (s : Timeout) : Type 0 where
  tests_locked : s.main ≡ testing → s.mutex ≡ waiter
  blocks_locked : s.main ≡ blocking → s.mutex ≡ waiter
  late_locked : s.main ≡ late → s.mutex ≡ waiter
  pub locked_main : s.mutex ≡ waiter → s.main ≢ testing → s.main ≢ blocking → s.main ≡ late
  handler_locked : s.signal ≡ locked → s.mutex ≡ handler
  pub locked_handler : s.mutex ≡ handler → s.signal ≡ locked
  pub served_ended : s.signal ≡ served → s.terminate ≡ true
  pub awake : s.main ≡ asleep → s.terminate ≡ false
  pub blocks : s.main ≡ blocking → s.terminate ≡ false
  pub free : is_idle s.signal ≡ true → s.suspended ≡ false

start-Inv : Inv start
start-Inv = ground arith

Step-Inv : {s t : Timeout} → Step s t → Inv s → Inv t
Step-Inv (enter s r e f) inv = ground arith
Step-Inv (pass s r e f) inv = ground arith
Step-Inv (refuse s r e f) inv = ground arith
Step-Inv (sleep s r e) inv = ground arith
Step-Inv (spurious s e) inv = ground arith
Step-Inv (expire s e) inv = ground arith
Step-Inv (relock s r e f) inv = ground arith
Step-Inv (regain s r e f) inv = ground arith
Step-Inv (give_up s r e) inv = ground arith
Step-Inv (raise s b e) inv = ground arith
Step-Inv (lock s e f) inv = ground arith
Step-Inv (notify s e) inv = ground arith

pub Reach-Inv : {s : Timeout} → Reach start s → Inv s
Reach-Inv here = start-Inv
Reach-Inv (next r st) = Step-Inv st (Reach-Inv r)

-- Whether the main thread has the lock.
abbrev pub Unlocked : Main → Type 0
Unlocked m = (m ≢ testing) × (m ≢ blocking) × (m ≢ late)

pub mutex_free : (s : Timeout) → Inv s → s.signal ≢ locked → Unlocked s.main → s.mutex ≡ nobody
mutex_free s inv n (t, b, l) = held s.mutex refl
  where
    held : (h : Holder) → s.mutex ≡ h → s.mutex ≡ nobody
    held nobody e = e
    held waiter e = absurd (l (inv.locked_main e t b))
    held handler e = absurd (n (inv.locked_handler e))

-- In any state that is reached, whenever signals came: once the handler of the last one returned, the main
-- thread is not asleep, and its own steps lead it out of `wait_for`.
pub signal_ends_wait :
    {s : Timeout}
    → Reach start s
    → s.signal ≡ served
    → (s.main ≢ asleep) × ((t : Timeout) × Alone s t × (t.main ≡ returned))
signal_ends_wait {s} reach done =
    ((λ e. let off = inv.awake e in let on = stopped in cc), go s.main refl)
  where
    inv : Inv s
    inv = Reach-Inv reach

    stopped : s.terminate ≡ true
    stopped = inv.served_ended done

    runs : s.suspended ≡ false
    runs = inv.free (ap is_idle done)

    unlocked : Unlocked s.main → s.mutex ≡ nobody
    unlocked n = mutex_free s inv (λ q. cc) n

    taken : Timeout
    taken = record s { main = testing; mutex = waiter }

    kept : Timeout
    kept = record s { main = late; mutex = waiter }

    then_test : (st : Step s taken) → IsOwn st → (t : Timeout) × Alone s t × (t.main ≡ returned)
    then_test st own = (
      record taken { main = returned; mutex = nobody },
      move (move still st own) (pass taken runs refl stopped) tt,
      refl,
    )

    go : (m : Main) → s.main ≡ m → (t : Timeout) × Alone s t × (t.main ≡ returned)
    go entering e = then_test (enter s runs e (unlocked (λ q. cc, λ q. cc, λ q. cc))) tt
    go testing e =
        (record s { main = returned; mutex = nobody }, move still (pass s runs e stopped) tt, refl)
    go blocking e = absurd (let off = inv.blocks e in let on = stopped in cc)
    go asleep e = absurd (let off = inv.awake e in let on = stopped in cc)
    go woken e = then_test (relock s runs e (unlocked (λ q. cc, λ q. cc, λ q. cc))) tt
    go expired e = (
      record kept { main = returned; mutex = nobody },
      move (move still (regain s runs e (unlocked (λ q. cc, λ q. cc, λ q. cc))) tt)
          (give_up kept runs refl) tt,
      refl,
    )
    go late e =
        (record s { main = returned; mutex = nobody }, move still (give_up s runs e) tt, refl)
    go returned e = (s, still, e)

-- If a signal is handled on the main thread while that holds the lock in `wait_for`, no step is
-- left: the handler waits for the lock of the thread that it interrupts.
pub signal_deadlocks :
    {s : Timeout}
    → Reach start s
    → s.mutex ≡ waiter
    → s.signal ≡ wanting
    → s.suspended ≡ true
    → ¬ ((t : Timeout) × Step s t)
signal_deadlocks {s} reach x w r (t, st) = stuck st (Reach-Inv reach) x w r
  where
    stuck :
        {s t : Timeout}
        → Step s t
        → Inv s
        → s.mutex ≡ waiter
        → s.signal ≡ wanting
        → s.suspended ≡ true
        → ⊥
    stuck (enter s r e f) inv x w q = cc
    stuck (pass s r e f) inv x w q = cc
    stuck (refuse s r e f) inv x w q = cc
    stuck (sleep s r e) inv x w q = cc
    stuck (spurious s e) inv x w q = let l = inv.locked_main x (λ a. cc) (λ a. cc) in cc
    stuck (expire s e) inv x w q = let l = inv.locked_main x (λ a. cc) (λ a. cc) in cc
    stuck (relock s r e f) inv x w q = cc
    stuck (regain s r e f) inv x w q = cc
    stuck (give_up s r e) inv x w q = cc
    stuck (raise s b e) inv x w q = let i = ap is_idle w in cc
    stuck (lock s e f) inv x w q = cc
    stuck (notify s e) inv x w q = cc
