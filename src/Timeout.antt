-- ===== src/Timeout.antt =====
-- software/src/main.cc, class `Timeout` and `signal_handler`: the main thread waits for a time or a
-- signal; the handler of a signal runs on the main thread or on another one. Any number of signals
-- come, one behind the other: the next one after the handler of the last one returned.
pub mod Signals
pub mod Runs
pub mod Ends
use packet_filter.Base.{Bool, true, false, ◌≡◌}

-- Who holds `mutex`.
pub data Holder : Type 0 where
  nobody waiter handler : Holder

-- The main thread in `wait_for`: before the lock, at the predicate with the lock held, refused by it
-- and before it sleeps with the lock still held, asleep with the lock released, notified and before
-- the lock again, past its time and before the lock again, behind that with the lock held, and
-- returned.
pub data Main : Type 0 where
  entering testing blocking asleep woken expired late returned : Main

-- `signal_handler`: no signal yet, in `force_stop` before its lock, behind it, and returned from the
-- last signal.
pub data Handler : Type 0 where
  quiet wanting locked served : Handler

-- `suspended`: the handler runs on the main thread, which makes no step of its own meanwhile.
pub record Timeout : Type 0 where
  pub terminate : Bool
  pub mutex : Holder
  pub main : Main
  pub signal : Handler
  pub suspended : Bool

abbrev pub start : Timeout
start = record {
  terminate = false;
  mutex = nobody;
  main = entering;
  signal = quiet;
  suspended = false;
}

-- `notify_all`.
abbrev pub notified : Main → Main
notified entering = entering
notified testing = testing
notified blocking = blocking
notified asleep = woken
notified woken = woken
notified expired = expired
notified late = late
notified returned = returned

-- No handler is under way.
abbrev pub is_idle : Handler → Bool
is_idle quiet = true
is_idle wanting = false
is_idle locked = false
is_idle served = true

pub data Step : Timeout → Timeout → Type 0 where
  enter :
      (s : Timeout)
      → s.suspended ≡ false
      → s.main ≡ entering
      → s.mutex ≡ nobody
      → Step s (record s { main = testing; mutex = waiter })
  pass :
      (s : Timeout)
      → s.suspended ≡ false
      → s.main ≡ testing
      → s.terminate ≡ true
      → Step s (record s { main = returned; mutex = nobody })
  refuse :
      (s : Timeout)
      → s.suspended ≡ false
      → s.main ≡ testing
      → s.terminate ≡ false
      → Step s (record s { main = blocking })
  sleep :
      (s : Timeout)
      → s.suspended ≡ false
      → s.main ≡ blocking
      → Step s (record s { main = asleep; mutex = nobody })
  spurious : (s : Timeout) → s.main ≡ asleep → Step s (record s { main = woken })
  expire : (s : Timeout) → s.main ≡ asleep → Step s (record s { main = expired })
  relock :
      (s : Timeout)
      → s.suspended ≡ false
      → s.main ≡ woken
      → s.mutex ≡ nobody
      → Step s (record s { main = testing; mutex = waiter })
  regain :
      (s : Timeout)
      → s.suspended ≡ false
      → s.main ≡ expired
      → s.mutex ≡ nobody
      → Step s (record s { main = late; mutex = waiter })
  give_up :
      (s : Timeout)
      → s.suspended ≡ false
      → s.main ≡ late
      → Step s (record s { main = returned; mutex = nobody })
  raise :
      (s : Timeout) (on_main : Bool)
      → is_idle s.signal ≡ true
      → Step s (record s { signal = wanting; suspended = on_main })
  lock :
      (s : Timeout)
      → s.signal ≡ wanting
      → s.mutex ≡ nobody
      → Step s (record s { signal = locked; mutex = handler })
  notify :
      (s : Timeout)
      → s.signal ≡ locked
      → Step s (record {
        terminate = true;
        mutex = nobody;
        main = notified s.main;
        signal = served;
        suspended = false;
      })

pub data Reach (s : Timeout) : Timeout → Type 0 where
  here : Reach s s
  next : {t u : Timeout} → Reach s t → Step t u → Reach s u

-- The steps of the main thread itself, but for the end of its time.
abbrev pub IsOwn : {s t : Timeout} → Step s t → Type 0
IsOwn (enter s r e f) = Unit {0}
IsOwn (pass s r e f) = Unit {0}
IsOwn (refuse s r e f) = Unit {0}
IsOwn (sleep s r e) = Unit {0}
IsOwn (spurious s e) = ⊥
IsOwn (expire s e) = ⊥
IsOwn (relock s r e f) = Unit {0}
IsOwn (regain s r e f) = Unit {0}
IsOwn (give_up s r e) = Unit {0}
IsOwn (raise s b e) = ⊥
IsOwn (lock s e f) = ⊥
IsOwn (notify s e) = ⊥

pub data Alone (s : Timeout) : Timeout → Type 0 where
  still : Alone s s
  move : {t u : Timeout} → Alone s t → (st : Step t u) → IsOwn st → Alone s u
