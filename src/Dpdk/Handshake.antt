-- ===== src/Dpdk/Handshake.antt =====
-- software/src/dpdk.cc: a receiving thread waits for its callback (`dpdk_rx_loop`, before its loop),
-- the main thread registers it (`register_callback`) and ends the threads (`trigger_shutdown`).
pub mod Invariant
pub mod Progress
use packet_filter.Base.{Bool, true, false, ◌||◌, ◌≡◌, refl}

-- Who holds `callback_mutex`.
pub data Holder : Type 0 where
  nobody receiver registrar : Holder

-- The receiving thread: before the lock, at the predicate with the lock held, refused by it and
-- before it sleeps with the lock still held, in `wait` with the lock released, notified and before
-- the lock again, in its loop, and behind it.
pub data Receiver : Type 0 where
  entering testing blocking asleep woken looping finished : Receiver

-- `register_callback`: not called, callback assigned, lock taken, notified and unlocked.
pub data Registrar : Type 0 where
  unregistered assigned locked registered : Registrar

pub record Handshake : Type 0 where
  pub callback : Bool
  pub force_quit : Bool
  pub mutex : Holder
  pub thread : Receiver
  pub main : Registrar

abbrev pub start : Handshake
start = record {
  callback = false;
  force_quit = false;
  mutex = nobody;
  thread = entering;
  main = unregistered;
}

-- `notify_all`.
abbrev pub notified : Receiver → Receiver
notified entering = entering
notified testing = testing
notified blocking = blocking
notified asleep = woken
notified woken = woken
notified looping = looping
notified finished = finished

-- The predicate that the thread waits for.
abbrev pub may_start : Handshake → Bool
may_start s = s.force_quit || s.callback

-- `wait` tests its predicate with the lock held. It goes to sleep as it releases the lock; the test
-- is a step before that, and a notification in between reaches nobody.
pub data Step : Handshake → Handshake → Type 0 where
  enter :
      (s : Handshake)
      → s.thread ≡ entering
      → s.mutex ≡ nobody
      → Step s (record s { thread = testing; mutex = receiver })
  pass :
      (s : Handshake)
      → s.thread ≡ testing
      → may_start s ≡ true
      → Step s (record s { thread = looping; mutex = nobody })
  refuse :
      (s : Handshake)
      → s.thread ≡ testing
      → may_start s ≡ false
      → Step s (record s { thread = blocking })
  sleep :
      (s : Handshake) → s.thread ≡ blocking → Step s (record s { thread = asleep; mutex = nobody })
  relock :
      (s : Handshake)
      → s.thread ≡ woken
      → s.mutex ≡ nobody
      → Step s (record s { thread = testing; mutex = receiver })
  leave :
      (s : Handshake)
      → s.thread ≡ looping
      → s.force_quit ≡ true
      → Step s (record s { thread = finished })
  assign :
      (s : Handshake)
      → s.main ≡ unregistered
      → Step s (record s { callback = true; main = assigned })
  lock :
      (s : Handshake)
      → s.main ≡ assigned
      → s.mutex ≡ nobody
      → Step s (record s { main = locked; mutex = registrar })
  notify :
      (s : Handshake)
      → s.main ≡ locked
      → Step s (record s { main = registered; mutex = nobody; thread = notified s.thread })
  shutdown : (s : Handshake) → Step s (record s { force_quit = true })
  spurious : (s : Handshake) → s.thread ≡ asleep → Step s (record s { thread = woken })

pub data Reach (s : Handshake) : Handshake → Type 0 where
  here : Reach s s
  next : {t u : Handshake} → Reach s t → Step t u → Reach s u

-- The steps of the receiving thread itself, without spurious wake-ups.
abbrev pub IsOwn : {s t : Handshake} → Step s t → Type 0
IsOwn (enter s e f) = Unit {0}
IsOwn (pass s e f) = Unit {0}
IsOwn (refuse s e f) = Unit {0}
IsOwn (sleep s e) = Unit {0}
IsOwn (relock s e f) = Unit {0}
IsOwn (leave s e f) = Unit {0}
IsOwn (assign s e) = ⊥
IsOwn (lock s e f) = ⊥
IsOwn (notify s e) = ⊥
IsOwn (shutdown s) = ⊥
IsOwn (spurious s e) = ⊥

pub data Alone (s : Handshake) : Handshake → Type 0 where
  still : Alone s s
  move : {t u : Handshake} → Alone s t → (st : Step t u) → IsOwn st → Alone s u
