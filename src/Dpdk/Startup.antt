-- ===== src/Dpdk/Startup.antt =====
-- software/src/dpdk.cc: the constructor of `DPDK` waits until `init_dpdk`, on a thread of its own,
-- notifies it. `init_cv_.wait(lock)` has no predicate, and the notification is not kept for later.
use packet_filter.Base.{◌≡◌, ◌≢◌, refl}

-- The constructor: before `wait`, in it, and behind it.
pub data Constructor : Type 0 where
  spawned waiting returned : Constructor

-- `init_dpdk`: before and after `init_cv_.notify_all()`.
pub data Initialiser : Type 0 where
  working notified : Initialiser

pub record Startup : Type 0 where
  pub constructor : Constructor
  pub initialiser : Initialiser

abbrev pub start : Startup
start = record { constructor = spawned; initialiser = working }

-- A notification reaches who waits.
abbrev pub reached : Constructor → Constructor
reached spawned = spawned
reached waiting = returned
reached returned = returned

-- Steps of the two threads, without spurious wake-ups.
pub data Step : Startup → Startup → Type 0 where
  wait : (s : Startup) → s.constructor ≡ spawned → Step s (record s { constructor = waiting })
  notify :
      (s : Startup)
      → s.initialiser ≡ working
      → Step s (record { constructor = reached s.constructor; initialiser = notified })

pub data Reach (s : Startup) : Startup → Type 0 where
  here : Reach s s
  next : {t u : Startup} → Reach s t → Step t u → Reach s u

Step-ready :
    {s t : Startup}
    → Step s t
    → (s.constructor ≡ returned → s.initialiser ≡ notified)
    → t.constructor ≡ returned
    → t.initialiser ≡ notified
Step-ready (wait s e) h r = cc
Step-ready (notify s e) h r = refl

-- Without spurious wake-ups the constructor returns only after `init_dpdk` notified it.
returned_ready : {s : Startup} → Reach start s → s.constructor ≡ returned → s.initialiser ≡ notified
returned_ready here r = cc
returned_ready (next reach st) r = Step-ready st (returned_ready reach) r

Step-lost :
    {s t : Startup}
    → Step s t
    → (s.constructor ≢ returned) × (s.initialiser ≡ notified)
    → (t.constructor ≢ returned) × (t.initialiser ≡ notified)
Step-lost (wait s e) h = ((λ r. cc), h.1)
Step-lost (notify s e) h = absurd (cc (h.1))

Reach-lost :
    {s t : Startup}
    → (s.constructor ≢ returned) × (s.initialiser ≡ notified)
    → Reach s t
    → (t.constructor ≢ returned) × (t.initialiser ≡ notified)
Reach-lost h here = h
Reach-lost h (next reach st) = Step-lost st (Reach-lost h reach)

-- If `init_dpdk` notifies before the constructor waits, the notification is lost: without a spurious
-- wake-up the constructor never returns, whatever steps follow.
pub startup_hangs :
    {s t : Startup}
    → Reach start s
    → s.constructor ≡ spawned
    → s.initialiser ≡ notified
    → Reach s t
    → t.constructor ≢ returned
startup_hangs reach e f later = (Reach-lost ((λ r. cc), f) later).0

Step-heard :
    {s t : Startup}
    → Step s t
    → (s.constructor ≢ spawned) × (s.constructor ≡ waiting → s.initialiser ≡ working)
    → (t.constructor ≢ spawned) × (t.constructor ≡ waiting → t.initialiser ≡ working)
Step-heard (wait s e) h = absurd (h.0 e)
Step-heard (notify s e) h = by_constructor s.constructor refl
  where
    by_constructor :
        (x : Constructor)
        → s.constructor ≡ x
        → (reached s.constructor ≢ spawned) × (reached s.constructor ≡ waiting → notified ≡ working)
    by_constructor spawned f = absurd (h.0 f)
    by_constructor waiting f = rw f ((λ r. cc), (λ r. cc))
    by_constructor returned f = rw f ((λ r. cc), (λ r. cc))

Reach-heard :
    {s t : Startup}
    → (s.constructor ≢ spawned) × (s.constructor ≡ waiting → s.initialiser ≡ working)
    → Reach s t
    → (t.constructor ≢ spawned) × (t.constructor ≡ waiting → t.initialiser ≡ working)
Reach-heard h here = h
Reach-heard h (next reach st) = Step-heard st (Reach-heard h reach)

-- If the constructor waits before `init_dpdk` notifies it, it has returned where no step is possible
-- any more.
pub rest_returned :
    {s t : Startup}
    → s.constructor ≡ waiting
    → s.initialiser ≡ working
    → Reach s t
    → ¬ ((u : Startup) × Step t u)
    → t.constructor ≡ returned
rest_returned {s} {t} w i r still = go t.constructor refl
  where
    heard : (t.constructor ≢ spawned) × (t.constructor ≡ waiting → t.initialiser ≡ working)
    heard = Reach-heard ((λ e. cc), (λ e. i)) r

    go : (x : Constructor) → t.constructor ≡ x → t.constructor ≡ returned
    go spawned e = absurd (heard.0 e)
    go waiting e = absurd (still (_, notify t (heard.1 e)))
    go returned e = e
