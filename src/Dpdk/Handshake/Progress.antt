-- ===== src/Dpdk/Handshake/Progress.antt =====
-- Which threads reach their receiving loop, and which never end.
use packet_filter.Base.{Bool, true, false, ◌≡◌, ◌≢◌, refl, ◌⊎◌, inl, inr, arith}
use packet_filter.Dpdk.Handshake.{
  Holder, nobody, receiver, blocking, registrar, Receiver, entering, testing, asleep, woken,
  looping, finished, unregistered, registered, Handshake, start, Step, enter, pass, refuse, sleep,
  relock, leave, assign, lock, notify, shutdown, spurious, Reach, IsOwn, Alone, still, move,
}
use packet_filter.Dpdk.Handshake.Invariant.{Inv, Reach-Inv}

-- A registered thread in its test passes.
from_test :
    (s : Handshake)
    → s.thread ≡ testing
    → s.callback ≡ true
    → (t : Handshake) × Alone s t × (t.thread ≡ looping)
from_test s e c =
    (record s { thread = looping; mutex = nobody }, move still (pass s e (ground arith)) tt, refl)

mutex_free : (s : Handshake) → Inv s → s.main ≡ registered → s.thread ≢ testing → s.mutex ≡ nobody
mutex_free s inv m n = held s.mutex refl
  where
    held : (h : Holder) → s.mutex ≡ h → s.mutex ≡ nobody
    held nobody e = e
    held receiver e = absurd (inv.blocks (inv.locked_tests e n) m)
    held registrar e = absurd (ground arith)

callback_set : (s : Handshake) → Inv s → s.main ≡ registered → s.callback ≡ true
callback_set s inv m = value s.callback refl
  where
    value : (b : Bool) → s.callback ≡ b → s.callback ≡ true
    value true e = e
    value false e = absurd (ground arith)

-- From any state of the handshake, whatever happened before, spurious wake-ups included: once
-- `register_callback` returned, the thread is not asleep, and unless it has ended already, its own
-- steps alone lead it to its loop.
pub registered_runs :
    {s : Handshake}
    → Reach start s
    → s.main ≡ registered
    → s.thread ≢ finished
    → (s.thread ≢ asleep) × ((t : Handshake) × Alone s t × (t.thread ≡ looping))
registered_runs {s} reach m unfinished = (awake, go s.thread refl)
  where
    inv : Inv s
    inv = Reach-Inv reach

    awake : s.thread ≢ asleep
    awake e = inv.waits e m

    set : s.callback ≡ true
    set = callback_set s inv m

    taken : Handshake
    taken = record s { thread = testing; mutex = receiver }

    then_test : (st : Step s taken) → IsOwn st → (t : Handshake) × Alone s t × (t.thread ≡ looping)
    then_test st own = (
      record taken { thread = looping; mutex = nobody },
      move (move still st own) (pass taken refl (ground (arith, set))) tt,
      refl,
    )

    go : (r : Receiver) → s.thread ≡ r → (t : Handshake) × Alone s t × (t.thread ≡ looping)
    go entering e = then_test (enter s e (mutex_free s inv m (λ q. cc))) tt
    go testing e = from_test s e set
    go blocking e = absurd (inv.blocks e m)
    go asleep e = absurd (awake e)
    go woken e = then_test (relock s e (mutex_free s inv m (λ q. cc))) tt
    go looping e = (s, still, e)
    go finished e = absurd (unfinished e)

-- A thread is in its loop only with a callback, or when the program ends.
loop_has_callback :
    {s : Handshake}
    → Reach start s
    → s.thread ≡ looping
    → (s.callback ≡ true) ⊎ (s.force_quit ≡ true)
loop_has_callback {s} reach e = parts s.force_quit s.callback refl refl
  where
    parts :
        (q c : Bool)
        → s.force_quit ≡ q
        → s.callback ≡ c
        → (s.callback ≡ true) ⊎ (s.force_quit ≡ true)
    parts true c f g = inr f
    parts false true f g = inl g
    parts false false f g = absurd (ground (arith, (Reach-Inv reach).runs e))

-- The steps that remain to a thread that `main` does not register, without spurious wake-ups.
abbrev pub IsLeft : {s t : Handshake} → Step s t → Type 0
IsLeft (enter s e f) = Unit {0}
IsLeft (pass s e f) = Unit {0}
IsLeft (refuse s e f) = Unit {0}
IsLeft (sleep s e) = Unit {0}
IsLeft (relock s e f) = Unit {0}
IsLeft (leave s e f) = Unit {0}
IsLeft (assign s e) = ⊥
IsLeft (lock s e f) = Unit {0}
IsLeft (notify s e) = Unit {0}
IsLeft (shutdown s) = Unit {0}
IsLeft (spurious s e) = ⊥

pub data Left (s : Handshake) : Handshake → Type 0 where
  stay : Left s s
  onward : {t u : Handshake} → Left s t → (st : Step t u) → IsLeft st → Left s u

-- Asleep and unregistered.
abbrev Stuck : Handshake → Type 0
Stuck s = (s.thread ≡ asleep) × (s.main ≡ unregistered)

Step-Stuck : {s t : Handshake} (st : Step s t) → IsLeft st → Stuck s → Stuck t
Step-Stuck (enter s e f) l h = absurd (cc (h.0))
Step-Stuck (pass s e f) l h = absurd (cc (h.0))
Step-Stuck (refuse s e f) l h = absurd (cc (h.0))
Step-Stuck (sleep s e) l h = absurd (cc (h.0))
Step-Stuck (relock s e f) l h = absurd (cc (h.0))
Step-Stuck (leave s e f) l h = absurd (cc (h.0))
Step-Stuck (assign s e) l h = absurd l
Step-Stuck (lock s e f) l h = absurd (cc (h.1))
Step-Stuck (notify s e) l h = absurd (cc (h.1))
Step-Stuck (shutdown s) l h = h
Step-Stuck (spurious s e) l h = absurd l

Left-Stuck : {s t : Handshake} → Left s t → Stuck s → Stuck t
Left-Stuck stay h = h
Left-Stuck (onward r st l) h = Step-Stuck st l (Left-Stuck r h)

-- A thread that sleeps and that `main` never registers stays asleep: `trigger_shutdown` sets
-- `force_quit_` but notifies nobody, so that without a spurious wake-up the thread never ends.
shutdown_hangs :
    (s : Handshake) {t : Handshake}
    → s.thread ≡ asleep
    → s.main ≡ unregistered
    → Left (record s { force_quit = true }) t
    → (t.thread ≡ asleep) × (t.thread ≢ finished)
shutdown_hangs s e m later = let stuck = Left-Stuck later (e, m) in (stuck.0, λ f. cc (stuck.0))
