-- ===== src/Dpdk/Fleet/Rest.antt =====
-- Where the receiving threads and the main thread come to rest (software/src/dpdk.cc).
use packet_filter.Base.{ℕ, ◌%◌, ◌^◌, ◌<◌, Bool, true, false, ◌≡◌, inl, inr, refl, subst, arith}
use native.Mathlib.Decide.{dec_lt}
use packet_filter.Dpdk.Threads.{adjust_threads}
use packet_filter.Dpdk.Handshake.{
  Holder, nobody, receiver, registrar, Receiver, entering, testing, blocking, asleep, woken,
  looping, finished, Registrar, unregistered, assigned, locked, registered, may_start, pass, refuse,
  sleep, assign, lock, notify,
}
use packet_filter.Dpdk.Handshake.Invariant as HandshakeInvariant
use packet_filter.Dpdk.Fleet.{
  Main, Fleet, start, registering, joining, ended, own, register, next_thread, destroy, Step, Reach,
  here,
}
use packet_filter.Dpdk.Fleet.Invariant.{Inv, Reach-Inv}
use packet_filter.Dpdk.Fleet.Exit.{adjust_threads-kept}
use packet_filter.Dpdk.Fleet.Termination.{exit_terminates}

module _ (asked started : ℕ) where
  abbrev Moves : Fleet → Type 0
  Moves s = (t : Fleet) × Step asked started s t

  -- The thread that holds the lock goes on: it passes the predicate, or it goes to sleep.
  holder-Moves :
      (s : Fleet) (i : ℕ)
      → i < started
      → HandshakeInvariant.Inv (s.threads i)
      → (s.threads i).mutex ≡ receiver
      → Moves s
  holder-Moves s i lt inv m = go (s.threads i).thread refl
    where
      go : (x : Receiver) → (s.threads i).thread ≡ x → Moves s
      go testing e = either (may_start (s.threads i)) refl
        where
          either : (b : Bool) → may_start (s.threads i) ≡ b → Moves s
          either true f = (_, own i lt (pass _ e f) tt)
          either false f = (_, own i lt (refuse _ e f) tt)
      go blocking e = (_, own i lt (sleep _ e) tt)
      go entering e = absurd (let b = inv.locked_tests m (λ f. cc) in cc)
      go asleep e = absurd (let b = inv.locked_tests m (λ f. cc) in cc)
      go woken e = absurd (let b = inv.locked_tests m (λ f. cc) in cc)
      go looping e = absurd (let b = inv.locked_tests m (λ f. cc) in cc)
      go finished e = absurd (let b = inv.locked_tests m (λ f. cc) in cc)

  -- While thread `i` is being registered, its registration goes on, or the thread that holds the
  -- lock does.
  registering-Moves :
      (s : Fleet) (i : ℕ)
      → s.main ≡ registering i
      → i < asked
      → i < started
      → HandshakeInvariant.Inv (s.threads i)
      → Moves s
  registering-Moves s i e lt lt' inv = go (s.threads i).main refl
    where
      go : (x : Registrar) → (s.threads i).main ≡ x → Moves s
      go unregistered m = (_, register i e lt (assign _ m) tt)
      go assigned m = by_mutex (s.threads i).mutex refl
        where
          by_mutex : (x : Holder) → (s.threads i).mutex ≡ x → Moves s
          by_mutex nobody h = (_, register i e lt (lock _ m h) tt)
          by_mutex receiver h = holder-Moves s i lt' inv h
          by_mutex registrar h = absurd (let l = inv.locked_notifies h in cc)
      go locked m = (_, register i e lt (notify _ m) tt)
      go registered m = (_, next_thread i e lt m)

-- Where the number of threads is a multiple of the number of ports and an `uint16_t` holds it: a
-- reached state in which no step is possible is one in which the wait for the threads has ended.
pub rest_ended :
    (num_threads ports : ℕ) (s : Fleet)
    → num_threads % ports ≡ 0
    → num_threads < 2 ^ 16
    → Reach num_threads (adjust_threads num_threads ports) start s
    → ¬ ((t : Fleet) × Step num_threads (adjust_threads num_threads ports) s t)
    → s.main ≡ ended
rest_ended n ports s whole small r still = go s.main refl
  where
    kept : adjust_threads n ports ≡ n
    kept = adjust_threads-kept n ports whole small

    inv : Inv n s
    inv = Reach-Inv r

    go : (x : Main) → s.main ≡ x → s.main ≡ ended
    go ended e = e
    go joining e = elim (exit_terminates n ports s s whole small r e here).1 [
      | inl e' ↦ e'
      | inr step ↦ absurd (still step)
    ]
    go (registering i) e = elim (dec_lt i n) [
      | yes lt ↦ absurd (
          still (
            registering-Moves n (adjust_threads n ports) s i e lt (omega (arith, kept))
              (HandshakeInvariant.Reach-Inv (inv.reached i))))
      | no h ↦
          let le = inv.bounded i e in
          let same : i ≡ n = omega arith in
          absurd (still (_, destroy (subst (λ (k : ℕ). s.main ≡ registering k) same e)))
    ]
