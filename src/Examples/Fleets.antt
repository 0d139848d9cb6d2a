-- ===== src/Examples/Fleets.antt =====
-- The main thread and all receiving threads, in runs of their steps.
use packet_filter.Base.{ℕ, ◌+◌, ◌*◌, ◌≤◌, ◌<◌, ◌≡◌, ◌≢◌, ◌⊎◌, refl, sym, subst, arith}
use packet_filter.Dpdk.Threads.{adjust_threads}
use packet_filter.Dpdk.Handshake
use packet_filter.Dpdk.Handshake.{asleep, finished}
use packet_filter.Dpdk.Fleet.{
  Fleet, start, registering, joining, ended, own, register, next_thread, destroy, join, Step, Reach,
  here, later, Steady, stay, onward,
}
use packet_filter.Dpdk.Fleet.Exit.{exit_hangs}
use packet_filter.Dpdk.Fleet.Termination.{steps, ended_still, exit_terminates}

adjusted_one : adjust_threads 1 1 ≡ 1
unfolding adjust_threads
adjusted_one = refl

-- One thread on one port: it is registered, and `force_quit_` is set, before it has run.
unfoldable one_thread : (s : Fleet) × Reach 1 (adjust_threads 1 1) start s × (s.main ≡ joining)
one_thread = (
  _,
  later
      (later
        (later
          (later (later here (register 0 refl (omega arith) (Handshake.assign _ refl) tt))
            (register 0 refl (omega arith) (Handshake.lock _ refl refl) tt))
          (register 0 refl (omega arith) (Handshake.notify _ refl) tt))
        (next_thread 0 refl (omega arith) refl))
      (destroy refl),
  refl,
)

-- Its thread takes the lock.
first_run : (t : Fleet) × Reach 1 (adjust_threads 1 1) one_thread.0 t
unfolding one_thread
first_run = (_, later here (own 0 (omega (arith, adjusted_one)) (Handshake.enter _ refl refl) tt))

exit_terminates_example :
    (steps first_run.1 ≤ 3 * 1 + 1)
    × ((first_run.0.main ≡ ended) ⊎ ((u : Fleet) × Step 1 (adjust_threads 1 1) first_run.0 u))
exit_terminates_example =
    exit_terminates 1 1 one_thread.0 first_run.0 refl (omega arith) one_thread.1 one_thread.2
      first_run.1

two_threads : adjust_threads 1 2 ≡ 2
unfolding adjust_threads
two_threads = refl

-- One thread is asked for on two ports, and the second thread goes to sleep.
unfoldable added_sleeps :
    (s : Fleet) × Reach 1 (adjust_threads 1 2) start s
    × ((s.threads 1).thread ≡ asleep)
    × (s.main ≡ registering 0)
added_sleeps = (
  _,
  later
      (later (later here (own 1 (omega (arith, two_threads)) (Handshake.enter _ refl refl) tt))
        (own 1 (omega (arith, two_threads)) (Handshake.refuse _ refl refl) tt))
      (own 1 (omega (arith, two_threads)) (Handshake.sleep _ refl) tt),
  refl,
  refl,
)

-- The destructor waits for both.
waits : (t : Fleet) × Steady 1 (adjust_threads 1 2) added_sleeps.0 t × (t.main ≡ joining)
unfolding added_sleeps
waits = (
  _,
  onward
      (onward
        (onward
          (onward
            (onward stay (register 0 refl (omega arith) (Handshake.assign _ refl) tt) (λ w. w))
            (register 0 refl (omega arith) (Handshake.lock _ refl refl) tt) (λ w. w))
          (register 0 refl (omega arith) (Handshake.notify _ refl) tt) (λ w. w))
        (next_thread 0 refl (omega arith) refl) (λ w. w))
      (destroy refl) (λ w. w),
  refl,
)

exit_hangs_example : ((waits.0.threads 1).thread ≡ asleep) × (waits.0.main ≢ ended)
exit_hangs_example =
    exit_hangs 1 2 1 added_sleeps.0 waits.0 (omega arith) (omega (arith, two_threads))
      added_sleeps.1 added_sleeps.2 waits.1

-- Its thread runs to its end.
unfoldable thread_ends :
    (s : Fleet) × Reach 1 (adjust_threads 1 1) start s
    × (s.main ≡ joining)
    × ((s.threads 0).thread ≡ finished)
unfolding one_thread
thread_ends = (
  _,
  later
      (later
        (later one_thread.1 (own 0 (omega (arith, adjusted_one)) (Handshake.enter _ refl refl) tt))
        (own 0 (omega (arith, adjusted_one)) (Handshake.pass _ refl refl) tt))
      (own 0 (omega (arith, adjusted_one)) (Handshake.leave _ refl refl) tt),
  refl,
  refl,
)

all_finished : (j : ℕ) → j < adjust_threads 1 1 → (thread_ends.0.threads j).thread ≡ finished
all_finished j lt =
    let first : 0 ≡ j = omega (arith, lt, adjusted_one) in
    subst (λ (i : ℕ). (thread_ends.0.threads i).thread ≡ finished) first thread_ends.3

-- And the wait for it ends.
pub quiet : (s : Fleet) × Reach 1 (adjust_threads 1 1) start s × (s.main ≡ ended)
quiet = (_, later thread_ends.1 (join thread_ends.2 all_finished), refl)

pub quiet_rests : ¬ ((t : Fleet) × Step 1 (adjust_threads 1 1) quiet.0 t)
quiet_rests (t, st) = ended_still 1 (adjust_threads 1 1) (sym adjusted_one) quiet.1 quiet.2 st
