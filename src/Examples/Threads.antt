-- ===== src/Examples/Threads.antt =====
-- The threads of the host, in runs of their steps.
use packet_filter.Base.{◌+◌, ◌*◌, ◌<◌, ◌≤◌, ◌⊎◌, true, false, ◌≡◌, ◌≢◌, refl}
use packet_filter.Dpdk.Handshake
use packet_filter.Dpdk.Handshake.{Handshake, looping, finished, asleep}
use packet_filter.Dpdk.Handshake.Progress.{registered_runs}
use packet_filter.Dpdk.Startup
use packet_filter.Dpdk.Startup.{startup_hangs}
use packet_filter.Timeout
use packet_filter.Timeout.Runs.{steps, signals, IsRaise}
use packet_filter.Timeout.Ends.{IsDeadlocked, wait_terminates}
use packet_filter.Timeout.Signals.{signal_deadlocks}

-- The thread sleeps before its callback is registered.
abbrev sleeping : Handshake
sleeping = record {
  callback = false;
  force_quit = false;
  mutex = Handshake.nobody;
  thread = Handshake.asleep;
  main = Handshake.unregistered;
}

to_sleep : Handshake.Reach Handshake.start sleeping
to_sleep =
    Handshake.next
      (Handshake.next (Handshake.next Handshake.here (Handshake.enter Handshake.start refl refl))
        (Handshake.refuse _ refl refl))
      (Handshake.sleep _ refl)

-- It is registered and notified.
abbrev woken : Handshake
woken = record {
  callback = true;
  force_quit = false;
  mutex = Handshake.nobody;
  thread = Handshake.woken;
  main = Handshake.registered;
}

to_woken : Handshake.Reach Handshake.start woken
to_woken =
    Handshake.next
      (Handshake.next (Handshake.next to_sleep (Handshake.assign sleeping refl))
        (Handshake.lock _ refl refl))
      (Handshake.notify _ refl)

registered_runs_example :
    (woken.thread ≢ asleep) × ((t : Handshake) × Handshake.Alone woken t × (t.thread ≡ looping))
registered_runs_example = registered_runs to_woken refl (λ e. cc)

abbrev early : Startup.Startup
early = record { constructor = Startup.spawned; initialiser = Startup.notified }

abbrev lost : Startup.Startup
lost = record { constructor = Startup.waiting; initialiser = Startup.notified }

startup_hangs_example : lost.constructor ≢ Startup.returned
startup_hangs_example =
    startup_hangs (Startup.next Startup.here (Startup.notify Startup.start refl)) refl refl
      (Startup.next Startup.here (Startup.wait early refl))

-- A signal on another thread wakes the main thread.
abbrev interrupted : Timeout.Timeout
interrupted = record {
  terminate = true;
  mutex = Timeout.nobody;
  main = Timeout.woken;
  signal = Timeout.served;
  suspended = false;
}

to_interrupted : Timeout.Reach Timeout.start interrupted
to_interrupted =
    Timeout.next
      (Timeout.next
        (Timeout.next
          (Timeout.next
            (Timeout.next (Timeout.next Timeout.here (Timeout.enter Timeout.start refl refl refl))
              (Timeout.refuse _ refl refl refl))
            (Timeout.sleep _ refl refl))
          (Timeout.raise _ false refl))
        (Timeout.lock _ refl refl))
      (Timeout.notify _ refl)

-- It takes the lock, and a second signal comes on the main thread.
abbrev second_signal : (t : Timeout.Timeout) × Timeout.Reach interrupted t
second_signal = (
  _,
  Timeout.next (Timeout.next Timeout.here (Timeout.relock interrupted refl refl refl))
      (Timeout.raise _ true refl),
)

wait_terminates_example :
    (steps second_signal.1 ≤ 2 + 3 * signals second_signal.1)
    × ((second_signal.0.main ≡ Timeout.returned)
        ⊎ (((u : Timeout.Timeout) × (st : Timeout.Step second_signal.0 u) × ¬ IsRaise st)
            ⊎ (IsDeadlocked second_signal.0 × (0 < signals second_signal.1))))
wait_terminates_example = wait_terminates to_interrupted refl second_signal.1

-- A signal on the main thread, at the test of its predicate.
abbrev stuck : Timeout.Timeout
stuck = record {
  terminate = false;
  mutex = Timeout.waiter;
  main = Timeout.testing;
  signal = Timeout.wanting;
  suspended = true;
}

to_stuck : Timeout.Reach Timeout.start stuck
to_stuck =
    Timeout.next (Timeout.next Timeout.here (Timeout.enter Timeout.start refl refl refl))
      (Timeout.raise _ true refl)

signal_deadlocks_example : ¬ ((t : Timeout.Timeout) × Timeout.Step stuck t)
signal_deadlocks_example = signal_deadlocks to_stuck refl refl refl
