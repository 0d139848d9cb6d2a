-- ===== src/Examples/Rests.antt =====
-- Where the threads of the host come to rest.
use packet_filter.Base.{◌≡◌, refl}
use packet_filter.Dpdk.Threads.{adjust_threads}
use packet_filter.Dpdk.Startup
use packet_filter.Dpdk.Startup.{Startup}
use packet_filter.Timeout
use packet_filter.Timeout.{Timeout}
use packet_filter.Timeout.Runs.{IsRaise}
use packet_filter.Main.{Schedule}
use packet_filter.Main.Settings.{IsStarted, IsAtRest, IsWaitOver}
use packet_filter.Examples.Fleets.{quiet, quiet_rests}

-- The constructor waits, and `init_dpdk` notifies it.
abbrev pub constructed : Startup
constructed = record { constructor = Startup.returned; initialiser = Startup.notified }

abbrev listening : Startup
listening = record { constructor = Startup.waiting; initialiser = Startup.working }

constructed_rests : ¬ ((u : Startup) × Startup.Step constructed u)
constructed_rests (u, Startup.wait s e) = cc
constructed_rests (u, Startup.notify s e) = cc

pub constructed-IsStarted : IsStarted constructed
constructed-IsStarted = record {
  before = listening;
  listens = refl;
  works = refl;
  after = Startup.next Startup.here (Startup.notify listening refl);
  still = constructed_rests;
}

-- The time passes without a signal.
pub time_passes :
    (t : Timeout) × Timeout.Reach Timeout.start t
    × (t.main ≡ Timeout.returned)
    × (t.signal ≡ Timeout.quiet)
time_passes = (
  _,
  Timeout.next
      (Timeout.next
        (Timeout.next
          (Timeout.next
            (Timeout.next (Timeout.next Timeout.here (Timeout.enter _ refl refl refl))
              (Timeout.refuse _ refl refl refl))
            (Timeout.sleep _ refl refl))
          (Timeout.expire _ refl))
        (Timeout.regain _ refl refl refl))
      (Timeout.give_up _ refl refl),
  refl,
  refl,
)

time_still :
    {t u : Timeout}
    → t.main ≡ Timeout.returned
    → t.signal ≡ Timeout.quiet
    → (st : Timeout.Step t u) → ¬ IsRaise st
    → ⊥
time_still m q (Timeout.enter s r e f) n = cc
time_still m q (Timeout.pass s r e f) n = cc
time_still m q (Timeout.refuse s r e f) n = cc
time_still m q (Timeout.sleep s r e) n = cc
time_still m q (Timeout.spurious s e) n = cc
time_still m q (Timeout.expire s e) n = cc
time_still m q (Timeout.relock s r e f) n = cc
time_still m q (Timeout.regain s r e f) n = cc
time_still m q (Timeout.give_up s r e) n = cc
time_still m q (Timeout.raise s b e) n = n tt
time_still m q (Timeout.lock s e f) n = cc
time_still m q (Timeout.notify s e) n = cc

pub time_passes-IsWaitOver : IsWaitOver time_passes.0
time_passes-IsWaitOver = record {
  reached = time_passes.1;
  still = λ (u, st, n). time_still time_passes.2 time_passes.3 st n;
  alive = λ dead. let w = dead.waits in let q = time_passes.3 in cc;
}

abbrev pub schedule : Schedule
schedule = record {
  startup = constructed;
  fleet = λ asked started. quiet.0;
  timeout = time_passes.0;
}

pub quiet-IsAtRest : IsAtRest 1 (adjust_threads 1 1) quiet.0
quiet-IsAtRest = record { reached = quiet.1; still = quiet_rests }
