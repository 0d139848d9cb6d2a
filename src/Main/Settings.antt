-- ===== src/Main/Settings.antt =====
-- What `main` (software/src/main.cc) comes to for a command line.
use packet_filter.Base.{ℕ, ◌%◌, ◌^◌, ◌<◌, Bool, true, List, some, ◌≡◌}
use packet_filter.Mmio
use packet_filter.Mmio.{Driver, Mmio, log_assert}
use packet_filter.Rules
use packet_filter.Rules.Written.{IsAddress}
use packet_filter.Stats.Core
use packet_filter.Stats.Adapter
use packet_filter.Dpdk.Calls.{Call, Trace}
use packet_filter.Dpdk.Fleet
use packet_filter.Dpdk.Fleet.{Fleet, Main, Reach}
use packet_filter.Dpdk.Startup
use packet_filter.Dpdk.Startup.{Startup}
use packet_filter.Timeout
use packet_filter.Timeout.{Timeout}
use packet_filter.Timeout.Ends as Ends
use packet_filter.Timeout.Runs.{IsRaise}
use packet_filter.Timeout.Ends.{IsDeadlocked}

-- The constructor of `DPDK` waits before `init_dpdk` notifies it; and no step is possible any more.
pub record IsStarted (t : Startup) : Type 0 where
  pub before : Startup
  pub listens : before.constructor ≡ Startup.waiting
  pub works : before.initialiser ≡ Startup.working
  pub after : Startup.Reach before t
  pub still : ¬ ((u : Startup) × Startup.Step t u)

-- A reached state of the receiving threads and the main thread in which no step is possible.
pub record IsAtRest (asked started : ℕ) (s : Fleet) : Type 0 where
  pub reached : Reach asked started Fleet.start s
  pub still : ¬ ((t : Fleet) × Fleet.Step asked started s t)

-- A reached state of `wait_for` and the signals in which no step is possible but a further signal,
-- and no signal is handled on the main thread while that holds the lock.
pub record IsWaitOver (t : Timeout) : Type 0 where
  pub reached : Timeout.Reach Timeout.start t
  pub still : ¬ ((u : Timeout) × (st : Timeout.Step t u) × ¬ IsRaise st)
  pub alive : ¬ IsDeadlocked t

module _ (d : Driver) (succeeds : Trace → Call → Bool) (adjusted_rings : ℕ → ℕ)
    (inet_addr : List ℕ → ℕ) (is_address : IsAddress inet_addr) (elapsed : ℕ → d.Card → d.Card)
    (bar : ℕ) (present : d.get_device 0 ≡ true) (counted : 0 < d.count_avail % 2 ^ 8)
    (mapped : d.get_bar_details 0 ≡ some bar) where
  abbrev pub adapter_mmio : Mmio
  adapter_mmio = record { base_addr = Adapter.base; port_id = 0; bar_id = bar % 2 ^ 32 }
