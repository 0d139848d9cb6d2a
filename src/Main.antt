-- ===== src/Main.antt =====
-- software/src/main.cc, `main`: how the parts of the host's program follow one another.
pub mod Settings
use packet_filter.Base.{ℕ, ◌%◌, ◌^◌, Bool, false, List, [], ◌++◌, Option, none, some}
use packet_filter.Mmio.{Driver, Outcome, done, fatal, exception, log_assert, ◌>>=◌, ◌>>◌}
use packet_filter.Rules
use packet_filter.Stats.{Line}
use packet_filter.Stats.Core
use packet_filter.Stats.Adapter
use packet_filter.Options.{Opt, default_arguments, parse_args}
use packet_filter.Dpdk.Threads.{adjust_threads, thread_infos, register_all}
use packet_filter.Dpdk.Calls.{Call, Trace, Answers}
use packet_filter.Dpdk.Init.{init_dpdk}
use packet_filter.Dpdk.Startup
use packet_filter.Dpdk.Startup.{Startup}
use packet_filter.Dpdk.Fleet.{Fleet}
use packet_filter.Timeout
use packet_filter.Timeout.{Timeout}
use packet_filter.Dpdk.Shutdown.{Ending, destroy}

-- A part that has a state of its own and leaves the card as it is.
abbrev pub apart : {S A C : Type 0} → Outcome S A → C → Outcome C (A × S)
apart (done a s) c = done (a, s) c
apart (fatal s) c = fatal c
apart (exception s) c = exception c

-- `parse_args` lets no null pointer pass.
abbrev pub config_text : Option (List ℕ) → List ℕ
config_text none = []
config_text (some s) = s

-- What the scheduler comes to: where the steps of the constructor of `DPDK` and of `init_dpdk`, those
-- of the receiving threads and the main thread, for the numbers of threads that are asked for and
-- that are started, and those of `wait_for` and the signals come to rest.
pub record Schedule : Type 0 where
  pub startup : Startup
  pub fleet : ℕ → ℕ → Fleet
  pub timeout : Timeout

-- Where `main` waits for ever; or what it prints, and what becomes of the destructor of `DPDK`.
pub data Run : Type 0 where
  in_constructor in_wait_for : Run
  over : List Line → Ending → Run

abbrev pub behind_constructor :
    {C : Type 0} → Startup.Constructor → (C → Outcome C Run) → C → Outcome C Run
behind_constructor Startup.spawned rest = done in_constructor
behind_constructor Startup.waiting rest = done in_constructor
behind_constructor Startup.returned rest = rest

abbrev pub behind_wait_for : {C : Type 0} → Timeout.Main → (C → Outcome C Run) → C → Outcome C Run
behind_wait_for Timeout.entering rest = done in_wait_for
behind_wait_for Timeout.testing rest = done in_wait_for
behind_wait_for Timeout.blocking rest = done in_wait_for
behind_wait_for Timeout.asleep rest = done in_wait_for
behind_wait_for Timeout.woken rest = done in_wait_for
behind_wait_for Timeout.expired rest = done in_wait_for
behind_wait_for Timeout.late rest = done in_wait_for
behind_wait_for Timeout.returned rest = rest

-- The driver and DPDK count the same ports. `elapsed` is what becomes of the card in a time of
-- waiting, which a signal may cut short.
module _ (d : Driver) (succeeds : Trace → Call → Bool) (adjusted_rings : ℕ → ℕ)
    (inet_addr : List ℕ → ℕ) (elapsed : ℕ → d.Card → d.Card) where
  abbrev pub answers : Answers
  answers = record {
    succeeds = succeeds;
    count_avail = d.count_avail;
    adjusted_rings = adjusted_rings;
  }

  abbrev pub port_num : ℕ
  port_num = d.count_avail % 2 ^ 16

  -- The process up to `return 0`. All calls of `init_dpdk` are made before the first callback is
  -- registered.
  unfoldable pub main :
      {Callback : Type 0} → Schedule → Callback → ℕ → ℕ → List Opt → d.Card → Outcome d.Card Run
  main schedule network_packet_handler garbage other_garbage opts = do
    (u, args) ← apart (parse_args opts default_arguments)
    (ret, trace) ← apart (init_dpdk answers (config_text args.dpdk_config) args.num_threads [])
    log_assert ret
    behind_constructor schedule.startup.constructor (do
      (v, infos) ← apart (
          register_all 0 args.num_threads network_packet_handler
            (thread_infos (adjust_threads args.num_threads port_num) port_num))
      packet_filter ← Rules.new d inet_addr garbage args.filter_list
      behind_wait_for schedule.timeout.main (do
        λ c. done tt (elapsed args.duration c)
        packet_adapter ← Adapter.new d other_garbage
        adapter_lines ← Adapter.show_stats d packet_adapter
        lines ← Core.show_stats d packet_filter
        let fleet = schedule.fleet args.num_threads (adjust_threads args.num_threads port_num)
        done (over (adapter_lines ++ lines) (destroy false fleet.main port_num))))
