-- ===== src/Dpdk/Init/Order.antt =====
-- The order of the calls that `init_dpdk` and `port_init` make (software/src/dpdk.cc).
use packet_filter.Base.{
  ℕ, zero, suc, ◌+◌, ◌-◌, ◌*◌, ◌/◌, ◌%◌, ◌^◌, ◌==◌, not, Bool, true, List, [], ◌∷◌, ◌++◌, ◌≡◌, ◌≢◌,
  refl, ap, ◌∙◌, sym, fun_ext, ne→==,
}
use mathlib.Core.List.{append_assoc}
use packet_filter.Mmio.{Outcome, done, ◌>>=◌, log_assert, bind_done}
use packet_filter.Dpdk.Threads.{adjust_threads}
use packet_filter.Dpdk.Calls.{
  eal_init, pool_create, is_valid_port, dev_info_get, dev_configure, adjust_desc, rx_queue_setup,
  dev_start, stats_reset, notify_ready, remote_launch, Trace, Answers, abort, give_up, check, go_on,
  Step, attempt, note, run_steps, run_steps-append,
}
use packet_filter.Dpdk.Init.{
  dpdk_max_mbufs, dpdk_mbuf_cache_size, dpdk_desc_ring_size, dpdk_writeback_thresh, strtok_words,
  setup_queues, port_init, create_pools, init_ports, launch, ready, init_dpdk,
}

-- One step for each of `n` numbers from `i` on.
abbrev pub counted : (ℕ → List Step) → ℕ → ℕ → List Step
counted f i zero = []
counted f i (suc n) = f i ++ counted f (i + 1) n

module _ (answers : Answers) where
  -- Port `p`: configured for `queues` queues, these set up in order, then started.
  abbrev pub queue_steps : ℕ → ℕ → ℕ → List Step
  queue_steps queues p q =
      attempt give_up (
        rx_queue_setup p q (answers.adjusted_rings p) dpdk_writeback_thresh
          ((p * queues + q) % 2 ^ 16))
      ∷ []

  abbrev pub port_steps : ℕ → ℕ → List Step
  port_steps queues p =
      attempt give_up (is_valid_port p)
      ∷ attempt give_up (dev_info_get p)
      ∷ attempt give_up (dev_configure p queues 0)
      ∷ attempt give_up (adjust_desc p dpdk_desc_ring_size 0)
      ∷ (counted (queue_steps queues p) 0 queues
          ++ (attempt give_up (dev_start p) ∷ attempt give_up (stats_reset p) ∷ []))

  abbrev pub pool_steps : ℕ → List Step
  pool_steps i = attempt abort (pool_create i dpdk_max_mbufs dpdk_mbuf_cache_size) ∷ []

  abbrev pub launch_steps : ℕ → List Step
  launch_steps lcore = attempt abort (remote_launch lcore) ∷ []

  abbrev pub init_steps : List ℕ → ℕ → ℕ → List Step
  init_steps argv_str threads ports =
      attempt abort (eal_init (strtok_words argv_str))
      ∷ (counted pool_steps 0 threads
          ++ (counted (port_steps (threads / ports)) 0 ports
              ++ (note notify_ready ∷ counted launch_steps 1 (threads - 1))))

  setup_queues-steps :
      (p queues q n : ℕ) (ss : List Step)
      → setup_queues answers p queues q n (run_steps answers ss)
        ≡ run_steps answers (counted (queue_steps queues p) q n ++ ss)
  unfolding setup_queues run_steps
  setup_queues-steps p queues q zero ss = refl
  setup_queues-steps p queues q (suc n) ss =
      ap (check answers give_up _) (setup_queues-steps p queues (q + 1) n ss)

  port_init-steps :
      (queues p : ℕ) → port_init answers queues p ≡ run_steps answers (port_steps queues p)
  unfolding port_init run_steps
  port_init-steps queues p =
      ap
        (λ (rest : Trace → Outcome Trace Bool). check answers give_up (is_valid_port p) (
          check answers give_up (dev_info_get p) (
            check answers give_up (dev_configure p queues 0)
              (check answers give_up (adjust_desc p dpdk_desc_ring_size 0) rest))))
        (setup_queues-steps p queues 0 queues
          (attempt give_up (dev_start p) ∷ attempt give_up (stats_reset p) ∷ []))

  create_pools-steps :
      (i n : ℕ) (ss : List Step)
      → create_pools answers i n (run_steps answers ss)
        ≡ run_steps answers (counted pool_steps i n ++ ss)
  unfolding create_pools run_steps
  create_pools-steps i zero ss = refl
  create_pools-steps i (suc n) ss = ap (check answers abort _) (create_pools-steps (i + 1) n ss)

  launch-steps :
      (i n : ℕ) → launch answers i n (done true) ≡ run_steps answers (counted launch_steps i n)
  unfolding launch run_steps
  launch-steps i zero = refl
  launch-steps i (suc n) = ap (check answers abort _) (launch-steps (i + 1) n)

  init_ports-steps :
      (queues p n : ℕ) (ss : List Step)
      → init_ports answers queues p n (run_steps answers ss)
        ≡ run_steps answers (counted (port_steps queues) p n ++ ss)
  unfolding init_ports
  init_ports-steps queues p zero ss = refl
  init_ports-steps queues p (suc n) ss =
      let more = counted (port_steps queues) (p + 1) n in
      ap
        (λ (m : Trace → Outcome Trace Bool).
          m >>= go_on (init_ports answers queues (p + 1) n (run_steps answers ss)))
        (port_init-steps queues p)
      ∙ ap (λ (r : Trace → Outcome Trace Bool). run_steps answers (port_steps queues p) >>= go_on r)
          (init_ports-steps queues (p + 1) n ss)
      ∙ fun_ext (run_steps-append answers (port_steps queues p) (more ++ ss))
      ∙ ap (run_steps answers) (sym (append_assoc (port_steps queues p) more ss))

  -- With at least one port (in 16 bits), `init_dpdk` makes these calls, in this order, up to the
  -- first that fails: EAL with the words of the configuration string; a pool for each thread; for
  -- each port its check, information, configuration, descriptors, the set-up of each of its queues
  -- on the pool of that queue's thread, its start and the reset of its counters; then the
  -- notification of the constructor; then the launch of each thread but the first. The process ends
  -- if EAL, a pool or a launch fails, and -1 is returned if a call for a port does.
  pub init_dpdk-steps :
      (argv_str : List ℕ) (num_threads : ℕ)
      → answers.count_avail % 2 ^ 16 ≢ 0
      → let ports = answers.count_avail % 2 ^ 16 in
        init_dpdk answers argv_str num_threads
        ≡ run_steps answers (init_steps argv_str (adjust_threads num_threads ports) ports)
  unfolding init_dpdk run_steps
  init_dpdk-steps argv_str num_threads some_port =
      let ports = answers.count_avail % 2 ^ 16 in
      let threads = adjust_threads num_threads ports in
      let queues = threads / ports in
      let launched = note notify_ready ∷ counted launch_steps 1 (threads - 1) in
      let body = create_pools answers 0 threads (
        init_ports answers queues 0 ports
          (ready answers (launch answers 1 (threads - 1) (done true)))) in
      ap (check answers abort (eal_init (strtok_words argv_str))) (
        fun_ext (λ trace.
          bind_done (log_assert (not (ports == 0))) (λ u. body) trace
            (ap (λ (b : Bool). log_assert (not b) trace) (ne→== ports 0 some_port)))
        ∙ ap
            (λ (rest : Trace → Outcome Trace Bool).
              create_pools answers 0 threads
                (init_ports answers queues 0 ports (ready answers rest)))
            (launch-steps 1 (threads - 1))
        ∙ ap (create_pools answers 0 threads) (init_ports-steps queues 0 ports launched)
        ∙ create_pools-steps 0 threads (counted (port_steps queues) 0 ports ++ launched))
