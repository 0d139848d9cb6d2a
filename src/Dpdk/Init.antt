-- ===== src/Dpdk/Init.antt =====
-- software/src/dpdk.cc: `init_dpdk` and `port_init`.
pub mod Order
pub mod Words
use packet_filter.Base.{
  ℕ, zero, suc, ◌+◌, ◌-◌, ◌*◌, ◌/◌, ◌%◌, ◌^◌, ◌==◌, not, if◌then◌else◌, Bool, true, false, List, [],
  ◌∷◌, ◌++◌,
}
use packet_filter.Mmio.{Outcome, done, fatal, ◌>>=◌, ◌>>◌, log_assert}
use packet_filter.Dpdk.Threads.{adjust_threads}
use packet_filter.Dpdk.Calls.{
  Call, eal_init, pool_create, is_valid_port, dev_info_get, dev_configure, adjust_desc,
  rx_queue_setup, dev_start, stats_reset, notify_ready, remote_launch, Trace, Answers, abort,
  give_up, check, go_on,
}

abbrev pub dpdk_max_mbufs : ℕ
dpdk_max_mbufs = 8192

abbrev pub dpdk_mbuf_cache_size : ℕ
dpdk_mbuf_cache_size = 250

abbrev pub dpdk_desc_ring_size : ℕ
dpdk_desc_ring_size = 2048

abbrev pub dpdk_writeback_thresh : ℕ
dpdk_writeback_thresh = 64

abbrev pub word_end : List ℕ → List (List ℕ)
word_end [] = []
word_end (x ∷ xs) = (x ∷ xs) ∷ []

-- The loop over `strtok`: the words between the separators, from a text and the word begun.
unfoldable pub words_from : ℕ → List ℕ → List ℕ → List (List ℕ)
words_from sep word [] = word_end word
words_from sep word (x ∷ xs) = elim (x == sep) [
  | true ↦ word_end word ++ words_from sep [] xs
  | false ↦ words_from sep (word ++ (x ∷ [])) xs
]

unfoldable pub strtok_words : List ℕ → List (List ℕ)
strtok_words text = words_from 32 [] text

module _ (answers : Answers) where
  -- The loop over the queues of a port, and what comes after it.
  unfoldable pub setup_queues :
      ℕ → ℕ → ℕ → ℕ → (Trace → Outcome Trace Bool) → Trace → Outcome Trace Bool
  setup_queues port_id queue_num q zero rest = rest
  setup_queues port_id queue_num q (suc left) rest =
      check answers give_up
        (rx_queue_setup port_id q (answers.adjusted_rings port_id) dpdk_writeback_thresh
          ((port_id * queue_num + q) % 2 ^ 16))
        (setup_queues port_id queue_num (q + 1) left rest)

  -- With `queue_num` for `thread_infos_.size() / port_num_`.
  unfoldable pub port_init : ℕ → ℕ → Trace → Outcome Trace Bool
  port_init queue_num port_id = check answers give_up (is_valid_port port_id) (
      check answers give_up (dev_info_get port_id) (
        check answers give_up (dev_configure port_id queue_num 0) (
          check answers give_up (adjust_desc port_id dpdk_desc_ring_size 0) (
            setup_queues port_id queue_num 0 queue_num (
              check answers give_up (dev_start port_id)
                (check answers give_up (stats_reset port_id) (done true)))))))

  -- The loop that creates the memory pools.
  unfoldable pub create_pools : ℕ → ℕ → (Trace → Outcome Trace Bool) → Trace → Outcome Trace Bool
  create_pools i zero rest = rest
  create_pools i (suc left) rest =
      check answers abort (pool_create i dpdk_max_mbufs dpdk_mbuf_cache_size)
        (create_pools (i + 1) left rest)

  -- The loop over the ports, which returns at the first one that fails.
  unfoldable pub init_ports : ℕ → ℕ → ℕ → (Trace → Outcome Trace Bool) → Trace → Outcome Trace Bool
  init_ports queue_num port_id zero rest = rest
  init_ports queue_num port_id (suc left) rest =
      port_init queue_num port_id >>= go_on (init_ports queue_num (port_id + 1) left rest)

  -- The loop that launches the receiving threads, but for the first.
  unfoldable pub launch : ℕ → ℕ → (Trace → Outcome Trace Bool) → Trace → Outcome Trace Bool
  launch lcore_id zero rest = rest
  launch lcore_id (suc left) rest =
      check answers abort (remote_launch lcore_id) (launch (lcore_id + 1) left rest)

  abbrev pub ready : (Trace → Outcome Trace Bool) → Trace → Outcome Trace Bool
  ready rest trace = rest (trace ++ (notify_ready ∷ []))

  -- `init_dpdk` up to its own receiving loop.
  unfoldable pub init_dpdk : List ℕ → ℕ → Trace → Outcome Trace Bool
  init_dpdk argv_str num_threads =
      let port_num = answers.count_avail % 2 ^ 16 in
      let threads = adjust_threads num_threads port_num in
      check answers abort (eal_init (strtok_words argv_str)) (
        log_assert (not (port_num == 0))
        >> create_pools 0 threads (
            init_ports (threads / port_num) 0 port_num
              (ready (launch 1 (threads - 1) (done true)))))
