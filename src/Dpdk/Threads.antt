-- ===== src/Dpdk/Threads.antt =====
-- software/src/dpdk.cc: the number of threads, the `thread_info` of each and its callback.
use packet_filter.Base.{
  ℕ, zero, suc, ◌+◌, ◌*◌, ◌/◌, ◌%◌, ◌^◌, ◌==◌, ltb, if◌then◌else◌, List, Option, none, some, length,
  set, get_or, replicate,
}
use mathlib.Core.Option
use packet_filter.Mmio.{Outcome, done, log_assert, ◌>>◌}

-- `thread_info` without its mutex and its condition variable; `rx_callback` is `none` for an empty
-- `std::function`.
pub record ThreadInfo (Callback : Type 0) : Type 0 where
  pub port_id : ℕ
  pub queue_id : ℕ
  pub thread_id : ℕ
  pub rx_callback : Option Callback

-- The number of threads, made a multiple of the number of ports; `uint16_t`.
unfoldable pub adjust_threads : ℕ → ℕ → ℕ
adjust_threads num_threads port_num =
    if num_threads % port_num == 0
    then num_threads % 2 ^ 16
    else (num_threads / port_num + 1) * port_num % 2 ^ 16

-- `thread_infos_`; `none` is a null pointer.
abbrev pub Infos : Type 0 → Type 0
Infos Callback = List (Option (ThreadInfo Callback))

module _ {Callback : Type 0} where
  unfoldable pub make_info : ℕ → ℕ → ℕ → ThreadInfo Callback
  make_info port queue tid = record {
    port_id = port;
    queue_id = queue;
    thread_id = tid;
    rx_callback = none;
  }

  -- The loop over the queues of a port, from queue `q` on with `left` rounds to go.
  unfoldable pub fill_queues : ℕ → ℕ → ℕ → ℕ → Infos Callback → Infos Callback
  unfolding make_info
  fill_queues port_id queue_num q zero infos = infos
  fill_queues port_id queue_num q (suc left) infos =
      let thread_id = (port_id * queue_num + q) % 2 ^ 16 in
      fill_queues port_id queue_num (q + 1) left
        (set infos thread_id (some (make_info port_id q thread_id)))

  -- The loop over the ports.
  unfoldable pub fill_ports : ℕ → ℕ → ℕ → Infos Callback → Infos Callback
  fill_ports queue_num port_id zero infos = infos
  fill_ports queue_num port_id (suc left) infos =
      fill_ports queue_num (port_id + 1) left (fill_queues port_id queue_num 0 queue_num infos)

  -- `thread_infos_` after `init_dpdk`: `resize`, then the two loops.
  unfoldable pub thread_infos : ℕ → ℕ → Infos Callback
  thread_infos num_threads port_num =
      fill_ports (num_threads / port_num) 0 port_num (replicate num_threads none)

  abbrev pub with_callback : Callback → ThreadInfo Callback → ThreadInfo Callback
  with_callback rx_callback info = record info { rx_callback = some rx_callback }

  -- A null pointer, whose use C++ leaves undefined, stays one.
  unfoldable pub register_callback :
      ℕ → Callback → Infos Callback → Outcome (Infos Callback) (Unit {0})
  register_callback thread_id rx_callback = do
    λ infos. log_assert (ltb thread_id (length infos)) infos
    λ infos.
        done tt (
          set infos thread_id
            (Option.map (with_callback rx_callback) (get_or infos thread_id none)))

  -- The loop of `main` over the threads that were asked for, from thread `i` on.
  unfoldable pub register_all :
      ℕ → ℕ → Callback → Infos Callback → Outcome (Infos Callback) (Unit {0})
  register_all i zero rx_callback = done tt
  register_all i (suc left) rx_callback = do
    register_callback i rx_callback
    register_all (i + 1) left rx_callback
