-- ===== src/Dpdk/Shutdown.antt =====
-- software/src/dpdk.cc: the destructor of `DPDK` and `shutdown`.
use packet_filter.Base.{ℕ, zero, suc, ◌+◌, Bool, if◌then◌else◌, List, [], ◌∷◌, ◌++◌}
use packet_filter.Dpdk.Fleet.{Main, registering, joining, ended}

-- `trigger_shutdown` sets `force_quit_`; the others are calls that have returned.
pub data Exit : Type 0 where
  quit_set joined lcores_waited cleaned_up : Exit
  port_stopped port_closed : ℕ → Exit

-- What has happened when the destructor has returned, or when it waits for ever.
pub data Ending : Type 0 where
  returned waits : List Exit → Ending

-- The loop over the ports, from port `port_id` on.
unfoldable pub close_ports : ℕ → ℕ → List Exit
close_ports port_id zero = []
close_ports port_id (suc left) =
    port_stopped port_id ∷ port_closed port_id ∷ close_ports (port_id + 1) left

-- `join` and `rte_eal_mp_wait_lcore` return if all threads have finished where the threads and the
-- main thread come to rest; `before` has happened before.
unfoldable pub shutdown : List Exit → Main → ℕ → Ending
shutdown before ended port_num =
    returned (before ++ (joined ∷ lcores_waited ∷ (close_ports 0 port_num ++ (cleaned_up ∷ []))))
shutdown before joining port_num = waits before
shutdown before (registering i) port_num = waits before

-- The destructor, for the value of `force_quit_` and where the main thread comes to rest.
unfoldable pub destroy : Bool → Main → ℕ → Ending
destroy force_quit rest port_num = shutdown (if force_quit then [] else quit_set ∷ []) rest port_num
