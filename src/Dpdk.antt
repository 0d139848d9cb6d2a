-- ===== src/Dpdk.antt =====
-- software/src/dpdk.cc and dpdk.h, class `DPDK`: the receiving threads.
pub mod Threads
pub mod Layout
pub mod Registered
pub mod Calls
pub mod Init
pub mod Burst
pub mod Startup
pub mod Handshake
pub mod Fleet
pub mod Shutdown
