-- ===== src/Lib.antt =====
-- A packet filter on a network card: the core that runs on the card and the host's program that
-- gives it its rules and receives what it passes on.
--
-- The core (hardware/src/hls) takes phits of 512 bits from one stream, reads the Ethernet, IPv4 and
-- UDP headers from the first phit of a packet, looks the destination address up in a hash table of
-- 32 slots and copies the phit to the other stream or not. A cycle without a phit stores the rule
-- that stands in three registers and publishes four counters. The host (software/src) reads its
-- options, starts DPDK with a thread for each queue, registers a handler for packets, writes the
-- filters `<ip>:<port>` to the registers through the QDMA driver, waits, and prints the counters.
--
-- Network: hardware/src/hls/network.h and network.cc. A record for each of the structs, in
--   Network/Ethernet, Ipv4 and Udp, with `serialize`, `deserialize` and `size`; `NetworkPacket`.
--   A word of the bus is a number, and `data.range(hi, lo)` is `range` and `set_range` of
--   Base/Range. RoundTrip has the round trips; Wire reads a word as the bytes of a frame.
-- Hash: hardware/src/hls/hash.h and hash.cc, class `ToeplitzHash`. Slots is about the table,
--   Toeplitz about the hash as a matrix product, Collisions about addresses of the same slot.
-- Filter: hardware/src/hls/packet_filter.cc. `process_packet` is one call, a cycle of the core, over
--   `Filter`: the two streams, the static variables and the output `stats`. `Event` and `step` put
--   arriving phits and writes of the registers between the cycles. Spec is the abstract filter that
--   judges a packet by its first phit, Refinement and Runs relate the code to it, Packets goes to
--   whole packets, RuleChange is about rules that change inside a packet, Install about rules that
--   are written one after the other, Wire about the bytes that decide, Statistics about the counters,
--   Origin and Kept about what a run leaves in the table, WellFormed about the widths of the state.
-- Mmio: class `MMIO` of software/src/packet_filter.h and packet_filter.cc, over a record `Driver` of
--   the driver's functions. `Outcome` has the end of the process by `log_fatal` and exceptions.
--   Words has the reads and writes of values of several sizes.
-- Text: `find`, `substr` and `stoi` as the host uses them; Text/Decimal prints numbers.
-- Rules: class `PacketFilter`, `update_rule` and the constructor. Written is about what reaches the
--   registers, Installed follows a rule to the core's verdict, Interrupted is about cycles of the
--   core between the writes, Constructed about the constructor over a list of filters, Paced about
--   the core's table after it, Interleaved about phits and cycles between all its writes: Asked is
--   about what can be stored at all, Turns and Forwarded about one cycle behind each rule,
--   Delivered about the packets that arrive afterwards.
-- Stats: `show_stats` of `PacketFilter` (Core) and of class `PacketAdapter` (Adapter). Printed joins
--   it to the core's counters, Torn is about a counter that changes while it is read.
-- Handler: `network_packet_handler` of software/src/main.cc; Print has its printing functions and
--   Texts what they print. Frame gives the handler on the bytes of a frame, Payload the bounds of
--   what it prints, Forwarded joins it to the core's decision. Messages has the messages that it
--   logs, Overflow and Reported are about their lines in the log.
-- Options: `parse_args` of software/src/main.cc, over the results of `getopt`. Tokens is about the
--   lists of filters, Parsed about command lines.
-- Dpdk: software/src/dpdk.h and dpdk.cc. Threads has the number of threads, `thread_infos_` and
--   `register_callback`; Layout and Registered are about them. Init has `init_dpdk` and `port_init`
--   as calls of DPDK (Calls), Order their sequence. The creation of `thread_info` stands inside the
--   loop over the ports; here it is `thread_infos`, apart from the calls, which do not use it. Burst
--   has the receiving loop, Shutdown the destructor, which returns or waits for the threads for ever.
--   Startup and Handshake are step relations of threads: the constructor and `init_dpdk`, and a
--   receiving thread that waits for its callback, where the test of the predicate and the going to
--   sleep are steps of their own. Fleet puts all receiving threads and `main` together, to the joins
--   in the destructor; Fleet/Rest is about where they come to rest.
-- Logging: class `Log` of software/src/logging.h and logging.cc, and software/src/deps.h. Buffer is
--   about the line buffer, Stamp about the time stamp; Output has the functions of `Log` over the
--   level, the file and what was written, and Lines and Calls are about what comes to the files.
-- Timeout: class `Timeout` and `signal_handler` of software/src/main.cc, as a step relation. Any
--   number of signals come, on any thread, one behind the other: handlers that overlap, as of SIGINT
--   and SIGTERM at the same time, are left out.
-- Main: `main` of software/src/main.cc, which runs the parts one after the other; Settings is about
--   whole command lines. `main` goes on behind the constructor of `DPDK`, behind `wait_for` and behind
--   the joins only where the step relations of Dpdk/Startup, Timeout and Dpdk/Fleet come to rest in a
--   state that lets it (`Schedule`). It does not wait for a callback's effect.
-- Base: numbers, lists and ranges of bits. Examples: tests and applications of the theorems.
--
-- A header field of `w` bits is a number, below `2 ^ w` in a valid packet. The counters are modulo
-- `2 ^ 64`; offsets and addresses of registers are modulo `2 ^ 32`; `size_t` wraps at `2 ^ 64`.
-- `phit_idx` is a number without bound: the code's `int` overflows only in a packet of `2 ^ 31`
-- phits, which C++ leaves undefined. `decimal` and `hex` take fuel for one digit less than they print;
-- 4 is enough for a port, 2 for a byte, 9 for an `int` and 19 for a `size_t`.
-- `token_loop` has as much fuel as its text has characters, and each round takes one at least. The
-- other loops are structural.
--
-- Parameters: the driver's functions (`Driver`; `IsMemory` for registers that keep what is
-- written, `RuleRegisters` for the three registers that the core reads, `StatsRegisters` for those
-- of its counters, `AdapterRegisters` for the adapter's), `inet_addr` of the C library
-- (`IsAddress`: a value of 32 bits), DPDK's structs and constants (`Rte`; `IsWire` for their
-- documented layout), the answers of DPDK's calls (`Answers`), the time (`Clock`), the results of
-- `getopt`, what `printf` makes of a message, what becomes of the card while `main` waits, and
-- the states in which the scheduler lets the threads come to rest (`Schedule`; `IsStarted`,
-- `IsWaitOver` and `IsAtRest`: their steps reach it, and none is possible in it).
--
-- Not modelled: the buffers of the streams that lines are printed to, and calls of `Log` that
-- overlap; what the parts log outside the packet handler and the statistics, as the line of
-- `update_rule` with the text of its rule, which overflows the buffer of the line for a text of
-- about 4 KB; the Verilog wrapper, whose streams stall (here `m_axis` is never full); the strobes of
-- a phit (`strb`), which the core does not copy; scripts and patches. `fprintf` writes a line as it
-- is: no text that is logged has a 0 in it.
pub mod Base
pub mod Network
pub mod Hash
pub mod Filter
pub mod Text
pub mod Mmio
pub mod Rules
pub mod Stats
pub mod Handler
pub mod Options
pub mod Dpdk
pub mod Logging
pub mod Timeout
pub mod Main
pub mod Examples
