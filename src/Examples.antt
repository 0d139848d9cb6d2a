-- ===== src/Examples.antt =====
-- Concrete inputs: tests of the definitions, and each theorem at an input that meets its hypotheses.
pub mod Data
mod Core
mod Host
mod Setup
mod Received
mod Threads
mod Fleets
mod Schedules
mod Lines
mod Reports
mod Rests
mod Program
