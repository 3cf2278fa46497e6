-- ===== src/Tests.antt =====
-- The theorems at concrete inputs: a bus with two targets, a small memory, a timer, a clock and interrupts.
pub mod Buses
pub mod Routes
pub mod Memories
pub mod Configs
pub mod Cpus
pub mod Targets
pub mod Timers
pub mod Clocks
pub mod Interrupts
pub mod Banks
pub mod Maps
pub mod Uarts
pub mod Pools
pub mod Probes
pub mod Gpios
pub mod Stubs
