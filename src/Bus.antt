-- ===== src/Bus.antt =====
-- bus/bus.cpp and bus/memory_map.cpp: the address map, its check, and the routing of transactions.
pub mod Map
pub mod Check
pub mod Decode
pub mod Reconstruct
pub mod Build
pub mod Find
pub mod Route
pub mod Debug
