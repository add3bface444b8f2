-- ===== src/Tests.antt =====
-- Runs and concrete inputs for the theorems about include/.
mod Maps
mod Rings
mod Arrays
mod Threads
mod Stale
mod Buffers
mod Bytes
mod Pools
mod Simple
