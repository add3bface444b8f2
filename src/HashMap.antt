-- ===== src/HashMap.antt =====
-- include/hash_map.h: a hash table with one entry per bucket in a main table, and a collision table
-- of the same size for the other entries. Each part of the header has a module below.
pub mod Types
pub mod Find
pub mod Insert
pub mod Iterate
pub mod Slots
pub mod Scan
pub mod Invariant
pub mod Lookup
pub mod Counting
pub mod Place
pub mod Probe
pub mod Settle
pub mod Grow
pub mod Rehash
pub mod Resize
pub mod Run
pub mod Start
pub mod TryInsert
pub mod Reserve
pub mod Remove
pub mod RemoveCollision
pub mod Step
pub mod RemoveMain
pub mod RemoveEntry
pub mod RemoveAt
pub mod Clear
pub mod Visit
pub mod Entries
pub mod Series
pub mod Copy
pub mod Index
