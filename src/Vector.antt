-- ===== src/Vector.antt =====
-- include/vector.h: a growable array whose elements stand anywhere within its memory.
pub mod Memory
pub mod Array
pub mod Contents
pub mod Relocate
pub mod Append
pub mod Drop
pub mod Remove
pub mod Access
pub mod InsertAt
pub mod InsertMoved
