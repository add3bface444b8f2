-- ===== src/Serialization.antt =====
-- include/serialization.h.
pub mod Schema
pub mod Bytes
pub mod Writer
pub mod Format
pub mod Emits
pub mod Refine
pub mod Reader
pub mod Parses
pub mod Valid
pub mod Views
pub mod RoundTrip
pub mod Calls
pub mod Deliver
pub mod Inside
pub mod Bounds
pub mod Limits
pub mod Maps
