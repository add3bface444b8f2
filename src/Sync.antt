-- ===== src/Sync.antt =====
-- include/sync.h: the two spinning mutexes, for any number of threads. Each atomic access is a step,
-- and the steps of all threads come in one order, as the sequentially consistent accesses do.
pub mod Threads
pub mod SpinMutex
pub mod SharedSpinMutex
pub mod Balance
pub mod Exclusion
pub mod Alone
