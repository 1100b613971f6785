-- ===== src/Qspins.antt =====
-- qspins.c: the two locks for `n` threads, as steps of interleaved threads. `TicketLock` is
-- tspin_lock and tspin_unlock, `Queue` the queue that it stands for, `Fifo` and `Exclusion` its proof;
-- `SpinLock` is spin_lock and spin_unlock. Shared accesses are atomic and in program order.
pub mod Threads
pub mod TicketLock
pub mod Queue
pub mod Fifo
pub mod Exclusion
pub mod SpinLock
mod Tests
