-- ===== src/SmartQueue.antt =====
-- smart-queue.c: two queues of tasks ordered by time, compared by a benchmark. `TimedRing` is the
-- ring of 256 time slots with a bitmap of those in use, `Cfs` the queue over a red-black tree.
pub mod TimedRing
pub mod Cfs
