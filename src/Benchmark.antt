-- ===== src/Benchmark.antt =====
-- Benchmark/: the programs that measure the library of code/. The workers of all three add numbers of
-- their own to one global under one mutex.
pub mod Worker
pub mod Lock
pub mod Start
pub mod Shares
pub mod Wakes
pub mod Pages
pub mod Vector
pub mod Parallel
pub mod External
mod Tests
