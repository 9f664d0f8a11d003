-- ===== src/Pthread.antt =====
-- tmp2/my_pthread.c: user-level threads with one ready and one wait queue, and mutexes.
pub mod State
pub mod Sched
pub mod Mutex
pub mod Thread
mod Tests
