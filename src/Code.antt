-- ===== src/Code.antt =====
-- code/: an earlier version of the library, which has no paged memory.
pub mod Malloc
pub mod Pthread
