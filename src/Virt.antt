-- ===== src/Virt.antt =====
-- tmp2/virt.c: the paged memory of the threads.
pub mod Pte
pub mod State
pub mod Frames
pub mod Owners
pub mod Pages
pub mod Switch
pub mod Init
mod Tests
