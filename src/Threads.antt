-- ===== src/Threads.antt =====
-- The thread system: threads/thread.c, threads/synch.c and the alarm of devices/timer.c.
pub mod FixedPoint
pub mod Kernel
pub mod Aging
pub mod Bsd
pub mod Timer
pub mod Synch
pub mod Life
mod Tests
