-- ===== src/Threads/Tests.antt =====
-- Concrete states of threads/, and the theorems about the scheduler, the timer and the semaphores at
-- them.
mod Sample
mod Scheduling
mod Timing
mod Locking
mod Numbers
mod Creation
