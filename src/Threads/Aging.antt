-- ===== src/Threads/Aging.antt =====
-- thread_aging of threads/thread.c: the ready threads that wait a multiple of 100 ticks rise one level.
pub mod Once
pub mod Quiet
use pintos_project.Base.{
  Option, some, ◌>>=◌, ◌>>◌, assert, ℕ, zero, suc, ◌+◌, ◌-◌, ◌%◌, Bool, true, false, ◌||◌, List, [],
  ◌∷◌, ◌==◌, ltb, if◌then◌else◌,
}
use pintos_project.Threads.FixedPoint.{pri_max}
use pintos_project.Threads.Kernel.{
  intr_yield_on_return, Kernel, set_priority_of, push_ready, unlink,
}

-- The loop's state: the kernel, and the flag `yield`.
pub record Pass : Type 0 where
  pub kernel : Kernel
  pub yield : Bool

-- timer_elapsed (th_cur->recent_unused) % 100 == 0; `recent_unused` is an earlier tick count.
abbrev pub is_due : Kernel → ℕ → Bool
is_due k t = (k.ticks - (k.threads t).recent_unused) % 100 == 0

-- One step up: the new priority, and the move to the back of the queue of that priority.
pub raise : Kernel → ℕ → Kernel
raise k t =
    let up = (k.threads t).priority + 1 in push_ready (unlink (set_priority_of k t up) t) up t

-- The body of the inner loop.
pub age_one : Pass → ℕ → Pass
unfolding raise
age_one s t =
    if is_due s.kernel t
    then record {
      kernel = raise s.kernel t;
      yield =
          s.yield
          || ltb (s.kernel.threads s.kernel.current).priority ((s.kernel.threads t).priority + 1);
    }
    else s

-- The inner loop, over the threads that the level holds when the loop reaches it: a thread that is
-- moved leaves this queue, and none is added to it.
pub age_level : Pass → List ℕ → Pass
age_level s [] = s
age_level s (t ∷ ts) = age_level (age_one s t) ts

-- The outer loop, over the levels below `n`, from the highest down.
pub age_below : ℕ → Pass → Pass
age_below zero s = s
age_below (suc i) s = age_below i (age_level s (s.kernel.ready i))

-- The kernel that the loops and the request to yield leave.
pub aged : Kernel → Kernel
aged k =
    let s = age_below pri_max (record { kernel = k; yield = false }) in
    if s.yield then record s.kernel { yield_on_return = true } else s.kernel

-- thread_aging ()
pub thread_aging : Kernel → Option Kernel
thread_aging k =
    let s = age_below pri_max (record { kernel = k; yield = false }) in
    if s.yield then intr_yield_on_return s.kernel else some s.kernel
