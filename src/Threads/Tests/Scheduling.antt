-- ===== src/Threads/Tests/Scheduling.antt =====
-- The functions of thread.c at the sample kernel.
use pintos_project.Base.{ℕ, ◌+◌, suc, ◌≡◌, ◌≢◌, refl, true, false, some, if◌then◌else◌, arith}
use pintos_project.Threads.Kernel.{Kernel, blocked, set_status, thread_block, thread_yield}
use pintos_project.Threads.Kernel.Invariant.{IsValid, with_interrupts, with_interrupts-IsValid}
use pintos_project.Threads.Kernel.Switch.{IsSwitched}
use pintos_project.Threads.Kernel.Calls.{HasRequeued, thread_block_lem, thread_yield_lem}
use pintos_project.Threads.Aging.{thread_aging}
use pintos_project.Threads.Aging.Once.{rises, thread_aging_once}
use pintos_project.Threads.Bsd.{calc_priority}
use pintos_project.Threads.Bsd.Recalculation.{recalculated, calc_priority_lem}
use pintos_project.Threads.Tests.Sample.{kernel_at, kernel_at-IsValid}

one_ne_null : suc 0 ≢ 0
one_ne_null = omega arith

-- The sample kernel in the handler of the tick 100.
abbrev in_tick : Kernel
in_tick = with_interrupts (kernel_at false) false true false 100

thread_block_example :
    (k' : Kernel) × (thread_block (kernel_at false) ≡ some k')
    × IsSwitched (set_status (kernel_at false) 1 blocked) k'
thread_block_example = thread_block_lem (kernel_at false) (kernel_at-IsValid false) refl refl

thread_yield_example :
    (k' : Kernel) × (k1 : Kernel) × (thread_yield (kernel_at true) ≡ some k')
    × HasRequeued (kernel_at true) k1
    × IsSwitched k1 k'
thread_yield_example = thread_yield_lem (kernel_at true) (kernel_at-IsValid true) one_ne_null refl

thread_aging_example :
    (k' : Kernel) × (thread_aging in_tick ≡ some k')
    × IsValid k'
    × ((u : ℕ)
        → (k'.threads u).priority ≡ (
            if rises in_tick u
            then (in_tick.threads u).priority + 1
            else (in_tick.threads u).priority))
thread_aging_example =
    thread_aging_once in_tick
      (with_interrupts-IsValid (kernel_at false) false true false 100 (kernel_at-IsValid false))
      refl

calc_priority_example :
    IsValid (calc_priority (kernel_at false))
    × (((calc_priority (kernel_at false)).threads 3).priority
        ≡ recalculated (kernel_at false) (kernel_at false).all 3)
calc_priority_example = calc_priority_lem (kernel_at false) 3 (kernel_at-IsValid false) refl
