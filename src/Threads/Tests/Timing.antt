-- ===== src/Threads/Tests/Timing.antt =====
-- The timer of the sample kernel, with an alarm that is due at the next tick and one that is not.
use pintos_project.Base.{ℕ, suc, ◌≡◌, ◌≢◌, refl, true, false, none, some, ◌⊎◌, arith}
use pintos_project.Threads.Kernel.{Kernel}
use pintos_project.Threads.Kernel.Invariant.{IsValid, with_interrupts, with_interrupts-IsValid}
use pintos_project.Threads.Timer.{Clock, timer_sleep, wake_due, intr_handler_timer}
use pintos_project.Threads.Timer.Alarms.{later_than, AreAsleep, HasWoken, wake_due_lem}
use pintos_project.Threads.Timer.Sleep.{HasSlept, timer_sleep_lem}
use pintos_project.Threads.Timer.Interrupt.{HasInterrupted, AreAsleep-same, intr_handler_timer_lem}
use pintos_project.Threads.Tests.Sample.{
  kernel_at, kernel_at-IsValid, alarms_at, clock_at, alarms-AreAsleep,
}

one_ne : (n : ℕ) → 1 ≢ suc (suc n)
one_ne n e = omega arith

-- The sample kernel in the handler of the tick 100.
abbrev ticking : Kernel
ticking = with_interrupts (kernel_at false) false true false 100

ticking-IsValid : IsValid ticking
ticking-IsValid =
    with_interrupts-IsValid (kernel_at false) false true false 100 (kernel_at-IsValid false)

ticking-AreAsleep : AreAsleep ticking alarms_at
ticking-AreAsleep =
    AreAsleep-same (kernel_at false) ticking alarms_at (λ u. refl) refl (alarms-AreAsleep false)

wake_due_example :
    (k' : Kernel) × (wake_due alarms_at ticking ≡ some (k', later_than 100 alarms_at))
    × HasWoken ticking alarms_at k'
wake_due_example = wake_due_lem alarms_at ticking ticking-IsValid ticking-AreAsleep refl refl

timer_sleep_example :
    ((true ≡ false) × (timer_sleep true 95 96 7 (clock_at true) ≡ none))
    ⊎ ((true ≡ true)
        × (c' : Clock) × (timer_sleep true 95 96 7 (clock_at true) ≡ some c')
        × HasSlept 95 7 (clock_at true) c')
timer_sleep_example =
    timer_sleep_lem true 95 96 7 (clock_at true) (kernel_at-IsValid true) (alarms-AreAsleep true)
      (omega arith) (one_ne 0) refl (omega arith)

intr_handler_timer_example :
    (c' : Clock) × (intr_handler_timer (clock_at false) ≡ some c')
    × HasInterrupted (clock_at false) c'
intr_handler_timer_example =
    intr_handler_timer_lem (clock_at false) (kernel_at-IsValid false) (alarms-AreAsleep false) refl
      refl (omega arith) refl
