-- ===== src/Threads/Timer.antt =====
-- The timer: thread_tick of threads/thread.c, the alarm list of devices/timer.c, and the part of
-- threads/interrupt.c that runs an external interrupt's handler and yields on return. Tick counts
-- are numbers: an `int64_t` of ticks does not wrap.
pub mod Tick
pub mod Alarms
pub mod Sleep
pub mod Interrupt
use pintos_project.Base.{
  ℕ, ◌+◌, ◌-◌, ◌≡◌, Bool, true, false, not, ◌&&◌, Option, none, some, List, [], ◌∷◌, ◌++◌, ◌==◌,
  ltb, leb, if◌then◌else◌, ◌>>=◌, ◌>>◌, assert,
}
use pintos_project.Threads.Kernel.{
  intr_yield_on_return, Kernel, with_level, thread_block, thread_unblock, thread_yield,
}
use pintos_project.Threads.Aging.{thread_aging}
use pintos_project.Threads.Bsd.{schedule_bsd}

-- TIME_SLICE
abbrev pub time_slice : ℕ
time_slice = 4

-- The statistics of thread_tick.
abbrev pub count_tick : Kernel → Kernel
count_tick k =
    if k.current == k.idle
    then record k { idle_ticks = k.idle_ticks + 1 }
    else if (k.threads k.current).user
    then record k { user_ticks = k.user_ticks + 1 }
    else record k { kernel_ticks = k.kernel_ticks + 1 }

-- Preemption, as thread_tick enforces it.
abbrev pub spend_slice : Kernel → Option Kernel
spend_slice k =
    let k' = record k { thread_ticks = k.thread_ticks + 1 } in
    if leb time_slice k'.thread_ticks then intr_yield_on_return k' else some k'

-- thread_tick ()
pub thread_tick : Kernel → Option Kernel
thread_tick k = do
  k' ← spend_slice (count_tick k)
  let scheduled = if k'.mlfqs then schedule_bsd k' else k'
  if scheduled.aging then thread_aging scheduled else some scheduled

-- struct thread_alarm
pub record Alarm : Type 0 where
  pub time_wake : ℕ
  pub thread : ℕ

-- The kernel with the list `list_alarm`.
pub record Clock : Type 0 where
  pub kernel : Kernel
  pub alarms : List Alarm

-- timer_sleep (ticks), as far as its thread_block: `start` is what timer_ticks returned, `now` the ticks
-- that timer_elapsed read, and `c` the clock when interrupts are off. `room` is whether malloc succeeds,
-- whose NULL is written through. A negative argument returns at once, as 0 does.
pub timer_sleep : Bool → ℕ → ℕ → ℕ → Clock → Option Clock
timer_sleep room start now ticks c =
    let alarm : Alarm = record { time_wake = ticks + start; thread = c.kernel.current } in
    if ltb (now - start) ticks
    then (do
      assert room
      k ← thread_block (with_level false c.kernel)
      some (record { kernel = k; alarms = c.alarms ++ alarm ∷ [] }))
    else some c

-- The loop of timer_interrupt over the alarms, with those that it keeps.
pub wake_due : List Alarm → Kernel → Option (Kernel × List Alarm)
wake_due [] k = some (k, [])
wake_due (a ∷ rest) k =
    let woken = (do
      k1 ← thread_unblock a.thread k
      k2 ← intr_yield_on_return k1
      wake_due rest k2) in
    let kept = (do (k', left) ← wake_due rest k; some (k', a ∷ left)) in
    if leb a.time_wake k.ticks then woken else kept

-- timer_interrupt ()
pub timer_interrupt : Clock → Option Clock
timer_interrupt c = do
  k1 ← thread_tick (record c.kernel { ticks = c.kernel.ticks + 1 })
  (k2, left) ← wake_due c.alarms k1
  some (record { kernel = k2; alarms = left })

-- The end of intr_handler for an external interrupt. Acknowledging the interrupt on the PIC is not
-- modelled.
pub finish_external : Clock → Option Clock
finish_external c = do
  assert (not c.kernel.intr_on)
  assert c.kernel.in_external
  let k = record c.kernel { in_external = false }
  k' ← (if k.yield_on_return then thread_yield k else some k)
  some (record c { kernel = k' })

-- intr_handler for the timer's vector 0x20, which is external. The processor has turned interrupts
-- off before.
pub intr_handler_timer : Clock → Option Clock
intr_handler_timer c = do
  assert (not c.kernel.intr_on)
  assert (not c.kernel.in_external)
  c' ←
      timer_interrupt
        (record c { kernel = record c.kernel { in_external = true; yield_on_return = false } })
  finish_external c'
