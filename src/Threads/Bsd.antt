-- ===== src/Threads/Bsd.antt =====
-- The BSD (multi-level feedback queue) scheduler of threads/thread.c: the functions that run over all
-- threads from the timer tick. Threads named "idle" are left out by their name.
pub mod Recalculation
pub mod Quiet
use Prim.Native.String.{String}
use text.Mathlib.Text.{◌==◌ as str_eq}
use pintos_project.Base.{
  ℕ, zero, suc, ◌+◌, ◌-◌, ◌%◌, Bool, true, false, not, ◌&&◌, ◌||◌, List, [], ◌∷◌, ◌==◌, ltb, leb,
  if◌then◌else◌, length, update,
}
use pintos_project.Base.Int.{ℤ, pos}
use pintos_project.Threads.FixedPoint.{
  pri_max, fp_add, calc_priority_this, next_load_avg, decay_coef, next_recent_cpu,
}
use pintos_project.Threads.Kernel.{
  Kernel, Thread, is_ready, is_running, set_priority_of, push_ready, unlink, thread_top_priority,
}
use pintos_project.Threads.Aging.{Pass}

-- TIMER_FREQ
abbrev pub timer_freq : ℕ
timer_freq = 100

-- !strcmp (t->name, "idle")
abbrev pub named_idle : Kernel → ℕ → Bool
named_idle k t = str_eq (k.threads t).name "idle"

abbrev pub set_recent_cpu : Kernel → ℕ → ℤ → Kernel
set_recent_cpu k t r = record k {
  threads = update k.threads t (record (k.threads t) { recent_cpu = r });
}

-- The new priority of `t`, and its move to the queue of that priority if it is on a queue.
pub requeue_at : Kernel → ℕ → ℕ → Kernel
requeue_at k t new =
    let changed = set_priority_of k t new in
    if is_ready (k.threads t).status && not ((k.threads t).priority == new)
    then push_ready (unlink changed t) new t
    else changed

-- The body of the loop of BSD_calc_priority.
pub recalc_one : Pass → ℕ → Pass
recalc_one s t =
    let th = s.kernel.threads t in
    let new = calc_priority_this th.recent_cpu th.nice in
    let k = requeue_at s.kernel t new in
    if named_idle s.kernel t then s else record {
      kernel = k;
      yield =
          s.yield
          || (is_ready th.status
              && not (th.priority == new)
              && ltb (k.threads k.current).priority new)
          || (is_running th.status && ltb new (thread_top_priority k));
    }

pub recalc_all : Pass → List ℕ → Pass
recalc_all s [] = s
recalc_all s (t ∷ ts) = recalc_all (recalc_one s t) ts

-- BSD_calc_priority
pub calc_priority : Kernel → Kernel
calc_priority k =
    let s = recalc_all (record { kernel = k; yield = false }) k.all in
    if s.yield && s.kernel.in_external then record s.kernel { yield_on_return = true } else s.kernel

-- The sum of list_size (&ready_list[i]) over the levels below `n`.
pub ready_count : (ℕ → List ℕ) → ℕ → ℕ
ready_count q zero = 0
ready_count q (suc i) = ready_count q i + length (q i)

-- BSD_calc_load_average
pub calc_load_average : Kernel → Kernel
calc_load_average k =
    let queued = ready_count k.ready (pri_max + 1) in
    let ready_threads = if named_idle k k.current then queued else queued + 1 in
    record k { load_avg = next_load_avg k.load_avg ready_threads }

-- The loop of BSD_calc_recent_cpu.
pub decay_all : ℤ → Kernel → List ℕ → Kernel
decay_all coef k [] = k
decay_all coef k (t ∷ ts) =
    let th = k.threads t in
    decay_all coef
      (if named_idle k t
        then k
        else set_recent_cpu k t (next_recent_cpu coef th.recent_cpu th.nice))
      ts

-- BSD_calc_recent_cpu
pub calc_recent_cpu : Kernel → Kernel
calc_recent_cpu k = decay_all (decay_coef k.load_avg) k k.all

-- The steps of BSD_schedule: the running thread is charged one tick ...
pub charge_tick : Kernel → Kernel
charge_tick k =
    if named_idle k k.current
    then k
    else set_recent_cpu k k.current (fp_add (k.threads k.current).recent_cpu (pos 1) false)

-- ... once a second the averages are taken ...
pub each_second : ℕ → Kernel → Kernel
unfolding calc_recent_cpu calc_load_average
each_second tick k = if tick % timer_freq == 0 then calc_recent_cpu (calc_load_average k) else k

-- ... and every fourth tick the priorities are calculated.
pub schedule_bsd : Kernel → Kernel
schedule_bsd k =
    let averaged = each_second k.ticks (charge_tick k) in
    if k.ticks % 4 == 0 then calc_priority averaged else averaged
