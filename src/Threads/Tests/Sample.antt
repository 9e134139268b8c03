-- ===== src/Threads/Tests/Sample.antt =====
-- A kernel with the thread 1 running, 3 on the ready queue, 4 and 5 blocked, and 2 the idle thread.
use pintos_project.Base.{ℕ, refl, Bool, true, false, List, [], ◌∷◌, ◌==◌, if◌then◌else◌, arith}
use pintos_project.Base.Int.{pos}
use pintos_project.Threads.Kernel.{Kernel, Thread, Status, running, ready, blocked}
use pintos_project.Threads.Kernel.Invariant.{IsValid, RunsHighest}
use pintos_project.Threads.Timer.{Alarm, Clock}
use pintos_project.Threads.Timer.Alarms.{AreAsleep}

abbrev status_at : ℕ → Status
status_at t = if t == 1 then running else if t == 3 then ready else blocked

abbrev priority_at : ℕ → ℕ
priority_at t = if t == 4 then 40 else 31

abbrev thread_at : ℕ → Thread
thread_at t = record {
  tid = t;
  status = status_at t;
  name = if t == 2 then "idle" else "main";
  priority = priority_at t;
  recent_unused = 0;
  nice = pos 0;
  recent_cpu = pos 0;
  user = false;
}

abbrev pub kernel_at : Bool → Kernel
kernel_at on = record {
  threads = thread_at;
  ready = λ p. if p == 31 then 3 ∷ [] else [];
  all = 1 ∷ 2 ∷ 3 ∷ 4 ∷ 5 ∷ [];
  current = 1;
  idle = 2;
  initial = 1;
  intr_on = on;
  in_external = false;
  yield_on_return = false;
  thread_ticks = 3;
  ticks = 99;
  load_avg = pos 0;
  mlfqs = false;
  aging = true;
  idle_ticks = 0;
  kernel_ticks = 0;
  user_ticks = 0;
  freed = [];
}

pub kernel_at-IsValid : (on : Bool) → IsValid (kernel_at on)
kernel_at-IsValid on = record {
  placed = record {
    place = λ t p. ground arith;
    prio = λ t. ground arith;
    null_out = refl;
    idle_set = omega arith;
  };
  one = λ t. ground arith;
}

pub kernel_at-highest : (on : Bool) → RunsHighest (kernel_at on)
kernel_at-highest on u q = ground (arith, q)

abbrev pub alarms_at : List Alarm
alarms_at = record { time_wake = 100; thread = 4 } ∷ record { time_wake = 200; thread = 5 } ∷ []

abbrev pub clock_at : Bool → Clock
clock_at on = record { kernel = kernel_at on; alarms = alarms_at }

pub alarms-AreAsleep : (on : Bool) → AreAsleep (kernel_at on) alarms_at
alarms-AreAsleep on = record {
  asleep = λ u h. ground (arith, h);
  once = λ u. ground arith;
  real = refl;
  not_idle = refl;
}
