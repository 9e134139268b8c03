-- ===== src/Threads/Bsd/Quiet.antt =====
-- The BSD scheduler touches no status and no interrupt state, and keeps the queues in order.
use pintos_project.Base.{
  ℕ, ◌%◌, ◌≡◌, refl, Bool, true, false, List, [], ◌∷◌, if◌then◌else◌, ◌==◌, arith,
}
use pintos_project.Base.Int.{ℤ}
use pintos_project.Threads.FixedPoint.{next_recent_cpu}
use pintos_project.Threads.Kernel.{Kernel}
use pintos_project.Threads.Kernel.Invariant.{IsValid}
use pintos_project.Threads.Kernel.Quiet.{IsQuiet, IsQuiet-refl, IsQuiet-trans, flag_set-IsQuiet}
use pintos_project.Threads.Aging.{Pass}
use pintos_project.Threads.Bsd.{
  named_idle, timer_freq, set_recent_cpu, requeue_at, recalc_one, recalc_all, calc_priority,
  calc_load_average, decay_all, charge_tick, each_second, schedule_bsd,
}
use pintos_project.Threads.Bsd.Recalculation.{calc_priority_lem}

recalc_one-IsQuiet : (s : Pass) (t : ℕ) → IsQuiet s.kernel (recalc_one s t).kernel
unfolding recalc_one requeue_at
recalc_one-IsQuiet s t = record {
  status = λ u. ground arith;
  name = λ u. ground arith;
  idle = ground arith;
  current = ground arith;
  ticks = ground arith;
  intr = ground arith;
  external = ground arith;
  aging = ground arith;
  flag = λ e. ground (arith, e);
}

recalc_all-IsQuiet : (s : Pass) (ts : List ℕ) → IsQuiet s.kernel (recalc_all s ts).kernel
unfolding recalc_all
recalc_all-IsQuiet s [] = IsQuiet-refl s.kernel
recalc_all-IsQuiet s (t ∷ ts) =
    IsQuiet-trans _ _ _ (recalc_one-IsQuiet s t) (recalc_all-IsQuiet (recalc_one s t) ts)

calc_priority-IsQuiet : (k : Kernel) → IsQuiet k (calc_priority k)
unfolding calc_priority
calc_priority-IsQuiet k =
    IsQuiet-trans _ _ _ (recalc_all-IsQuiet (record { kernel = k; yield = false }) k.all)
      (flag_set-IsQuiet _ _)

set_recent_cpu-IsQuiet : (k : Kernel) (t : ℕ) (r : ℤ) → IsQuiet k (set_recent_cpu k t r)
set_recent_cpu-IsQuiet k t r = record {
  status = λ u. ground arith;
  name = λ u. ground arith;
  idle = refl;
  current = refl;
  ticks = refl;
  intr = refl;
  external = refl;
  aging = refl;
  flag = λ e. e;
}

set_recent_cpu-IsValid : (k : Kernel) (t : ℕ) (r : ℤ) → IsValid k → IsValid (set_recent_cpu k t r)
set_recent_cpu-IsValid k t r v = record {
  placed = record {
    place = λ u l. ground (arith, v.placed.place u l);
    prio = λ u. ground (arith, v.placed.prio u);
    null_out = ground (arith, v.placed.null_out);
    idle_set = v.placed.idle_set;
  };
  one = λ u. ground (arith, v.one u);
}

calc_load_average-IsQuiet : (k : Kernel) → IsQuiet k (calc_load_average k)
unfolding calc_load_average
calc_load_average-IsQuiet k = record {
  status = λ u. refl;
  name = λ u. refl;
  idle = refl;
  current = refl;
  ticks = refl;
  intr = refl;
  external = refl;
  aging = refl;
  flag = λ e. e;
}

calc_load_average-IsValid : (k : Kernel) → IsValid k → IsValid (calc_load_average k)
unfolding calc_load_average
calc_load_average-IsValid k v = record {
  placed = record {
    place = v.placed.place;
    prio = v.placed.prio;
    null_out = v.placed.null_out;
    idle_set = v.placed.idle_set;
  };
  one = v.one;
}

-- Both facts about a step at once.
abbrev pub Keeps : Kernel → Kernel → Type 0
Keeps o k = IsQuiet o k × (IsValid o → IsValid k)

Keeps-trans : (a b c : Kernel) → Keeps a b → Keeps b c → Keeps a c
Keeps-trans a b c p q = (IsQuiet-trans a b c p.0 q.0, λ v. q.1 (p.1 v))

Keeps-choice : (c : Bool) (o k : Kernel) → Keeps o k → Keeps o (if c then k else o)
Keeps-choice true o k p = p
Keeps-choice false o k p = (IsQuiet-refl o, λ v. v)

charge-Keeps :
    (k : Kernel) (t : ℕ) (r : ℤ) → Keeps k (if named_idle k t then k else set_recent_cpu k t r)
charge-Keeps k t r = skip (named_idle k t)
  where
    skip : (c : Bool) → Keeps k (if c then k else set_recent_cpu k t r)
    skip true = (IsQuiet-refl k, λ v. v)
    skip false = (set_recent_cpu-IsQuiet k t r, set_recent_cpu-IsValid k t r)

decay_all-Keeps : (c : ℤ) (k : Kernel) (ts : List ℕ) → Keeps k (decay_all c k ts)
unfolding decay_all
decay_all-Keeps c k [] = (IsQuiet-refl k, λ v. v)
decay_all-Keeps c k (t ∷ ts) =
    Keeps-trans _ _ _
      (charge-Keeps k t (next_recent_cpu c (k.threads t).recent_cpu (k.threads t).nice))
      (decay_all-Keeps c
        (if named_idle k t
          then k
          else set_recent_cpu k t (next_recent_cpu c (k.threads t).recent_cpu (k.threads t).nice))
        ts)

charge_tick-Keeps : (k : Kernel) → Keeps k (charge_tick k)
unfolding charge_tick
charge_tick-Keeps k = charge-Keeps k k.current _

each_second-Keeps : (n : ℕ) (k : Kernel) → Keeps k (each_second n k)
unfolding each_second
each_second-Keeps n k = Keeps-choice (n % timer_freq == 0) k _ (
    Keeps-trans _ (calc_load_average k) _ (calc_load_average-IsQuiet k, calc_load_average-IsValid k)
      (decay_all-Keeps _ _ k.all))

-- A tick of the BSD scheduler.
pub schedule_bsd-Keeps : (k : Kernel) → named_idle k k.idle ≡ true → Keeps k (schedule_bsd k)
unfolding schedule_bsd
schedule_bsd-Keeps k named = Keeps-trans k averaged _ kept (
    Keeps-choice (k.ticks % 4 == 0) averaged _
      (calc_priority-IsQuiet averaged, λ v. (calc_priority_lem averaged 0 v still_named).0))
  where
    averaged : Kernel
    averaged = each_second k.ticks (charge_tick k)

    kept : Keeps k averaged
    kept =
        Keeps-trans k (charge_tick k) _ (charge_tick-Keeps k)
          (each_second-Keeps k.ticks (charge_tick k))

    still_named : named_idle averaged averaged.idle ≡ true
    still_named = cc (named, kept.0.idle, kept.0.name k.idle)
