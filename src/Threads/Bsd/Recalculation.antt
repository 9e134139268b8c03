-- ===== src/Threads/Bsd/Recalculation.antt =====
-- The recalculation of the priorities keeps the queues in order and gives every listed thread the
-- priority of its own CPU use and niceness.
use pintos_project.Base.{
  ℕ, ◌≤◌, ◌≡◌, refl, ap, ◌≢◌, true, false, not, ◌&&◌, List, [], ◌∷◌, ◌==◌, leb, if◌then◌else◌,
  count, erase, count-snoc, count-erase_self, count-erase_ne, inl, inr, arith, Bool-cases,
}
use pintos_project.Threads.FixedPoint.{pri_max, calc_priority_this}
use pintos_project.Threads.FixedPoint.Laws.{calc_priority_this-le}
use pintos_project.Threads.Kernel.{Kernel}
use pintos_project.Threads.Kernel.Invariant.{IsValid, yield_flag-IsValid}
use pintos_project.Threads.Aging.{Pass}
use pintos_project.Threads.Bsd.{named_idle, requeue_at, recalc_one, recalc_all, calc_priority}

requeue_at-IsValid :
    (k : Kernel) (t new : ℕ) → IsValid k → t ≢ k.idle → new ≤ pri_max → IsValid (requeue_at k t new)
unfolding requeue_at
requeue_at-IsValid k t new v ni le = record {
  placed = record {
    place = λ u l. ground (
      arith,
      v.placed.place u l,
      v.placed.place u (k.threads u).priority,
      ni,
      count-snoc u t (erase t (k.ready l)),
      count-erase_self t (k.ready l),
      count-erase_ne u t (k.ready l),
    );
    prio = λ u. ground (arith, v.placed.prio u, le);
    null_out = ground (arith, v.placed.null_out);
    idle_set = λ e. ground (arith, v.placed.idle_set);
  };
  one = λ u. ground (arith, v.one u);
}

-- What one step does to the thread `u`.
record OneStep (t u : ℕ) (o k : Kernel) : Type 0 where
  name : (k.threads u).name ≡ (o.threads u).name
  recent_cpu : (k.threads u).recent_cpu ≡ (o.threads u).recent_cpu
  nice : (k.threads u).nice ≡ (o.threads u).nice
  prio : (k.threads u).priority ≡ (
      if (t == u) && not (named_idle o t)
      then calc_priority_this (o.threads u).recent_cpu (o.threads u).nice
      else (o.threads u).priority)

recalc_one-OneStep : (s : Pass) (t u : ℕ) → OneStep t u s.kernel (recalc_one s t).kernel
unfolding recalc_one requeue_at
recalc_one-OneStep s t u = record {
  name = ground arith;
  recent_cpu = ground arith;
  nice = ground arith;
  prio = ground arith;
}

recalc_one-idle : (s : Pass) (t : ℕ) → (recalc_one s t).kernel.idle ≡ s.kernel.idle
unfolding recalc_one requeue_at
recalc_one-idle s t = ground arith

not_idle : (k : Kernel) (t : ℕ) → named_idle k k.idle ≡ true → named_idle k t ≡ false → t ≢ k.idle
not_idle k t named other e = cc (ap (named_idle k) e)

recalc_one-IsValid :
    (s : Pass) (t : ℕ)
    → named_idle s.kernel s.kernel.idle ≡ true
    → IsValid s.kernel
    → IsValid (recalc_one s t).kernel
unfolding recalc_one
recalc_one-IsValid s t named v = elim (Bool-cases (named_idle s.kernel t)) [
  | inl i ↦ rw i v
  | inr n ↦ rw n (
      requeue_at-IsValid s.kernel t _ v (not_idle s.kernel t named n)
        (calc_priority_this-le (s.kernel.threads t).recent_cpu (s.kernel.threads t).nice))
]

-- The priority that a pass over `ts` gives the thread `u`.
abbrev pub recalculated : Kernel → List ℕ → ℕ → ℕ
recalculated k ts u =
    if leb 1 (count u ts) && not (named_idle k u)
    then calc_priority_this (k.threads u).recent_cpu (k.threads u).nice
    else (k.threads u).priority

recalc_all-IsValid :
    (s : Pass) (ts : List ℕ)
    → named_idle s.kernel s.kernel.idle ≡ true
    → IsValid s.kernel
    → IsValid (recalc_all s ts).kernel
unfolding recalc_all
recalc_all-IsValid s [] named v = v
recalc_all-IsValid s (t ∷ ts) named v =
    recalc_all-IsValid (recalc_one s t) ts
      (ground (arith, recalc_one-idle s t, recalc_one-OneStep s t s.kernel.idle, named))
      (recalc_one-IsValid s t named v)

priority-recalc_all :
    (s : Pass) (ts : List ℕ) (u : ℕ)
    → ((recalc_all s ts).kernel.threads u).priority ≡ recalculated s.kernel ts u
unfolding recalc_all
priority-recalc_all s [] u = refl
priority-recalc_all s (t ∷ ts) u =
    ground (arith, priority-recalc_all (recalc_one s t) ts u, recalc_one-OneStep s t u)

-- BSD_calc_priority keeps a valid kernel valid, if the idle thread is named "idle". It gives every thread of the list of all threads that is not named "idle" the priority of its own
-- CPU use and niceness, and leaves the priority of the others alone.
pub calc_priority_lem :
    (k : Kernel) (u : ℕ)
    → IsValid k
    → named_idle k k.idle ≡ true
    → IsValid (calc_priority k) × (((calc_priority k).threads u).priority ≡ recalculated k k.all u)
unfolding calc_priority
calc_priority_lem k u v named =
    let s = recalc_all (record { kernel = k; yield = false }) k.all in
    (
      yield_flag-IsValid (s.yield && s.kernel.in_external) s.kernel
          (recalc_all-IsValid (record { kernel = k; yield = false }) k.all named v),
      ground (arith, priority-recalc_all (record { kernel = k; yield = false }) k.all u),
    )
