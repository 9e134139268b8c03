-- ===== src/Threads/Aging/Once.antt =====
-- Aging keeps the queues in order, and raises each due thread exactly once.
use pintos_project.Base.{
  some, ℕ, zero, suc, ◌+◌, ◌≤◌, ◌<◌, ◌≡◌, refl, Bool, true, false, ◌&&◌, ◌||◌, List, [], ◌∷◌, ◌==◌,
  ltb, leb, if◌then◌else◌, count, erase, count-snoc, count-erase_self, count-erase_ne, inl, inr,
  arith, Bool-cases,
}
use pintos_project.Threads.FixedPoint.{pri_max}
use pintos_project.Threads.Aging.Quiet.{thread_aging_lem}
use pintos_project.Threads.Kernel.{Kernel}
use pintos_project.Threads.Kernel.Invariant.{IsValid, is_queued, yield_flag-IsValid}
use pintos_project.Threads.Aging.{
  Pass, is_due, raise, age_one, age_level, age_below, aged, thread_aging,
}

raise-IsValid :
    (k : Kernel) (t : ℕ)
    → IsValid k
    → is_queued k t ≡ true
    → (k.threads t).priority < pri_max
    → IsValid (raise k t)
unfolding raise
raise-IsValid k t v q lt = record {
  placed = record {
    place = λ u l. ground (
      arith,
      v.placed.place u l,
      v.placed.place u (k.threads u).priority,
      q,
      count-snoc u t (erase t (k.ready l)),
      count-erase_self t (k.ready l),
      count-erase_ne u t (k.ready l),
    );
    prio = λ u. ground (arith, v.placed.prio u, lt);
    null_out = ground (arith, v.placed.null_out);
    idle_set = v.placed.idle_set;
  };
  one = λ u. ground (arith, v.one u);
}

-- The threads that a pass raises.
abbrev pub rises : Kernel → ℕ → Bool
rises k u = is_queued k u && is_due k u && ltb (k.threads u).priority pri_max

-- A thread is done if its level is above `i`, or is `i` and it is no longer in the rest `ts`.
abbrev is_done : Kernel → ℕ → List ℕ → ℕ → Bool
is_done k i ts u = ltb i (k.threads u).priority || ((k.threads u).priority == i && count u ts == 0)

-- The kernel `k` on the way of a pass that began at `o` and has the rest `ts` of level `i` to do.
record IsAged (o : Kernel) (i : ℕ) (ts : List ℕ) (k : Kernel) : Type 0 where
  valid : IsValid k
  status : (u : ℕ) → (k.threads u).status ≡ (o.threads u).status
  recent : (u : ℕ) → (k.threads u).recent_unused ≡ (o.threads u).recent_unused
  ticks : k.ticks ≡ o.ticks
  idle : k.idle ≡ o.idle
  prio :
      (u : ℕ)
      → (k.threads u).priority ≡ (
          if rises o u && is_done o i ts u
          then (o.threads u).priority + 1
          else (o.threads u).priority)
  once : (u : ℕ) → count u ts ≤ 1
  level : (u : ℕ) → 0 < count u ts → (is_queued o u ≡ true) × ((o.threads u).priority ≡ i)

module _ (o : Kernel) (i : ℕ) (small : i < pri_max) (k : Kernel) (t : ℕ) (ts : List ℕ)
    (a : IsAged o i (t ∷ ts) k) where
  front_level : (is_queued o t ≡ true) × ((o.threads t).priority ≡ i)
  front_level = a.level t (ground arith)

  front_queued : is_queued k t ≡ true
  front_queued = ground (arith, front_level, a.status t, a.idle)

  front_prio : (k.threads t).priority ≡ i
  front_prio = ground (arith, front_level, a.prio t)

  due_same : is_due k t ≡ is_due o t
  due_same = ground (arith, a.ticks, a.recent t)

  rest_once : (u : ℕ) → count u ts ≤ 1
  rest_once u = ground (arith, a.once u)

  rest_level : (u : ℕ) → 0 < count u ts → (is_queued o u ≡ true) × ((o.threads u).priority ≡ i)
  rest_level u h = a.level u (ground arith)

  raised : is_due k t ≡ true → IsAged o i ts (raise k t)
  raised due = record {
    valid = raise-IsValid k t a.valid front_queued (omega (arith, front_prio));
    status = λ u. unfold raise in ground (arith, a.status u);
    recent = λ u. unfold raise in ground (arith, a.recent u);
    ticks = unfold raise in a.ticks;
    idle = unfold raise in a.idle;
    prio = λ u.
        unfold raise in ground (arith, a.prio u, due, due_same, front_level, front_prio, a.once t);
    once = rest_once;
    level = rest_level;
  }

  skipped : is_due k t ≡ false → IsAged o i ts k
  skipped rests = record {
    valid = a.valid;
    status = a.status;
    recent = a.recent;
    ticks = a.ticks;
    idle = a.idle;
    prio = λ u. ground (arith, a.prio u, rests, due_same, front_level, a.once t);
    once = rest_once;
    level = rest_level;
  }

age_one-IsAged :
    (o : Kernel) (i : ℕ) (s : Pass) (t : ℕ) (ts : List ℕ)
    → i < pri_max
    → IsAged o i (t ∷ ts) s.kernel
    → IsAged o i ts (age_one s t).kernel
unfolding age_one
age_one-IsAged o i s t ts small a = elim (Bool-cases (is_due s.kernel t)) [
  | inl due ↦ rw due (raised o i small s.kernel t ts a due)
  | inr rests ↦ rw rests (skipped o i small s.kernel t ts a rests)
]

age_level-IsAged :
    (o : Kernel) (i : ℕ) (s : Pass) (ts : List ℕ)
    → i < pri_max
    → IsAged o i ts s.kernel
    → IsAged o i [] (age_level s ts).kernel
unfolding age_level
age_level-IsAged o i s [] small a = a
age_level-IsAged o i s (t ∷ ts) small a =
    age_level-IsAged o i (age_one s t) ts small (age_one-IsAged o i s t ts small a)

-- A pass with the levels from `n` up done.
record IsAgedFrom (o : Kernel) (n : ℕ) (k : Kernel) : Type 0 where
  valid : IsValid k
  status : (u : ℕ) → (k.threads u).status ≡ (o.threads u).status
  recent : (u : ℕ) → (k.threads u).recent_unused ≡ (o.threads u).recent_unused
  ticks : k.ticks ≡ o.ticks
  idle : k.idle ≡ o.idle
  prio :
      (u : ℕ)
      → (k.threads u).priority ≡ (
          if rises o u && leb n (o.threads u).priority
          then (o.threads u).priority + 1
          else (o.threads u).priority)

enter_level : (o : Kernel) (i : ℕ) (k : Kernel) → IsAgedFrom o (suc i) k → IsAged o i (k.ready i) k
enter_level o i k a = record {
  valid = a.valid;
  status = a.status;
  recent = a.recent;
  ticks = a.ticks;
  idle = a.idle;
  prio = λ u. ground (arith, a.prio u, a.valid.placed.place u i, a.status u, a.idle);
  once = λ u. ground (arith, a.valid.placed.place u i);
  level = λ u h. ground (arith, h, a.prio u, a.valid.placed.place u i, a.status u, a.idle);
}

leave_level : (o : Kernel) (i : ℕ) (k : Kernel) → IsAged o i [] k → IsAgedFrom o i k
leave_level o i k a = record {
  valid = a.valid;
  status = a.status;
  recent = a.recent;
  ticks = a.ticks;
  idle = a.idle;
  prio = λ u. ground (arith, a.prio u);
}

age_below-IsAgedFrom :
    (o : Kernel) (n : ℕ) (s : Pass)
    → n ≤ pri_max
    → IsAgedFrom o n s.kernel
    → IsAgedFrom o 0 (age_below n s).kernel
unfolding age_below
age_below-IsAgedFrom o zero s le a = a
age_below-IsAgedFrom o (suc i) s le a =
    age_below-IsAgedFrom o i (age_level s (s.kernel.ready i)) (omega arith) (
      leave_level o i _ (age_level-IsAged o i s (s.kernel.ready i) le (enter_level o i s.kernel a)))

start : (k : Kernel) → IsValid k → IsAgedFrom k pri_max k
start k v = record {
  valid = v;
  status = λ u. refl;
  recent = λ u. refl;
  ticks = refl;
  idle = refl;
  prio = λ u. ground arith;
}

pub aged_once :
    (k : Kernel) (u : ℕ)
    → IsValid k
    → IsValid (aged k)
      × (((aged k).threads u).priority
          ≡ (if rises k u then (k.threads u).priority + 1 else (k.threads u).priority))
unfolding aged
aged_once k u v =
    let s = age_below pri_max (record { kernel = k; yield = false }) in
    let a =
      age_below-IsAgedFrom k pri_max (record { kernel = k; yield = false }) (omega arith)
        (start k v) in
    (yield_flag-IsValid s.yield s.kernel a.valid, ground (arith, a.prio u))

-- thread_aging in an external interrupt passes its assertion and keeps a valid kernel valid. It raises by
-- exactly one level each queued thread below level 63 that has waited a multiple of 100 ticks, although it
-- moves the threads through the queues that it scans, and leaves every other thread's priority alone.
pub thread_aging_once :
    (k : Kernel)
    → IsValid k
    → k.in_external ≡ true
    → (k' : Kernel) × (thread_aging k ≡ some k')
      × IsValid k'
      × ((u : ℕ)
          → (k'.threads u).priority
            ≡ (if rises k u then (k.threads u).priority + 1 else (k.threads u).priority))
thread_aging_once k v ext =
    (aged k, thread_aging_lem k ext, (aged_once k 0 v).0, λ u. (aged_once k u v).1)
