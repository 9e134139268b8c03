-- ===== src/Threads/Timer/Alarms.antt =====
-- The alarm list: what the timer interrupt wakes, and what it keeps.
use pintos_project.Base.{
  ℕ, ◌+◌, ◌≤◌, ◌<◌, ◌≡◌, refl, ap, inl, inr, true, false, Option, some, List, [], ◌∷◌, ◌==◌, leb,
  if◌then◌else◌, arith, Bool-cases, assert_passes,
}
use pintos_project.Threads.Kernel.{Kernel, ready, is_blocked, make_ready, thread_unblock}
use pintos_project.Threads.Kernel.Invariant.{IsValid, yield_flag-IsValid}
use pintos_project.Threads.Kernel.Calls.{thread_unblock_off, make_ready-IsValid}
use pintos_project.Threads.Kernel.{intr_yield_on_return}
use pintos_project.Threads.Timer.{Alarm, wake_due}

-- How many alarms of a list are set for the thread `u`.
abbrev pub alarms_of : ℕ → List Alarm → ℕ
alarms_of u [] = 0
alarms_of u (a ∷ rest) = (if a.thread == u then 1 else 0) + alarms_of u rest

-- The alarms that are due at `now`, and those that are not.
abbrev pub due_at : ℕ → List Alarm → List Alarm
due_at now [] = []
due_at now (a ∷ rest) = if leb a.time_wake now then a ∷ due_at now rest else due_at now rest

abbrev pub later_than : ℕ → List Alarm → List Alarm
later_than now [] = []
later_than now (a ∷ rest) =
    if leb a.time_wake now then later_than now rest else a ∷ later_than now rest

-- Each sleeping thread is blocked, is a thread but not the idle one, and has one alarm.
pub record AreAsleep (k : Kernel) (alarms : List Alarm) : Type 0 where
  pub asleep : (u : ℕ) → 0 < alarms_of u alarms → is_blocked (k.threads u).status ≡ true
  pub once : (u : ℕ) → alarms_of u alarms ≤ 1
  pub real : alarms_of 0 alarms ≡ 0
  pub not_idle : alarms_of k.idle alarms ≡ 0

AreAsleep-tail :
    (k : Kernel) (a : Alarm) (rest : List Alarm) → AreAsleep k (a ∷ rest) → AreAsleep k rest
AreAsleep-tail k a rest s = record {
  asleep = λ u h. s.asleep u (omega arith);
  once = λ u. omega (arith, s.once u);
  real = omega (arith, s.real);
  not_idle = omega (arith, s.not_idle);
}

woken : Kernel → ℕ → Kernel
woken k t = record (make_ready t k) { yield_on_return = true }

AreAsleep-woken :
    (k : Kernel) (a : Alarm) (rest : List Alarm)
    → AreAsleep k (a ∷ rest)
    → AreAsleep (woken k a.thread) rest
unfolding woken make_ready
AreAsleep-woken k a rest s = record {
  asleep = λ u h. ground (arith, h, s.asleep u, s.once u);
  once = λ u. omega (arith, s.once u);
  real = omega (arith, s.real);
  not_idle = omega (arith, s.not_idle);
}

-- What waking the due alarms leaves.
pub record HasWoken (k : Kernel) (alarms : List Alarm) (k' : Kernel) : Type 0 where
  pub valid : IsValid k'
  pub asleep : AreAsleep k' (later_than k.ticks alarms)
  pub off : k'.intr_on ≡ false
  pub external : k'.in_external ≡ true
  pub flag : (u : ℕ) → 0 < alarms_of u (due_at k.ticks alarms) → k'.yield_on_return ≡ true
  pub flag_kept : k.yield_on_return ≡ true → k'.yield_on_return ≡ true
  pub status :
      (u : ℕ)
      → (k'.threads u).status
        ≡ (if leb 1 (alarms_of u (due_at k.ticks alarms)) then ready else (k.threads u).status)
  pub prio : (u : ℕ) → (k'.threads u).priority ≡ (k.threads u).priority
  pub clock : k'.ticks ≡ k.ticks
  pub current : k'.current ≡ k.current
  pub idle : k'.idle ≡ k.idle

-- The due alarms are among the alarms.
due_at-le : (now u : ℕ) (alarms : List Alarm) → alarms_of u (due_at now alarms) ≤ alarms_of u alarms
due_at-le now u [] = omega arith
due_at-le now u (a ∷ rest) = ground (arith, due_at-le now u rest)

later_than-le :
    (now u : ℕ) (alarms : List Alarm) → alarms_of u (later_than now alarms) ≤ alarms_of u alarms
later_than-le now u [] = omega arith
later_than-le now u (a ∷ rest) = ground (arith, later_than-le now u rest)

module _ (k : Kernel) (v : IsValid k) (off : k.intr_on ≡ false) (ext : k.in_external ≡ true)
    (a : Alarm) (rest : List Alarm) (s : AreAsleep k (a ∷ rest)) where
  woken-IsValid : IsValid (woken k a.thread)
  unfolding woken
  woken-IsValid = yield_flag-IsValid true (make_ready a.thread k) (
      make_ready-IsValid k a.thread v (λ e. ground (arith, s.real, e))
        (λ e. ground (arith, s.not_idle, e)) (s.asleep a.thread (ground arith)))

  woken-HasWoken :
      (k' : Kernel)
      → leb a.time_wake k.ticks ≡ true
      → HasWoken (woken k a.thread) rest k'
      → HasWoken k (a ∷ rest) k'
  unfolding woken make_ready
  woken-HasWoken k' due w = record {
    valid = w.valid;
    asleep = rw due w.asleep;
    off = w.off;
    external = w.external;
    flag = λ u h. w.flag_kept refl;
    flag_kept = λ e. w.flag_kept refl;
    status = λ u. ground (arith, w.status u, due, s.once u, due_at-le k.ticks u rest);
    prio = λ u. ground (arith, w.prio u);
    clock = w.clock;
    current = w.current;
    idle = w.idle;
  }

  kept_asleep :
      (k' : Kernel)
      → HasWoken k rest k'
      → (u : ℕ) → 0 < alarms_of u (a ∷ later_than k.ticks rest)
      → is_blocked (k'.threads u).status ≡ true
  kept_asleep k' w u h = elim (Bool-cases (a.thread == u)) [
    | inl same ↦ ground (
      arith,
      same,
      w.status u,
      s.asleep u (ground (arith, same)),
      s.once u,
      due_at-le k.ticks u rest,
    )
    | inr other ↦ w.asleep.asleep u (ground (arith, other, h))
  ]

  kept-HasWoken :
      (k' : Kernel)
      → leb a.time_wake k.ticks ≡ false
      → HasWoken k rest k'
      → HasWoken k (a ∷ rest) k'
  kept-HasWoken k' later w = record {
    valid = w.valid;
    asleep = rw later (record {
      asleep = kept_asleep k' w;
      once = λ u. omega (arith, s.once u, later_than-le k.ticks u rest);
      real = omega (arith, s.real, later_than-le k.ticks 0 rest);
      not_idle = omega (
        arith,
        s.not_idle,
        later_than-le k.ticks k.idle rest,
        ap (λ i. alarms_of i (a ∷ later_than k.ticks rest)) w.idle,
      );
    });
    off = w.off;
    external = w.external;
    flag = λ u h. w.flag u (rw later at h);
    flag_kept = w.flag_kept;
    status = λ u. rw later (w.status u);
    prio = w.prio;
    clock = w.clock;
    current = w.current;
    idle = w.idle;
  }

  front_unblocks : thread_unblock a.thread k ≡ some (make_ready a.thread k)
  front_unblocks =
      thread_unblock_off k a.thread (λ e. ground (arith, s.real, e))
        (s.asleep a.thread (ground arith)) off

  front_yields : intr_yield_on_return (make_ready a.thread k) ≡ some (woken k a.thread)
  unfolding woken make_ready
  front_yields = assert_passes k.in_external _ ext refl

  woken_step :
      {r : Option (Kernel × List Alarm)}
      → leb a.time_wake k.ticks ≡ true
      → wake_due rest (woken k a.thread) ≡ r
      → wake_due (a ∷ rest) k ≡ r
  unfolding wake_due
  woken_step due e = rw (due, front_unblocks, front_yields) e

-- The alarm loop of timer_interrupt on a valid kernel in an external interrupt, whose alarms are those
-- of sleeping threads, passes its assertions: exactly the alarms that are not due remain, exactly the
-- threads of those that are due became ready, and then a yield is asked for. The kernel is valid again,
-- the remaining alarms are those of sleeping threads, and no priority has changed.
pub wake_due_lem :
    (alarms : List Alarm) (k : Kernel)
    → IsValid k
    → AreAsleep k alarms
    → k.intr_on ≡ false
    → k.in_external ≡ true
    → (k' : Kernel) × (wake_due alarms k ≡ some (k', later_than k.ticks alarms))
      × HasWoken k alarms k'
unfolding wake_due woken make_ready
wake_due_lem [] k v s off ext = (
  k,
  refl,
  record {
    valid = v;
    asleep = s;
    off = off;
    external = ext;
    flag = λ u h. absurd (omega arith);
    flag_kept = λ e. e;
    status = λ u. refl;
    prio = λ u. refl;
    clock = refl;
    current = refl;
    idle = refl;
  },
)
wake_due_lem (a ∷ rest) k v s off ext = elim (Bool-cases (leb a.time_wake k.ticks)) [
  | inl due ↦
      let (k', e, w) =
        wake_due_lem rest (woken k a.thread) (woken-IsValid k v off ext a rest s)
          (AreAsleep-woken k a rest s) off ext in
      (
        k',
        woken_step k v off ext a rest s due (rw due e),
        woken-HasWoken k v off ext a rest s k' due w,
      )
  | inr later ↦
      let (k', e, w) = wake_due_lem rest k v (AreAsleep-tail k a rest s) off ext in
      (k', rw (later, e), kept-HasWoken k v off ext a rest s k' later w)
]
