-- ===== src/Threads/Timer/Interrupt.antt =====
-- The timer interrupt as a whole, and going to sleep.
use native.Mathlib.Decide.{ℕ_discrete}
use pintos_project.Base.{
  ℕ, ◌+◌, ◌≤◌, ◌<◌, ◌≡◌, refl, ap, sym, ◌∙◌, ◌≢◌, inl, inr, true, false, not, some, List,
  if◌then◌else◌, arith, Bool-cases, if_true, if_false, assert_passes, ◌>>=◌, some->>=,
}
use pintos_project.Threads.Kernel.{Kernel, is_blocked, thread_yield, requeue}
use pintos_project.Threads.Kernel.Invariant.{
  IsValid, RunsHighest, with_interrupts, with_interrupts-IsValid,
}
use pintos_project.Threads.Kernel.Switch.{IsSwitched}
use pintos_project.Threads.Kernel.Calls.{yield_lem}
use pintos_project.Threads.Bsd.{named_idle}
use pintos_project.Threads.Timer.{
  Alarm, Clock, time_slice, thread_tick, wake_due, timer_interrupt, finish_external,
  intr_handler_timer,
}
use pintos_project.Threads.Timer.Tick.{thread_tick_lem, HasTicked}
use pintos_project.Threads.Timer.Alarms.{
  alarms_of, due_at, later_than, AreAsleep, wake_due_lem, HasWoken,
}

-- What an interrupt of the timer does to a clock: the due alarms are gone and their threads no
-- longer blocked, the others stay and sleep on, and when the time slice is over or an alarm was due
-- the processor is with a thread of the highest priority.
pub record HasInterrupted (c c' : Clock) : Type 0 where
  pub valid : IsValid c'.kernel
  pub asleep : AreAsleep c'.kernel c'.alarms
  pub clock : c'.kernel.ticks ≡ c.kernel.ticks + 1
  pub alarms : c'.alarms ≡ later_than (c.kernel.ticks + 1) c.alarms
  pub woken :
      (u : ℕ)
      → 0 < alarms_of u (due_at (c.kernel.ticks + 1) c.alarms)
      → is_blocked (c'.kernel.threads u).status ≡ false
  pub slice : time_slice ≤ c.kernel.thread_ticks + 1 → RunsHighest c'.kernel
  pub wake :
      (u : ℕ) → 0 < alarms_of u (due_at (c.kernel.ticks + 1) c.alarms) → RunsHighest c'.kernel

pub AreAsleep-same :
    (k k' : Kernel) (l : List Alarm)
    → ((u : ℕ) → (k'.threads u).status ≡ (k.threads u).status)
    → k'.idle ≡ k.idle
    → AreAsleep k l
    → AreAsleep k' l
AreAsleep-same k k' l st id s = record {
  asleep = λ u h. cc (st u, s.asleep u h);
  once = s.once;
  real = s.real;
  not_idle = cc (id, s.not_idle);
}

-- The yield on return.
module _ (k : Kernel) (l : List Alarm) (v : IsValid k) (s : AreAsleep k l) where
  still_blocked : (u : ℕ) → 0 < alarms_of u l → is_blocked ((requeue k).threads u).status ≡ true
  unfolding requeue
  still_blocked u h = ground (arith, s.asleep u h, v.one u)

  yielded-AreAsleep : (k' : Kernel) → IsSwitched (requeue k) k' → AreAsleep k' l
  yielded-AreAsleep k' w = record {
    asleep = λ u h. cc (w.others u (away u h), still_blocked u h);
    once = s.once;
    real = s.real;
    not_idle = cc (w.idle, same_idle, s.not_idle);
  }
    where
      same_idle : (requeue k).idle ≡ k.idle
      same_idle = unfold requeue in ground arith

      away : (u : ℕ) → 0 < alarms_of u l → u ≢ k'.current
      away u h e = elim w.chosen [
        | inl i ↦ ground (arith, e, i, same_idle, h, s.not_idle)
        | inr q ↦ ground (arith, e, q, still_blocked u h)
      ]

  yielded_woken :
      (k' : Kernel)
      → IsSwitched (requeue k) k'
      → (u : ℕ) → is_blocked (k.threads u).status ≡ false
      → is_blocked (k'.threads u).status ≡ false
  yielded_woken k' w u h = elim (ℕ_discrete u k'.current) [
    | yes e ↦ ground (arith, w.valid.one u, e)
    | no ne ↦ cc (w.others u ne, same_unblocked)
  ]
    where
      same_unblocked : is_blocked ((requeue k).threads u).status ≡ false
      same_unblocked = unfold requeue in ground (arith, h)

  requeue-ticks : (requeue k).ticks ≡ k.ticks
  unfolding requeue
  requeue-ticks = ground arith

-- The kernel in the handler, before the tick.
abbrev entered : Kernel → Kernel
entered k = with_interrupts k k.intr_on true false (k.ticks + 1)

abbrev left_intr : Kernel → Kernel
left_intr k = with_interrupts k k.intr_on false k.yield_on_return k.ticks

-- What timer_interrupt leaves behind, inside the handler.
handled :
    (c : Clock)
    → IsValid c.kernel
    → AreAsleep c.kernel c.alarms
    → c.kernel.intr_on ≡ false
    → named_idle c.kernel c.kernel.idle ≡ true
    → (k2 : Kernel) × (k3 : Kernel) × (timer_interrupt (record c {
      kernel = with_interrupts c.kernel c.kernel.intr_on true false c.kernel.ticks;
    })
        ≡ some (record { kernel = k3; alarms = later_than (c.kernel.ticks + 1) c.alarms }))
      × HasTicked (entered c.kernel) k2
      × HasWoken k2 c.alarms k3
unfolding timer_interrupt
handled c v s off named =
    let k1 = entered c.kernel in
    let (k2, e2, t) =
      thread_tick_lem k1
        (with_interrupts-IsValid c.kernel c.kernel.intr_on true false (c.kernel.ticks + 1) v) named
        refl in
    let (k3, e3, w) =
      wake_due_lem c.alarms k2 t.valid
        (AreAsleep-same c.kernel k2 c.alarms t.quiet.status t.quiet.idle s) (t.quiet.intr ∙ off)
        t.quiet.external in
    (
      k2,
      k3,
      some->>= (thread_tick k1) _ e2 (some->>= (wake_due c.alarms k2) _ e3 (rw t.quiet.ticks)),
      t,
      w,
    )

-- The facts about the kernel `k3` in which the handler decides whether to yield.
record IsHandled (c : Clock) (k3 : Kernel) : Type 0 where
  valid : IsValid (left_intr k3)
  asleep : AreAsleep (left_intr k3) (later_than (c.kernel.ticks + 1) c.alarms)
  clock : k3.ticks ≡ c.kernel.ticks + 1
  current : k3.current ≡ c.kernel.current
  off : k3.intr_on ≡ false
  external : k3.in_external ≡ true
  woken :
      (u : ℕ)
      → 0 < alarms_of u (due_at (c.kernel.ticks + 1) c.alarms)
      → is_blocked (k3.threads u).status ≡ false
  slice : time_slice ≤ c.kernel.thread_ticks + 1 → k3.yield_on_return ≡ true
  wake :
      (u : ℕ) → 0 < alarms_of u (due_at (c.kernel.ticks + 1) c.alarms) → k3.yield_on_return ≡ true

before_yield :
    (c : Clock) (k2 k3 : Kernel)
    → HasTicked (entered c.kernel) k2
    → HasWoken k2 c.alarms k3
    → IsHandled c k3
before_yield c k2 k3 t w = record {
  valid = with_interrupts-IsValid k3 k3.intr_on false k3.yield_on_return k3.ticks w.valid;
  asleep = AreAsleep-same k3 (left_intr k3) _ (λ u. refl) refl (rw t.quiet.ticks at w.asleep);
  clock = w.clock ∙ t.quiet.ticks;
  current = w.current ∙ t.quiet.current;
  off = w.off;
  external = w.external;
  woken = λ u h. ground (arith, w.status u, h, t.quiet.ticks);
  slice = λ h. w.flag_kept (t.preempts h);
  wake = λ u h. w.flag u (rw t.quiet.ticks h);
}

not_yielded :
    (c : Clock) (k3 : Kernel)
    → IsHandled c k3
    → k3.yield_on_return ≡ false
    → HasInterrupted c
        (record { kernel = left_intr k3; alarms = later_than (c.kernel.ticks + 1) c.alarms })
not_yielded c k3 h e = record {
  valid = h.valid;
  asleep = h.asleep;
  clock = h.clock;
  alarms = refl;
  woken = h.woken;
  slice = λ p. absurd (cc (h.slice p));
  wake = λ u p. absurd (cc (h.wake u p));
}

after_yield :
    (c : Clock) (k3 k4 : Kernel)
    → IsHandled c k3
    → IsSwitched (requeue (left_intr k3)) k4
    → HasInterrupted c (record { kernel = k4; alarms = later_than (c.kernel.ticks + 1) c.alarms })
after_yield c k3 k4 h w =
    let l = later_than (c.kernel.ticks + 1) c.alarms in
    record {
      valid = w.valid;
      asleep = yielded-AreAsleep (left_intr k3) l h.valid h.asleep k4 w;
      clock = w.ticks ∙ requeue-ticks (left_intr k3) l h.valid h.asleep ∙ h.clock;
      alarms = refl;
      woken = λ u p. yielded_woken (left_intr k3) l h.valid h.asleep k4 w u (h.woken u p);
      slice = λ p. w.highest;
      wake = λ u p. w.highest;
    }

-- The timer interrupt on a valid kernel with interrupts off, outside another external interrupt, whose
-- idle thread is named "idle" and whose alarms are those of sleeping threads, passes every assertion of
-- the handler, thread_tick, the alarm loop and the yield on return. The clock advances by one, exactly the
-- alarms that are not due remain, the threads of those that are due are no longer blocked, and the kernel
-- and the alarms are valid again. If the time slice was over or an alarm was due, the processor is with a
-- thread of the highest priority.
pub intr_handler_timer_lem :
    (c : Clock)
    → IsValid c.kernel
    → AreAsleep c.kernel c.alarms
    → c.kernel.intr_on ≡ false
    → c.kernel.in_external ≡ false
    → c.kernel.current ≢ 0
    → named_idle c.kernel c.kernel.idle ≡ true
    → (c' : Clock) × (intr_handler_timer c ≡ some c') × HasInterrupted c c'
unfolding intr_handler_timer finish_external
intr_handler_timer_lem c v s off ext nn named =
    let (k2, k3, e, t, w) = handled c v s off named in
    let h = before_yield c k2 k3 t w in
    let l = later_than (c.kernel.ticks + 1) c.alarms in
    let pass =
      λ (c' : Clock)
          (f : ((if k3.yield_on_return then thread_yield (left_intr k3) else some (left_intr k3))
              >>= λ k5. some (record { kernel = k5; alarms = l }))
            ≡ some c').
        assert_passes (not c.kernel.intr_on) _ (ap not off) (
          assert_passes (not c.kernel.in_external) _ (ap not ext) (
            some->>=
              (timer_interrupt (record c {
                kernel = with_interrupts c.kernel c.kernel.intr_on true false c.kernel.ticks;
              }))
              finish_external e
              (assert_passes (not k3.intr_on) _ (ap not h.off)
                (assert_passes k3.in_external _ h.external f)))) in
    elim (Bool-cases k3.yield_on_return) [
      | inl y ↦
          let (k4, e4, sw) = yield_lem (left_intr k3) h.valid (λ z. nn (sym h.current ∙ z)) refl in
          let c' : Clock = record { kernel = k4; alarms = l } in
          (
            c',
            pass c' (
                some->>=
                  (if k3.yield_on_return then thread_yield (left_intr k3) else some (left_intr k3))
                  _ (if_true k3.yield_on_return _ _ y ∙ e4) refl),
            after_yield c k3 k4 h sw,
          )
      | inr n ↦
          let c' : Clock = record { kernel = left_intr k3; alarms = l } in
          (
            c',
            pass c' (
                some->>=
                  (if k3.yield_on_return then thread_yield (left_intr k3) else some (left_intr k3))
                  _ (if_false k3.yield_on_return _ _ n) refl),
            not_yielded c k3 h n,
          )
    ]
