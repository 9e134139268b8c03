-- ===== src/Threads/Timer/Sleep.antt =====
-- Going to sleep until a later tick.
use pintos_project.Base.{
  ℕ, ◌+◌, ◌-◌, ◌<◌, ◌≡◌, refl, sym, ◌∙◌, ◌≢◌, ◌⊎◌, inl, inr, Bool, true, false, Bool-cases,
  assert_passes, none, some, List, [], ◌∷◌, ◌++◌, ◌==◌, ltb, if◌then◌else◌, arith, if_true,
  some->>=, lt→ltb,
}
use pintos_project.Threads.Kernel.{
  Kernel, blocked, is_blocked, set_status, with_level, thread_block,
}
use pintos_project.Threads.Kernel.Invariant.{IsValid, with_interrupts-IsValid}
use pintos_project.Threads.Kernel.Switch.{IsSwitched}
use pintos_project.Threads.Kernel.Calls.{thread_block_lem}
use pintos_project.Threads.Timer.{Alarm, Clock, timer_sleep}
use pintos_project.Threads.Timer.Alarms.{alarms_of, AreAsleep}

alarms_of-snoc :
    (u : ℕ) (l : List Alarm) (a : Alarm)
    → alarms_of u (l ++ a ∷ []) ≡ alarms_of u l + (if a.thread == u then 1 else 0)
alarms_of-snoc u [] a = omega arith
alarms_of-snoc u (b ∷ l) a = omega (arith, alarms_of-snoc u l a)

-- The alarm that timer_sleep sets.
abbrev pub alarm_for : Kernel → ℕ → Alarm
alarm_for k wake = record { time_wake = wake; thread = k.current }

module _ (k : Kernel) (alarms : List Alarm) (n : ℕ) (v : IsValid k) (s : AreAsleep k alarms)
    (nn : k.current ≢ 0) (ni : k.current ≢ k.idle) where
  none_set : alarms_of k.current alarms ≡ 0
  none_set = ground (arith, s.asleep k.current, v.one k.current)

  was_blocked :
      (u : ℕ)
      → 0 < alarms_of u (alarms ++ alarm_for k n ∷ [])
      → is_blocked ((set_status (with_level false k) k.current blocked).threads u).status ≡ true
  was_blocked u h = ground (arith, h, s.asleep u, alarms_of-snoc u alarms (alarm_for k n))

  not_chosen :
      (k' : Kernel)
      → IsSwitched (set_status (with_level false k) k.current blocked) k'
      → (u : ℕ) → 0 < alarms_of u (alarms ++ alarm_for k n ∷ [])
      → u ≢ k'.current
  not_chosen k' w u h e = elim w.chosen [
    | inl i ↦ ground (arith, e, i, h, alarms_of-snoc u alarms (alarm_for k n), s.not_idle, ni)
    | inr q ↦ ground (arith, e, q, was_blocked u h)
  ]

  slept-AreAsleep :
      (k' : Kernel)
      → IsSwitched (set_status (with_level false k) k.current blocked) k'
      → AreAsleep k' (alarms ++ alarm_for k n ∷ [])
  slept-AreAsleep k' w = record {
    asleep = λ u h. cc (w.others u (not_chosen k' w u h), was_blocked u h);
    once = λ u. ground (arith, s.once u, none_set, alarms_of-snoc u alarms (alarm_for k n));
    real = ground (arith, s.real, nn, alarms_of-snoc 0 alarms (alarm_for k n));
    not_idle =
        ground (arith, s.not_idle, ni, w.idle, alarms_of-snoc k'.idle alarms (alarm_for k n));
  }

-- What is left where the thread has gone to sleep.
pub record HasSlept (start n : ℕ) (c c' : Clock) : Type 0 where
  pub alarms : c'.alarms ≡ c.alarms ++ alarm_for c.kernel (n + start) ∷ []
  pub switched :
      IsSwitched (set_status (with_level false c.kernel) c.kernel.current blocked) c'.kernel
  pub away : c'.kernel.current ≢ c.kernel.current
  pub asleep : is_blocked (c'.kernel.threads c.kernel.current).status ≡ true
  pub all_asleep : AreAsleep c'.kernel c'.alarms

-- timer_sleep, on a valid kernel that runs a thread other than the idle one outside an external interrupt,
-- with alarms of sleeping threads, where fewer ticks than the given number have passed since it read the
-- clock: without the memory for an alarm it faults. With it, it passes its assertions: an alarm at the end
-- of the ticks, from the clock that was read, is appended for the thread, which is blocked and no longer
-- runs; the kernel is valid again and runs the next thread, and the alarms, the new one too, are those of
-- sleeping threads.
pub timer_sleep_lem :
    (room : Bool) (start now n : ℕ) (c : Clock)
    → IsValid c.kernel
    → AreAsleep c.kernel c.alarms
    → c.kernel.current ≢ 0
    → c.kernel.current ≢ c.kernel.idle
    → c.kernel.in_external ≡ false
    → now - start < n
    → ((room ≡ false) × (timer_sleep room start now n c ≡ none))
      ⊎ ((room ≡ true)
          × (c' : Clock) × (timer_sleep room start now n c ≡ some c')
          × HasSlept start n c c')
unfolding timer_sleep
timer_sleep_lem room start now n c v s nn ni ext short =
    let k = c.kernel in
    let wake = n + start in
    let off =
      thread_block_lem (with_level false k)
        (with_interrupts-IsValid k false k.in_external k.yield_on_return k.ticks v) refl ext in
    let (k', e, w) = off in
    let t : ltb (now - start) n ≡ true = lt→ltb (now - start) n short in
    let own : 0 < alarms_of k.current (c.alarms ++ alarm_for k wake ∷ []) =
      ground (arith, alarms_of-snoc k.current c.alarms (alarm_for k wake)) in
    let away : k'.current ≢ k.current =
      λ q. not_chosen k c.alarms wake v s nn ni k' w k.current own (sym q) in
    elim (Bool-cases room) [
      | inr f ↦ inl (f, if_true (ltb (now - start) n) _ _ t ∙ rw f refl)
      | inl y ↦ inr (
        y,
        record { kernel = k'; alarms = c.alarms ++ alarm_for k wake ∷ [] },
        if_true (ltb (now - start) n) _ _ t
            ∙ assert_passes room _ y (some->>= (thread_block (with_level false k)) _ e refl),
        record {
          alarms = refl;
          switched = w;
          away = away;
          asleep = ground (arith, w.others k.current (λ q. away (sym q)));
          all_asleep = slept-AreAsleep k c.alarms wake v s nn ni k' w;
        },
      )
    ]
