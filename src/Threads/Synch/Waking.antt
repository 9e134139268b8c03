-- ===== src/Threads/Synch/Waking.antt =====
-- sema_up with waiters: whom it wakes, and what it leaves.
use native.Mathlib.Decide.{ℕ_discrete}
use pintos_project.Base.{
  ℕ, ◌≤◌, ◌≡◌, refl, ap, ◌∙◌, ◌≢◌, ◌⊎◌, inl, inr, true, false, not, ◌&&◌, some, List, ◌∷◌, ◌==◌,
  ltb, if◌then◌else◌, arith, Bool-cases, if_true, if_false, assert_passes, some->>=, update, erase,
  count,
}
use pintos_project.Threads.Kernel.{
  Kernel, is_blocked, with_level, set_level_outside, make_ready, requeue, thread_yield,
}
use pintos_project.Threads.Kernel.Invariant.{
  IsValid, RunsHighest, is_queued, with_interrupts-IsValid,
}
use pintos_project.Threads.Kernel.Switch.{IsSwitched}
use pintos_project.Threads.Kernel.Calls.{thread_unblock_off, make_ready-IsValid, yield_lem}
use pintos_project.Threads.Synch.{Sync, max_waiter, value_up, yield_to, sema_up}
use pintos_project.Threads.Synch.Choice.{IsFirstHighest, AreWaiting, woken_first, max_waiter-listed}

-- What yield_to leaves.
record HasYielded (s s' : Sync) : Type 0 where
  valid : IsValid s'.kernel
  highest : s.kernel.intr_on ≡ true → RunsHighest s'.kernel
  semas : s'.semas ≡ s.semas
  holders : s'.holders ≡ s.holders
  unblocked :
      (u : ℕ)
      → is_blocked (s.kernel.threads u).status ≡ false
      → is_blocked (s'.kernel.threads u).status ≡ false

switched_unblocked :
    (k k' : Kernel)
    → IsSwitched (requeue k) k'
    → (u : ℕ) → is_blocked (k.threads u).status ≡ false
    → is_blocked (k'.threads u).status ≡ false
switched_unblocked k k' w u h = elim (ℕ_discrete u k'.current) [
  | yes e ↦ ground (arith, w.valid.one u, e)
  | no ne ↦ cc (w.others u ne, same_unblocked)
]
  where
    same_unblocked : is_blocked ((requeue k).threads u).status ≡ false
    same_unblocked = unfold requeue in ground (arith, h)

yield_to_lem :
    (p : ℕ) (s : Sync)
    → IsValid s.kernel
    → s.kernel.current ≢ 0
    → s.kernel.in_external ≡ false
    → ((u : ℕ)
        → is_queued s.kernel u ≡ true
        → (s.kernel.threads u).priority ≤ p
          ⊎ ((s.kernel.threads u).priority ≤ (s.kernel.threads s.kernel.current).priority))
    → (s' : Sync) × (yield_to p s ≡ some s') × HasYielded s s'
unfolding yield_to
yield_to_lem p s v nn ext top =
    let k = s.kernel in
    let better = ltb (k.threads k.current).priority p in
    let chosen = if better && k.intr_on then thread_yield k else some k in
    elim (Bool-cases (better && k.intr_on)) [
      | inl y ↦
          let (k', e, w) = yield_lem k v nn ext in
          (
            record s { kernel = k' },
            some->>= chosen _ (if_true (better && k.intr_on) _ _ y ∙ e) refl,
            record {
              valid = w.valid;
              highest = λ on. w.highest;
              semas = refl;
              holders = refl;
              unblocked = switched_unblocked k k' w;
            },
          )
      | inr n ↦ (
        s,
        some->>= chosen _ (if_false (better && k.intr_on) _ _ n) refl,
        record {
          valid = v;
          highest = λ on u q. ground (arith, n, on, top u q);
          semas = refl;
          holders = refl;
          unblocked = λ u h. h;
        },
      )
    ]

-- What sema_up with waiters leaves.
pub record HasWokenFirst (s : Sync) (a : ℕ) (l : List ℕ) (w : ℕ) (s' : Sync) : Type 0 where
  pub first : IsFirstHighest s.kernel w l
  pub sema :
      s'.semas
      ≡ update s.semas a (record { value = value_up (s.semas a).value; waiters = erase w l })
  pub holders : s'.holders ≡ s.holders
  pub valid : IsValid s'.kernel
  pub unblocked : is_blocked (s'.kernel.threads w).status ≡ false
  pub highest : s.kernel.intr_on ≡ true → RunsHighest s'.kernel

module _ (junk a : ℕ) (s : Sync) (t : ℕ) (ts : List ℕ) (v : IsValid s.kernel)
    (hi : RunsHighest s.kernel) (nn : s.kernel.current ≢ 0) (ext : s.kernel.in_external ≡ false)
    (an : a ≢ 0) (e : (s.semas a).waiters ≡ t ∷ ts) (q : AreWaiting s.kernel (t ∷ ts)) where
  abbrev to_wake : ℕ
  to_wake = max_waiter s.kernel t (t ∷ ts)

  to_wake_real : to_wake ≢ 0
  to_wake_real z =
      omega (arith, q.real, max_waiter-listed s.kernel t ts, ap (λ i. count i (t ∷ ts)) z)

  to_wake_not_idle : to_wake ≢ s.kernel.idle
  to_wake_not_idle z =
      omega (arith, q.not_idle, max_waiter-listed s.kernel t ts, ap (λ i. count i (t ∷ ts)) z)

  to_wake_blocked : is_blocked (s.kernel.threads to_wake).status ≡ true
  to_wake_blocked = q.asleep to_wake (max_waiter-listed s.kernel t ts)

  abbrev off_kernel : Kernel
  off_kernel = with_level false s.kernel

  abbrev woken_kernel : Kernel
  woken_kernel = with_level s.kernel.intr_on (make_ready to_wake off_kernel)

  woken_kernel-IsValid : IsValid woken_kernel
  woken_kernel-IsValid =
      let k1 = make_ready to_wake off_kernel in
      with_interrupts-IsValid k1 s.kernel.intr_on k1.in_external k1.yield_on_return k1.ticks (
        make_ready-IsValid off_kernel to_wake
          (with_interrupts-IsValid s.kernel false s.kernel.in_external s.kernel.yield_on_return
            s.kernel.ticks v)
          to_wake_real to_wake_not_idle to_wake_blocked)

  woken_top :
      (u : ℕ)
      → is_queued woken_kernel u ≡ true
      → (woken_kernel.threads u).priority ≤ (s.kernel.threads to_wake).priority
        ⊎ ((woken_kernel.threads u).priority ≤ (woken_kernel.threads woken_kernel.current).priority)
  unfolding make_ready
  woken_top u h = ground (arith, h, hi u)

  abbrev woken_sync : Sync
  woken_sync = record s {
    kernel = woken_kernel;
    semas =
        update s.semas a
          (record { value = value_up (s.semas a).value; waiters = erase to_wake (t ∷ ts) });
  }

  woken_unblocked : is_blocked (woken_kernel.threads to_wake).status ≡ false
  unfolding make_ready
  woken_unblocked = ground arith

  sema_up_ends : sema_up junk a s ≡ yield_to (s.kernel.threads to_wake).priority woken_sync
  unfolding sema_up
  sema_up_ends = assert_passes (not (a == 0)) _ (ground (arith, an)) (
      rw
        (
          e,
          thread_unblock_off off_kernel to_wake to_wake_real to_wake_blocked refl,
          set_level_outside s.kernel.intr_on (make_ready to_wake off_kernel)
              (unfold make_ready in ext),
        )
        refl)

  -- sema_up with threads that wait, outside an external interrupt, on a valid kernel that runs a thread
  -- of the highest priority and where the waiters are blocked threads other than the idle one, passes its
  -- assertions. It wakes the waiter that came first among those of the highest priority, unlinks it from
  -- the waiters, adds one to the value modulo 2 ^ 32, and changes no holder of a lock. The kernel is
  -- valid again and, if interrupts were on, runs a thread of the highest priority.
  pub sema_up_wakes_first :
      (s' : Sync) × (sema_up junk a s ≡ some s') × HasWokenFirst s a (t ∷ ts) to_wake s'
  sema_up_wakes_first =
      let (s', e', y) =
        yield_to_lem (s.kernel.threads to_wake).priority woken_sync woken_kernel-IsValid
          (unfold make_ready in nn) (unfold make_ready in ext) woken_top in
      (
        s',
        sema_up_ends ∙ e',
        record {
          first = woken_first s.kernel t ts;
          sema = y.semas;
          holders = y.holders;
          valid = y.valid;
          unblocked = y.unblocked to_wake woken_unblocked;
          highest = y.highest;
        },
      )
