-- ===== src/Threads/Life/Locks.antt =====
-- The locks of a new thread, and the lock of the identifiers, where no thread has to wait.
use pintos_project.Base.{
  ℕ, ◌+◌, ◌-◌, ◌%◌, ◌^◌, ◌≤◌, ◌≡◌, refl, ap, ◌∙◌, ◌≢◌, true, false, not, some, [], ◌==◌, ltb,
  update, arith, assert_passes, some->>=, if_false,
}
use pintos_project.Threads.Kernel.{with_level, intr_set_level, set_level_outside}
use pintos_project.Threads.Synch.{
  Sync, set_kernel, set_holder, set_sema, sema_init, sema_down, down_once, lock_init,
  lock_acquire_other, lock_acquire, lock_release, sema_up, yield_to, value_up,
}
use pintos_project.Threads.Life.{Life, acquire_at_once, init_locks, allocate_tid}

abbrev pub fresh_lock : ℕ → Sync → Sync
fresh_lock l s =
    set_sema (record s { holders = update s.holders l 0 }) l (record { value = 1; waiters = [] })

lock_init_new : (l : ℕ) (s : Sync) → l ≢ 0 → lock_init l s ≡ some (fresh_lock l s)
unfolding lock_init sema_init
lock_init_new l s nz = let test : (l == 0) ≡ false = ground (arith, nz) in rw test refl

abbrev pub taken_by : ℕ → ℕ → Sync → Sync
taken_by l t s =
    set_holder l t (set_sema s l (record (s.semas l) { value = (s.semas l).value - 1 }))

down_once_free :
    (a : ℕ) (s : Sync)
    → (s.semas a).value ≢ 0
    → down_once a s
      ≡ some (true, set_sema s a (record (s.semas a) { value = (s.semas a).value - 1 }))
unfolding down_once
down_once_free a s v = if_false ((s.semas a).value == 0) _ _ (ground (arith, v))

sema_down_free :
    (a : ℕ) (s : Sync)
    → a ≢ 0
    → s.kernel.in_external ≡ false
    → (s.semas a).value ≢ 0
    → sema_down a s
      ≡ some (true, set_sema s a (record (s.semas a) { value = (s.semas a).value - 1 }))
unfolding sema_down
sema_down_free a s nz ext v =
    let off = with_level false s.kernel in
    assert_passes (not (a == 0)) _ (ground (arith, nz)) (
      assert_passes (not s.kernel.in_external) _ (ap not ext) (
        some->>= (down_once a (set_kernel s off)) _ (down_once_free a (set_kernel s off) v) (
          some->>= (intr_set_level s.kernel.intr_on off) _
            (set_level_outside s.kernel.intr_on off ext) refl)))

lock_acquire_other_free :
    (l t : ℕ) (s : Sync)
    → l ≢ 0
    → s.kernel.in_external ≡ false
    → (s.semas l).value ≢ 0
    → lock_acquire_other l t s ≡ some (true, taken_by l t s)
unfolding lock_acquire_other
lock_acquire_other_free l t s nz ext v = assert_passes (not (l == 0)) _ (ground (arith, nz)) (
    assert_passes (not s.kernel.in_external) _ (ap not ext)
      (some->>= (sema_down l s) _ (sema_down_free l s nz ext v) refl))

lock_acquire_free :
    (l : ℕ) (s : Sync)
    → l ≢ 0
    → s.kernel.in_external ≡ false
    → (s.semas l).value ≢ 0
    → s.holders l ≢ s.kernel.current
    → lock_acquire l s ≡ some (true, taken_by l s.kernel.current s)
unfolding lock_acquire
lock_acquire_free l s nz ext v other = assert_passes (not (l == 0)) _ (ground (arith, nz)) (
    assert_passes (not s.kernel.in_external) _ (ap not ext) (
      assert_passes (not (s.holders l == s.kernel.current)) _ (ground (arith, other))
        (some->>= (sema_down l s) _ (sema_down_free l s nz ext v) refl)))

acquire_at_once_free :
    (l t : ℕ) (s : Sync)
    → l ≢ 0
    → s.kernel.in_external ≡ false
    → (s.semas l).value ≢ 0
    → acquire_at_once l t s ≡ some (taken_by l t s)
unfolding acquire_at_once
acquire_at_once_free l t s nz ext v =
    some->>= (lock_acquire_other l t s) _ (lock_acquire_other_free l t s nz ext v) refl

-- The locks of a new thread: the four are set up, and it holds three of them.
abbrev pub with_locks : ℕ → Sync → Sync
with_locks t s =
    let s4 =
      fresh_lock (t + 128) (fresh_lock (t + 104) (fresh_lock (t + 56) (fresh_lock (t + 80) s))) in
    taken_by (t + 128) t (taken_by (t + 56) t (taken_by (t + 104) t s4))

pub init_locks_lem :
    (t : ℕ) (s : Sync) → s.kernel.in_external ≡ false → init_locks t s ≡ some (with_locks t s)
unfolding init_locks
init_locks_lem t s ext =
    let s1 = fresh_lock (t + 80) s in
    let s2 = fresh_lock (t + 56) s1 in
    let s3 = fresh_lock (t + 104) s2 in
    let s4 = fresh_lock (t + 128) s3 in
    let s5 = taken_by (t + 104) t s4 in
    let s6 = taken_by (t + 56) t s5 in
    some->>= (lock_init (t + 80) s) _ (lock_init_new (t + 80) s (omega arith)) (
      some->>= (lock_init (t + 56) s1) _ (lock_init_new (t + 56) s1 (omega arith)) (
        some->>= (lock_init (t + 104) s2) _ (lock_init_new (t + 104) s2 (omega arith)) (
          some->>= (lock_init (t + 128) s3) _ (lock_init_new (t + 128) s3 (omega arith)) (
            some->>= (acquire_at_once (t + 104) t s4) _
              (acquire_at_once_free (t + 104) t s4 (omega arith) ext (ground arith))
              (some->>= (acquire_at_once (t + 56) t s5) _
                (acquire_at_once_free (t + 56) t s5 (omega arith) ext (ground arith))
                (acquire_at_once_free (t + 128) t s6 (omega arith) ext (ground arith)))))))

-- The lock of the identifiers, free, is taken and released again at once, if the variable of sema_up that
-- is not set holds no more than the priority of the running thread.
abbrev pub IsFree : ℕ → Sync → Type 0
IsFree l s = ((s.semas l).value ≡ 1) × ((s.semas l).waiters ≡ []) × (s.holders l ≢ s.kernel.current)

yield_to_quiet :
    (junk : ℕ) (s : Sync)
    → junk ≤ (s.kernel.threads s.kernel.current).priority
    → yield_to junk s ≡ some s
unfolding yield_to
yield_to_quiet junk s le =
    let quiet : ltb (s.kernel.threads s.kernel.current).priority junk ≡ false =
      ground (arith, le) in
    rw quiet refl

sema_up_alone :
    (junk a : ℕ) (s : Sync)
    → a ≢ 0
    → s.kernel.in_external ≡ false
    → (s.semas a).waiters ≡ []
    → junk ≤ (s.kernel.threads s.kernel.current).priority
    → sema_up junk a s
      ≡ some (set_sema s a (record { value = value_up (s.semas a).value; waiters = [] }))
unfolding sema_up
sema_up_alone junk a s nz ext no_one le = assert_passes (not (a == 0)) _ (ground (arith, nz)) (
    rw no_one (
      some->>= (intr_set_level s.kernel.intr_on s.kernel) _
        (set_level_outside s.kernel.intr_on s.kernel ext)
        (yield_to_quiet junk
            (set_sema s a (record (s.semas a) { value = value_up (s.semas a).value })) le
          ∙ ap
              (λ w.
                some (set_sema s a (record { value = value_up (s.semas a).value; waiters = w })))
              no_one)))

lock_release_alone :
    (junk l : ℕ) (s : Sync)
    → l ≢ 0
    → s.kernel.in_external ≡ false
    → (s.semas l).waiters ≡ []
    → s.holders l ≡ s.kernel.current
    → junk ≤ (s.kernel.threads s.kernel.current).priority
    → lock_release junk l s
      ≡ some (
          set_sema
            (set_holder l 0 s)
            l
            (record { value = value_up (s.semas l).value; waiters = [] }))
unfolding lock_release
lock_release_alone junk l s nz ext no_one held le =
    assert_passes (not (l == 0)) _ (ground (arith, nz)) (
      assert_passes (s.holders l == s.kernel.current) _ (ground (arith, held))
        (sema_up_alone junk l (set_holder l 0 s) nz ext no_one le))

-- The lock taken and released.
abbrev pub unlocked : ℕ → Sync → Sync
unlocked l s =
    let s1 = taken_by l s.kernel.current s in
    set_sema (set_holder l 0 s1) l (record { value = value_up (s1.semas l).value; waiters = [] })

-- The next identifier is given, and is then the largest one.
pub allocate_tid_lem :
    (junk tid_lock : ℕ) (l : Life)
    → tid_lock ≢ 0
    → l.sync.kernel.in_external ≡ false
    → IsFree tid_lock l.sync
    → junk ≤ (l.sync.kernel.threads l.sync.kernel.current).priority
    → allocate_tid junk tid_lock l
      ≡ some (
        l.next_tid,
        record l {
          sync = unlocked tid_lock l.sync;
          next_tid = (l.next_tid + 1) % 2 ^ 32;
          max_tid = l.next_tid;
        },
      )
unfolding allocate_tid
allocate_tid_lem junk tid_lock l nz ext (one, no_one, other) le =
    let cur = l.sync.kernel.current in
    let s1 = taken_by tid_lock cur l.sync in
    some->>= (lock_acquire tid_lock l.sync) _
      (lock_acquire_free tid_lock l.sync nz ext (omega (arith, one)) other)
      (some->>= (lock_release junk tid_lock s1) _
        (lock_release_alone junk tid_lock s1 nz ext (ground (arith, no_one)) (ground arith) le)
        (assert_passes (cur == cur) _ (ground arith) refl))

pub unlocked-IsFree :
    (l : ℕ) (s : Sync) → IsFree l s → s.kernel.current ≢ 0 → IsFree l (unlocked l s)
unlocked-IsFree l s (one, no_one, other) nc =
    (ground (arith, one), ground (arith, no_one), ground (arith, nc))
