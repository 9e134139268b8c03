-- ===== src/Threads/Synch.antt =====
-- threads/synch.c: semaphores, locks and the queue of a condition variable, on the kernel of thread.c.
-- A semaphore, a lock and a condition stand behind an address; a lock's semaphore has the lock's
-- address, and its holder is 0 where it is NULL. sema_down sleeps in a loop: `down_once` is one round
-- of it, and its thread makes the next round when it is switched to again. An ASSERT that fails is
-- `none`.
pub mod Choice
pub mod Waking
pub mod Effects
pub mod Exclusion
use pintos_project.Base.{
  ℕ, ◌+◌, ◌-◌, ◌%◌, ◌^◌, ◌≡◌, Bool, true, false, not, ◌&&◌, Option, none, some, List, [], ◌∷◌, ◌++◌,
  ◌==◌, ltb, if◌then◌else◌, update, erase, ◌>>=◌, ◌>>◌, assert,
}
use pintos_project.Threads.Kernel.{
  Kernel, with_level, intr_set_level, thread_block, thread_unblock, thread_yield,
}

-- struct semaphore: `waiters` are the threads whose `elem` the list links, front first.
pub record Sema : Type 0 where
  pub value : ℕ
  pub waiters : List ℕ

-- The kernel with its semaphores, the holders of its locks, and the semaphores that the waiters of
-- each condition variable queue (`struct semaphore_elem`).
pub record Sync : Type 0 where
  pub kernel : Kernel
  pub semas : ℕ → Sema
  pub holders : ℕ → ℕ
  pub conds : ℕ → List ℕ

abbrev pub set_sema : Sync → ℕ → Sema → Sync
set_sema s a sema = record s { semas = update s.semas a sema }

abbrev pub set_kernel : Sync → Kernel → Sync
set_kernel s k = record s { kernel = k }

-- sema_init (sema, value)
unfoldable pub sema_init : ℕ → ℕ → Sync → Option Sync
sema_init a value s =
    assert (not (a == 0)) >> some (set_sema s a (record { value = value; waiters = [] }))

-- One round of the loop of sema_down, with interrupts off: true if the semaphore was taken, which
-- ends the loop, false if the thread went to sleep on it.
unfoldable pub down_once : ℕ → Sync → Option (Bool × Sync)
down_once a s =
    let sema = s.semas a in
    if sema.value == 0
    then (do
      k ← thread_block s.kernel
      some (
        false,
        record s {
          kernel = k;
          semas =
              update s.semas a (record sema { waiters = sema.waiters ++ s.kernel.current ∷ [] });
        },
      ))
    else some (true, set_sema s a (record sema { value = sema.value - 1 }))

-- sema_down (sema), as far as its first thread_block. A thread that takes the semaphore at once gets
-- its interrupt level back.
unfoldable pub sema_down : ℕ → Sync → Option (Bool × Sync)
unfolding down_once
sema_down a s = do
  assert (not (a == 0))
  assert (not s.kernel.in_external)
  (took, s') ← down_once a (set_kernel s (with_level false s.kernel))
  k ← (if took then intr_set_level s.kernel.intr_on s'.kernel else some s'.kernel)
  some (took, set_kernel s' k)

-- sema_try_down (sema)
pub sema_try_down : ℕ → Sync → Option (Bool × Sync)
sema_try_down a s =
    let sema = s.semas a in
    assert (not (a == 0))
    >> some (
        if ltb 0 sema.value
        then (true, set_sema s a (record sema { value = sema.value - 1 }))
        else (false, s))

-- The loop of sema_up that looks for the waiter to wake: the first of those of the highest priority.
unfoldable pub max_waiter : Kernel → ℕ → List ℕ → ℕ
max_waiter k best [] = best
max_waiter k best (t ∷ ts) =
    max_waiter k (if ltb (k.threads best).priority (k.threads t).priority then t else best) ts

-- `sema->value++` on an `unsigned`.
abbrev pub value_up : ℕ → ℕ
value_up v = (v + 1) % 2 ^ 32

-- The end of sema_up: `pri_max` is what the variable holds, with the interrupt level restored.
unfoldable pub yield_to : ℕ → Sync → Option Sync
yield_to pri_max s = do
  k ←
      (if ltb (s.kernel.threads s.kernel.current).priority pri_max && s.kernel.intr_on
        then thread_yield s.kernel
        else some s.kernel)
  some (set_kernel s k)

-- sema_up (sema), as far as its thread_yield. The source leaves `pri_max` uninitialised where no
-- thread waits: `junk` is what it then holds.
unfoldable pub sema_up : ℕ → ℕ → Sync → Option Sync
unfolding yield_to max_waiter
sema_up junk a s = do
  assert (not (a == 0))
  let sema = s.semas a
  elim sema.waiters [
    | [] ↦ do
      k ← intr_set_level s.kernel.intr_on s.kernel
      yield_to junk (set_sema (set_kernel s k) a (record sema { value = value_up sema.value }))
    | t ∷ ts ↦ do
      let w = max_waiter s.kernel t (t ∷ ts)
      k ← thread_unblock w (with_level false s.kernel)
      k' ← intr_set_level s.kernel.intr_on k
      yield_to (s.kernel.threads w).priority (record s {
        kernel = k';
        semas =
            update s.semas a (record { value = value_up sema.value; waiters = erase w (t ∷ ts) });
      })
  ]

-- lock_held_by_current_thread (lock)
abbrev pub lock_held_by_current_thread : ℕ → Sync → Bool
lock_held_by_current_thread l s = s.holders l == s.kernel.current

-- lock_init (lock)
unfoldable pub lock_init : ℕ → Sync → Option Sync
unfolding sema_init
lock_init l s = do
  assert (not (l == 0))
  sema_init l 1 (record s { holders = update s.holders l 0 })

abbrev pub set_holder : ℕ → ℕ → Sync → Sync
set_holder l t s = record s { holders = update s.holders l t }

-- lock_acquire (lock), as far as it does not sleep: the holder is set by the thread that took the
-- semaphore.
unfoldable pub lock_acquire : ℕ → Sync → Option (Bool × Sync)
unfolding sema_down
lock_acquire l s = do
  assert (not (l == 0))
  assert (not s.kernel.in_external)
  assert (not (lock_held_by_current_thread l s))
  (took, s') ← sema_down l s
  some (took, if took then set_holder l s'.kernel.current s' else s')

-- lock_acquire_other (lock, t)
unfoldable pub lock_acquire_other : ℕ → ℕ → Sync → Option (Bool × Sync)
unfolding sema_down
lock_acquire_other l t s = do
  assert (not (l == 0))
  assert (not s.kernel.in_external)
  (took, s') ← sema_down l s
  some (took, if took then set_holder l t s' else s')

-- lock_try_acquire (lock)
pub lock_try_acquire : ℕ → Sync → Option (Bool × Sync)
unfolding sema_try_down
lock_try_acquire l s = do
  assert (not (l == 0))
  assert (not (lock_held_by_current_thread l s))
  (success, s') ← sema_try_down l s
  some (success, if success then set_holder l s'.kernel.current s' else s')

-- lock_release (lock)
unfoldable pub lock_release : ℕ → ℕ → Sync → Option Sync
unfolding sema_up
lock_release junk l s = do
  assert (not (l == 0))
  assert (lock_held_by_current_thread l s)
  sema_up junk l (set_holder l 0 s)

-- cond_wait (cond, lock), as far as its lock_release: `waiter` is the semaphore on its stack.
pub cond_wait_begin : ℕ → ℕ → ℕ → ℕ → Sync → Option Sync
unfolding sema_init lock_release
cond_wait_begin junk cond lock waiter s = do
  assert (not (cond == 0))
  assert (not (lock == 0))
  assert (not s.kernel.in_external)
  assert (lock_held_by_current_thread lock s)
  s1 ← sema_init waiter 0 s
  lock_release junk lock (record s1 { conds = update s1.conds cond (s1.conds cond ++ waiter ∷ []) })

-- cond_signal (cond, lock)
pub cond_signal : ℕ → ℕ → ℕ → Sync → Option Sync
unfolding sema_up
cond_signal junk cond lock s = do
  assert (not (cond == 0))
  assert (not (lock == 0))
  assert (not s.kernel.in_external)
  assert (lock_held_by_current_thread lock s)
  elim (s.conds cond) [
    | [] ↦ some s
    | w ∷ ws ↦ sema_up junk w (record s { conds = update s.conds cond ws })
  ]
