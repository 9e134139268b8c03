-- ===== src/Threads/Life.antt =====
-- threads/thread.c: the creation and the end of a thread, its identifier, and the list of all threads.
-- `tid_lock` is the address of the lock of that name, and `junk` what the variable of sema_up holds that it
-- does not set. A lock that its thread has to wait for, and a lock_release that gives the processor away
-- inside of a function, are `none` here: what follows would run after other threads.
pub mod Locks
pub mod Frames
pub mod Birth
pub mod Death
use Prim.Native.String.{String, slice}
use text.Mathlib.Text.{◌==◌ as str_eq}
use pintos_project.Base.{
  ℕ, zero, suc, ◌+◌, ◌-◌, ◌%◌, ◌^◌, Bool, true, false, not, ◌&&◌, Option, none, some, List, [], ◌∷◌,
  ◌++◌, ◌==◌, ltb, leb, if◌then◌else◌, update, erase, ◌>>=◌, ◌>>◌, assert,
}
use pintos_project.Base.Int.{ℤ, pos}
use pintos_project.Palloc.{Memory, palloc_get_page, pg_size}
use pintos_project.Paging.{store32}
use pintos_project.Threads.FixedPoint.{pri_max, fp_convert_to_fp}
use pintos_project.Threads.Kernel.{
  Kernel, Thread, Status, blocked, dying, intr_set_level, with_level, set_status, schedule,
  thread_unblock,
}
use pintos_project.Threads.Synch.{
  Sync, set_kernel, lock_init, lock_acquire, lock_acquire_other, lock_release,
}

-- The locks in a `struct thread`.
abbrev pub lock_wait_of : ℕ → ℕ
lock_wait_of t = t + 56

abbrev pub lock_exit_of : ℕ → ℕ
lock_exit_of t = t + 80

abbrev pub lock_exec_of : ℕ → ℕ
lock_exec_of t = t + 104

abbrev pub lock_exit2_of : ℕ → ℕ
lock_exit2_of t = t + 128

-- The state with the memory, `next_tid` of allocate_tid and `max_tid` of tid_range.
pub record Life : Type 0 where
  pub sync : Sync
  pub memory : Memory
  pub next_tid : ℕ
  pub max_tid : ℕ

-- The fields that init_thread sets, the name cut to the 15 characters that fit.
abbrev pub init_fields : String → ℕ → Kernel → Thread
init_fields name priority k = record {
  tid = 0;
  status = blocked;
  name = slice name 0 15;
  priority = priority;
  recent_unused = k.ticks;
  nice = if k.mlfqs && not (str_eq "main" name) then (k.threads k.current).nice else pos 0;
  recent_cpu =
      if k.mlfqs
      then if str_eq "main" name then fp_convert_to_fp (pos 0) else (k.threads k.current).recent_cpu
      else pos 0;
  user = false;
}

-- lock_acquire_other, where it does not sleep.
unfoldable pub acquire_at_once : ℕ → ℕ → Sync → Option Sync
acquire_at_once l t s = do (took, s') ← lock_acquire_other l t s; assert took; some s'

unfoldable pub init_locks : ℕ → Sync → Option Sync
unfolding acquire_at_once
init_locks t s = do
  s1 ← lock_init (lock_exit_of t) s
  s2 ← lock_init (lock_wait_of t) s1
  s3 ← lock_init (lock_exec_of t) s2
  s4 ← lock_init (lock_exit2_of t) s3
  s5 ← acquire_at_once (lock_exec_of t) t s4
  s6 ← acquire_at_once (lock_wait_of t) t s5
  acquire_at_once (lock_exit2_of t) t s6

abbrev pub set_thread : ℕ → Thread → Kernel → Kernel
set_thread t th k = record k { threads = update k.threads t th }

-- list_push_back (&all_list, &t->allelem)
abbrev pub push_all : ℕ → Kernel → Kernel
push_all t k = record k { all = k.all ++ t ∷ [] }

-- init_thread (t, name, priority)
unfoldable pub init_thread : ℕ → String → ℕ → Sync → Option Sync
unfolding init_locks
init_thread t name priority s = do
  assert (not (t == 0))
  assert (leb priority pri_max)
  s' ← init_locks t (set_kernel s (set_thread t (init_fields name priority s.kernel) s.kernel))
  some (set_kernel s' (push_all t s'.kernel))

-- tid_range (put_or_pull, new_tid): the value and the `max_tid` that it leaves.
abbrev pub tid_range : Bool → ℕ → ℕ → ℕ × ℕ
tid_range put_or_pull new_tid max_tid = if put_or_pull then (0, new_tid) else (max_tid, max_tid)

-- allocate_tid ()
unfoldable pub allocate_tid : ℕ → ℕ → Life → Option (ℕ × Life)
allocate_tid junk tid_lock l = do
  (took, s1) ← lock_acquire tid_lock l.sync
  assert took
  s2 ← lock_release junk tid_lock s1
  assert (s2.kernel.current == s1.kernel.current)
  some (
    l.next_tid,
    record l {
      sync = s2;
      next_tid = (l.next_tid + 1) % 2 ^ 32;
      max_tid = (tid_range true l.next_tid l.max_tid).1;
    },
  )

-- The frames for kernel_thread, switch_entry and switch_threads that thread_create lays on the stack of
-- `t`, from its end down: the addresses of those functions are parameters.
unfoldable pub push_frames : ℕ → ℕ → ℕ → ℕ → ℕ → Memory → Memory
push_frames kernel_thread switch_entry t function aux m =
    let kf = t + pg_size - 12 in
    let ef = kf - 4 in
    let sf = ef - 28 in
    let m1 = store32 (kf + 8) aux (store32 (kf + 4) function (store32 kf 0 m)) in
    store32 (sf + 8) 0 (store32 (sf + 16) switch_entry (store32 ef kernel_thread m1))

abbrev pub tid_error : ℕ
tid_error = 2 ^ 32 - 1

-- What thread_create does with the page `t` that it got.
unfoldable pub create_in : ℕ → ℕ → (Memory → Memory) → ℕ → String → ℕ → Life → Option (ℕ × Life)
unfolding init_thread allocate_tid
create_in junk tid_lock frames t name priority l = do
  s ← init_thread t name priority l.sync
  (tid, l1) ← allocate_tid junk tid_lock (record l { sync = s })
  let k1 = l1.sync.kernel
  let k2 = set_thread t (record (k1.threads t) { tid = tid }) k1
  k3 ← intr_set_level k2.intr_on (with_level false k2)
  k4 ← thread_unblock t k3
  some (tid, record l1 { sync = set_kernel l1.sync k4; memory = frames l1.memory })

-- thread_create (name, priority, function, aux)
unfoldable pub thread_create : ℕ → ℕ → ℕ → ℕ → String → ℕ → ℕ → ℕ → Life → Option (ℕ × Life)
unfolding create_in push_frames
thread_create junk tid_lock kernel_thread switch_entry name priority function aux l = do
  assert (not (function == 0))
  (t, m) ← palloc_get_page false true false l.memory
  let made =
      create_in junk tid_lock (push_frames kernel_thread switch_entry t function aux) t name
        priority (record l { memory = m })
  if t == 0 then some (tid_error, record l { memory = m }) else made

-- thread_from_tid (tid): the loop over the list of all threads.
unfoldable pub from_tid : (ℕ → Thread) → ℕ → List ℕ → ℕ
from_tid threads tid [] = 0
from_tid threads tid (t ∷ ts) = if (threads t).tid == tid then t else from_tid threads tid ts

unfoldable pub thread_from_tid : ℕ → Kernel → ℕ
unfolding from_tid
thread_from_tid tid k = from_tid k.threads tid k.all

-- The end of thread_exit (), behind its intr_disable and its last lock_release.
unfoldable pub thread_die : Kernel → Option Kernel
thread_die k = schedule (set_status (record k { all = erase k.current k.all }) k.current dying)
