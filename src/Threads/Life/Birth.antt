-- ===== src/Threads/Life/Birth.antt =====
-- thread_create makes a thread that is ready to run, on the page that it gets.
use Prim.Native.String.{String}
use pintos_project.Base.{
  ℕ, ◌+◌, ◌%◌, ◌^◌, ◌≤◌, ◌<◌, ◌≡◌, ◌≢◌, ◌⊎◌, true, false, some, List, [], ◌∷◌, ◌++◌, count, arith,
}
use pintos_project.Threads.Kernel.{Kernel, Thread, is_ready, thread_unblock}
use pintos_project.Threads.Kernel.Invariant.{IsValid, RunsHighest}
use pintos_project.Threads.Life.{Life, set_thread, push_all, init_fields, thread_from_tid, from_tid}
use pintos_project.Threads.Life.Locks.{IsFree}

-- The page of a new thread: no thread of the scheduler lives in it, nor the lock of the identifiers.
abbrev pub IsUnused : Kernel → ℕ → ℕ → Type 0
IsUnused k tid_lock t =
    (t ≢ k.current)
    × (t ≢ k.idle)
    × (is_ready (k.threads t).status ≡ false)
    × ((tid_lock < t) ⊎ (t + 4096 ≤ tid_lock))

-- The kernel behind init_thread, and behind the writing of the identifier.
abbrev inited : ℕ → String → ℕ → Kernel → Kernel
inited t name priority k = push_all t (set_thread t (init_fields name priority k) k)

abbrev pub born : ℕ → ℕ → String → ℕ → Kernel → Kernel
born t tid name priority k =
    let k1 = inited t name priority k in set_thread t (record (k1.threads t) { tid = tid }) k1

-- What holds where a thread is created.
pub record CanCreate (junk tid_lock : ℕ) (l : Life) : Type 0 where
  pub valid : IsValid l.sync.kernel
  pub highest : RunsHighest l.sync.kernel
  pub running : l.sync.kernel.current ≢ 0
  pub outside : l.sync.kernel.in_external ≡ false
  pub on : l.sync.kernel.intr_on ≡ true
  pub has_lock : tid_lock ≢ 0
  pub free : IsFree tid_lock l.sync
  pub quiet : junk ≤ (l.sync.kernel.threads l.sync.kernel.current).priority

-- The thread `t` was created with this identifier, and thread_unblock made it ready.
pub record IsCreated (t : ℕ) (name : String) (priority : ℕ) (l l' : Life) : Type 0 where
  pub unblocked :
      thread_unblock t (born t l.next_tid name priority l.sync.kernel) ≡ some l'.sync.kernel
  pub next : l'.next_tid ≡ (l.next_tid + 1) % 2 ^ 32
  pub largest : l'.max_tid ≡ l.next_tid
  pub valid : IsValid l'.sync.kernel
  pub highest : RunsHighest l'.sync.kernel

from_tid_snoc :
    (threads : ℕ → Thread) (tid t : ℕ) (ts : List ℕ)
    → ((u : ℕ) → count u ts ≢ 0 → (threads u).tid ≢ tid)
    → (threads t).tid ≡ tid
    → from_tid threads tid (ts ++ t ∷ []) ≡ t
unfolding from_tid
from_tid_snoc threads tid t [] fresh e = ground (arith, e)
from_tid_snoc threads tid t (u ∷ ts) fresh e =
    ground (arith, fresh u, from_tid_snoc threads tid t ts (λ w ne. ground (arith, fresh w, ne)) e)

-- thread_from_tid finds a thread that is created, by its identifier, if no thread of the list has that
-- identifier.
pub thread_from_tid-born :
    (t tid : ℕ) (name : String) (priority : ℕ) (k : Kernel)
    → ((u : ℕ) → count u k.all ≢ 0 → (k.threads u).tid ≢ tid)
    → count t k.all ≡ 0
    → thread_from_tid tid (born t tid name priority k) ≡ t
unfolding thread_from_tid
thread_from_tid-born t tid name priority k fresh out =
    let k' = born t tid name priority k in
    from_tid_snoc k'.threads tid t k.all (λ u ne. ground (arith, fresh u, ne, out)) (ground arith)
