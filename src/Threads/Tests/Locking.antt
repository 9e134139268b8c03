-- ===== src/Threads/Tests/Locking.antt =====
-- A lock and a semaphore of the sample kernel: the address 100 is a fresh lock, 200 a semaphore that
-- the threads 5 and 4 wait for.
use pintos_project.Base.{ℕ, ◌≡◌, refl, true, some, List, [], ◌∷◌, ◌==◌, if◌then◌else◌, arith}
use pintos_project.Threads.Synch.{Sync, down_once, max_waiter, set_sema, sema_up, set_holder}
use pintos_project.Threads.Synch.Choice.{AreWaiting}
use pintos_project.Threads.Synch.Waking.{HasWokenFirst, sema_up_wakes_first}
use pintos_project.Threads.Synch.Exclusion.{
  World, move, outside, acquiring, granted, holding, begin, round, own, here, next, Reach,
  IsExclusive, fresh-IsExclusive, Reach-IsExclusive,
}
use pintos_project.Threads.Tests.Sample.{kernel_at, kernel_at-IsValid, kernel_at-highest}

abbrev sync : Sync
sync = record {
  kernel = kernel_at true;
  semas = λ a.
      if a == 200
      then record { value = 0; waiters = 5 ∷ 4 ∷ [] }
      else record { value = 1; waiters = [] };
  holders = λ l. 0;
  conds = λ c. [];
}

abbrev queue : List ℕ
queue = 5 ∷ 4 ∷ []

queue-AreWaiting : AreWaiting (kernel_at true) queue
queue-AreWaiting = record { asleep = λ u h. ground (arith, h); real = refl; not_idle = refl }

sema_up_example : (s' : Sync) × (sema_up 0 200 sync ≡ some s') × HasWokenFirst sync 200 queue 4 s'
unfolding max_waiter
sema_up_example =
    sema_up_wakes_first 0 200 sync 5 (4 ∷ []) (kernel_at-IsValid true) (kernel_at-highest true)
      (omega arith) refl (omega arith) refl queue-AreWaiting

abbrev start : World
start = record { sync = sync; stage = λ t. outside }

-- The thread 1 takes the lock and enters its critical section.
abbrev waiting : World
waiting = move start sync acquiring

abbrev lock_taken : Sync
lock_taken = set_sema sync 100 (record { value = 0; waiters = [] })

abbrev inside : World
inside = move waiting lock_taken granted

abbrev entered : World
entered = move inside (set_holder 100 1 lock_taken) holding

path : Reach 100 start entered
unfolding down_once
path =
    next (next (next here (begin start refl refl)) (round waiting true lock_taken refl refl))
      (own inside refl)

Reach_example : IsExclusive 100 entered
Reach_example = Reach-IsExclusive 100 (fresh-IsExclusive 100 start refl (λ t. refl)) path
