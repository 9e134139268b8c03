-- ===== src/Threads/Kernel/Priorities.antt =====
-- thread_set_priority on a valid kernel.
use pintos_project.Base.{ℕ, ◌≤◌, ◌<◌, ◌≡◌, ◌≢◌, ◌⊎◌, some, ◌==◌, if◌then◌else◌}
use pintos_project.Threads.Kernel.{Kernel, thread_top_priority, thread_yield}

-- The thread that runs has a priority, and nothing else has changed.
pub record HasPriority (p : ℕ) (k k1 : Kernel) : Type 0 where
  pub prios :
      (u : ℕ) → (k1.threads u).priority ≡ (if u == k.current then p else (k.threads u).priority)
  pub same : (u : ℕ) → u ≢ k.current → k1.threads u ≡ k.threads u
  pub queues : k1.ready ≡ k.ready
  pub running : k1.current ≡ k.current

-- The priority is set, and the thread yields if it is lower than that of some queued thread.
abbrev pub HasSetPriority : ℕ → Kernel → Kernel → Type 0
HasSetPriority p k k' =
    (k1 : Kernel) × HasPriority p k k1
    × (((p < thread_top_priority k) × (thread_yield k1 ≡ some k'))
        ⊎ ((thread_top_priority k ≤ p) × (k' ≡ k1)))
