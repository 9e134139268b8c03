-- ===== src/Threads/Life/Death.antt =====
-- The end of thread_exit: the thread leaves the list of all threads and the processor.
use pintos_project.Base.{
  ℕ, ◌≡◌, sym, ◌≢◌, inl, inr, true, false, some, ◌∷◌, ◌==◌, if◌then◌else◌, erase, count, arith,
}
use pintos_project.Threads.Kernel.{Kernel, dying, is_dying, set_status}
use pintos_project.Threads.Kernel.Invariant.{IsPlaced, IsValid, RunsHighest}
use pintos_project.Threads.Kernel.Switch.{IsDispatched, schedule_lem}
use pintos_project.Threads.Life.{thread_die}

-- The kernel as thread_exit leaves it to schedule.
abbrev pub dead : Kernel → Kernel
dead k = set_status (record k { all = erase k.current k.all }) k.current dying

dead-IsPlaced : (k : Kernel) → IsValid k → IsPlaced (dead k)
dead-IsPlaced k v = record {
  place = λ u l. ground (arith, v.placed.place u l, v.one u);
  prio = λ u. ground (arith, v.placed.prio u, v.placed.prio k.current);
  null_out = ground (arith, v.placed.null_out);
  idle_set = v.placed.idle_set;
}

-- What is left where the current thread has died.
pub record HasDied (k k' : Kernel) : Type 0 where
  pub valid : IsValid k'
  pub highest : RunsHighest k'
  pub slice : k'.thread_ticks ≡ 0
  pub another : k'.current ≢ k.current
  pub dying : is_dying (k'.threads k.current).status ≡ true
  pub all : k'.all ≡ erase k.current k.all
  pub unqueued : (p : ℕ) → count k.current (k'.ready p) ≡ 0
  pub freed : k'.freed ≡ (if k.current == k.initial then k.freed else k.current ∷ k.freed)
  pub dispatched : IsDispatched k k'
  pub prios : (u : ℕ) → (k'.threads u).priority ≡ (k.threads u).priority
  pub others :
      (u : ℕ) → u ≢ k'.current → u ≢ k.current → (k'.threads u).status ≡ (k.threads u).status

-- The end of thread_exit, on a valid kernel with interrupts off that runs a thread other than the idle one,
-- passes the assertions of schedule. The thread is dying, is taken out of the list of all threads and is
-- on no ready queue, and its page is freed unless it is the initial thread; the kernel is valid again and
-- runs another thread, the front one of the highest ready queue that is not empty (the idle one if all
-- are), with a new time slice. No other status and no priority has changed.
pub thread_die_lem :
    (k : Kernel)
    → IsValid k
    → k.intr_on ≡ false
    → k.current ≢ 0
    → k.current ≢ k.idle
    → (k' : Kernel) × (thread_die k ≡ some k') × HasDied k k'
unfolding thread_die
thread_die_lem k v off nz ni =
    let (k', e, s) = schedule_lem (dead k) (dead-IsPlaced k v) off (λ u. ground (arith, v.one u)) in
    let other : k'.current ≢ k.current = elim s.chosen [
      | inl i ↦ ground (arith, i, ni)
      | inr q ↦ ground (arith, q)
    ] in
    (
      k',
      e,
      record {
        valid = s.valid;
        highest = s.highest;
        slice = s.slice;
        another = other;
        dying = ground (arith, s.others k.current (λ q. other (sym q)));
        all = s.all;
        unqueued = λ p.
            ground
              (arith, s.valid.placed.place k.current p, s.others k.current (λ q. other (sym q)));
        freed = ground (arith, s.freed, other, nz);
        dispatched = s.dispatched;
        prios = λ u. ground (arith, s.prios u);
        others = λ u ne ne'. ground (arith, s.others u ne, ne');
      },
    )
