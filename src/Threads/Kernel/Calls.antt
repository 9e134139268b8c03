-- ===== src/Threads/Kernel/Calls.antt =====
-- thread_block, thread_yield and thread_unblock on a valid kernel: no assertion
-- fails, the invariant holds again, and the processor is with a thread of the highest priority.
use pintos_project.Base.{
  ℕ, ◌≤◌, ◌<◌, ◌≡◌, ap, ◌≢◌, ◌⊎◌, true, false, not, ◌&&◌, some, [], ◌∷◌, ◌++◌, ◌==◌, ltb,
  if◌then◌else◌, count-snoc, arith, assert_passes, if_false,
}
use pintos_project.Threads.Kernel.{
  Kernel, is_current_running, blocked, is_blocked, is_ready, set_status, thread_top_priority,
  thread_block, requeue, thread_yield, make_ready, thread_unblock,
}
use pintos_project.Threads.Kernel.Invariant.{IsPlaced, IsValid}
use pintos_project.Threads.Kernel.Switch.{IsSwitched, schedule_lem}

pub current_runs : (k : Kernel) → IsValid k → is_current_running k ≡ true
current_runs k v = ground (arith, v.one k.current)

blocking-IsPlaced : (k : Kernel) → IsValid k → IsPlaced (set_status k k.current blocked)
blocking-IsPlaced k v = record {
  place = λ u l. ground (arith, v.placed.place u l, v.one u);
  prio = λ u. ground (arith, v.placed.prio u, v.placed.prio k.current);
  null_out = ground (arith, v.placed.null_out);
  idle_set = v.placed.idle_set;
}

-- On a valid kernel, with interrupts off and outside an external interrupt, thread_block passes its
-- assertions and those of schedule: the current thread is blocked and the processor is switched. The
-- kernel is valid again and runs the front thread of the highest queue that is not empty, which leaves
-- that queue, or the idle one if all queues are empty, with a new time slice; no other status and no
-- priority has changed.
pub thread_block_lem :
    (k : Kernel)
    → IsValid k
    → k.intr_on ≡ false
    → k.in_external ≡ false
    → (k' : Kernel) × (thread_block k ≡ some k') × IsSwitched (set_status k k.current blocked) k'
unfolding thread_block
thread_block_lem k v off ext =
    let (k', e, s) =
      schedule_lem (set_status k k.current blocked) (blocking-IsPlaced k v) off
        (λ u. ground (arith, v.one u)) in
    (
      k',
      assert_passes (not k.in_external) _ (ap not ext) (
          assert_passes (not k.intr_on) _ (ap not off)
            (assert_passes (is_current_running k) _ (current_runs k v) e)),
      s,
    )

requeue-IsPlaced : (k : Kernel) → IsValid k → (k.current ≢ 0) → IsPlaced (requeue k)
unfolding requeue
requeue-IsPlaced k v nn = record {
  place = λ u l. ground (arith, v.placed.place u l, v.one u, count-snoc u k.current (k.ready l));
  prio = λ u. ground (arith, v.placed.prio u, v.placed.prio k.current);
  null_out = ground (arith, v.placed.null_out);
  idle_set = λ e. ground (arith, v.placed.idle_set);
}

pub yield_lem :
    (k : Kernel)
    → IsValid k
    → (k.current ≢ 0)
    → k.in_external ≡ false
    → (k' : Kernel) × (thread_yield k ≡ some k') × IsSwitched (requeue k) k'
unfolding thread_yield
yield_lem k v nn ext =
    let (k', e, s) =
      schedule_lem (requeue k) (requeue-IsPlaced k v nn) (unfold requeue in ground arith)
        (λ u. unfold requeue in ground (arith, v.one u)) in
    (
      k',
      assert_passes (is_current_running k) _ (current_runs k v)
          (assert_passes (not k.in_external) _ (ap not ext) e),
      s,
    )

-- The current thread is ready and, unless it is the idle one, linked behind the threads of its priority;
-- no other thread and no other queue has changed.
pub record HasRequeued (k k1 : Kernel) : Type 0 where
  pub queues :
      (p : ℕ)
      → k1.ready p ≡ (
          if not (k.current == k.idle) && p == (k.threads k.current).priority
          then k.ready p ++ k.current ∷ []
          else k.ready p)
  pub waits : is_ready (k1.threads k.current).status ≡ true
  pub same : (u : ℕ) → u ≢ k.current → k1.threads u ≡ k.threads u
  pub running : k1.current ≡ k.current

requeue-HasRequeued : (k : Kernel) → HasRequeued k (requeue k)
unfolding requeue
requeue-HasRequeued k = record {
  queues = λ p. ground arith;
  waits = ground arith;
  same = λ u ne. ground (arith, ne);
  running = ground arith;
}

-- On a valid kernel with a current thread and outside an external interrupt, thread_yield passes its
-- assertions: first the current thread is made ready and, unless it is the idle one, is queued behind the
-- threads of its priority, and no other thread changes; then the kernel switches from there: it is valid
-- again and runs the front thread of the highest queue that is not empty, which leaves that queue, or the
-- idle one if all queues are empty, with a new time slice; no other status and no priority has changed.
pub thread_yield_lem :
    (k : Kernel)
    → IsValid k
    → k.current ≢ 0
    → k.in_external ≡ false
    → (k' : Kernel) × (k1 : Kernel) × (thread_yield k ≡ some k')
      × HasRequeued k k1
      × IsSwitched k1 k'
thread_yield_lem k v nn ext =
    let (k', e, s) = yield_lem k v nn ext in (k', requeue k, e, requeue-HasRequeued k, s)

pub requeue-priority :
    (k : Kernel) (u : ℕ) → ((requeue k).threads u).priority ≡ (k.threads u).priority
unfolding requeue
requeue-priority k u = ground arith

pub make_ready-IsValid :
    (k : Kernel) (t : ℕ)
    → IsValid k
    → t ≢ 0
    → t ≢ k.idle
    → is_blocked (k.threads t).status ≡ true
    → IsValid (make_ready t k)
unfolding make_ready
make_ready-IsValid k t v nn ni b = record {
  placed = record {
    place = λ u l. ground (arith, v.placed.place u l, v.one u, count-snoc u t (k.ready l));
    prio = λ u. ground (arith, v.placed.prio u, v.placed.prio t);
    null_out = ground (arith, v.placed.null_out);
    idle_set = v.placed.idle_set;
  };
  one = λ u. ground (arith, v.one u);
}

-- With interrupts off the thread is only queued.
pub thread_unblock_off :
    (k : Kernel) (t : ℕ)
    → t ≢ 0
    → is_blocked (k.threads t).status ≡ true
    → k.intr_on ≡ false
    → thread_unblock t k ≡ some (make_ready t k)
unfolding thread_unblock
thread_unblock_off k t tn b off = assert_passes (not (t == 0)) _ (ground (arith, tn)) (
    assert_passes (is_blocked (k.threads t).status) _ b (
      if_false (ltb (thread_top_priority k) (k.threads t).priority && k.intr_on) _ _
        (ground (arith, off))))

-- The thread is ready and linked behind the threads of its priority; no other thread and no other queue
-- has changed, and the same thread runs.
pub record HasReadied (t : ℕ) (k k1 : Kernel) : Type 0 where
  pub queues :
      (p : ℕ)
      → k1.ready p ≡ (if p == (k.threads t).priority then k.ready p ++ t ∷ [] else k.ready p)
  pub waits : is_ready (k1.threads t).status ≡ true
  pub priority : (k1.threads t).priority ≡ (k.threads t).priority
  pub same : (u : ℕ) → u ≢ t → k1.threads u ≡ k.threads u
  pub running : k1.current ≡ k.current

-- The thread is readied, and if its priority is higher than that of every thread queued before, the
-- running thread yields.
abbrev pub HasUnblocked : ℕ → Kernel → Kernel → Type 0
HasUnblocked t k k' =
    (k1 : Kernel) × HasReadied t k k1
    × (((thread_top_priority k < (k.threads t).priority) × (thread_yield k1 ≡ some k'))
        ⊎ (((k.threads t).priority ≤ thread_top_priority k) × (k' ≡ k1)))
