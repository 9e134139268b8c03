-- ===== src/Threads/Timer/Tick.antt =====
-- One timer tick, thread_tick of threads/thread.c.
use pintos_project.Base.{
  ◌∙◌, ◌+◌, ◌≤◌, ◌≡◌, refl, Bool, true, false, some, leb, if◌then◌else◌, arith,
}
use pintos_project.Threads.Kernel.{Kernel}
use pintos_project.Threads.Kernel.Invariant.{IsValid}
use pintos_project.Threads.Kernel.Quiet.{IsQuiet, IsQuiet-refl, IsQuiet-trans}
use pintos_project.Threads.Aging.{aged, thread_aging}
use pintos_project.Threads.Aging.Once.{aged_once}
use pintos_project.Threads.Aging.Quiet.{aged-IsQuiet, thread_aging_lem}
use pintos_project.Threads.Bsd.{named_idle, schedule_bsd}
use pintos_project.Threads.Bsd.Quiet.{Keeps, schedule_bsd-Keeps}
use pintos_project.Threads.Timer.{time_slice, count_tick, spend_slice, thread_tick}

-- The part of a tick before the priorities are looked at.
spent : Kernel → Bool → Kernel
spent k b =
    let k' = record (count_tick k) { thread_ticks = (count_tick k).thread_ticks + 1 } in
    if b then record k' { yield_on_return = true } else k'

spent-Keeps : (k : Kernel) (b : Bool) → Keeps k (spent k b)
unfolding spent
spent-Keeps k b = (
  record {
    status = λ u. ground arith;
    name = λ u. ground arith;
    idle = ground arith;
    current = ground arith;
    ticks = ground arith;
    intr = ground arith;
    external = ground arith;
    aging = ground arith;
    flag = λ e. ground (arith, e);
  },
  λ v. record {
    placed = record {
      place = λ u l. ground (arith, v.placed.place u l);
      prio = λ u. ground (arith, v.placed.prio u);
      null_out = ground (arith, v.placed.null_out);
      idle_set = λ e. ground (arith, v.placed.idle_set);
    };
    one = λ u. ground (arith, v.one u);
  },
)

slice_over : Kernel → Bool
slice_over k = leb time_slice (k.thread_ticks + 1)

spend_slice_lem :
    (k : Kernel) → k.in_external ≡ true → spend_slice (count_tick k) ≡ some (spent k (slice_over k))
unfolding slice_over spent
spend_slice_lem k ext = ground (arith, ext)

bsd_or_not :
    (k : Kernel) → named_idle k k.idle ≡ true → Keeps k (if k.mlfqs then schedule_bsd k else k)
bsd_or_not k named = go k.mlfqs
  where
    go : (b : Bool) → Keeps k (if b then schedule_bsd k else k)
    go true = schedule_bsd-Keeps k named
    go false = (IsQuiet-refl k, λ v. v)

aging_or_not : (k : Kernel) → Keeps k (if k.aging then aged k else k)
aging_or_not k = go k.aging
  where
    go : (b : Bool) → Keeps k (if b then aged k else k)
    go true = (aged-IsQuiet k, λ v. (aged_once k 0 v).0)
    go false = (IsQuiet-refl k, λ v. v)

aging_step :
    (k : Kernel) (b : Bool)
    → k.in_external ≡ true
    → (if b then thread_aging k else some k) ≡ some (if b then aged k else k)
aging_step k true ext = thread_aging_lem k ext
aging_step k false ext = refl

-- What a tick in an interrupt leaves.
pub record HasTicked (k k' : Kernel) : Type 0 where
  pub quiet : IsQuiet k k'
  pub valid : IsValid k'
  pub preempts : time_slice ≤ k.thread_ticks + 1 → k'.yield_on_return ≡ true

-- thread_tick of a valid kernel, whose idle thread is named "idle", inside an external interrupt passes
-- its assertions under either scheduler, with aging or without: the kernel is valid again, a yield is
-- asked for when the time slice is over or was asked for before, and the statuses, the names, the
-- current and the idle thread, the clock and the interrupt state are unchanged.
pub thread_tick_lem :
    (k : Kernel)
    → IsValid k
    → named_idle k k.idle ≡ true
    → k.in_external ≡ true
    → (k' : Kernel) × (thread_tick k ≡ some k') × HasTicked k k'
unfolding thread_tick
thread_tick_lem k v named ext =
    let k1 = spent k (slice_over k) in
    let p1 = spent-Keeps k (slice_over k) in
    let named1 : named_idle k1 k1.idle ≡ true = cc (named, p1.0.idle, p1.0.name k.idle) in
    let k2 = if k1.mlfqs then schedule_bsd k1 else k1 in
    let p2 = bsd_or_not k1 named1 in
    let k3 = if k2.aging then aged k2 else k2 in
    let p3 = aging_or_not k2 in
    (
      k3,
      rw (spend_slice_lem k ext) (aging_step k2 k2.aging (p2.0.external ∙ p1.0.external ∙ ext)),
      record {
        quiet = IsQuiet-trans k k2 k3 (IsQuiet-trans k k1 k2 p1.0 p2.0) p3.0;
        valid = p3.1 (p2.1 (p1.1 v));
        preempts = λ h. p3.0.flag (p2.0.flag (unfold spent slice_over in ground (arith, h)));
      },
    )
