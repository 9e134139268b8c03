-- ===== src/Threads/Kernel/Switch.antt =====
-- What `schedule`, `thread_block` and `thread_yield` do to a valid kernel.
use native.Mathlib.Decide.{dec_lt}
use pintos_project.Base.{
  ℕ, ◌≤◌, ◌<◌, ◌≡◌, ap, ◌≢◌, ◌⊎◌, inl, inr, true, false, not, ◌&&◌, some, List, [], ◌∷◌, ◌==◌,
  if◌then◌else◌, update, count, arith,
}
use pintos_project.Threads.FixedPoint.{pri_max}
use pintos_project.Threads.Kernel.{
  Kernel, running, is_running, is_dying, set_status, next_thread_to_run, thread_schedule_tail,
  schedule,
}
use pintos_project.Threads.Kernel.Invariant.{
  IsPlaced, IsValid, RunsHighest, is_queued, linked, next_from-Picks,
}

-- The kernel that thread_schedule_tail leaves, but for the freed pages.
tail-IsValid :
    (prev : ℕ) (k : Kernel)
    → IsPlaced (set_status k k.current running)
    → ((t : ℕ) → (t ≡ k.current) ⊎ (is_running (k.threads t).status ≡ false))
    → IsValid (thread_schedule_tail prev k)
unfolding thread_schedule_tail
tail-IsValid prev k v others = record {
  placed = record {
    place = λ t p. ground (arith, v.place t p);
    prio = λ t. ground (arith, v.prio t);
    null_out = ground (arith, v.null_out);
    idle_set = λ e. ground (arith, v.idle_set);
  };
  one = λ t. ground (arith, others t);
}

-- taking the front thread
popped-IsPlaced :
    (k : Kernel) (p t : ℕ) (ts : List ℕ)
    → IsPlaced k
    → k.ready p ≡ t ∷ ts
    → IsPlaced (set_status (record k { ready = update k.ready p ts; current = t }) t running)
popped-IsPlaced k p t ts v e = record {
  place = λ u l. ground (arith, v.place u l, v.place u p, ap (count u) e, linked v e);
  prio = λ u. ground (arith, v.prio u, v.prio t);
  null_out = ground (arith, v.null_out);
  idle_set = v.idle_set;
}

idle-IsPlaced :
    (k : Kernel) → IsPlaced k → IsPlaced (set_status (record k { current = k.idle }) k.idle running)
idle-IsPlaced k v = record {
  place = λ u l. ground (arith, v.place u l);
  prio = λ u. ground (arith, v.prio u, v.prio k.idle);
  null_out = ground (arith, v.null_out);
  idle_set = v.idle_set;
}

-- The thread that gets the processor: the front one of the highest queue that is not empty, which leaves
-- that queue, or the idle one where all are empty.
abbrev pub IsDispatched : Kernel → Kernel → Type 0
IsDispatched k k' =
    ((k'.current ≡ k.idle) × ((p : ℕ) → p ≤ pri_max → k.ready p ≡ []) × (k'.ready ≡ k.ready))
    ⊎ ((p : ℕ) × (t : ℕ) × (ts : List ℕ) × (p ≤ pri_max)
        × (k.ready p ≡ t ∷ ts)
        × ((u : ℕ) → p < u → u ≤ pri_max → k.ready u ≡ [])
        × (k'.current ≡ t)
        × (k'.ready ≡ update k.ready p ts))

-- What a switch leaves: a valid kernel, with interrupts off and a new time slice, that runs a queued
-- thread of the highest priority, or the idle one if none is queued; the statuses of the other
-- threads and all priorities are unchanged.
pub record IsSwitched (k k' : Kernel) : Type 0 where
  pub valid : IsValid k'
  pub highest : RunsHighest k'
  pub off : k'.intr_on ≡ false
  pub slice : k'.thread_ticks ≡ 0
  pub prios : (u : ℕ) → (k'.threads u).priority ≡ (k.threads u).priority
  pub chosen : (k'.current ≡ k.idle) ⊎ (is_queued k k'.current ≡ true)
  pub dispatched : IsDispatched k k'
  pub all : k'.all ≡ k.all
  pub freed : k'.freed ≡ (
      if is_dying (k.threads k.current).status
        && not (k'.current == k.current)
        && not (k.current == 0)
        && not (k.current == k.initial)
      then k.current ∷ k.freed
      else k.freed)
  pub idle : k'.idle ≡ k.idle
  pub ticks : k'.ticks ≡ k.ticks
  pub external : k'.in_external ≡ k.in_external
  pub others : (u : ℕ) → u ≢ k'.current → (k'.threads u).status ≡ (k.threads u).status

module _ (k : Kernel) (v : IsPlaced k) (off : k.intr_on ≡ false)
    (no_one : (t : ℕ) → is_running (k.threads t).status ≡ false) where
  abbrev switched_to : ℕ → (ℕ → List ℕ) → Kernel
  switched_to t q =
      thread_schedule_tail (if k.current == t then 0 else k.current)
        (record k { ready = q; current = t })

  to_idle : ((p : ℕ) → p ≤ pri_max → k.ready p ≡ []) → IsSwitched k (switched_to k.idle k.ready)
  unfolding thread_schedule_tail
  to_idle empty = record {
    valid =
        tail-IsValid _ (record k { current = k.idle }) (idle-IsPlaced k v) (λ t. inr (no_one t));
    highest = λ u h. ground (
      arith,
      h,
      v.place u (k.threads u).priority,
      v.prio u,
      ap (count u) (empty (k.threads u).priority (v.prio u)),
    );
    off = ground (arith, off);
    slice = ground arith;
    chosen = inl (ground arith);
    dispatched = inl (ground arith, empty, ground arith);
    all = ground arith;
    freed = ground arith;
    idle = ground arith;
    ticks = ground arith;
    external = ground arith;
    prios = λ u. ground arith;
    others = λ u ne. ground (arith, ne);
  }

  queued_le :
      (p u : ℕ)
      → ((l : ℕ) → p < l → l ≤ pri_max → k.ready l ≡ [])
      → is_queued k u ≡ true
      → (k.threads u).priority ≤ p
  queued_le p u above h =
      let l = (k.threads u).priority in
      elim (dec_lt p l) [
        | yes lt ↦ ground (arith, v.place u l, ap (count u) (above l lt (v.prio u)))
        | no ge ↦ omega arith
      ]

  front_ne_null : {p t : ℕ} {ts : List ℕ} → k.ready p ≡ t ∷ ts → (t == 0) ≡ false
  front_ne_null {p} {t} {ts} e = ground (arith, linked v e, v.null_out)

  to_front :
      (p t : ℕ) (ts : List ℕ)
      → p ≤ pri_max
      → k.ready p ≡ t ∷ ts
      → ((u : ℕ) → p < u → u ≤ pri_max → k.ready u ≡ [])
      → IsSwitched k (switched_to t (update k.ready p ts))
  unfolding thread_schedule_tail
  to_front p t ts le e above = record {
    valid =
        tail-IsValid _ (record k { ready = update k.ready p ts; current = t })
          (popped-IsPlaced k p t ts v e) (λ u. inr (no_one u));
    highest = λ u h. ground (arith, h, queued_le p u above, linked v e);
    off = ground (arith, off);
    slice = ground arith;
    chosen = inr (ground (arith, linked v e));
    dispatched = inr (p, t, ts, le, e, above, ground arith, ground arith);
    all = ground arith;
    freed = ground arith;
    idle = ground arith;
    ticks = ground arith;
    external = ground arith;
    prios = λ u. ground arith;
    others = λ u ne. ground (arith, ne);
  }

  idle_ne_null : (k.idle == 0) ≡ false
  idle_ne_null = ground (arith, v.idle_set)

  pub schedule_lem : (k' : Kernel) × (schedule k ≡ some k') × IsSwitched k k'
  unfolding schedule next_thread_to_run
  schedule_lem = elim (next_from-Picks k.idle k.ready pri_max) [
    | inl (empty, r) ↦
        (switched_to k.idle k.ready, rw (off, no_one k.current, r, idle_ne_null), to_idle empty)
    | inr (p, t, ts, le, at, r, above) ↦ (
      switched_to t (update k.ready p ts),
      rw (off, no_one k.current, r, front_ne_null at),
      to_front p t ts le at above,
    )
  ]
