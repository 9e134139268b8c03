-- ===== src/Threads/Kernel/Invariant.antt =====
-- The invariant of the thread store and the ready queues.
use native.Mathlib.Decide.{ℕ_discrete}
use pintos_project.Base.{
  ℕ, zero, suc, ◌≤◌, ◌<◌, ◌≡◌, refl, ap, ◌≢◌, ◌⊎◌, inl, inr, Bool, true, false, not, ◌&&◌, List, [],
  ◌∷◌, ◌==◌, if◌then◌else◌, update, count, arith,
}
use pintos_project.Threads.FixedPoint.{pri_max}
use pintos_project.Threads.Kernel.{Kernel, is_running, is_ready, top_from, next_from, is_empty}

-- The threads that belong on a ready queue: the idle thread never does.
abbrev pub is_queued : Kernel → ℕ → Bool
is_queued k t = is_ready (k.threads t).status && not (t == k.idle)

-- Every thread that waits for the processor is linked once, in the queue of its priority, and no
-- other thread is linked anywhere.
pub record IsPlaced (k : Kernel) : Type 0 where
  pub place :
      (t p : ℕ)
      → count t (k.ready p) ≡ (if is_queued k t && (k.threads t).priority == p then 1 else 0)
  pub prio : (t : ℕ) → (k.threads t).priority ≤ pri_max
  pub null_out : is_ready (k.threads 0).status ≡ false
  pub idle_set : k.idle ≢ 0

-- The current thread is the only one with status `running`.
pub record IsValid (k : Kernel) : Type 0 where
  pub placed : IsPlaced k
  pub one : (t : ℕ) → is_running (k.threads t).status ≡ (t == k.current)

-- No thread on a ready queue has a higher priority than the running one.
abbrev pub RunsHighest : Kernel → Type 0
RunsHighest k =
    (u : ℕ) → is_queued k u ≡ true → (k.threads u).priority ≤ (k.threads k.current).priority

pub linked :
    {k : Kernel} {p t : ℕ} {ts : List ℕ}
    → IsPlaced k
    → k.ready p ≡ t ∷ ts
    → (is_queued k t ≡ true) × ((k.threads t).priority ≡ p)
linked {k} {p} {t} {ts} v e = ground (arith, v.place t p, ap (count t) e)

-- What the scan of the queues from level `n` down finds.
abbrev pub Picks : ℕ → (ℕ → List ℕ) → ℕ → ℕ × (ℕ → List ℕ) → Type 0
Picks idle q n r =
    ((p : ℕ) → p ≤ n → q p ≡ []) × (r ≡ (idle, q))
    ⊎ ((p : ℕ) × (t : ℕ) × (ts : List ℕ) × (p ≤ n)
        × (q p ≡ t ∷ ts)
        × (r ≡ (t, update q p ts))
        × ((u : ℕ) → p < u → u ≤ n → q u ≡ []))

pub List-cases : (l : List ℕ) → (l ≡ []) ⊎ ((x : ℕ) × (xs : List ℕ) × (l ≡ x ∷ xs))
List-cases [] = inl refl
List-cases (x ∷ xs) = inr (x, xs, refl)

-- From level `n` up to `suc n`, where the queue of `suc n` is empty.
empty_up : (q : ℕ → List ℕ) (n u : ℕ) → q (suc n) ≡ [] → (u ≤ n → q u ≡ []) → u ≤ suc n → q u ≡ []
empty_up q n u e below le = elim (ℕ_discrete u (suc n)) [
  | yes p ↦ rw p e
  | no p ↦ below (omega arith)
]

pub next_from-Picks : (idle : ℕ) (q : ℕ → List ℕ) (n : ℕ) → Picks idle q n (next_from idle q n)
unfolding next_from
next_from-Picks idle q zero = elim (List-cases (q 0)) [
  | inl e ↦ inl (λ p le. let z : p ≡ 0 = omega arith in rw z e, rw (e, next_from))
  | inr (t, ts, e) ↦
      inr (0, t, ts, omega arith, e, rw (e, next_from), λ u lt le. absurd (omega arith))
]
next_from-Picks idle q (suc n) = elim (List-cases (q (suc n))) [
  | inl e ↦ elim (next_from-Picks idle q n) [
    | inl (empty_at, r) ↦ inl (λ p. empty_up q n p e (empty_at p), rw (e, next_from) r)
    | inr (p, t, ts, le, at, r, above) ↦
        inr (p, t, ts, omega arith, at, rw (e, next_from) r, λ u lt. empty_up q n u e (above u lt))
  ]
  | inr (t, ts, e) ↦
      inr (suc n, t, ts, omega arith, e, rw (e, next_from), λ u lt le. absurd (omega arith))
]

-- The level that thread_top_priority returns.
pub top_from-le : (q : ℕ → List ℕ) (n : ℕ) → top_from q n ≤ n
unfolding top_from
top_from-le q zero = omega arith
top_from-le q (suc n) = ground (arith, top_from-le q n)

pub le-top_from :
    (q : ℕ → List ℕ) (n u : ℕ) {x : ℕ} {xs : List ℕ} → q u ≡ x ∷ xs → u ≤ n → u ≤ top_from q n
unfolding top_from
le-top_from q zero u e le = omega arith
le-top_from q (suc n) u e le = elim (ℕ_discrete u (suc n)) [
  | yes p ↦ ground (arith, ap (λ v. is_empty (q v)) p, ap is_empty e)
  | no p ↦ ground (arith, le-top_from q n u e)
]

pub top_from_attained :
    (q : ℕ → List ℕ) (n : ℕ)
    → (top_from q n ≡ 0) ⊎ ((x : ℕ) × (xs : List ℕ) × (q (top_from q n) ≡ x ∷ xs))
unfolding top_from
top_from_attained q zero = inl refl
top_from_attained q (suc n) = elim (List-cases (q (suc n))) [
  | inl e ↦ rw (e, is_empty) (top_from_attained q n)
  | inr (x, xs, e) ↦ rw (e, is_empty) (inr (x, xs, e))
]

-- The invariant does not speak of the interrupt state or of the clock.
abbrev pub with_interrupts : Kernel → Bool → Bool → Bool → ℕ → Kernel
with_interrupts k on external flag now = record k {
  intr_on = on;
  in_external = external;
  yield_on_return = flag;
  ticks = now;
}

pub with_interrupts-IsValid :
    (k : Kernel) (on external flag : Bool) (now : ℕ)
    → IsValid k
    → IsValid (with_interrupts k on external flag now)
with_interrupts-IsValid k on external flag now v = record {
  placed = record {
    place = v.placed.place;
    prio = v.placed.prio;
    null_out = v.placed.null_out;
    idle_set = v.placed.idle_set;
  };
  one = v.one;
}

pub yield_flag-IsValid :
    (b : Bool) (k : Kernel)
    → IsValid k
    → IsValid (if b then record k { yield_on_return = true } else k)
yield_flag-IsValid true k v = with_interrupts-IsValid k k.intr_on k.in_external true k.ticks v
yield_flag-IsValid false k v = v
