-- ===== src/Threads/Synch/Choice.antt =====
-- Which waiter sema_up chooses.
use pintos_project.Base.{
  ℕ, ◌≤◌, ◌<◌, ◌≡◌, refl, ap, inl, inr, true, List, [], ◌∷◌, ◌++◌, ◌==◌, ltb, arith, Bool-cases,
  count, count-append,
}
use pintos_project.Threads.Kernel.{Kernel, is_blocked}
use pintos_project.Threads.Synch.{max_waiter}

-- `w` has the highest priority in the queue, and of those that have it came first.
pub record IsFirstHighest (k : Kernel) (w : ℕ) (l : List ℕ) : Type 0 where
  pub before : List ℕ
  pub after : List ℕ
  pub split : l ≡ before ++ w ∷ after
  pub lower : (u : ℕ) → 0 < count u before → (k.threads u).priority < (k.threads w).priority
  pub no_higher : (u : ℕ) → 0 < count u after → (k.threads u).priority ≤ (k.threads w).priority

later_first :
    (k : Kernel) (w x : ℕ) (l : List ℕ)
    → (k.threads x).priority < (k.threads w).priority
    → IsFirstHighest k w l
    → IsFirstHighest k w (x ∷ l)
later_first k w x l h f = record {
  before = x ∷ f.before;
  after = f.after;
  split = ap (◌∷◌ x) f.split;
  lower = λ u p. elim (Bool-cases (x == u)) [
    | inl e ↦ ground (arith, e, h)
    | inr n ↦ f.lower u (ground (arith, n, p))
  ];
  no_higher = f.no_higher;
}

le-max_waiter :
    (k : Kernel) (b : ℕ) (l : List ℕ)
    → (k.threads b).priority ≤ (k.threads (max_waiter k b l)).priority
unfolding max_waiter
le-max_waiter k b [] = omega arith
le-max_waiter k b (t ∷ ts) = elim (Bool-cases (ltb (k.threads b).priority (k.threads t).priority)) [
  | inl up ↦ rw up (ground (arith, le-max_waiter k t ts, up))
  | inr stay ↦ rw stay (le-max_waiter k b ts)
]

-- A queue that gains `t`, no higher than its front `b`, behind `b`.
insert_second :
    (k : Kernel) (w b t : ℕ) (ts before after : List ℕ)
    → b ∷ ts ≡ before ++ w ∷ after
    → ((u : ℕ) → 0 < count u before → (k.threads u).priority < (k.threads w).priority)
    → ((u : ℕ) → 0 < count u after → (k.threads u).priority ≤ (k.threads w).priority)
    → (k.threads t).priority ≤ (k.threads b).priority
    → IsFirstHighest k w (b ∷ t ∷ ts)
insert_second k w b t ts [] after e lo hi le = record {
  before = [];
  after = t ∷ ts;
  split = cc e;
  lower = λ u p. absurd (omega arith);
  no_higher = λ u p. elim (Bool-cases (t == u)) [
    | inl same ↦ ground (arith, same, le, e)
    | inr n ↦ hi u (ground (arith, n, p, e))
  ];
}
insert_second k w b t ts (c ∷ bs) after e lo hi le = record {
  before = b ∷ t ∷ bs;
  after = after;
  split = cc e;
  lower = λ u p. ground (arith, p, lo u, lo b, le, e);
  no_higher = hi;
}

-- The best so far `b` stands before the rest `l`.
max_waiter-IsFirstHighest :
    (k : Kernel) (b : ℕ) (l : List ℕ) → IsFirstHighest k (max_waiter k b l) (b ∷ l)
unfolding max_waiter
max_waiter-IsFirstHighest k b [] = record {
  before = [];
  after = [];
  split = refl;
  lower = λ u p. absurd (omega arith);
  no_higher = λ u p. absurd (omega arith);
}
max_waiter-IsFirstHighest k b (t ∷ ts) =
    elim (Bool-cases (ltb (k.threads b).priority (k.threads t).priority)) [
      | inl up ↦ rw up (
          later_first k _ b (t ∷ ts) (ground (arith, up, le-max_waiter k t ts))
            (max_waiter-IsFirstHighest k t ts))
      | inr stay ↦ rw stay (
          let f = max_waiter-IsFirstHighest k b ts in
          insert_second k (max_waiter k b ts) b t ts f.before f.after f.split f.lower f.no_higher
            (ground (arith, stay)))
    ]

-- The threads that sleep on a semaphore are blocked threads other than the idle one.
pub record AreWaiting (k : Kernel) (l : List ℕ) : Type 0 where
  pub asleep : (u : ℕ) → 0 < count u l → is_blocked (k.threads u).status ≡ true
  pub real : count 0 l ≡ 0
  pub not_idle : count k.idle l ≡ 0

count-split : (w : ℕ) (before after l : List ℕ) → l ≡ before ++ w ∷ after → 0 < count w l
count-split w before after l e = rw (e, count-append w before (w ∷ after)) (ground arith)

-- The loop of sema_up compares the front with itself first.
pub woken_first :
    (k : Kernel) (t : ℕ) (ts : List ℕ) → IsFirstHighest k (max_waiter k t (t ∷ ts)) (t ∷ ts)
woken_first k t ts = rw same (max_waiter-IsFirstHighest k t ts)
  where
    same : max_waiter k t (t ∷ ts) ≡ max_waiter k t ts
    same = unfold max_waiter in ground arith

pub max_waiter-listed :
    (k : Kernel) (t : ℕ) (ts : List ℕ) → 0 < count (max_waiter k t (t ∷ ts)) (t ∷ ts)
max_waiter-listed k t ts =
    let f = woken_first k t ts in
    count-split (max_waiter k t (t ∷ ts)) f.before f.after (t ∷ ts) f.split
