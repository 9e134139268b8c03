-- ===== src/Threads/Synch/Exclusion.antt =====
-- Mutual exclusion of a lock of threads/synch.c, over every interleaving of the threads.
-- A thread goes through lock_acquire and lock_release in the stages below. Between two stages it may
-- lose the processor, and anything may happen elsewhere that leaves this lock alone.
use pintos_project.Base.{
  ℕ, ◌≤◌, ◌≡◌, refl, ap, ◌∙◌, Bool, true, false, some, if◌then◌else◌, arith, update,
}
use pintos_project.Threads.Synch.{Sync, down_once, sema_up, set_holder, lock_held_by_current_thread}
use pintos_project.Threads.Synch.Effects.{down_once-HasDowned, sema_up-HasUpped}

-- Where a thread stands: outside, in the loop of sema_down, behind it with the holder not yet set,
-- in the critical section, and in lock_release with the holder cleared.
pub data Stage : Type 0 where
  outside acquiring granted holding releasing : Stage

abbrev pub is_inside : Stage → Bool
is_inside outside = false
is_inside acquiring = false
is_inside _ = true

abbrev pub is_holding : Stage → Bool
is_holding holding = true
is_holding _ = false

pub record World : Type 0 where
  pub sync : Sync
  pub stage : ℕ → Stage

abbrev pub runner : World → ℕ
runner w = w.sync.kernel.current

abbrev pub move : World → Sync → Stage → World
move w s g = record { sync = s; stage = update w.stage (runner w) g }

-- One step of the running thread in lock_acquire (lock) or lock_release (lock), or of the rest.
pub data Step (l : ℕ) : World → World → Type 0 where
  begin :
      (w : World)
      → w.stage (runner w) ≡ outside
      → lock_held_by_current_thread l w.sync ≡ false
      → Step l w (move w w.sync acquiring)
  round :
      (w : World) (took : Bool) (s' : Sync)
      → w.stage (runner w) ≡ acquiring
      → down_once l w.sync ≡ some (took, s')
      → Step l w (move w s' (if took then granted else acquiring))
  own :
      (w : World)
      → w.stage (runner w) ≡ granted
      → Step l w (move w (set_holder l (runner w) w.sync) holding)
  disown :
      (w : World)
      → w.stage (runner w) ≡ holding
      → lock_held_by_current_thread l w.sync ≡ true
      → Step l w (move w (set_holder l 0 w.sync) releasing)
  give :
      (w : World) (junk : ℕ) (s' : Sync)
      → w.stage (runner w) ≡ releasing
      → sema_up junk l w.sync ≡ some s'
      → Step l w (move w s' outside)
  elsewhere :
      (w : World) (s' : Sync)
      → (s'.semas l).value ≡ (w.sync.semas l).value
      → s'.holders l ≡ w.sync.holders l
      → Step l w (record w { sync = s' })

pub data Reach (l : ℕ) (start : World) : World → Type 0 where
  here : Reach l start start
  next : {u v : World} → Reach l start u → Step l u v → Reach l start v

pub record IsExclusive (l : ℕ) (w : World) : Type 0 where
  pub one : (t u : ℕ) → is_inside (w.stage t) ≡ true → is_inside (w.stage u) ≡ true → t ≡ u
  pub taken : (t : ℕ) → is_inside (w.stage t) ≡ true → (w.sync.semas l).value ≡ 0
  pub small : (w.sync.semas l).value ≤ 1
  pub held : (t : ℕ) → is_holding (w.stage t) ≡ true → w.sync.holders l ≡ t

Step-IsExclusive : (l : ℕ) {w w' : World} → Step l w w' → IsExclusive l w → IsExclusive l w'
Step-IsExclusive l (begin w at free) x = record {
  one = λ t u p q. ground (arith, p, q, x.one t u, at);
  taken = λ t p. ground (arith, p, x.taken t, at);
  small = x.small;
  held = λ t p. ground (arith, p, x.held t, at);
}
Step-IsExclusive l (round w true s' at e) x =
    let d = down_once-HasDowned l w.sync s' true e in
    record {
      one = λ t u p q. ground (arith, p, q, x.one t u, x.taken t, x.taken u, at, d.positive refl);
      taken = λ t p. ground (arith, x.small, d.value);
      small = ground (arith, x.small, d.value);
      held = λ t p. ground (arith, p, x.held t, at, d.holders, ap (λ f. f l) d.holders);
    }
Step-IsExclusive l (round w false s' at e) x =
    let d = down_once-HasDowned l w.sync s' false e in
    record {
      one = λ t u p q. ground (arith, p, q, x.one t u, at);
      taken = λ t p. ground (arith, p, x.taken t, at, d.value);
      small = ground (arith, x.small, d.value);
      held = λ t p. ground (arith, p, x.held t, at, ap (λ f. f l) d.holders);
    }
Step-IsExclusive l (own w at) x = record {
  one = λ t u p q. ground (arith, p, q, x.one t u, x.one t (runner w), x.one u (runner w), at);
  taken = λ t p. ground (arith, p, x.taken t, x.taken (runner w), at);
  small = x.small;
  held = λ t p. ground (arith, p, x.one t (runner w), at);
}
Step-IsExclusive l (disown w at mine) x = record {
  one = λ t u p q. ground (arith, p, q, x.one t u, x.one t (runner w), x.one u (runner w), at);
  taken = λ t p. ground (arith, p, x.taken t, x.taken (runner w), at);
  small = x.small;
  held = λ t p. ground (arith, p, x.one t (runner w), at);
}
Step-IsExclusive l (give w junk s' at e) x =
    let d = sema_up-HasUpped junk l w.sync s' e in
    record {
      one = λ t u p q. ground (arith, p, q, x.one t u, at);
      taken = λ t p. ground (arith, p, x.one t (runner w), at);
      small = ground (arith, x.taken (runner w), at, d.value);
      held = λ t p. ground (arith, p, x.one t (runner w), at);
    }
Step-IsExclusive l (elsewhere w s' v h) x = record {
  one = x.one;
  taken = λ t p. v ∙ x.taken t p;
  small = omega (arith, v, x.small);
  held = λ t p. h ∙ x.held t p;
}

-- Mutual exclusion, over every sequence of steps of all threads from an exclusive world: at most one
-- thread is between taking the lock's semaphore and giving it back, the semaphore's value is 0 meanwhile
-- and never above 1, and the lock's holder is the thread in the critical section.
pub Reach-IsExclusive :
    (l : ℕ) {start w : World} → IsExclusive l start → Reach l start w → IsExclusive l w
Reach-IsExclusive l x here = x
Reach-IsExclusive l x (next r st) = Step-IsExclusive l st (Reach-IsExclusive l x r)

-- A lock as lock_init leaves it, with no thread near it.
pub fresh-IsExclusive :
    (l : ℕ) (w : World)
    → (w.sync.semas l).value ≡ 1
    → ((t : ℕ) → w.stage t ≡ outside)
    → IsExclusive l w
fresh-IsExclusive l w v out = record {
  one = λ t u p q. absurd (cc (out t, p));
  taken = λ t p. absurd (cc (out t, p));
  small = omega (arith, v);
  held = λ t p. absurd (cc (out t, p));
}
