-- ===== src/Threads/Synch/Effects.antt =====
-- What any successful call does to the value of its semaphore and to the holders.
use pintos_project.Base.{
  ℕ, ◌-◌, ◌≡◌, refl, ap, ◌≢◌, inl, inr, Bool, true, false, not, ◌&&◌, some, List, [], ◌∷◌, ◌==◌,
  ltb, if◌then◌else◌, arith, Bool-cases, update, >>=-eq-some, >>-eq-some,
}
use pintos_project.Threads.Kernel.{
  Kernel, with_level, intr_set_level, thread_block, thread_unblock, thread_yield,
}
use pintos_project.Threads.Synch.{Sync, max_waiter, value_up, yield_to, sema_up, down_once}

-- One round of sema_down takes the semaphore only if its value is positive.
pub record HasDowned (a : ℕ) (s : Sync) (took : Bool) (s' : Sync) : Type 0 where
  pub holders : s'.holders ≡ s.holders
  pub value : (s'.semas a).value ≡ (if took then (s.semas a).value - 1 else (s.semas a).value)
  pub positive : took ≡ true → (s.semas a).value ≢ 0

pub down_once-HasDowned :
    (a : ℕ) (s s' : Sync) (took : Bool) → down_once a s ≡ some (took, s') → HasDowned a s took s'
unfolding down_once
down_once-HasDowned a s s' took e = elim (Bool-cases ((s.semas a).value == 0)) [
  | inl z ↦
      let (k, b, r) = >>=-eq-some (thread_block s.kernel) _ (rw z at e) in
      record { holders = cc r; value = ground (arith, r); positive = λ t. cc (r, t) }
  | inr p ↦
      let r = rw p at e in
      record { holders = cc r; value = ground (arith, r); positive = λ t. ground (arith, p) }
]

pub record HasUpped (a : ℕ) (s s' : Sync) : Type 0 where
  pub holders : s'.holders ≡ s.holders
  pub value : (s'.semas a).value ≡ value_up (s.semas a).value

yield_to_same :
    (p : ℕ) (s s' : Sync) → yield_to p s ≡ some s' → (s'.holders ≡ s.holders) × (s'.semas ≡ s.semas)
unfolding yield_to
yield_to_same p s s' e =
    let better = ltb (s.kernel.threads s.kernel.current).priority p && s.kernel.intr_on in
    let (k, b, r) =
      >>=-eq-some (if better then thread_yield s.kernel else some s.kernel)
        (λ k. some (record s { kernel = k })) e in
    (cc r, cc r)

value-yield_to :
    (p a v : ℕ) (l : List ℕ) (s s' : Sync) (k : Kernel)
    → yield_to p
        (record s { kernel = k; semas = update s.semas a (record { value = v; waiters = l }) })
      ≡ some s'
    → (s'.holders ≡ s.holders) × ((s'.semas a).value ≡ v)
value-yield_to p a v l s s' k e =
    let (h, m) = yield_to_same p _ s' e in (h, ground (arith, ap (λ f. (f a).value) m))

pub sema_up-HasUpped : (junk a : ℕ) (s s' : Sync) → sema_up junk a s ≡ some s' → HasUpped a s s'
unfolding sema_up
sema_up-HasUpped junk a s s' e = go (s.semas a).waiters refl
  where
    go : (l : List ℕ) → (s.semas a).waiters ≡ l → HasUpped a s s'
    go [] w =
        let (k, b, r) =
          >>=-eq-some (intr_set_level s.kernel.intr_on s.kernel) _
            (rw w at (>>-eq-some (not (a == 0)) _ e).1) in
        let (h, m) = value-yield_to junk a _ _ s s' k r in record { holders = h; value = m }
    go (t ∷ ts) w =
        let woken = max_waiter s.kernel t (t ∷ ts) in
        let (k, b, r) =
          >>=-eq-some (thread_unblock woken (with_level false s.kernel)) _
            (rw w at (>>-eq-some (not (a == 0)) _ e).1) in
        let (k', b', r') = >>=-eq-some (intr_set_level s.kernel.intr_on k) _ r in
        let (h, m) = value-yield_to (s.kernel.threads woken).priority a _ _ s s' k' r' in
        record { holders = h; value = m }
