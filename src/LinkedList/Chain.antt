-- ===== src/LinkedList/Chain.antt =====
-- The sequence of elements that a list stands for.
use pintos_project.Base.{ℕ, ◌≤◌, ◌<◌, ◌≡◌, List, [], ◌∷◌, ◌++◌, count, arith}
use pintos_project.LinkedList.{Links, Ends}

-- Behind the element `p` the pointers lead forth and back through the elements `xs`.
pub data Linked (s : Links) : ℕ → List ℕ → Type 0 where
  nil : {p : ℕ} → Linked s p []
  cons : {p x : ℕ} {xs : List ℕ} → s.next p ≡ x → s.prev x ≡ p → Linked s x xs → Linked s p (x ∷ xs)

-- The list at `l` is the sequence `xs` between its head and its tail, all distinct and none NULL.
pub record IsList (s : Links) (l : Ends) (xs : List ℕ) : Type 0 where
  pub chain : Linked s l.head (xs ++ l.tail ∷ [])
  pub first : s.prev l.head ≡ 0
  pub last : s.next l.tail ≡ 0
  pub once : (u : ℕ) → count u (l.head ∷ xs ++ l.tail ∷ []) ≤ 1
  pub real : count 0 (l.head ∷ xs ++ l.tail ∷ []) ≡ 0

-- A chain survives a change that spares its pointers.
pub frame :
    {s : Links} {p : ℕ} {xs : List ℕ} (t : Links)
    → Linked s p xs
    → ((u : ℕ) → 0 < count u (p ∷ xs) → t.next u ≡ s.next u)
    → ((u : ℕ) → 0 < count u xs → t.prev u ≡ s.prev u)
    → Linked t p xs
frame t nil n v = nil
frame t (cons {p} {x} {xs} e e' c) n v =
    cons (ground (arith, n p, e)) (ground (arith, v x, e'))
      (frame t c (λ u h. n u (ground arith)) (λ u h. v u (ground arith)))

-- The element before `b` stands in front of it.
pub prev_listed :
    (s : Links) (p b : ℕ) (bs cs : List ℕ)
    → Linked s p (bs ++ b ∷ cs)
    → 0 < count (s.prev b) (p ∷ bs)
prev_listed s p b [] cs (cons e e' c) = ground arith
prev_listed s p b (a ∷ bs) cs (cons e e' c) = ground (arith, prev_listed s a b bs cs c)
