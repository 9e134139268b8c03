-- ===== src/LinkedList/Walking.antt =====
-- The loops that walk a list: list_size and list_insert_ordered.
use pintos_project.Base.{
  subst, append_assoc, sym, ℕ, zero, suc, ◌+◌, ◌<◌, ◌≡◌, refl, ap, ◌∙◌, ◌≢◌, Bool, true, false, not,
  ◌||◌, some, List, [], ◌∷◌, ◌++◌, ◌==◌, if◌then◌else◌, count, arith, length, assert_passes,
  some->>=, if_true, if_false, inl, inr, Bool-cases,
}
use pintos_project.LinkedList.{
  Links, Ends, is_head, is_interior, list_next, list_begin, size_from, list_size, place_from,
  list_insert_ordered,
}
use pintos_project.LinkedList.Chain.{Linked, cons, IsList}
use pintos_project.LinkedList.Editing.{
  first_of, rest_of, nodes, HasBecome, split_chain, here_real, prev_real, count-nodes_split,
  list_insert_lem,
}
use pintos_project.LinkedList.Removal.{next_elem, follower_real}

pub begin_lem :
    (s : Links) (l : Ends) (xs : List ℕ) → IsList s l xs → list_begin l s ≡ first_of xs l.tail
begin_lem s l xs v = first_next l.head (rest_of xs l.tail) (split_chain s l [] xs v)
  where
    first_next : {x : ℕ} (p : ℕ) (ys : List ℕ) → Linked s p (x ∷ ys) → s.next p ≡ x
    first_next p ys (cons e e' c) = e

module _ (s : Links) (l : Ends) (x : ℕ) (bs cs : List ℕ) (v : IsList s l (bs ++ x ∷ cs)) where
  pub next_lem : list_next x s ≡ some (first_of cs l.tail)
  unfolding list_next
  next_lem =
      assert_passes (is_head x s || is_interior x s) _
        (ground (
          arith,
          here_real s l bs (x ∷ cs) v,
          prev_real s l bs (x ∷ cs) v,
          next_elem s l x bs cs v,
          follower_real s l x bs cs v,
        ))
        (ap some (next_elem s l x bs cs v))

  not_end : (x == l.tail) ≡ false
  not_end = ground (arith, v.once x, count-nodes_split l bs (x ∷ cs) x)

  moved_on : IsList s l ((bs ++ x ∷ []) ++ cs)
  moved_on = subst (IsList s l) (sym (append_assoc bs (x ∷ []) cs)) v

size_from_lem :
    (n : ℕ) (s : Links) (l : Ends) (bs cs : List ℕ) (cnt : ℕ)
    → IsList s l (bs ++ cs)
    → length cs < n
    → size_from n l (first_of cs l.tail) cnt s ≡ some (cnt + length cs)
unfolding size_from
size_from_lem zero s l bs cs cnt v h = absurd (omega arith)
size_from_lem (suc n) s l bs [] cnt v h =
    if_true (l.tail == l.tail) _ _ (ground arith) ∙ ap some (omega arith)
size_from_lem (suc n) s l bs (x ∷ cs) cnt v h =
    if_false (x == l.tail) _ _ (not_end s l x bs cs v)
    ∙ some->>= (list_next x s) _ (next_lem s l x bs cs v) (
        size_from_lem n s l (bs ++ x ∷ []) cs (cnt + 1) (moved_on s l x bs cs v) (omega (arith, h))
        ∙ ap some (omega arith))

-- list_size, with more rounds than the list has elements, comes to an end and returns their number.
pub list_size_lem :
    (fuel : ℕ) (s : Links) (l : Ends) (xs : List ℕ)
    → IsList s l xs
    → length xs < fuel
    → list_size fuel l s ≡ some (length xs)
unfolding list_size
list_size_lem fuel s l xs v h =
    rw (begin_lem s l xs v) (size_from_lem fuel s l [] xs 0 v h ∙ ap some (omega arith))

-- Where list_insert_ordered puts an element: before the first that is greater.
abbrev pub insert_ordered : (ℕ → ℕ → Bool) → ℕ → List ℕ → List ℕ
insert_ordered less e [] = e ∷ []
insert_ordered less e (x ∷ xs) = if less e x then e ∷ x ∷ xs else x ∷ insert_ordered less e xs

-- The part of a sequence before that place, and the part behind it.
abbrev before_place : (ℕ → ℕ → Bool) → ℕ → List ℕ → List ℕ
before_place less e [] = []
before_place less e (x ∷ xs) = if less e x then [] else x ∷ before_place less e xs

abbrev from_place : (ℕ → ℕ → Bool) → ℕ → List ℕ → List ℕ
from_place less e [] = []
from_place less e (x ∷ xs) = if less e x then x ∷ xs else from_place less e xs

split_place :
    (less : ℕ → ℕ → Bool) (e : ℕ) (xs : List ℕ)
    → xs ≡ before_place less e xs ++ from_place less e xs
split_place less e [] = refl
split_place less e (x ∷ xs) = go (less e x) (split_place less e xs)
  where
    go :
        (c : Bool)
        → xs ≡ before_place less e xs ++ from_place less e xs
        → x ∷ xs
          ≡ (if c then [] else x ∷ before_place less e xs)
            ++ (if c then x ∷ xs else from_place less e xs)
    go true h = refl
    go false h = ap (λ ys. x ∷ ys) h

joined_place :
    (less : ℕ → ℕ → Bool) (e : ℕ) (xs : List ℕ)
    → before_place less e xs ++ e ∷ from_place less e xs ≡ insert_ordered less e xs
joined_place less e [] = refl
joined_place less e (x ∷ xs) = go (less e x) (joined_place less e xs)
  where
    go :
        (c : Bool)
        → before_place less e xs ++ e ∷ from_place less e xs ≡ insert_ordered less e xs
        → (if c then [] else x ∷ before_place less e xs)
            ++ e ∷ (if c then x ∷ xs else from_place less e xs)
          ≡ (if c then e ∷ x ∷ xs else x ∷ insert_ordered less e xs)
    go true h = refl
    go false h = ap (λ ys. x ∷ ys) h

place_from_lem :
    (less : ℕ → ℕ → Bool) (n : ℕ) (s : Links) (l : Ends) (e : ℕ) (bs cs : List ℕ)
    → IsList s l (bs ++ cs)
    → length cs < n
    → place_from less n l e (first_of cs l.tail) s ≡ some (first_of (from_place less e cs) l.tail)
unfolding place_from
place_from_lem less zero s l e bs cs v h = absurd (omega arith)
place_from_lem less (suc n) s l e bs [] v h =
    if_true (l.tail == l.tail || less e l.tail) _ _ (ground arith)
place_from_lem less (suc n) s l e bs (x ∷ cs) v h = elim (Bool-cases (less e x)) [
  | inl lt ↦ if_true (x == l.tail || less e x) _ _ (ground (arith, lt)) ∙ rw lt refl
  | inr ge ↦
      if_false (x == l.tail || less e x) _ _ (ground (arith, ge, not_end s l x bs cs v))
      ∙ some->>= (list_next x s) _ (next_lem s l x bs cs v) (
          place_from_lem less n s l e (bs ++ x ∷ []) cs (moved_on s l x bs cs v) (omega (arith, h))
          ∙ rw ge refl)
]

-- No element stands directly behind one that it is less than.
pub data Sorted (less : ℕ → ℕ → Bool) : List ℕ → Type 0 where
  empty : Sorted less []
  single : {x : ℕ} → Sorted less (x ∷ [])
  more :
      {x y : ℕ} {ys : List ℕ} → less y x ≡ false → Sorted less (y ∷ ys) → Sorted less (x ∷ y ∷ ys)

module _ (less : ℕ → ℕ → Bool) (asym : (a b : ℕ) → less a b ≡ true → less b a ≡ false) (e : ℕ) where
  insert_behind :
      {x : ℕ} {xs : List ℕ}
      → less e x ≡ false
      → Sorted less (x ∷ xs)
      → Sorted less (x ∷ insert_ordered less e xs)
  insert_behind ge single = more ge single
  insert_behind {x} ge (more {y} {ys} le rest) = go (less e y) refl (λ h. insert_behind h rest)
    where
      go :
          (c : Bool)
          → less e y ≡ c
          → (less e y ≡ false → Sorted less (y ∷ insert_ordered less e ys))
          → Sorted less (x ∷ (if c then e ∷ y ∷ ys else y ∷ insert_ordered less e ys))
      go true h r = more ge (more (asym e y h) rest)
      go false h r = more le (r h)

  insert_ordered-Sorted : (xs : List ℕ) → Sorted less xs → Sorted less (insert_ordered less e xs)
  insert_ordered-Sorted [] h = single
  insert_ordered-Sorted (x ∷ xs) h = go (less e x) refl
    where
      go :
          (c : Bool)
          → less e x ≡ c
          → Sorted less (if c then e ∷ x ∷ xs else x ∷ insert_ordered less e xs)
      go true q = more (asym e x q) h
      go false q = insert_behind q h

-- list_insert_ordered of an element that is not in the list, with more rounds than the list has elements
-- and an asymmetric order, comes to an end and passes its assertions: the element stands before the first
-- that it is less than, and if the list was sorted it is sorted again.
pub list_insert_ordered_lem :
    (less : ℕ → ℕ → Bool) (fuel : ℕ) (s : Links) (l : Ends) (elem : ℕ) (xs : List ℕ)
    → ((a b : ℕ) → less a b ≡ true → less b a ≡ false)
    → IsList s l xs
    → length xs < fuel
    → elem ≢ 0
    → count elem (nodes l xs) ≡ 0
    → (t : Links) × (list_insert_ordered less fuel l elem s ≡ some t)
      × HasBecome s l xs (insert_ordered less elem xs) t
      × (Sorted less xs → Sorted less (insert_ordered less elem xs))
unfolding list_insert_ordered
list_insert_ordered_lem less fuel s l elem xs asym v h ne out =
    let bs = before_place less elem xs in
    let cs = from_place less elem xs in
    let e = split_place less elem xs in
    let (t, r, b) =
      list_insert_lem s l bs cs (subst (IsList s l) e v) elem ne
        (subst (λ ys. count elem (nodes l ys) ≡ 0) e out) in
    (
      t,
      assert_passes (not (elem == 0)) _ (ground (arith, ne)) (
          some->>= (place_from less fuel l elem (list_begin l s) s) _
            (rw (begin_lem s l xs v) (place_from_lem less fuel s l elem [] xs v h)) r),
      subst (λ ys. HasBecome s l ys (insert_ordered less elem xs) t) (sym e)
          (subst (λ ys. HasBecome s l (bs ++ cs) ys t) (joined_place less elem xs) b),
      insert_ordered-Sorted less asym elem xs,
    )
