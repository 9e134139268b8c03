-- ===== src/LinkedList/Refinement.antt =====
-- A list refines the sequence of its elements, for any series of calls.
use pintos_project.Base.{
  subst, append_assoc, append-nil, sym, ℕ, ◌<◌, ◌≡◌, refl, ap, ◌∙◌, ◌≢◌, inl, inr, false, not,
  Option, some, List, [], ◌∷◌, ◌++◌, ◌==◌, if◌then◌else◌, count, erase, arith, assert_passes,
  some->>=, ◌>>=◌, Bool-cases,
}
use pintos_project.LinkedList.{
  Links, Ends, list_empty, list_init, list_begin, list_insert, list_remove, list_push_front,
  list_push_back, list_front, list_back, list_pop_front, list_pop_back,
}
use pintos_project.LinkedList.Chain.{Linked, nil, cons, IsList}
use pintos_project.LinkedList.Editing.{first_of, nodes, HasBecome, list_insert_lem, count-nodes}
use pintos_project.LinkedList.Removal.{list_remove_lem}
use pintos_project.LinkedList.Walking.{begin_lem}

-- A call on one list.
pub data Call : Type 0 where
  push_front push_back remove : ℕ → Call
  pop_front pop_back : Call

-- What a call returns: 0 where it returns nothing.
pub call : Ends → Call → Links → Option (ℕ × Links)
call l (push_front e) s = list_push_front l e s >>= λ t. some (0, t)
call l (push_back e) s = list_push_back l e s >>= λ t. some (0, t)
call l (remove e) s = list_remove e s
call l pop_front s = list_pop_front l s
call l pop_back s = list_pop_back l s

pub calls : Ends → List Call → Links → Option (List ℕ × Links)
unfolding call
calls l [] s = some ([], s)
calls l (c ∷ cs) s = do (r, s1) ← call l c s; (rs, s2) ← calls l cs s1; some (r ∷ rs, s2)

-- The sequences.
abbrev pub last_of : ℕ → List ℕ → ℕ
last_of x [] = x
last_of x (y ∷ ys) = last_of y ys

abbrev pub init_of : ℕ → List ℕ → List ℕ
init_of x [] = []
init_of x (y ∷ ys) = x ∷ init_of y ys

abbrev pub after : ℕ → ℕ → List ℕ → ℕ
after t e [] = t
after t e (x ∷ xs) = if x == e then first_of xs t else after t e xs

-- What a call does to a sequence: its result, and the sequence it leaves.
abbrev pub call_spec : Ends → Call → List ℕ → ℕ × List ℕ
call_spec l (push_front e) xs = (0, e ∷ xs)
call_spec l (push_back e) xs = (0, xs ++ e ∷ [])
call_spec l (remove e) xs = (after l.tail e xs, erase e xs)
call_spec l pop_front [] = (0, [])
call_spec l pop_front (x ∷ xs) = (x, xs)
call_spec l pop_back [] = (0, [])
call_spec l pop_back (x ∷ xs) = (last_of x xs, init_of x xs)

-- A call is allowed on a sequence: what is pushed is not NULL and not in the list, what is removed is in
-- it, and a list that is popped from is not empty.
abbrev pub IsAllowed : Ends → Call → List ℕ → Type 0
IsAllowed l (push_front e) xs = (e ≢ 0) × (count e (nodes l xs) ≡ 0)
IsAllowed l (push_back e) xs = (e ≢ 0) × (count e (nodes l xs) ≡ 0)
IsAllowed l (remove e) xs = 0 < count e xs
IsAllowed l pop_front xs = xs ≢ []
IsAllowed l pop_back xs = xs ≢ []

split_last : (x : ℕ) (xs : List ℕ) → init_of x xs ++ last_of x xs ∷ [] ≡ x ∷ xs
split_last x [] = refl
split_last x (y ∷ ys) = ap (λ zs. x ∷ zs) (split_last y ys)

-- The parts before and behind an element.
abbrev upto : ℕ → List ℕ → List ℕ
upto e [] = []
upto e (x ∷ xs) = if x == e then [] else x ∷ upto e xs

abbrev behind : ℕ → List ℕ → List ℕ
behind e [] = []
behind e (x ∷ xs) = if x == e then xs else behind e xs

record AreParts (t e : ℕ) (xs : List ℕ) : Type 0 where
  whole : upto e xs ++ e ∷ behind e xs ≡ xs
  erased : upto e xs ++ behind e xs ≡ erase e xs
  follower : first_of (behind e xs) t ≡ after t e xs

parts_at : (t e : ℕ) (xs : List ℕ) → 0 < count e xs → AreParts t e xs
parts_at t e [] h = absurd (omega arith)
parts_at t e (x ∷ xs) h = elim (Bool-cases (x == e)) [
  | inl y ↦
      let same : e ≡ x = ground (arith, y) in
      record { whole = rw y (ap (λ z. z ∷ xs) same); erased = rw y refl; follower = rw y refl }
  | inr n ↦
      let r = parts_at t e xs (ground (arith, n, h)) in
      record {
        whole = rw n (ap (λ zs. x ∷ zs) r.whole);
        erased = rw n (ap (λ zs. x ∷ zs) r.erased);
        follower = rw n r.follower;
      }
]

prev_next : (s : Links) (p x y : ℕ) (bs cs : List ℕ) → Linked s p (bs ++ x ∷ y ∷ cs) → s.prev y ≡ x
prev_next s p x y [] cs (cons e e' (cons f f' c)) = f'
prev_next s p x y (b ∷ bs) cs (cons e e' c) = prev_next s b x y bs cs c

nonempty :
    (s : Links) (l : Ends) (x : ℕ) (xs : List ℕ) → IsList s l (x ∷ xs) → list_empty l s ≡ false
nonempty s l x xs v = ground (arith, begin_lem s l (x ∷ xs) v, v.once x, count-nodes l (x ∷ xs) x)

-- Each call that is allowed passes its assertions, returns what the sequence does, leaves the list of what
-- the sequence leaves, and changes no pointer of an element outside both.
call_lem :
    (l : Ends) (c : Call) (s : Links) (xs : List ℕ)
    → IsList s l xs
    → IsAllowed l c xs
    → (t : Links) × (call l c s ≡ some ((call_spec l c xs).0, t))
      × HasBecome s l xs (call_spec l c xs).1 t
unfolding call list_push_front list_push_back list_pop_front list_pop_back list_front list_back
call_lem l (push_front e) s xs v (ne, out) =
    let (t, r, b) = list_insert_lem s l [] xs v e ne out in
    (t, some->>= (list_insert (list_begin l s) e s) _ (rw (begin_lem s l xs v) r) refl, b)
call_lem l (push_back e) s xs v (ne, out) =
    let id : xs ++ [] ≡ xs = append-nil xs in
    let (t, r, b) =
      list_insert_lem s l xs [] (subst (IsList s l) (sym id) v) e ne
        (subst (λ ys. count e (nodes l ys) ≡ 0) (sym id) out) in
    (
      t,
      some->>= (list_insert l.tail e s) _ r refl,
      subst (λ ys. HasBecome s l ys (xs ++ e ∷ []) t) id b,
    )
call_lem l (remove e) s xs v h =
    let p = parts_at l.tail e xs h in
    let (t, r, b) =
      list_remove_lem s l e (upto e xs) (behind e xs) (subst (IsList s l) (sym p.whole) v) in
    (
      t,
      r ∙ ap (λ x. some (x, t)) p.follower,
      subst (λ ys. HasBecome s l xs ys t) p.erased
          (subst (λ ys. HasBecome s l ys (upto e xs ++ behind e xs) t) p.whole b),
    )
call_lem l pop_front s [] v h = absurd (h refl)
call_lem l pop_front s (x ∷ xs) v h =
    let (t, r, b) = list_remove_lem s l x [] xs v in
    let front : list_front l s ≡ some x =
      assert_passes (not (list_empty l s)) _ (ap not (nonempty s l x xs v))
        (ap some (begin_lem s l (x ∷ xs) v)) in
    (t, some->>= (list_front l s) _ front (some->>= (list_remove x s) _ r refl), b)
call_lem l pop_back s [] v h = absurd (h refl)
call_lem l pop_back s (x ∷ xs) v h =
    let e = split_last x xs in
    let y = last_of x xs in
    let ys = init_of x xs in
    let (t, r, b) = list_remove_lem s l y ys [] (subst (IsList s l) (sym e) v) in
    let back : list_back l s ≡ some y =
      assert_passes (not (list_empty l s)) _ (ap not (nonempty s l x xs v)) (
        ap some (
          prev_next s l.head y l.tail ys [] (
            subst (Linked s l.head) (append_assoc ys (y ∷ []) (l.tail ∷ []))
              (subst (λ zs. Linked s l.head (zs ++ l.tail ∷ [])) (sym e) v.chain)))) in
    (
      t,
      some->>= (list_back l s) _ back (some->>= (list_remove y s) _ r refl),
      subst (λ zs. HasBecome s l (x ∷ xs) zs t) (append-nil ys)
          (subst (λ zs. HasBecome s l zs (ys ++ []) t) e b),
    )

-- The results and the sequence after a series of calls, and that each of them is allowed.
abbrev pub calls_spec : Ends → List Call → List ℕ → List ℕ × List ℕ
calls_spec l [] xs = ([], xs)
calls_spec l (c ∷ cs) xs =
    let (r, ys) = call_spec l c xs in let (rs, zs) = calls_spec l cs ys in (r ∷ rs, zs)

abbrev pub AreAllowed : Ends → List Call → List ℕ → Type 0
AreAllowed l [] xs = Unit {0}
AreAllowed l (c ∷ cs) xs = IsAllowed l c xs × AreAllowed l cs (call_spec l c xs).1

-- Refinement: a series of pushes and pops at both ends and removals that a sequence allows, on a list of
-- that sequence, passes every assertion, returns what the sequence does and leaves the list of what the
-- sequence leaves.
pub calls_lem :
    (l : Ends) (cs : List Call) (s : Links) (xs : List ℕ)
    → IsList s l xs
    → AreAllowed l cs xs
    → (t : Links) × (calls l cs s ≡ some ((calls_spec l cs xs).0, t))
      × IsList t l (calls_spec l cs xs).1
unfolding calls
calls_lem l [] s xs v h = (s, refl, v)
calls_lem l (c ∷ cs) s xs v (h, hs) =
    let (s1, e1, b) = call_lem l c s xs v h in
    let (s2, e2, v2) = calls_lem l cs s1 (call_spec l c xs).1 b.list hs in
    (s2, some->>= (call l c s) _ e1 (some->>= (calls l cs s1) _ e2 refl), v2)

-- list_init makes the list of the empty sequence, at two distinct addresses that are not NULL.
pub list_init_lem :
    (s : Links) (l : Ends) → l.head ≢ 0 → l.tail ≢ 0 → l.head ≢ l.tail → IsList (list_init l s) l []
unfolding list_init
list_init_lem s l h t ne = record {
  chain = cons (ground (arith, ne)) (ground (arith, ne)) nil;
  first = ground (arith, ne);
  last = ground arith;
  once = λ u. ground (arith, ne);
  real = ground (arith, h, t);
}
