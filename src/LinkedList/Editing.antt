-- ===== src/LinkedList/Editing.antt =====
-- What list_insert and list_remove do to a chain and to a list.
use pintos_project.Base.{
  subst, append_assoc, sym, ℕ, ◌+◌, ◌≤◌, ◌≡◌, refl, ap, ◌∙◌, ◌≢◌, false, not, ◌||◌, some, List, [],
  ◌∷◌, ◌++◌, ◌==◌, if◌then◌else◌, count, count-append, arith, assert_passes,
}
use pintos_project.LinkedList.{Links, Ends, is_interior, is_tail, link_before, list_insert}
use pintos_project.LinkedList.Chain.{Linked, cons, IsList, frame, prev_listed}

-- `t` is `s` with `elem` linked in before `b`.
record HasInserted (b elem : ℕ) (s t : Links) : Type 0 where
  next : (u : ℕ) → t.next u ≡ (if s.prev b == u then elem else if elem == u then b else s.next u)
  prev : (u : ℕ) → t.prev u ≡ (if b == u then elem else if elem == u then s.prev b else s.prev u)

insert-Linked :
    (s t : Links) (p b elem : ℕ) (bs cs : List ℕ)
    → HasInserted b elem s t
    → Linked s p (bs ++ b ∷ cs)
    → ((u : ℕ) → count u (p ∷ bs ++ b ∷ cs) ≤ 1)
    → count elem (p ∷ bs ++ b ∷ cs) ≡ 0
    → Linked t p (bs ++ elem ∷ b ∷ cs)
insert-Linked s t p b elem [] cs i (cons e e' c) once out =
    cons (ground (arith, i.next p, e')) (ground (arith, i.prev elem, e', out)) (
      cons (ground (arith, i.next elem, e', out)) (ground (arith, i.prev b)) (
        frame t c (λ u h. ground (arith, i.next u, h, e', once u, out))
          (λ u h. ground (arith, i.prev u, h, once u, out))))
insert-Linked s t p b elem (a ∷ bs) cs i (cons e e' c) once out =
    cons
      (ground (
        arith,
        i.next p,
        e,
        prev_listed s a b bs cs c,
        once p,
        out,
        count-append p bs (b ∷ cs),
        count-append (s.prev b) bs (b ∷ cs),
      ))
      (ground (arith, i.prev a, e', once a, out, count-append a bs (b ∷ cs)))
      (insert-Linked s t a b elem bs cs i c (λ u. ground (arith, once u)) (ground (arith, out)))

pub next_listed :
    (s : Links) (p elem c : ℕ) (bs cs : List ℕ) → Linked s p (bs ++ elem ∷ c ∷ cs) → s.next elem ≡ c
next_listed s p elem c [] cs (cons e e' (cons f f' d)) = f
next_listed s p elem c (a ∷ bs) cs (cons e e' d) = next_listed s a elem c bs cs d

-- `t` is `s` with `elem` unlinked.
pub record HasRemoved (elem : ℕ) (s t : Links) : Type 0 where
  pub next : (u : ℕ) → t.next u ≡ (if s.prev elem == u then s.next elem else s.next u)
  pub prev : (u : ℕ) → t.prev u ≡ (if s.next elem == u then s.prev elem else s.prev u)

pub remove-Linked :
    (s t : Links) (p elem c : ℕ) (bs cs : List ℕ)
    → HasRemoved elem s t
    → Linked s p (bs ++ elem ∷ c ∷ cs)
    → ((u : ℕ) → count u (p ∷ bs ++ elem ∷ c ∷ cs) ≤ 1)
    → Linked t p (bs ++ c ∷ cs)
remove-Linked s t p elem c [] cs i (cons e e' (cons f f' d)) once =
    cons (ground (arith, i.next p, e', f)) (ground (arith, i.prev c, e', f)) (
      frame t d (λ u h. ground (arith, i.next u, h, e', once u))
        (λ u h. ground (arith, i.prev u, h, f, once u)))
remove-Linked s t p elem c (a ∷ bs) cs i (cons e e' d) once =
    cons
      (ground (
        arith,
        i.next p,
        e,
        prev_listed s a elem bs (c ∷ cs) d,
        once p,
        count-append (s.prev elem) bs (elem ∷ c ∷ cs),
        count-append p bs (elem ∷ c ∷ cs),
      ))
      (ground (
        arith,
        i.prev a,
        e',
        next_listed s a elem c bs cs d,
        once a,
        count-append a bs (elem ∷ c ∷ cs),
      ))
      (remove-Linked s t a elem c bs cs i d (λ u. ground (arith, once u)))

-- The element that stands behind a sequence: the first of what follows, or else the tail.
abbrev pub first_of : List ℕ → ℕ → ℕ
first_of [] t = t
first_of (c ∷ cs) t = c

abbrev pub rest_of : List ℕ → ℕ → List ℕ
rest_of [] t = []
rest_of (c ∷ cs) t = cs ++ t ∷ []

-- The element that follows is one of what follows, or the tail.
pub first_listed :
    (cs : List ℕ) (t u : ℕ) → count u cs ≡ 0 → (t == u) ≡ false → (first_of cs t == u) ≡ false
first_listed [] t u h n = n
first_listed (c ∷ cs) t u h n = ground (arith, h)

pub first_rest : (cs : List ℕ) (t : ℕ) → cs ++ t ∷ [] ≡ first_of cs t ∷ rest_of cs t
first_rest [] t = refl
first_rest (c ∷ cs) t = refl

-- All elements of a list, its head and its tail with them.
abbrev pub nodes : Ends → List ℕ → List ℕ
nodes l xs = l.head ∷ xs ++ l.tail ∷ []

pub nodes_split :
    (l : Ends) (bs cs : List ℕ)
    → nodes l (bs ++ cs) ≡ l.head ∷ bs ++ first_of cs l.tail ∷ rest_of cs l.tail
nodes_split l bs cs =
    ap (λ xs. l.head ∷ xs)
      (append_assoc bs cs (l.tail ∷ []) ∙ ap (λ xs. bs ++ xs) (first_rest cs l.tail))

-- The list at `l` was `xs` and is `ys`, and no pointer of an element outside both has changed.
pub record HasBecome (s : Links) (l : Ends) (xs ys : List ℕ) (t : Links) : Type 0 where
  pub list : IsList t l ys
  pub others :
      (u : ℕ)
      → count u (nodes l xs) ≡ 0
      → count u (nodes l ys) ≡ 0
      → (t.next u ≡ s.next u) × (t.prev u ≡ s.prev u)

pub count-nodes :
    (l : Ends) (xs : List ℕ) (u : ℕ)
    → count u (nodes l xs)
      ≡ (if l.head == u then 1 else 0) + count u xs + (if l.tail == u then 1 else 0)
count-nodes l xs u = omega (arith, count-append u xs (l.tail ∷ []))

pub count-nodes_split :
    (l : Ends) (bs cs : List ℕ) (u : ℕ)
    → count u (nodes l (bs ++ cs))
      ≡ (if l.head == u then 1 else 0) + count u bs + count u cs + (if l.tail == u then 1 else 0)
count-nodes_split l bs cs u = omega (arith, count-nodes l (bs ++ cs) u, count-append u bs cs)

module _ (s : Links) (l : Ends) (bs cs : List ℕ) (v : IsList s l (bs ++ cs)) where
  abbrev pub here : ℕ
  here = first_of cs l.tail

  pub split_chain : Linked s l.head (bs ++ here ∷ rest_of cs l.tail)
  split_chain =
      subst (Linked s l.head)
        (append_assoc bs cs (l.tail ∷ []) ∙ ap (λ xs. bs ++ xs) (first_rest cs l.tail)) v.chain

  pub split_once : (u : ℕ) → count u (l.head ∷ bs ++ here ∷ rest_of cs l.tail) ≤ 1
  split_once u = subst (λ xs. count u xs ≤ 1) (nodes_split l bs cs) (v.once u)

  pub split_real : count 0 (l.head ∷ bs ++ here ∷ rest_of cs l.tail) ≡ 0
  split_real = subst (λ xs. count 0 xs ≡ 0) (nodes_split l bs cs) v.real

  pub here_real : (here == 0) ≡ false
  here_real = ground (arith, split_real, count-append 0 bs (here ∷ rest_of cs l.tail))

  pub prev_real : (s.prev here == 0) ≡ false
  prev_real = ground (
    arith,
    split_real,
    prev_listed s l.head here bs (rest_of cs l.tail) split_chain,
    count-append 0 bs (here ∷ rest_of cs l.tail),
  )

  -- list_insert of an element that is not in the list, before the element that follows `bs`, passes its
  -- assertions: the list has the element between `bs` and what followed, and no pointer of another
  -- element has changed.
  pub list_insert_lem :
      (elem : ℕ)
      → elem ≢ 0
      → count elem (nodes l (bs ++ cs)) ≡ 0
      → (t : Links) × (list_insert here elem s ≡ some t)
        × HasBecome s l (bs ++ cs) (bs ++ elem ∷ cs) t
  unfolding list_insert
  list_insert_lem elem ne out =
      let out1 : count elem (l.head ∷ bs ++ here ∷ rest_of cs l.tail) ≡ 0 =
        subst (λ xs. count elem xs ≡ 0) (nodes_split l bs cs) out in
      let t = link_before here elem s in
      let apart : (elem == here) ≡ false =
        ground (arith, out1, count-append elem bs (here ∷ rest_of cs l.tail)) in
      let near = prev_listed s l.head here bs (rest_of cs l.tail) split_chain in
      let apart1 : (s.prev here == elem) ≡ false =
        ground (arith, out1, near, count-append elem bs (here ∷ rest_of cs l.tail)) in
      let i : HasInserted here elem s t = record {
        next = λ u. ground (arith, apart, apart1);
        prev = λ u. ground (arith, apart, apart1);
      } in
      let c =
        insert-Linked s t l.head here elem bs (rest_of cs l.tail) i split_chain split_once out1 in
      (
        t,
        assert_passes (is_interior here s || is_tail here s) _
            (ground (arith, here_real, prev_real))
            (assert_passes (not (elem == 0)) _ (ground (arith, ne)) refl),
        record {
          list = record {
            chain =
                subst (Linked t l.head)
                  (sym (ap (λ xs. bs ++ elem ∷ xs) (first_rest cs l.tail))
                    ∙ sym (append_assoc bs (elem ∷ cs) (l.tail ∷ [])))
                  c;
            first = ground (
              arith,
              i.prev l.head,
              out1,
              split_once l.head,
              v.first,
              count-append l.head bs (here ∷ rest_of cs l.tail),
            );
            last = ground (
              arith,
              i.next l.tail,
              out,
              near,
              v.once l.tail,
              v.last,
              count-nodes_split l bs cs l.tail,
              count-nodes_split l bs cs (s.prev here),
              count-nodes_split l bs cs elem,
              v.once (s.prev here),
            );
            once = λ u. ground (
              arith,
              v.once u,
              out,
              count-nodes_split l bs cs u,
              count-nodes_split l bs (elem ∷ cs) u,
              count-nodes_split l bs cs elem,
            );
            real = ground (
              arith,
              v.real,
              ne,
              count-nodes_split l bs cs 0,
              count-nodes_split l bs (elem ∷ cs) 0,
            );
          };
          others = λ u o o'. ground (
            arith,
            i.next u,
            i.prev u,
            o,
            o',
            near,
            count-nodes_split l bs cs u,
            count-nodes_split l bs (elem ∷ cs) u,
            first_listed cs l.tail u,
          );
        },
      )
