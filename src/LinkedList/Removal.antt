-- ===== src/LinkedList/Removal.antt =====
-- What list_remove does to a list.
use pintos_project.Base.{
  subst, append_assoc, sym, ℕ, ◌≤◌, ◌≡◌, refl, ap, ◌∙◌, false, some, List, [], ◌∷◌, ◌++◌, ◌==◌,
  count, arith, assert_passes,
}
use pintos_project.LinkedList.{Links, Ends, set_prev, set_next, is_interior, list_remove}
use pintos_project.LinkedList.Chain.{Linked, IsList, prev_listed}
use pintos_project.LinkedList.Editing.{
  HasRemoved, remove-Linked, next_listed, first_of, rest_of, first_rest, first_listed, HasBecome,
  split_chain, split_once, here_real, prev_real, count-nodes_split,
}

module _ (s : Links) (l : Ends) (elem : ℕ) (bs cs : List ℕ) (v : IsList s l (bs ++ elem ∷ cs)) where
  abbrev pub follower : ℕ
  follower = first_of cs l.tail

  full_chain : Linked s l.head (bs ++ elem ∷ follower ∷ rest_of cs l.tail)
  full_chain =
      subst (λ xs. Linked s l.head (bs ++ elem ∷ xs)) (first_rest cs l.tail)
        (split_chain s l bs (elem ∷ cs) v)

  full_once : (u : ℕ) → count u (l.head ∷ bs ++ elem ∷ follower ∷ rest_of cs l.tail) ≤ 1
  full_once u =
      subst (λ xs. count u (l.head ∷ bs ++ elem ∷ xs) ≤ 1) (first_rest cs l.tail)
        (split_once s l bs (elem ∷ cs) v u)

  pub next_elem : s.next elem ≡ follower
  next_elem = next_listed s l.head elem follower bs (rest_of cs l.tail) full_chain

  pub follower_real : (follower == 0) ≡ false
  follower_real =
      ground (arith, first_listed cs l.tail 0, v.real, count-nodes_split l bs (elem ∷ cs) 0)

  -- list_remove of an element of a list passes its assertion and returns the element that followed: the
  -- list is what stood before it and what stood behind it, and no pointer of another element has changed.
  pub list_remove_lem :
      (t : Links) × (list_remove elem s ≡ some (follower, t))
      × HasBecome s l (bs ++ elem ∷ cs) (bs ++ cs) t
  unfolding list_remove
  list_remove_lem =
      let real : (elem == 0) ≡ false = here_real s l bs (elem ∷ cs) v in
      let before : (s.prev elem == 0) ≡ false = prev_real s l bs (elem ∷ cs) v in
      let near =
        prev_listed s l.head elem bs (cs ++ l.tail ∷ []) (split_chain s l bs (elem ∷ cs) v) in
      let sizes = count-nodes_split l bs (elem ∷ cs) in
      let t : Links = set_prev follower (s.prev elem) (set_next (s.prev elem) follower s) in
      let apart : (s.prev elem == elem) ≡ false = ground (arith, near, v.once elem, sizes elem) in
      let i : HasRemoved elem s t = record {
        next = λ u. ground (arith, next_elem);
        prev = λ u. ground (arith, next_elem);
      } in
      let c =
        remove-Linked s t l.head elem follower bs (rest_of cs l.tail) i full_chain full_once in
      (
        t,
        assert_passes (is_interior elem s) _
            (ground (arith, real, before, next_elem, follower_real)) (rw (apart, next_elem) refl),
        record {
          list = record {
            chain =
                subst (Linked t l.head)
                  (sym
                    (append_assoc bs cs (l.tail ∷ []) ∙ ap (λ xs. bs ++ xs) (first_rest cs l.tail)))
                  c;
            first = ground (
              arith,
              i.prev l.head,
              next_elem,
              v.first,
              v.once l.head,
              sizes l.head,
              first_listed cs l.tail l.head,
            );
            last = ground (
              arith,
              i.next l.tail,
              near,
              v.once l.tail,
              v.last,
              sizes l.tail,
              sizes (s.prev elem),
              v.once (s.prev elem),
            );
            once = λ u. ground (arith, v.once u, sizes u, count-nodes_split l bs cs u);
            real = ground (arith, v.real, sizes 0, count-nodes_split l bs cs 0);
          };
          others = λ u o o'.
              ground
                (arith, i.next u, i.prev u, o, near, next_elem, sizes u, first_listed cs l.tail u);
        },
      )
