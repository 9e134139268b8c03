-- ===== src/Hash/Operations.antt =====
-- hash_insert, hash_replace and hash_delete as operations on the set of the elements of a table.
use pintos_project.Base.{
  ℕ, subst, ◌+◌, ◌-◌, ◌^◌, ◌<◌, ◌≡◌, ◌≢◌, refl, ◌∙◌, inl, inr, Bool, true, false, ◌&&◌, some, [],
  ◌==◌, if◌then◌else◌, Bool-cases, arith,
}
use pintos_project.Hash.{
  Hash, is_equal, find_bucket, hash_find, insert_elem, remove_elem, rehash, hash_insert,
  hash_replace, hash_delete, hash_clear, hash_init,
}
use pintos_project.Hash.Finding.{IsKeyed, IsValid, IsFound, held, hash_find_lem}
use pintos_project.Hash.Rehashing.{find_bucket-fields, rehash_lem}
use pintos_project.Hash.Changing.{
  held-insert_elem, held-remove_elem, removed_cnt, insert_elem-IsValid, remove_elem-IsValid,
}

-- Rehashed after a step that changes what is held.
rehashed :
    (got : Bool) (h h1 : Hash) (d : ℕ → ℕ)
    → IsValid h1
    → ((x : ℕ) → held h1 x ≡ d x)
    → IsValid (rehash got h1) × ((x : ℕ) → held (rehash got h1) x ≡ d x)
rehashed got h h1 d v e = let (v', kept) = rehash_lem got h1 v in (v', λ x. kept.same_held x ∙ e x)

insert_found :
    (got : Bool) (new old : ℕ) (h : Hash)
    → IsKeyed h
    → IsValid h
    → new ≢ 0
    → h.elem_cnt + 1 < 2 ^ 32
    → IsFound h new old
    → let h' = rehash got (if old == 0 then insert_elem (find_bucket h new) new h else h) in
      IsValid h' × ((x : ℕ) → held h' x ≡ held h x + (if old == 0 && new == x then 1 else 0))
insert_found got new old h k v nz few (inl (z, miss)) = rw z (
    rehashed got h (insert_elem (find_bucket h new) new h) _
      (insert_elem-IsValid h new k v nz few miss) (λ x. held-insert_elem h new x v.some_bucket))
insert_found got new old h k v nz few (inr (found, one, eq)) =
    let test : (old == 0) ≡ false = ground (arith, found) in
    rw test (rehashed got h h _ v (λ x. omega arith))

-- hash_insert of an element into a valid table with room for its count, whose functions compare and hash
-- the elements consistently, returns the equal element that the table holds, or NULL, whether or not
-- malloc gives the memory that the rehash asks for. The table is valid again, and holds the new element
-- besides where there was no equal one, and what it held before where there was one.
pub hash_insert_lem :
    (got : Bool) (new : ℕ) (h : Hash)
    → IsKeyed h
    → IsValid h
    → new ≢ 0
    → h.elem_cnt + 1 < 2 ^ 32
    → let (old, h') = hash_insert got new h in
      IsFound h new old
      × IsValid h'
      × ((x : ℕ) → held h' x ≡ held h x + (if old == 0 && new == x then 1 else 0))
unfolding hash_insert hash_find
hash_insert_lem got new h k v nz few =
    let f = hash_find_lem h new k v in
    let (v', held') = insert_found got new (hash_find new h) h k v nz few f in (f, v', held')

delete_found :
    (got : Bool) (e old : ℕ) (h : Hash)
    → IsValid h
    → h.elem_cnt < 2 ^ 32
    → IsFound h e old
    → let h' = if old == 0 then h else rehash got (remove_elem old h) in
      IsValid h' × ((x : ℕ) → held h' x ≡ held h x - (if old == x then 1 else 0))
delete_found got e old h v few (inl (z, miss)) = rw z (v, λ x. ground (arith, v.null_out))
delete_found got e old h v few (inr (found, one, eq)) =
    let test : (old == 0) ≡ false = ground (arith, found) in
    rw test (
      rehashed got h (remove_elem old h) _ (remove_elem-IsValid h old v one few)
        (λ x. held-remove_elem h old x (omega (arith, one))))

-- hash_delete from a valid table, whose functions compare and hash the elements consistently, returns
-- the element of the table that is equal to `e`, or NULL, whether or not malloc gives the memory for the
-- rehash. The table is valid again, and holds what it held but the element that is returned.
pub hash_delete_lem :
    (got : Bool) (e : ℕ) (h : Hash)
    → IsKeyed h
    → IsValid h
    → h.elem_cnt < 2 ^ 32
    → let (found, h') = hash_delete got e h in
      IsFound h e found
      × IsValid h'
      × ((x : ℕ) → held h' x ≡ held h x - (if found == x then 1 else 0))
unfolding hash_delete hash_find
hash_delete_lem got e h k v few =
    let f = hash_find_lem h e k v in
    let (v', held') = delete_found got e (hash_find e h) h v few f in (f, v', held')

replaced-IsValid :
    (h : Hash) (new old : ℕ)
    → IsKeyed h
    → IsValid h
    → new ≢ 0
    → h.elem_cnt < 2 ^ 32
    → held h old ≡ 1
    → is_equal h old new ≡ true
    → IsValid (insert_elem (find_bucket h new) new (remove_elem old h))
replaced-IsValid h new old k v nz few one eq =
    let h' = remove_elem old h in
    let k' : IsKeyed h' = record { irrefl = k.irrefl; trans = k.trans; same_hash = k.same_hash } in
    subst (λ b. IsValid (insert_elem b new h')) (find_bucket-fields h h' new refl refl)
      (insert_elem-IsValid h' new k' (remove_elem-IsValid h old v one few) nz
        (omega (arith, few, (removed_cnt h old v one few).0))
        (λ x ne. elim (Bool-cases (is_equal h x new)) [
          | inl t ↦ ground (
            arith,
            ne,
            one,
            held-remove_elem h old x (omega (arith, one)),
            v.apart x old,
            k.trans x new old,
            t,
            eq,
          )
          | inr f ↦ f
        ]))

replace_found :
    (got : Bool) (old new : ℕ) (h : Hash)
    → IsKeyed h
    → IsValid h
    → new ≢ 0
    → h.elem_cnt + 1 < 2 ^ 32
    → IsFound h new old
    → let h' =
        rehash got
          (insert_elem (find_bucket h new) new (if old == 0 then h else remove_elem old h)) in
      IsValid h'
      × ((x : ℕ) → held h' x ≡ held h x - (if old == x then 1 else 0) + (if new == x then 1 else 0))
replace_found got old new h k v nz few (inl (z, miss)) = rw z (
    rehashed got h (insert_elem (find_bucket h new) new h) _
      (insert_elem-IsValid h new k v nz few miss)
      (λ x. ground (arith, held-insert_elem h new x v.some_bucket, v.null_out)))
replace_found got old new h k v nz few (inr (found, one, eq)) =
    let test : (old == 0) ≡ false = ground (arith, found) in
    let h' = remove_elem old h in
    rw test (
      rehashed got h (insert_elem (find_bucket h new) new h') _
        (replaced-IsValid h new old k v nz (omega (arith, few)) one eq)
        (λ x. ground (
          arith,
          held-insert_elem h' new x v.some_bucket,
          find_bucket-fields h h' new refl refl,
          held-remove_elem h old x (omega (arith, one)),
        )))

-- hash_replace in a valid table with room for its count, whose functions compare and hash the elements
-- consistently, returns the equal element that the table held, or NULL, whether or not malloc gives the
-- memory for the rehash. The table is valid again, and holds the new element, and what it held before
-- but the element that is returned.
pub hash_replace_lem :
    (got : Bool) (new : ℕ) (h : Hash)
    → IsKeyed h
    → IsValid h
    → new ≢ 0
    → h.elem_cnt + 1 < 2 ^ 32
    → let (old, h') = hash_replace got new h in
      IsFound h new old
      × IsValid h'
      × ((x : ℕ) → held h' x ≡ held h x - (if old == x then 1 else 0) + (if new == x then 1 else 0))
unfolding hash_replace hash_find
hash_replace_lem got new h k v nz few =
    let f = hash_find_lem h new k v in
    let (v', held') = replace_found got (hash_find new h) new h k v nz few f in (f, v', held')

-- hash_init with memory gives a valid table that holds nothing.
pub hash_init_lem :
    (hash : ℕ → ℕ) (less : ℕ → ℕ → Bool) (h : Hash)
    → hash_init true hash less ≡ some h
    → IsValid h × ((x : ℕ) → held h x ≡ 0)
unfolding hash_init
hash_init_lem hash less h e =
    let start =
      (hash_clear false
        (record { elem_cnt = 0; bucket_cnt = 4; buckets = λ i. []; hash = hash; less = less })).1 in
    let same : start ≡ h = cc in
    subst (λ h. IsValid h × ((x : ℕ) → held h x ≡ 0)) same
      (
        record {
          some_bucket = omega arith;
          placed = λ i x ne. ground (arith, ne);
          counted = refl;
          null_out = refl;
          once = λ x. omega arith;
          apart = λ x y ne ny e. absurd (ne refl);
        },
        λ x. refl,
      )
