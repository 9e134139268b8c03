-- ===== src/Paging/Creation.antt =====
-- A page table that lookup_page creates.
use pintos_project.Base.{
  ℕ, ◌+◌, ◌-◌, ◌*◌, ◌%◌, ◌^◌, ◌≤◌, ◌<◌, ◌≡◌, refl, sym, ap, subst, ◌∙◌, ◌≢◌, ◌⊎◌, inl, inr, true,
  false, not, ◌&&◌, Option, some, ◌>>◌, arith, ◌==◌, leb, ltb, if◌then◌else◌, if_false, if_true,
  assert, assert_passes, some->>=, Bool-cases,
}
use pintos_project.Palloc.{Memory, pg_size, phys_base, palloc_get_page}
use pintos_project.Palloc.Pages.{HasGot}
use pintos_project.Paging.{
  load32, store32, has_flag, pte_p, pte_addr, pd_no, pt_no, pg_ofs, vtop, ptov, pde_create,
  pde_get_pt, table_of, lookup_page, page_in, pagedir_get_page, is_user_vaddr,
}
use pintos_project.Paging.Words.{load32-store32, load32-store32_ne}
use pintos_project.Paging.Directory.{
  InUse, entry, table, IsTable, IsDirectory, InUse-aligned, words_apart, fresh-IsMemory,
  fresh-InUse, old-InUse, fresh_ne, fresh_word, old_word, fresh_base, store-InUse, store-IsMemory,
  store_base,
}
use pintos_project.Paging.Lookup.{get_lem, pd_real}

-- An entry is created: `m1` is the memory with the fresh page `pt`, and `v` what pde_create makes of it.
module _ (pd va : ℕ) (m : Memory) (d : IsDirectory pd m) (user : va < phys_base) (i pt : ℕ)
    (m1 : Memory) (g : HasGot false true 1 i m pt m1) (e : entry pd (pd_no va) m ≡ 0) where
  abbrev pub v : ℕ
  v = pt - phys_base + 4 + 1 + 2

  abbrev pub m2 : Memory
  m2 = store32 (pd + 4 * pd_no va) v m1

  pt_aligned : pt % pg_size ≡ 0
  pt_aligned =
      InUse-aligned pt m1 (fresh-IsMemory i pt m m1 d.placed g) (fresh-InUse i pt m m1 d.placed g)

  pd_aligned : pd % pg_size ≡ 0
  pd_aligned = InUse-aligned pd m d.placed d.itself

  pt_above : phys_base ≤ pt
  pt_above = omega (arith, g.address, d.above)

  pt_below : pt + pg_size ≤ 2 ^ 32
  pt_below = omega (arith, g.address, g.inside, d.placed.kernel.fits)

  pub new_entry : entry pd (pd_no va) m2 ≡ v
  new_entry = load32-store32 m1 (pd + 4 * pd_no va) v (omega (arith, pt_above, pt_below))

  other_entry : (j : ℕ) → j < 768 → j ≢ pd_no va → entry pd j m2 ≡ entry pd j m
  other_entry j h ne =
      load32-store32_ne m1 (pd + 4 * pd_no va) (pd + 4 * j) v (omega (arith, pd_aligned))
        (omega (arith, pd_aligned)) (omega (arith, ne))
      ∙ old_word i pt m m1 d.placed g pd j d.itself (omega (arith, h))

  pub table_pt : table v ≡ pt
  table_pt = omega (arith, pt_above, pt_aligned)

  kept-InUse : (p : ℕ) → InUse p m → InUse p m2
  kept-InUse p u = store-InUse (pd + 4 * pd_no va) v p m1 (old-InUse i pt m m1 d.placed g p u)

  pub new-IsTable : IsTable pd v m2
  new-IsTable = record {
    present = ground (arith, pt_above, pt_aligned);
    low = omega (arith, pt_above, pt_below);
    in_use =
        subst (λ p. InUse p m2) (sym table_pt)
          (store-InUse (pd + 4 * pd_no va) v pt m1 (fresh-InUse i pt m m1 d.placed g));
    other = λ q. fresh_ne i pt m m1 d.placed g pd d.itself (sym q ∙ table_pt);
  }

  kept-IsTable : (f : ℕ) → IsTable pd f m → IsTable pd f m2
  kept-IsTable f h = record {
    present = h.present;
    low = h.low;
    in_use = kept-InUse (table f) h.in_use;
    other = h.other;
  }

  entry_cases :
      (j : ℕ)
      → j < 768
      → (entry pd j m2 ≡ v) × (j ≡ pd_no va) ⊎ ((entry pd j m2 ≡ entry pd j m) × (j ≢ pd_no va))
  entry_cases j h = elim (Bool-cases (j == pd_no va)) [
    | inl y ↦ let q : j ≡ pd_no va = ground (arith, y) in inl (rw q new_entry, q)
    | inr n ↦ let q : j ≢ pd_no va = ground (arith, n) in inr (other_entry j h q, q)
  ]

  -- No table of the directory is the fresh page.
  table_ne : (j : ℕ) → j < 768 → entry pd j m ≢ 0 → table (entry pd j m) ≢ pt
  table_ne j h ne = elim (d.entries j h) [
    | inl z ↦ absurd (ne z)
    | inr t ↦ fresh_ne i pt m m1 d.placed g (table (entry pd j m)) t.in_use
  ]

  pub created-IsDirectory : IsDirectory pd m2
  created-IsDirectory = record {
    placed = store-IsMemory (pd + 4 * pd_no va) v m1 (fresh-IsMemory i pt m m1 d.placed g);
    above =
        omega
          (arith, store_base (pd + 4 * pd_no va) v m1, fresh_base i pt m m1 d.placed g, d.above);
    itself = kept-InUse pd d.itself;
    entries = λ j h. elim (entry_cases j h) [
      | inl (q, r) ↦ inr (rw q new-IsTable)
      | inr (q, r) ↦ elim (d.entries j h) [
        | inl z ↦ inl (q ∙ z)
        | inr t ↦ inr (rw q (kept-IsTable (entry pd j m) t))
      ]
    ];
    apart = λ j k hj hk ne nj nk. elim (entry_cases j hj) [
      | inl (q, r) ↦ elim (entry_cases k hk) [
        | inl (q', r') ↦ absurd (ne (r ∙ sym r'))
        | inr (q', r') ↦ λ x.
            table_ne k hk (λ z. nk (q' ∙ z)) (sym (ap table q') ∙ sym x ∙ ap table q ∙ table_pt)
      ]
      | inr (q, r) ↦ elim (entry_cases k hk) [
        | inl (q', r') ↦
            λ x. table_ne j hj (λ z. nj (q ∙ z)) (sym (ap table q) ∙ x ∙ ap table q' ∙ table_pt)
        | inr (q', r') ↦ λ x.
            d.apart j k hj hk ne (λ z. nj (q ∙ z)) (λ z. nk (q' ∙ z))
              (sym (ap table q) ∙ x ∙ ap table q')
      ]
    ];
  }

  new_word : (k : ℕ) → k < 1024 → load32 m2 (pt + 4 * k) ≡ 0
  new_word k h =
      load32-store32_ne m1 (pd + 4 * pd_no va) (pt + 4 * k) v (omega (arith, pd_aligned))
        (omega (arith, pt_aligned))
        (words_apart pd pt (pd_no va) k m1 (old-InUse i pt m m1 d.placed g pd d.itself)
          (fresh-InUse i pt m m1 d.placed g) (fresh_ne i pt m m1 d.placed g pd d.itself)
          (omega (arith, user)) h)
      ∙ fresh_word i pt m m1 d.placed g k h

  kept_word :
      (p k : ℕ) → InUse p m → p ≢ pd → k < 1024 → load32 m2 (p + 4 * k) ≡ load32 m (p + 4 * k)
  kept_word p k u ne h =
      let w : InUse p m1 = old-InUse i pt m m1 d.placed g p u in
      load32-store32_ne m1 (pd + 4 * pd_no va) (p + 4 * k) v (omega (arith, pd_aligned))
        (omega (arith, InUse-aligned p m d.placed u))
        (words_apart pd p (pd_no va) k m1 (old-InUse i pt m m1 d.placed g pd d.itself) w
          (λ q. ne (sym q)) (omega (arith, user)) h)
      ∙ old_word i pt m m1 d.placed g p k u h

  abbrev reads : ℕ → ℕ → Memory → Option ℕ
  reads f ua s = if f == 0 then some 0 else page_in (table f + 4 * pt_no ua) ua s

  reads_same :
      (ua : ℕ)
      → ua < phys_base
      → reads (entry pd (pd_no ua) m2) ua m2 ≡ reads (entry pd (pd_no ua) m) ua m
  reads_same ua h = elim (entry_cases (pd_no ua) (omega (arith, h))) [
    | inl (q, r) ↦
        let w : load32 m2 (table v + 4 * pt_no ua) ≡ 0 =
          ap (λ x. load32 m2 (x + 4 * pt_no ua)) table_pt ∙ new_word (pt_no ua) (omega arith) in
        let z : entry pd (pd_no ua) m ≡ 0 = rw r e in
        if_false (entry pd (pd_no ua) m2 == 0) (some 0) _ (ground (arith, q))
        ∙ rw (q, w) (if_false (not (table v + 4 * pt_no ua == 0) && false) _ _ (ground arith))
        ∙ sym (if_true (entry pd (pd_no ua) m == 0) (some 0) _ (ground (arith, z)))
    | inr (q, r) ↦ elim (d.entries (pd_no ua) (omega (arith, h))) [
      | inl z ↦ rw (q, z) refl
      | inr t ↦
          rw
            (q, kept_word (table (entry pd (pd_no ua) m)) (pt_no ua) t.in_use t.other (omega arith))
            refl
    ]
  ]

  pub created_same :
      (ua : ℕ) → ua < phys_base → pagedir_get_page pd ua m2 ≡ pagedir_get_page pd ua m
  created_same ua h =
      get_lem pd ua m2 created-IsDirectory h ∙ reads_same ua h ∙ sym (get_lem pd ua m d h)

  pde_create_lem : pde_create pt ≡ some v
  unfolding pde_create vtop
  pde_create_lem =
      some->>= (assert (pg_ofs pt == 0) >> vtop pt) _
        (assert_passes (pg_ofs pt == 0) _ (ground (arith, pt_aligned))
          (assert_passes (leb phys_base pt) _ (ground (arith, pt_above)) refl))
        refl

  pde_get_pt_lem : pde_get_pt v ≡ some (table v)
  unfolding pde_get_pt ptov
  pde_get_pt_lem =
      assert_passes (has_flag pte_p v) _ (new-IsTable.present)
        (assert_passes (ltb (pte_addr v) phys_base) _ (ground (arith, new-IsTable.low)) refl)

  pt_real : (pt == 0) ≡ false
  pt_real = ground (arith, pt_above)

  table_created :
      palloc_get_page false true false m ≡ some (pt, m1)
      → table_of (pd + 4 * pd_no va) true m ≡ some (table v, m2)
  unfolding table_of
  table_created got =
      if_true (load32 m (pd + 4 * pd_no va) == 0) _ _ (ground (arith, e))
      ∙ some->>= (palloc_get_page false true false m) _ got (
          if_false (pt == 0) (some (0, m1)) _ pt_real
          ∙ some->>= (pde_create pt) _ pde_create_lem
              (some->>= (pde_get_pt v) _ pde_get_pt_lem refl))

  pub lookup_created :
      palloc_get_page false true false m ≡ some (pt, m1)
      → lookup_page pd va true m ≡ some (table v + 4 * pt_no va, m2)
  unfolding lookup_page
  lookup_created got = assert_passes (not (pd == 0)) _ (ap not (pd_real pd va m d user)) (
      assert_passes (is_user_vaddr va) _ (ground (arith, user)) (
        some->>= (table_of (pd + 4 * pd_no va) true m) _ (table_created got)
          (ap (λ pte. some (pte, m2)) (if_false (table v == 0) 0 _ (ground arith)))))
