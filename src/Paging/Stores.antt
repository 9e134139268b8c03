-- ===== src/Paging/Stores.antt =====
-- A word that is stored in a page table of a directory.
use pintos_project.Base.{
  ℕ, ◌+◌, ◌*◌, ◌%◌, ◌^◌, ◌<◌, ◌≡◌, refl, sym, ap, ◌∙◌, ◌≢◌, inl, inr, true, false, not, ◌&&◌, some,
  arith, ◌==◌, if_false, if_true, some->>=, Bool-cases,
}
use pintos_project.Palloc.{Memory, phys_base}
use pintos_project.Paging.{
  load32, store32, has_flag, pte_p, pte_addr, pd_no, pt_no, pg_ofs, pg_no, pte_get_page,
  pagedir_get_page,
}
use pintos_project.Paging.Words.{load32-store32, load32-store32_mod, load32-store32_ne}
use pintos_project.Paging.Directory.{
  entry, table, IsTable, IsDirectory, InUse-aligned, words_apart, store-InUse, store-IsMemory,
  store_base,
}
use pintos_project.Paging.Lookup.{get_lem}

-- A store to an entry of a page table of the directory: `t` is the table of the entry `i`.
module _ (pd va w : ℕ) (m : Memory) (d : IsDirectory pd m) (user : va < phys_base)
    (t : IsTable pd (entry pd (pd_no va) m) m) where
  abbrev pub pte : ℕ
  pte = table (entry pd (pd_no va) m) + 4 * pt_no va

  abbrev pub stored : Memory
  stored = store32 pte w m

  pte_aligned : pte % 4 ≡ 0
  pte_aligned = omega (arith, InUse-aligned (table (entry pd (pd_no va) m)) m d.placed t.in_use)

  pub stored_entry : (j : ℕ) → j < 768 → entry pd j stored ≡ entry pd j m
  stored_entry j h =
      load32-store32_ne m pte (pd + 4 * j) w pte_aligned
        (omega (arith, InUse-aligned pd m d.placed d.itself))
        (words_apart (table (entry pd (pd_no va) m)) pd (pt_no va) j m t.in_use d.itself t.other
          (omega arith) (omega (arith, h)))

  pub stored-IsTable : (f : ℕ) → IsTable pd f m → IsTable pd f stored
  stored-IsTable f h = record {
    present = h.present;
    low = h.low;
    in_use = store-InUse pte w (table f) m h.in_use;
    other = h.other;
  }

  pub stored-IsDirectory : IsDirectory pd stored
  stored-IsDirectory = record {
    placed = store-IsMemory pte w m d.placed;
    above = omega (arith, store_base pte w m, d.above);
    itself = store-InUse pte w pd m d.itself;
    entries = λ j h. elim (d.entries j h) [
      | inl z ↦ inl (stored_entry j h ∙ z)
      | inr u ↦ inr (rw (stored_entry j h) (stored-IsTable (entry pd j m) u))
    ];
    apart = λ j k hj hk ne. rw (stored_entry j hj, stored_entry k hk) (d.apart j k hj hk ne);
  }

  -- The entry of another page is another word.
  pte_ne :
      (ua : ℕ)
      → ua < phys_base
      → pg_no ua ≢ pg_no va
      → IsTable pd (entry pd (pd_no ua) m) m
      → pte ≢ table (entry pd (pd_no ua) m) + 4 * pt_no ua
  pte_ne ua h ne u = elim (Bool-cases (pd_no va == pd_no ua)) [
    | inl y ↦
        let same : pd_no va ≡ pd_no ua = ground (arith, y) in
        let q : table (entry pd (pd_no va) m) ≡ table (entry pd (pd_no ua) m) =
          ap (λ i. table (entry pd i m)) same in
        λ x. ne (omega (arith, same, q, x))
    | inr n ↦
        words_apart (table (entry pd (pd_no va) m)) (table (entry pd (pd_no ua) m)) (pt_no va)
          (pt_no ua) m t.in_use u.in_use
          (d.apart (pd_no va) (pd_no ua) (omega (arith, user)) (omega (arith, h))
            (ground (arith, n)) (ground (arith, t.present)) (ground (arith, u.present)))
          (omega arith) (omega arith)
  ]

  pub stored_same :
      (ua : ℕ)
      → ua < phys_base
      → pg_no ua ≢ pg_no va
      → pagedir_get_page pd ua stored ≡ pagedir_get_page pd ua m
  stored_same ua h ne =
      get_lem pd ua stored stored-IsDirectory h
      ∙ elim (d.entries (pd_no ua) (omega (arith, h))) [
        | inl z ↦ rw (stored_entry (pd_no ua) (omega (arith, h)), z) refl
        | inr u ↦
            rw
              (
                stored_entry (pd_no ua) (omega (arith, h)),
                load32-store32_ne m pte (table (entry pd (pd_no ua) m) + 4 * pt_no ua) w pte_aligned
                    (omega
                      (arith, InUse-aligned (table (entry pd (pd_no ua) m)) m d.placed u.in_use))
                    (pte_ne ua h ne u),
              )
              refl
      ]
      ∙ sym (get_lem pd ua m d h)

  -- The address itself reads the word that was stored.
  pub stored_itself :
      (ua page : ℕ)
      → w < 2 ^ 32
      → pg_no ua ≡ pg_no va
      → has_flag pte_p w ≡ true
      → pte_get_page w ≡ some page
      → pagedir_get_page pd ua stored ≡ some (page + pg_ofs ua)
  stored_itself ua page small same p g =
      let f = entry pd (pd_no va) m in
      let dir : pd_no ua ≡ pd_no va = omega (arith, same) in
      let tab : pt_no ua ≡ pt_no va = omega (arith, same) in
      let e : entry pd (pd_no ua) stored ≡ f =
        rw dir (stored_entry (pd_no va) (omega (arith, user))) in
      get_lem pd ua stored stored-IsDirectory (omega (arith, same, user))
      ∙ if_false (entry pd (pd_no ua) stored == 0) (some 0) _ (ground (arith, e, t.present))
      ∙ rw (e, tab)
          (if_true (not (pte == 0) && has_flag pte_p (load32 stored pte)) _ (some 0)
              (rw (load32-store32 m pte w small, p) (ground arith))
            ∙ rw (load32-store32 m pte w small) (some->>= (pte_get_page w) _ g refl))

  pub stored_absent :
      (ua : ℕ)
      → pg_no ua ≡ pg_no va
      → has_flag pte_p w ≡ false
      → pagedir_get_page pd ua stored ≡ some 0
  stored_absent ua same p =
      let dir : pd_no ua ≡ pd_no va = omega (arith, same) in
      let tab : pt_no ua ≡ pt_no va = omega (arith, same) in
      let e : entry pd (pd_no ua) stored ≡ entry pd (pd_no va) m =
        rw dir (stored_entry (pd_no va) (omega (arith, user))) in
      let off : has_flag pte_p (w % 2 ^ 32) ≡ false = ground (arith, p) in
      get_lem pd ua stored stored-IsDirectory (omega (arith, same, user))
      ∙ if_false (entry pd (pd_no ua) stored == 0) (some 0) _ (ground (arith, e, t.present))
      ∙ rw (e, tab)
          (if_false (not (pte == 0) && has_flag pte_p (load32 stored pte)) _ (some 0)
            (rw (load32-store32_mod m pte w, off) (ground arith)))

  -- A word that is stored with the address and the present flag of the old one maps what that did.
  pub stored_kept :
      w < 2 ^ 32
      → has_flag pte_p w ≡ has_flag pte_p (load32 m pte)
      → pte_addr w ≡ pte_addr (load32 m pte)
      → (ua : ℕ) → ua < phys_base
      → pagedir_get_page pd ua stored ≡ pagedir_get_page pd ua m
  unfolding pte_get_page
  stored_kept small p a ua h = elim (Bool-cases (pg_no ua == pg_no va)) [
    | inl y ↦
        let same : pg_no ua ≡ pg_no va = ground (arith, y) in
        let dir : pd_no ua ≡ pd_no va = omega (arith, same) in
        let tab : pt_no ua ≡ pt_no va = omega (arith, same) in
        let e : entry pd (pd_no ua) stored ≡ entry pd (pd_no va) m =
          rw dir (stored_entry (pd_no va) (omega (arith, user))) in
        get_lem pd ua stored stored-IsDirectory h
        ∙ rw (e, dir, tab, load32-store32 m pte w small, p, a) refl
        ∙ sym (get_lem pd ua m d h)
    | inr n ↦ stored_same ua h (ground (arith, n))
  ]
