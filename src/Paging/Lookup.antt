-- ===== src/Paging/Lookup.antt =====
-- lookup_page, and what pagedir_get_page reads.
use pintos_project.Base.{
  ℕ, ◌+◌, ◌*◌, ◌<◌, ◌≡◌, refl, sym, ap, ◌∙◌, inl, inr, Bool, false, not, ◌||◌, some, ◌>>◌, arith,
  ◌==◌, ltb, if◌then◌else◌, if_false, if_true, assert, assert_passes, some->>=,
}
use pintos_project.Palloc.{Memory, phys_base}
use pintos_project.Paging.{
  load32, pte_addr, pd_no, pt_no, ptov, pde_get_pt, table_of, lookup_page, page_in,
  pagedir_get_page, is_user_vaddr,
}
use pintos_project.Paging.Directory.{entry, table, IsTable, IsDirectory}

module _ (pd va : ℕ) (m : Memory) (d : IsDirectory pd m) (user : va < phys_base) where
  pub user_entry : pd_no va < 768
  user_entry = omega (arith, user)

  pub pd_real : (pd == 0) ≡ false
  pd_real = ground (arith, d.itself.address, d.above)

  module _ (h : IsTable pd (entry pd (pd_no va) m) m) where
    pub table_found :
        (create : Bool)
        → table_of (pd + 4 * pd_no va) create m ≡ some (table (entry pd (pd_no va) m), m)
    unfolding table_of pde_get_pt ptov
    table_found create =
        if_false (load32 m (pd + 4 * pd_no va) == 0) _ _ (ground (arith, h.present))
        ∙ rw (h.present) (
            some->>=
              (assert (ltb (pte_addr (entry pd (pd_no va) m)) phys_base)
                >> some (table (entry pd (pd_no va) m)))
              _
              (assert_passes (ltb (pte_addr (entry pd (pd_no va) m)) phys_base) _
                (ground (arith, h.low)) refl)
              refl)

    pub lookup_found :
        (create : Bool)
        → lookup_page pd va create m ≡ some (table (entry pd (pd_no va) m) + 4 * pt_no va, m)
    unfolding lookup_page
    lookup_found create = assert_passes (not (pd == 0)) _ (ap not pd_real) (
        assert_passes (not create || is_user_vaddr va) _ (ground (arith, user)) (
          some->>= (table_of (pd + 4 * pd_no va) create m) _ (table_found create) (
            ap (λ pte. some (pte, m))
              (if_false (table (entry pd (pd_no va) m) == 0) 0 _ (ground arith)))))

  pub lookup_missing : entry pd (pd_no va) m ≡ 0 → lookup_page pd va false m ≡ some (0, m)
  unfolding lookup_page table_of
  lookup_missing e = rw (pd_real, e) refl

  -- What pagedir_get_page returns, by the entry of the directory.
  pub get_lem : pagedir_get_page pd va m ≡ (
      if entry pd (pd_no va) m == 0
      then some 0
      else page_in (table (entry pd (pd_no va) m) + 4 * pt_no va) va m)
  unfolding pagedir_get_page
  get_lem = elim (d.entries (pd_no va) user_entry) [
    | inl e ↦
        assert_passes (is_user_vaddr va) _ (ground (arith, user))
          (some->>= (lookup_page pd va false m) _ (lookup_missing e) refl)
        ∙ sym (if_true (entry pd (pd_no va) m == 0) (some 0) _ (ground (arith, e)))
    | inr h ↦
        assert_passes (is_user_vaddr va) _ (ground (arith, user))
          (some->>= (lookup_page pd va false m) _ (lookup_found h false) refl)
        ∙ sym (if_false (entry pd (pd_no va) m == 0) (some 0) _ (ground (arith, h.present)))
  ]
