-- ===== src/Paging/Entries.antt =====
-- The entry that lookup_page returns.
use pintos_project.Base.{
  ℕ, ◌+◌, ◌*◌, ◌≤◌, ◌<◌, ◌≡◌, refl, ap, ◌∙◌, ◌⊎◌, inl, inr, true, false, not, some, arith, ◌==◌,
  if_true, assert_passes, some->>=,
}
use pintos_project.Palloc.{Memory, pool_of, phys_base, palloc_get_page}
use pintos_project.Bitmap.Bits.{bit_at}
use pintos_project.Bitmap.Search.{SomeDiffers}
use pintos_project.Palloc.Pages.{palloc_get_multiple_lem}
use pintos_project.Paging.{
  load32, pd_no, pt_no, table_of, lookup_page, pagedir_get_page, is_user_vaddr,
}
use pintos_project.Paging.Directory.{entry, table, IsTable, IsDirectory}
use pintos_project.Paging.Lookup.{lookup_found, pd_real, user_entry}
use pintos_project.Paging.Creation.{
  v, m2, new_entry, new-IsTable, created-IsDirectory, created_same, lookup_created,
}

table_full :
    (pde : ℕ) (m : Memory)
    → load32 m pde ≡ 0
    → palloc_get_page false true false m ≡ some (0, m)
    → table_of pde true m ≡ some (0, m)
unfolding table_of
table_full pde m e got =
    if_true (load32 m pde == 0) _ _ (ground (arith, e))
    ∙ some->>= (palloc_get_page false true false m) _ got refl

-- What lookup_page leaves where it returns the entry `pte`.
pub record HasEntry (pd va : ℕ) (m : Memory) (pte : ℕ) (m' : Memory) : Type 0 where
  pub directory : IsDirectory pd m'
  pub made : IsTable pd (entry pd (pd_no va) m') m'
  pub place : pte ≡ table (entry pd (pd_no va) m') + 4 * pt_no va
  pub same : (ua : ℕ) → ua < phys_base → pagedir_get_page pd ua m' ≡ pagedir_get_page pd ua m

-- The page table of an address is missing, and the kernel pool has no page for it.
abbrev pub HasNoTable : ℕ → ℕ → Memory → Type 0
HasNoTable pd va m =
    (entry pd (pd_no va) m ≡ 0)
    × ((s : ℕ)
        → s + 1 ≤ (pool_of false m).used_map.bit_cnt
        → SomeDiffers (bit_at (pool_of false m).used_map) s 1 false)

-- lookup_page with `create`, of a user address in a directory, passes its assertions: it returns NULL and
-- leaves the memory where the page table is missing and no page is free, or the address of an entry in a page table of the directory, and all addresses are
-- mapped as before.
pub lookup_page_lem :
    (pd va : ℕ) (m : Memory)
    → IsDirectory pd m
    → va < phys_base
    → (HasNoTable pd va m × (lookup_page pd va true m ≡ some (0, m)))
      ⊎ ((pte : ℕ) × (m' : Memory) × (lookup_page pd va true m ≡ some (pte, m'))
          × HasEntry pd va m pte m')
unfolding palloc_get_page lookup_page
lookup_page_lem pd va m d user = elim (d.entries (pd_no va) (user_entry pd va m d user)) [
  | inl e ↦ elim (palloc_get_multiple_lem false true false 1 m d.placed (omega arith)) [
    | inl (pt, m1, i, got, real, g) ↦
        let w = v pd va m d user i pt m1 g e in
        inr (
          table w + 4 * pt_no va,
          m2 pd va m d user i pt m1 g e,
          lookup_created pd va m d user i pt m1 g e got,
          record {
            directory = created-IsDirectory pd va m d user i pt m1 g e;
            made =
                rw (new_entry pd va m d user i pt m1 g e) (new-IsTable pd va m d user i pt m1 g e);
            place = rw (new_entry pd va m d user i pt m1 g e) refl;
            same = created_same pd va m d user i pt m1 g e;
          },
        )
    | inr (full, got) ↦ inl (
      (e, full),
      assert_passes (not (pd == 0)) _ (ap not (pd_real pd va m d user)) (
          assert_passes (is_user_vaddr va) _ (ground (arith, user)) (
            some->>= (table_of (pd + 4 * pd_no va) true m) _
              (table_full (pd + 4 * pd_no va) m e got) refl)),
    )
  ]
  | inr t ↦ inr (
    table (entry pd (pd_no va) m) + 4 * pt_no va,
    m,
    lookup_found pd va m d user t true,
    record { directory = d; made = t; place = refl; same = λ ua h. refl },
  )
]
