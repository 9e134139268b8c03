-- ===== src/Paging/Mapping.antt =====
-- pagedir_set_page and pagedir_get_page: a page that is mapped is found again.
use pintos_project.Base.{
  ℕ, ◌+◌, ◌-◌, ◌*◌, ◌/◌, ◌^◌, ◌≤◌, ◌<◌, ◌≡◌, refl, sym, ap, ◌∙◌, ◌≢◌, ◌⊎◌, inl, inr, Bool, true,
  false, not, ◌&&◌, Option, some, ◌>>=◌, ◌>>◌, arith, ◌==◌, leb, ltb, if◌then◌else◌, if_false,
  if_true, assert, assert_passes, some->>=, Bool-cases, >>=-eq-some, >>-eq-some,
}
use pintos_project.Palloc.{Memory, phys_base}
use pintos_project.Paging.{
  load32, has_flag, pte_p, pte_addr, pte_w, pd_no, pt_no, pg_ofs, pg_no, vtop, ptov,
  pte_create_kernel, pte_create_user, pte_get_page, lookup_page, set_entry, page_in,
  pagedir_set_page, pagedir_get_page, is_user_vaddr,
}
use pintos_project.Paging.Directory.{entry, table, IsTable, IsDirectory}
use pintos_project.Paging.Lookup.{get_lem}
use pintos_project.Paging.Stores.{stored, stored-IsDirectory, stored_same, stored_itself}
use pintos_project.Paging.Entries.{HasNoTable, lookup_page_lem}

-- The word that pte_create_user makes.
abbrev pte_of : ℕ → Bool → ℕ
pte_of kpage writable = kpage - phys_base + 1 + (if writable then pte_w else 0) + 4

-- An entry that is not mapped is not present.
absent :
    (pd va : ℕ) (m : Memory)
    → IsDirectory pd m
    → va < phys_base
    → IsTable pd (entry pd (pd_no va) m) m
    → pagedir_get_page pd va m ≡ some 0
    → has_flag pte_p (load32 m (table (entry pd (pd_no va) m) + 4 * pt_no va)) ≡ false
unfolding pte_get_page ptov
absent pd va m d user t h =
    let e = load32 m (table (entry pd (pd_no va) m) + 4 * pt_no va) in
    let q : page_in (table (entry pd (pd_no va) m) + 4 * pt_no va) va m ≡ some 0 =
      sym (if_false (entry pd (pd_no va) m == 0) (some 0) _ (ground (arith, t.present)))
      ∙ sym (get_lem pd va m d user)
      ∙ h in
    elim (Bool-cases (has_flag pte_p e)) [
      | inl y ↦
          let p = table (entry pd (pd_no va) m) + 4 * pt_no va in
          let page = pte_get_page e >>= λ a. some (a + pg_ofs va) in
          let shown : page ≡ some 0 =
            sym (if_true (not (p == 0) && has_flag pte_p e) page (some 0) (ground (arith, y)))
            ∙ q in
          let (a, r, z) = >>=-eq-some (pte_get_page e) _ shown in
          let (low, r') = >>-eq-some (ltb (pte_addr e) phys_base) _ r in
          let z' : a + pg_ofs va ≡ 0 = cc (z) in
          let a' : pte_addr e + phys_base ≡ a = cc (r') in absurd (omega (arith, z', a'))
      | inr n ↦ n
    ]

pte_create_user_lem :
    (kpage : ℕ) (writable : Bool)
    → pg_ofs kpage ≡ 0
    → phys_base ≤ kpage
    → pte_create_user kpage writable ≡ some (pte_of kpage writable)
unfolding pte_create_user pte_create_kernel vtop
pte_create_user_lem kpage writable a h =
    let frame : (assert (leb phys_base kpage) >> some (kpage - phys_base))
        ≡ some (kpage - phys_base) =
      assert_passes (leb phys_base kpage) _ (ground (arith, h)) refl in
    some->>= (pte_create_kernel kpage writable) _
      (some->>= (assert (pg_ofs kpage == 0) >> vtop kpage) _
        (assert_passes (pg_ofs kpage == 0) _ (ground (arith, a)) frame) refl)
      refl

pte_of_lem :
    (kpage : ℕ) (writable : Bool)
    → pg_ofs kpage ≡ 0
    → phys_base ≤ kpage
    → kpage < 2 ^ 32
    → (pte_of kpage writable < 2 ^ 32)
      × (has_flag pte_p (pte_of kpage writable) ≡ true)
      × (pte_get_page (pte_of kpage writable) ≡ some kpage)
unfolding pte_get_page ptov
pte_of_lem kpage writable a lo hi = (
  ground (arith, a, hi),
  ground (arith, a, lo),
  assert_passes (ltb (pte_addr (pte_of kpage writable)) phys_base) _ (ground (arith, a, lo, hi))
      (ap some (ground (arith, a, lo))),
)

set_entry_null :
    (kpage : ℕ) (writable : Bool) (m : Memory) → set_entry 0 kpage writable m ≡ some (false, m)
unfolding set_entry
set_entry_null kpage writable m = refl

-- What pagedir_set_page leaves where it returns true.
pub record HasMapped (pd upage kpage : ℕ) (m m' : Memory) : Type 0 where
  pub directory : IsDirectory pd m'
  pub mapped :
      (ua : ℕ) → pg_no ua ≡ pg_no upage → pagedir_get_page pd ua m' ≡ some (kpage + pg_ofs ua)
  pub others :
      (ua : ℕ)
      → ua < phys_base
      → pg_no ua ≢ pg_no upage
      → pagedir_get_page pd ua m' ≡ pagedir_get_page pd ua m

set_entry_lem :
    (pd upage kpage : ℕ) (writable : Bool) (m : Memory)
    → (d : IsDirectory pd m) → (user : upage < phys_base)
    → (t : IsTable pd (entry pd (pd_no upage) m) m) → pg_ofs kpage ≡ 0
    → phys_base ≤ kpage
    → kpage < 2 ^ 32
    → pagedir_get_page pd upage m ≡ some 0
    → (m' : Memory) × (set_entry
          (table (entry pd (pd_no upage) m) + 4 * pt_no upage)
          kpage
          writable
          m
        ≡ some (true, m'))
      × HasMapped pd upage kpage m m'
unfolding set_entry
set_entry_lem pd upage kpage writable m d user t a lo hi free =
    let w = pte_of kpage writable in
    let p = table (entry pd (pd_no upage) m) + 4 * pt_no upage in
    let (small, present, page) = pte_of_lem kpage writable a lo hi in
    (
      stored pd upage w m d user t,
      if_false (p == 0) _ _ (ground arith)
          ∙ assert_passes (not (has_flag pte_p (load32 m p))) _
              (ap not (absent pd upage m d user t free))
              (some->>= (pte_create_user kpage writable) _ (pte_create_user_lem kpage writable a lo)
                refl),
      record {
        directory = stored-IsDirectory pd upage w m d user t;
        mapped = λ ua e. stored_itself pd upage w m d user t ua kpage small e present page;
        others = stored_same pd upage w m d user t;
      },
    )

-- pagedir_set_page of a user page that is not mapped to an aligned kernel page passes its assertions. It
-- returns false and leaves the memory only where the page table is missing and every page of the kernel
-- pool is in use. It returns true otherwise:
-- every address in the page is then mapped to its place in the kernel page, all other user addresses are
-- mapped as before, and the directory has its tables in use and apart again.
pub pagedir_set_page_lem :
    (ram_pages init_page_dir pd upage kpage : ℕ) (writable : Bool) (m : Memory)
    → IsDirectory pd m
    → pd ≢ init_page_dir
    → pg_ofs upage ≡ 0
    → upage < phys_base
    → pg_ofs kpage ≡ 0
    → phys_base ≤ kpage
    → kpage < 2 ^ 32
    → (kpage - phys_base) / 2 ^ 12 < ram_pages
    → pagedir_get_page pd upage m ≡ some 0
    → (HasNoTable pd upage m
        × (pagedir_set_page ram_pages init_page_dir pd upage kpage writable m ≡ some (false, m)))
      ⊎ ((m' : Memory) × (pagedir_set_page ram_pages init_page_dir pd upage kpage writable m
            ≡ some (true, m'))
          × HasMapped pd upage kpage m m')
unfolding pagedir_set_page vtop
pagedir_set_page_lem ram_pages init_page_dir pd upage kpage writable m d ne au user ak lo hi ram
      free =
    let pass : (r : Option (Bool × Memory))
        → (lookup_page pd upage true m >>= λ x. set_entry x.0 kpage writable x.1) ≡ r
        → pagedir_set_page ram_pages init_page_dir pd upage kpage writable m ≡ r =
      λ r h. assert_passes (pg_ofs upage == 0) _ (ground (arith, au)) (
        assert_passes (pg_ofs kpage == 0) _ (ground (arith, ak)) (
          assert_passes (is_user_vaddr upage) _ (ground (arith, user)) (
            some->>= (assert (leb phys_base kpage) >> some (kpage - phys_base)) _
              (assert_passes (leb phys_base kpage) _ (ground (arith, lo)) refl)
              (assert_passes (ltb ((kpage - phys_base) / 2 ^ 12) ram_pages) _ (ground (arith, ram))
                (assert_passes (not (pd == init_page_dir)) _ (ground (arith, ne)) h))))) in
    elim (lookup_page_lem pd upage m d user) [
      | inl (full, e) ↦ inl (
        full,
        pass _ (some->>= (lookup_page pd upage true m) _ e (set_entry_null kpage writable m)),
      )
      | inr (pte, m', e, x) ↦
          let (m2, e2, y) =
            set_entry_lem pd upage kpage writable m' x.directory user x.made ak lo hi
              (x.same upage user ∙ free) in
          inr (
            m2,
            pass _ (some->>= (lookup_page pd upage true m) _ e (rw x.place e2)),
            record {
              directory = y.directory;
              mapped = y.mapped;
              others = λ ua h q. y.others ua h q ∙ x.same ua h;
            },
          )
    ]
