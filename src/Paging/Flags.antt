-- ===== src/Paging/Flags.antt =====
-- The flags of an entry: unmapping a page, and the dirty and accessed bits.
use pintos_project.Base.{
  ℕ, ◌+◌, ◌*◌, ◌^◌, ◌<◌, ◌≡◌, refl, sym, ap, ◌∙◌, ◌≢◌, inl, inr, Bool, true, false, not, ◌&&◌,
  Option, some, ◌>>=◌, arith, ◌==◌, if◌then◌else◌, if_false, if_true, assert_passes, some->>=,
  Bool-cases,
}
use pintos_project.Palloc.{Memory, phys_base}
use pintos_project.Paging.{
  load32, store32, has_flag, pte_p, pte_addr, pd_no, pt_no, pg_ofs, pg_no, lookup_page,
  pagedir_get_page, is_user_vaddr,
}
use pintos_project.Paging.Words.{load32-store32, load32_small, IsBytes}
use pintos_project.Paging.Directory.{entry, table, IsTable, IsDirectory}
use pintos_project.Paging.Lookup.{get_lem}
use pintos_project.Paging.{
  pte_a, pte_d, pagedir_set_dirty, pagedir_set_accessed, without_flag, with_flag,
  pagedir_clear_page, pagedir_has, pagedir_is_mapped, pagedir_set_flag,
}
use pintos_project.Paging.Lookup.{lookup_found, lookup_missing, user_entry}
use pintos_project.Paging.Stores.{
  stored, stored_entry, stored-IsTable, stored-IsDirectory, stored_same, stored_absent, stored_kept,
}

-- What pagedir_clear_page leaves.
pub record HasCleared (pd upage : ℕ) (m m' : Memory) : Type 0 where
  pub directory : IsDirectory pd m'
  pub unmapped : (ua : ℕ) → pg_no ua ≡ pg_no upage → pagedir_get_page pd ua m' ≡ some 0
  pub others :
      (ua : ℕ)
      → ua < phys_base
      → pg_no ua ≢ pg_no upage
      → pagedir_get_page pd ua m' ≡ pagedir_get_page pd ua m

-- pagedir_clear_page of a user page passes its assertions: no address in the page is mapped afterwards,
-- all other user addresses are mapped as before, and the directory has its tables in use and apart again.
pub pagedir_clear_page_lem :
    (pd upage : ℕ) (m : Memory)
    → IsDirectory pd m
    → pg_ofs upage ≡ 0
    → upage < phys_base
    → (m' : Memory) × (pagedir_clear_page pd upage m ≡ some m') × HasCleared pd upage m m'
unfolding pagedir_clear_page
pagedir_clear_page_lem pd upage m d au user =
    let pass : (pte : ℕ) (r : Option Memory)
        → lookup_page pd upage false m ≡ some (pte, m)
        → some (
            if not (pte == 0) && has_flag pte_p (load32 m pte)
            then store32 pte (without_flag pte_p (load32 m pte)) m
            else m)
          ≡ r
        → pagedir_clear_page pd upage m ≡ r =
      λ pte r e h. assert_passes (pg_ofs upage == 0) _ (ground (arith, au)) (
        assert_passes (is_user_vaddr upage) _ (ground (arith, user))
          (some->>= (lookup_page pd upage false m) _ e h)) in
    elim (d.entries (pd_no upage) (user_entry pd upage m d user)) [
      | inl z ↦ (
        m,
        pass 0 (some m) (lookup_missing pd upage m d user z) refl,
        record {
          directory = d;
          unmapped = λ ua e. unmapped_missing ua e z;
          others = λ ua h ne. refl;
        },
      )
      | inr t ↦
          let p = table (entry pd (pd_no upage) m) + 4 * pt_no upage in
          let w = without_flag pte_p (load32 m p) in
          elim (Bool-cases (has_flag pte_p (load32 m p))) [
            | inl y ↦ (
              stored pd upage w m d user t,
              pass p _ (lookup_found pd upage m d user t false) (
                  ap some (
                    if_true (not (p == 0) && has_flag pte_p (load32 m p)) _ m (ground (arith, y)))),
              record {
                directory = stored-IsDirectory pd upage w m d user t;
                unmapped = λ ua e. stored_absent pd upage w m d user t ua e (ground (arith, y));
                others = stored_same pd upage w m d user t;
              },
            )
            | inr n ↦ (
              m,
              pass p _ (lookup_found pd upage m d user t false) (
                  ap some (
                    if_false (not (p == 0) && has_flag pte_p (load32 m p)) _ m
                      (ground (arith, n)))),
              record {
                directory = d;
                unmapped = λ ua e. unmapped_absent ua e t n;
                others = λ ua h ne. refl;
              },
            )
          ]
    ]
  where
    unmapped_missing :
        (ua : ℕ)
        → pg_no ua ≡ pg_no upage
        → entry pd (pd_no upage) m ≡ 0
        → pagedir_get_page pd ua m ≡ some 0
    unmapped_missing ua e z =
        let dir : pd_no ua ≡ pd_no upage = omega (arith, e) in
        get_lem pd ua m d (omega (arith, e, user)) ∙ rw (dir, z) refl

    unmapped_absent :
        (ua : ℕ)
        → pg_no ua ≡ pg_no upage
        → IsTable pd (entry pd (pd_no upage) m) m
        → has_flag pte_p (load32 m (table (entry pd (pd_no upage) m) + 4 * pt_no upage)) ≡ false
        → pagedir_get_page pd ua m ≡ some 0
    unmapped_absent ua e t n =
        let dir : pd_no ua ≡ pd_no upage = omega (arith, e) in
        let tab : pt_no ua ≡ pt_no upage = omega (arith, e) in
        get_lem pd ua m d (omega (arith, e, user))
        ∙ rw (dir, tab)
            (if_false (entry pd (pd_no upage) m == 0) (some 0) _ (ground (arith, t.present))
              ∙ if_false
                  (not (table (entry pd (pd_no upage) m) + 4 * pt_no upage == 0)
                    && has_flag pte_p
                        (load32 m (table (entry pd (pd_no upage) m) + 4 * pt_no upage)))
                  _ (some 0) (ground (arith, n)))

-- What setting the flag of value `bit` to `v` leaves.
pub record HasFlagged (bit pd vpage : ℕ) (v : Bool) (m m' : Memory) : Type 0 where
  pub directory : IsDirectory pd m'
  pub flag : pagedir_has bit pd vpage m' ≡ (pagedir_is_mapped pd vpage m >>= λ b. some (b && v))
  pub kept : (ua : ℕ) → ua < phys_base → pagedir_get_page pd ua m' ≡ pagedir_get_page pd ua m

has_lem :
    (bit pd va : ℕ) (m : Memory) (d : IsDirectory pd m) (user : va < phys_base)
    (t : IsTable pd (entry pd (pd_no va) m) m)
    → (pagedir_has bit pd va m
        ≡ some (has_flag bit (load32 m (table (entry pd (pd_no va) m) + 4 * pt_no va))))
      × (pagedir_is_mapped pd va m ≡ some true)
unfolding pagedir_has pagedir_is_mapped
has_lem bit pd va m d user t =
    let p = table (entry pd (pd_no va) m) + 4 * pt_no va in
    let real : (p == 0) ≡ false = ground arith in
    (
      some->>= (lookup_page pd va false m) _ (lookup_found pd va m d user t false) (rw real refl),
      some->>= (lookup_page pd va false m) _ (lookup_found pd va m d user t false) (rw real refl),
    )

-- An entry `w` with the flag set to `v`, whose address and present flag are those of `e`.
record IsFlagged (bit e : ℕ) (v : Bool) (w : ℕ) : Type 0 where
  small : w < 2 ^ 32
  flag : has_flag bit w ≡ v
  present : has_flag pte_p w ≡ has_flag pte_p e
  address : pte_addr w ≡ pte_addr e

abbrev flagged : ℕ → ℕ → Bool → ℕ
flagged bit e v = if v then with_flag bit e else without_flag bit e

flagged_0x20 : (e : ℕ) (v : Bool) → e < 2 ^ 32 → IsFlagged 0x20 e v (flagged 0x20 e v)
flagged_0x20 e true h = record {
  small = ground (arith, h);
  flag = ground arith;
  present = ground arith;
  address = ground arith;
}
flagged_0x20 e false h = record {
  small = ground (arith, h);
  flag = ground arith;
  present = ground arith;
  address = ground arith;
}

flagged_0x40 : (e : ℕ) (v : Bool) → e < 2 ^ 32 → IsFlagged 0x40 e v (flagged 0x40 e v)
flagged_0x40 e true h = record {
  small = ground (arith, h);
  flag = ground arith;
  present = ground arith;
  address = ground arith;
}
flagged_0x40 e false h = record {
  small = ground (arith, h);
  flag = ground arith;
  present = ground arith;
  address = ground arith;
}

set_flag_lem :
    (bit pd vpage : ℕ) (v : Bool) (m : Memory)
    → IsDirectory pd m
    → IsBytes m
    → vpage < phys_base
    → ((e : ℕ) → e < 2 ^ 32 → IsFlagged bit e v (flagged bit e v))
    → (m' : Memory) × (pagedir_set_flag bit pd vpage v m ≡ some m') × HasFlagged bit pd vpage v m m'
unfolding pagedir_set_flag pagedir_has pagedir_is_mapped
set_flag_lem bit pd vpage v m d b user good =
    elim (d.entries (pd_no vpage) (user_entry pd vpage m d user)) [
      | inl z ↦ (
        m,
        some->>= (lookup_page pd vpage false m) _ (lookup_missing pd vpage m d user z) refl,
        record {
          directory = d;
          flag = rw (lookup_missing pd vpage m d user z) refl;
          kept = λ ua h. refl;
        },
      )
      | inr t ↦
          let p = table (entry pd (pd_no vpage) m) + 4 * pt_no vpage in
          let e = load32 m p in
          let w = flagged bit e v in
          let f = good e (load32_small m p b) in
          let dir : pd_no vpage < 768 = user_entry pd vpage m d user in
          let q = stored_entry pd vpage w m d user t (pd_no vpage) dir in
          let s = stored pd vpage w m d user t in
          let t' : IsTable pd (entry pd (pd_no vpage) s) s =
            rw q (stored-IsTable pd vpage w m d user t (entry pd (pd_no vpage) m) t) in
          (
            s,
            some->>= (lookup_page pd vpage false m) _ (lookup_found pd vpage m d user t false)
                (ap some (if_false (p == 0) m _ (ground arith))),
            record {
              directory = stored-IsDirectory pd vpage w m d user t;
              flag =
                  (has_lem bit pd vpage s (stored-IsDirectory pd vpage w m d user t) user t').0
                  ∙ ap (λ x. some (has_flag bit (load32 s (table x + 4 * pt_no vpage)))) q
                  ∙ ap (λ x. some (has_flag bit x)) (load32-store32 m p w f.small)
                  ∙ ap some f.flag
                  ∙ sym (ap (λ o. o >>= λ b. some (b && v)) (has_lem bit pd vpage m d user t).1);
              kept = stored_kept pd vpage w m d user t f.small f.present f.address;
            },
          )
    ]

-- pagedir_set_dirty of a user page comes to an end: pagedir_is_dirty returns the bit that was set
-- afterwards, or false where the page has no entry, and every address is mapped as before.
pub pagedir_set_dirty_lem :
    (pd vpage : ℕ) (dirty : Bool) (m : Memory)
    → IsDirectory pd m
    → IsBytes m
    → vpage < phys_base
    → (m' : Memory) × (pagedir_set_dirty pd vpage dirty m ≡ some m')
      × HasFlagged pte_d pd vpage dirty m m'
pagedir_set_dirty_lem pd vpage dirty m d b user =
    set_flag_lem pte_d pd vpage dirty m d b user (λ e h. flagged_0x40 e dirty h)

-- pagedir_set_accessed, the same for the accessed bit.
pub pagedir_set_accessed_lem :
    (pd vpage : ℕ) (accessed : Bool) (m : Memory)
    → IsDirectory pd m
    → IsBytes m
    → vpage < phys_base
    → (m' : Memory) × (pagedir_set_accessed pd vpage accessed m ≡ some m')
      × HasFlagged pte_a pd vpage accessed m m'
pagedir_set_accessed_lem pd vpage accessed m d b user =
    set_flag_lem pte_a pd vpage accessed m d b user (λ e h. flagged_0x20 e accessed h)
