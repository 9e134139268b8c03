-- ===== src/Syscall/Addresses.antt =====
-- The addresses that check_address lets pass.
use pintos_project.Base.{
  ℕ, ◌<◌, ◌≡◌, refl, sym, ap, ◌∙◌, ◌≢◌, inl, inr, true, false, not, ◌&&◌, some, ◌==◌, ltb, arith,
  if_true, if_false, some->>=, Bool-cases,
}
use pintos_project.Palloc.{phys_base}
use pintos_project.Paging.{pd_no, is_kernel_vaddr, lookup_page, pagedir_is_mapped, pagedir_get_page}
use pintos_project.Paging.Directory.{entry, IsDirectory}
use pintos_project.Paging.Lookup.{lookup_found, lookup_missing, user_entry, get_lem}
use pintos_project.Syscall.{User}
use pintos_project.Syscall.Handlers.{check_address}

mapped_lem :
    (a : ℕ) (u : User)
    → IsDirectory u.pagedir u.memory
    → a < phys_base
    → pagedir_is_mapped u.pagedir a u.memory ≡ some (not (entry u.pagedir (pd_no a) u.memory == 0))
unfolding pagedir_is_mapped
mapped_lem a u d user = elim (d.entries (pd_no a) (user_entry u.pagedir a u.memory d user)) [
  | inl z ↦
      some->>= (lookup_page u.pagedir a false u.memory) _
        (lookup_missing u.pagedir a u.memory d user z) (rw z refl)
  | inr t ↦
      some->>= (lookup_page u.pagedir a false u.memory) _
        (lookup_found u.pagedir a u.memory d user t false) (ap some (ground (arith, t.present)))
]

-- check_address, with the process's page directory in order, comes to an end: it lets an address pass if
-- it is not NULL, below the kernel's, and in 4 MB that the directory has a page table for.
pub check_address_lem :
    (a : ℕ) (u : User)
    → IsDirectory u.pagedir u.memory
    → check_address a u
      ≡ some (ltb a phys_base && not (a == 0) && not (entry u.pagedir (pd_no a) u.memory == 0))
unfolding check_address
check_address_lem a u d = elim (Bool-cases (is_kernel_vaddr a)) [
  | inl y ↦ if_true (is_kernel_vaddr a) _ _ y ∙ ap some (ground (arith, y))
  | inr n ↦
      if_false (is_kernel_vaddr a) _ _ n
      ∙ some->>= (pagedir_is_mapped u.pagedir a u.memory) _ (mapped_lem a u d (ground (arith, n)))
          (ap some (ground (arith, n)))
]

-- Where one address of 4 MB of the user's addresses is mapped, check_address lets every address in them
-- pass but NULL, mapped or not.
pub check_address_beside :
    (a b page : ℕ) (u : User)
    → IsDirectory u.pagedir u.memory
    → a < phys_base
    → pagedir_get_page u.pagedir a u.memory ≡ some page
    → page ≢ 0
    → pd_no b ≡ pd_no a
    → b ≢ 0
    → check_address b u ≡ some true
check_address_beside a b page u d user at real same ne =
    let e : entry u.pagedir (pd_no a) u.memory ≢ 0 = λ z. real (
      cc (
        sym at
        ∙ get_lem u.pagedir a u.memory d user
        ∙ if_true (entry u.pagedir (pd_no a) u.memory == 0) (some 0) _ (ground (arith, z)))) in
    check_address_lem b u d ∙ rw same (ap some (ground (arith, user, same, ne, e)))
