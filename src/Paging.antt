-- ===== src/Paging.antt =====
-- userprog/pagedir.c, with threads/pte.h and threads/vaddr.h: the page directory of a process and its page
-- tables, as words in the memory of the page allocator. An address is a number below 2 ^ 32 and NULL is 0.
-- A flag is or-ed into an entry by adding it where the entry has it clear: the address of a page has no
-- flag. What an ASSERT stops is `none`. The processor's cache of translations, which invalidate_pagedir
-- clears, is not modelled, nor is the register that pagedir_activate loads.
pub mod Words
pub mod Directory
pub mod Lookup
pub mod Creation
pub mod Entries
pub mod Stores
pub mod Mapping
pub mod Flags
mod Tests
use pintos_project.Base.{
  ℕ, zero, suc, ◌+◌, ◌-◌, ◌*◌, ◌/◌, ◌%◌, ◌^◌, Bool, true, false, not, ◌&&◌, ◌||◌, Option, none,
  some, ◌==◌, ltb, leb, if◌then◌else◌, ◌>>=◌, ◌>>◌, assert,
}
use pintos_project.Palloc.{Memory, pg_size, phys_base, palloc_get_page, palloc_free_page}

-- pg_ofs (va), pg_no (va), pg_round_up (va), pg_round_down (va), pt_no (va) and pd_no (va)
abbrev pub pg_ofs : ℕ → ℕ
pg_ofs va = va % pg_size

abbrev pub pg_no : ℕ → ℕ
pg_no va = va / pg_size

abbrev pub pg_round_down : ℕ → ℕ
pg_round_down va = va - va % pg_size

abbrev pub pg_round_up : ℕ → ℕ
pg_round_up va = pg_round_down ((va + pg_size - 1) % 2 ^ 32)

abbrev pub pt_no : ℕ → ℕ
pt_no va = va / 2 ^ 12 % 2 ^ 10

abbrev pub pd_no : ℕ → ℕ
pd_no va = va / 2 ^ 22

-- is_user_vaddr (vaddr) and is_kernel_vaddr (vaddr)
abbrev pub is_user_vaddr : ℕ → Bool
is_user_vaddr vaddr = ltb vaddr phys_base

abbrev pub is_kernel_vaddr : ℕ → Bool
is_kernel_vaddr vaddr = leb phys_base vaddr

-- ptov (paddr) and vtop (vaddr)
unfoldable pub ptov : ℕ → Option ℕ
ptov paddr = assert (ltb paddr phys_base) >> some (paddr + phys_base)

unfoldable pub vtop : ℕ → Option ℕ
vtop vaddr = assert (is_kernel_vaddr vaddr) >> some (vaddr - phys_base)

-- The flag of value `bit` of an entry, and an entry with the flag clear and set.
abbrev pub has_flag : ℕ → ℕ → Bool
has_flag bit e = e / bit % 2 == 1

abbrev pub without_flag : ℕ → ℕ → ℕ
without_flag bit e = if has_flag bit e then e - bit else e

abbrev pub with_flag : ℕ → ℕ → ℕ
with_flag bit e = if has_flag bit e then e else e + bit

-- PTE_P, PTE_W, PTE_U, PTE_A and PTE_D
abbrev pub pte_p : ℕ
pte_p = 0x1

abbrev pub pte_w : ℕ
pte_w = 0x2

abbrev pub pte_u : ℕ
pte_u = 0x4

abbrev pub pte_a : ℕ
pte_a = 0x20

abbrev pub pte_d : ℕ
pte_d = 0x40

-- The address in an entry: `entry & PTE_ADDR`.
abbrev pub pte_addr : ℕ → ℕ
pte_addr e = e - e % 2 ^ 12

-- pde_create (pt) and pde_get_pt (pde)
unfoldable pub pde_create : ℕ → Option ℕ
pde_create pt = assert (pg_ofs pt == 0) >> vtop pt >>= λ p. some (p + pte_u + pte_p + pte_w)

unfoldable pub pde_get_pt : ℕ → Option ℕ
pde_get_pt pde = assert (has_flag pte_p pde) >> ptov (pte_addr pde)

-- pte_create_kernel (page, writable), pte_create_user (page, writable) and pte_get_page (pte)
unfoldable pub pte_create_kernel : ℕ → Bool → Option ℕ
pte_create_kernel page writable = assert (pg_ofs page == 0) >> vtop page >>= λ p.
    some (p + pte_p + (if writable then pte_w else 0))

unfoldable pub pte_create_user : ℕ → Bool → Option ℕ
pte_create_user page writable = pte_create_kernel page writable >>= λ e. some (e + pte_u)

unfoldable pub pte_get_page : ℕ → Option ℕ
pte_get_page pte = ptov (pte_addr pte)

-- A 32-bit word of the memory, the least byte first.
unfoldable pub load32 : Memory → ℕ → ℕ
load32 m a = m.bytes a + 256 * (m.bytes (a + 1) + 256 * (m.bytes (a + 2) + 256 * m.bytes (a + 3)))

unfoldable pub store32 : ℕ → ℕ → Memory → Memory
store32 a v m = record m {
  bytes = λ b.
      if b == a
      then v % 256
      else if b == a + 1
      then v / 256 % 256
      else if b == a + 2
      then v / 256 / 256 % 256
      else if b == a + 3
      then v / 256 / 256 / 256 % 256
      else m.bytes b;
}

-- The page table of a directory's entry, which is created where it is missing and `create` asks for it:
-- 0 where it is missing then.
unfoldable pub table_of : ℕ → Bool → Memory → Option (ℕ × Memory)
table_of pde create m =
    let found = (do pt ← pde_get_pt (load32 m pde); some (pt, m)) in
    let created = (do
      (pt, m1) ← palloc_get_page false true false m
      let filled = (do v ← pde_create pt; pt' ← pde_get_pt v; some (pt', store32 pde v m1))
      if pt == 0 then some (0, m1) else filled) in
    if load32 m pde == 0 then (if create then created else some (0, m)) else found

-- lookup_page (pd, vaddr, create)
unfoldable pub lookup_page : ℕ → ℕ → Bool → Memory → Option (ℕ × Memory)
lookup_page pd vaddr create m = do
  assert (not (pd == 0))
  assert (not create || is_user_vaddr vaddr)
  (pt, m') ← table_of (pd + 4 * pd_no vaddr) create m
  some (if pt == 0 then 0 else pt + 4 * pt_no vaddr, m')

-- pagedir_create (), with init_page_dir
unfoldable pub pagedir_create : ℕ → Memory → Option (ℕ × Memory)
pagedir_create init_page_dir m = do
  (pd, m1) ← palloc_get_page false false false m
  some (
    pd,
    if pd == 0 then m1 else record m1 {
      bytes = λ a.
          if leb pd a && ltb a (pd + pg_size)
          then m1.bytes (init_page_dir + (a - pd))
          else m1.bytes a;
    },
  )

-- The write of pagedir_set_page, at the entry that lookup_page found.
unfoldable pub set_entry : ℕ → ℕ → Bool → Memory → Option (Bool × Memory)
set_entry pte kpage writable m =
    let written = (do
      assert (not (has_flag pte_p (load32 m pte)))
      v ← pte_create_user kpage writable
      some (true, store32 pte v m)) in
    if pte == 0 then some (false, m) else written

-- pagedir_set_page (pd, upage, kpage, writable), with init_ram_pages and init_page_dir
unfoldable pub pagedir_set_page : ℕ → ℕ → ℕ → ℕ → ℕ → Bool → Memory → Option (Bool × Memory)
pagedir_set_page ram_pages init_page_dir pd upage kpage writable m = do
  assert (pg_ofs upage == 0)
  assert (pg_ofs kpage == 0)
  assert (is_user_vaddr upage)
  frame ← vtop kpage
  assert (ltb (frame / 2 ^ 12) ram_pages)
  assert (not (pd == init_page_dir))
  (pte, m') ← lookup_page pd upage true m
  set_entry pte kpage writable m'

-- What pagedir_get_page returns for the entry of an address.
abbrev pub page_in : ℕ → ℕ → Memory → Option ℕ
page_in pte uaddr m =
    let page = (do p ← pte_get_page (load32 m pte); some (p + pg_ofs uaddr)) in
    if not (pte == 0) && has_flag pte_p (load32 m pte) then page else some 0

-- pagedir_get_page (pd, uaddr)
unfoldable pub pagedir_get_page : ℕ → ℕ → Memory → Option ℕ
pagedir_get_page pd uaddr m = do
  assert (is_user_vaddr uaddr)
  (pte, m') ← lookup_page pd uaddr false m
  page_in pte uaddr m'

-- pagedir_clear_page (pd, upage)
unfoldable pub pagedir_clear_page : ℕ → ℕ → Memory → Option Memory
pagedir_clear_page pd upage m = do
  assert (pg_ofs upage == 0)
  assert (is_user_vaddr upage)
  (pte, m') ← lookup_page pd upage false m
  let present = not (pte == 0) && has_flag pte_p (load32 m' pte)
  some (if present then store32 pte (without_flag pte_p (load32 m' pte)) m' else m')

-- pagedir_is_dirty (pd, vpage), pagedir_is_accessed (pd, vpage) and pagedir_is_mapped (pd, vpage)
unfoldable pub pagedir_has : ℕ → ℕ → ℕ → Memory → Option Bool
pagedir_has bit pd vpage m = do
  (pte, m') ← lookup_page pd vpage false m
  some (not (pte == 0) && has_flag bit (load32 m' pte))

abbrev pub pagedir_is_dirty : ℕ → ℕ → Memory → Option Bool
pagedir_is_dirty pd vpage m = pagedir_has pte_d pd vpage m

abbrev pub pagedir_is_accessed : ℕ → ℕ → Memory → Option Bool
pagedir_is_accessed pd vpage m = pagedir_has pte_a pd vpage m

unfoldable pub pagedir_is_mapped : ℕ → ℕ → Memory → Option Bool
pagedir_is_mapped pd vpage m = do (pte, m') ← lookup_page pd vpage false m; some (not (pte == 0))

-- pagedir_set_dirty (pd, vpage, dirty) and pagedir_set_accessed (pd, vpage, accessed)
unfoldable pub pagedir_set_flag : ℕ → ℕ → ℕ → Bool → Memory → Option Memory
pagedir_set_flag bit pd vpage v m = do
  (pte, m') ← lookup_page pd vpage false m
  let e = load32 m' pte
  some (if pte == 0 then m' else store32 pte (if v then with_flag bit e else without_flag bit e) m')

abbrev pub pagedir_set_dirty : ℕ → ℕ → Bool → Memory → Option Memory
pagedir_set_dirty pd vpage dirty m = pagedir_set_flag pte_d pd vpage dirty m

abbrev pub pagedir_set_accessed : ℕ → ℕ → Bool → Memory → Option Memory
pagedir_set_accessed pd vpage accessed m = pagedir_set_flag pte_a pd vpage accessed m

-- The loops of pagedir_destroy: the `n` entries of a page table from `pte` on, and of the directory.
unfoldable pub free_pages_from : ℕ → ℕ → Memory → Option Memory
free_pages_from zero pte m = some m
free_pages_from (suc n) pte m =
    let freed = (do page ← pte_get_page (load32 m pte); palloc_free_page page m) in
    (if has_flag pte_p (load32 m pte) then freed else some m) >>= λ m'.
    free_pages_from n (pte + 4) m'

unfoldable pub free_tables_from : ℕ → ℕ → Memory → Option Memory
free_tables_from zero pde m = some m
free_tables_from (suc n) pde m =
    let freed = (do
      pt ← pde_get_pt (load32 m pde)
      m1 ← free_pages_from 1024 pt m
      palloc_free_page pt m1) in
    (if has_flag pte_p (load32 m pde) then freed else some m) >>= λ m'.
    free_tables_from n (pde + 4) m'

-- pagedir_destroy (pd), with init_page_dir
pub pagedir_destroy : ℕ → ℕ → Memory → Option Memory
unfolding free_tables_from
pagedir_destroy init_page_dir pd m =
    let freed = (do
      assert (not (pd == init_page_dir))
      m1 ← free_tables_from (pd_no phys_base) pd m
      palloc_free_page pd m1) in
    if pd == 0 then some m else freed
