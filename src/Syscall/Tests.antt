-- ===== src/Syscall/Tests.antt =====
-- A process with a page at 0x8048000, before it opens a file and with one file open.
use pintos_project.Base.{
  ℕ, ◌+◌, ◌-◌, ◌%◌, ◌<◌, ◌≡◌, refl, sym, ◌∙◌, ◌≢◌, ◌⊎◌, inl, inr, true, false, ◌||◌, ◌&&◌, none,
  some, [], ◌∷◌, ◌==◌, if◌then◌else◌, arith, Bool-cases,
}
use pintos_project.Palloc.{Memory}
use pintos_project.Files.{Files, file_close, file_allow_write, inode_close}
use pintos_project.Paging.{
  load32, lookup_page, table_of, pde_get_pt, pte_get_page, ptov, pagedir_get_page,
}
use pintos_project.Paging.Directory.{IsDirectory, IsTable, entry}
use pintos_project.Syscall.{User, table_at, open_file, close_fd}
use pintos_project.Syscall.Handlers.{check_address}
use pintos_project.Syscall.Descriptors.{file_of, HasOpened, HasClosed, open_file_lem, close_fd_lem}
use pintos_project.Syscall.Addresses.{check_address_beside}

-- The directory is at 0xc0100000 and its page table at 0xc0101000.
abbrev pages : Memory
pages = record {
  kernel_pool = record {
    used_map = record { bit_cnt = 10; bits = λ i j. i == 0 && (j == 0 || j == 1) };
    base = 0xc0100000;
  };
  user_pool = record { used_map = record { bit_cnt = 20; bits = λ i j. false }; base = 0xc0200000 };
  bytes = λ a.
      if a == 0xc0100080 || a == 0xc0101120
      then 7
      else if a == 0xc0100081 || a == 0xc0100082
      then 0x10
      else if a == 0xc0101122
      then 0x20
      else 0;
}

abbrev store : Files
store = record {
  device = record { size = 100; sectors = λ i a. 0 };
  map = record { bit_cnt = 100; bits = λ i j. false };
  inodes = λ i. record {
    sector = 4;
    open_cnt = 2;
    removed = false;
    deny_write_cnt = 0;
    start = 5;
    length = 600;
  };
  open_inodes = 50 ∷ [];
  files = λ f. record { inode = 50; pos = 0; deny_write = false };
  live = 7 ∷ 8 ∷ [];
}

abbrev no_file : User
no_file = record {
  pagedir = 0xc0100000;
  fd = 1;
  files_table = record { cap = 0; entry = λ i. 0 };
  exit_status = 0;
  memory = pages;
  bytes = λ a. 0;
  files = store;
  console = [];
}

abbrev one_file : User
one_file = record no_file {
  fd = 2;
  files_table = record { cap = 21; entry = λ i. if i == 0 then 7 else 0 };
}

open_file_example :
    (((no_file.fd + 1 - 2) % 20 ≡ 0) × (true ≡ false) × (open_file true (λ i. 99) 7 no_file ≡ none))
    ⊎ ((((no_file.fd + 1 - 2) % 20 ≢ 0) ⊎ (true ≡ true))
        × (u' : User) × (open_file true (λ i. 99) 7 no_file ≡ some (2, u'))
        × HasOpened 7 no_file u')
open_file_example =
    open_file_lem true (λ i. 99) 7 no_file
      (record { some_fd = omega arith; capacity = λ h. absurd (omega (arith, h)) }) (omega arith)

abbrev closed_store : Files
closed_store = record store {
  inodes = λ i. if 50 == i then record (store.inodes 50) { open_cnt = 1 } else store.inodes i;
  live = 8 ∷ [];
}

closing : file_close 7 store ≡ some closed_store
unfolding file_close file_allow_write inode_close
closing = refl

at : file_of 2 one_file ≡ some 7
unfolding table_at
at = refl

close_fd_example :
    (u' : User) × (close_fd 2 one_file ≡ some u')
    × (u'.files ≡ closed_store)
    × HasClosed 2 one_file u'
close_fd_example =
    close_fd_lem 2 7 one_file closed_store (record { some_fd = omega arith; capacity = λ h. refl })
      (omega arith) (omega arith) at (omega arith) closing

the_entry : entry 0xc0100000 32 pages ≡ 0x101007
unfolding load32
the_entry = refl

other_entry : (i : ℕ) → i ≢ 32 → i < 768 → entry 0xc0100000 i pages ≡ 0
unfolding load32
other_entry i ne h = ground (arith, ne, h)

first-IsTable : IsTable 0xc0100000 0x101007 pages
first-IsTable = record {
  present = refl;
  low = omega arith;
  in_use = record { idx = 1; address = refl; inside = omega arith; used = refl };
  other = omega arith;
}

entry_cases :
    (i : ℕ)
    → i < 768
    → (entry 0xc0100000 i pages ≡ 0)
      ⊎ ((i ≡ 32) × IsTable 0xc0100000 (entry 0xc0100000 i pages) pages)
entry_cases i h = elim (Bool-cases (i == 32)) [
  | inl y ↦ let q : i ≡ 32 = ground (arith, y) in inr (q, rw (q, the_entry) first-IsTable)
  | inr n ↦ inl (other_entry i (ground (arith, n)) h)
]

one_entry : (i : ℕ) → i < 768 → entry 0xc0100000 i pages ≢ 0 → i ≡ 32
one_entry i h a = elim (entry_cases i h) [ inl z ↦ absurd (a z) | inr (q, t) ↦ q ]

pages-IsDirectory : IsDirectory 0xc0100000 pages
pages-IsDirectory = record {
  placed = record {
    kernel = record { aligned = refl; not_null = omega arith; fits = omega arith };
    user = record { aligned = refl; not_null = omega arith; fits = omega arith };
    apart = omega arith;
  };
  above = omega arith;
  itself = record { idx = 0; address = refl; inside = omega arith; used = refl };
  entries = λ i h. elim (entry_cases i h) [ inl z ↦ inl z | inr (q, t) ↦ inr t ];
  apart = λ i j hi hj ne a b. absurd (ne (one_entry i hi a ∙ sym (one_entry j hj b)));
}

mapped : pagedir_get_page 0xc0100000 0x8048000 pages ≡ some 0xc0200000
unfolding pagedir_get_page lookup_page table_of pde_get_pt pte_get_page ptov load32
mapped = refl

check_address_beside_example : check_address 0x8049000 no_file ≡ some true
check_address_beside_example =
    check_address_beside 0x8048000 0x8049000 0xc0200000 no_file pages-IsDirectory (omega arith)
      mapped (omega arith) refl (omega arith)
