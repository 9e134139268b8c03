-- ===== src/Paging/Tests.antt =====
-- An empty page directory in the first page of a kernel pool of 10 pages.
use pintos_project.Base.{ℕ, ◌≡◌, refl, ◌⊎◌, inl, true, false, ◌&&◌, some, ◌==◌, arith}
use pintos_project.Palloc.{Memory}
use pintos_project.Paging.{
  lookup_page, table_of, load32, pagedir_set_page, pagedir_get_page, pagedir_clear_page,
}
use pintos_project.Paging.Directory.{IsDirectory, entry}
use pintos_project.Paging.Entries.{HasNoTable}
use pintos_project.Paging.Mapping.{HasMapped, pagedir_set_page_lem}
use pintos_project.Paging.Flags.{HasCleared, pagedir_clear_page_lem}

abbrev pages : Memory
pages = record {
  kernel_pool = record {
    used_map = record { bit_cnt = 10; bits = λ i j. i == 0 && j == 0 };
    base = 0xc0100000;
  };
  user_pool = record { used_map = record { bit_cnt = 20; bits = λ i j. false }; base = 0xc0200000 };
  bytes = λ a. 0;
}

abbrev pd : ℕ
pd = 0xc0100000

empty_entry : (i : ℕ) → entry pd i pages ≡ 0
unfolding load32
empty_entry i = omega arith

pages-IsDirectory : IsDirectory pd pages
pages-IsDirectory = record {
  placed = record {
    kernel = record { aligned = refl; not_null = omega arith; fits = omega arith };
    user = record { aligned = refl; not_null = omega arith; fits = omega arith };
    apart = omega arith;
  };
  above = omega arith;
  itself = record { idx = 0; address = refl; inside = omega arith; used = refl };
  entries = λ i h. inl (empty_entry i);
  apart = λ i j hi hj ne a b. absurd (a (empty_entry i));
}

nothing_mapped : pagedir_get_page pd 0x8048000 pages ≡ some 0
unfolding pagedir_get_page lookup_page table_of load32
nothing_mapped = refl

set_page_example :
    (HasNoTable pd 0x8048000 pages
      × (pagedir_set_page 1024 0xc0001000 pd 0x8048000 0xc0200000 true pages ≡ some (false, pages)))
    ⊎ ((m' : Memory) × (pagedir_set_page 1024 0xc0001000 pd 0x8048000 0xc0200000 true pages
          ≡ some (true, m'))
        × HasMapped pd 0x8048000 0xc0200000 pages m')
set_page_example =
    pagedir_set_page_lem 1024 0xc0001000 pd 0x8048000 0xc0200000 true pages pages-IsDirectory
      (omega arith) refl (omega arith) refl (omega arith) (omega arith) (omega arith) nothing_mapped

clear_page_example :
    (m' : Memory) × (pagedir_clear_page pd 0x8048000 pages ≡ some m')
    × HasCleared pd 0x8048000 pages m'
clear_page_example = pagedir_clear_page_lem pd 0x8048000 pages pages-IsDirectory refl (omega arith)
