-- ===== src/Palloc/Tests.antt =====
-- A memory with a kernel pool of 10 pages and a user pool of 20, of which the first kernel page is used.
use pintos_project.Base.{
  ℕ, ◌+◌, ◌≤◌, ◌<◌, ◌*◌, ◌≡◌, ◌≢◌, ◌⊎◌, refl, true, false, some, ◌&&◌, ◌==◌, arith,
}
use pintos_project.Bitmap.Bits.{bit_at}
use pintos_project.Bitmap.Search.{AllAre, SomeDiffers}
use pintos_project.Palloc.{
  Memory, pool_of, set_used_map, palloc_get_multiple, palloc_free_multiple, pg_size, phys_base,
  palloc_init,
}
use pintos_project.Palloc.Pages.{IsMemory, HasGot, palloc_get_multiple_lem}
use pintos_project.Palloc.Placement.{palloc_init_lem}
use pintos_project.Palloc.Release.{HasFreed, palloc_free_multiple_lem}

abbrev pages : Memory
pages = record {
  kernel_pool = record {
    used_map = record { bit_cnt = 10; bits = λ i j. i == 0 && j == 0 };
    base = 0x10000;
  };
  user_pool = record { used_map = record { bit_cnt = 20; bits = λ i j. false }; base = 0x20000 };
  bytes = λ a. 0;
}

pages-IsMemory : IsMemory pages
pages-IsMemory = record {
  kernel = record { aligned = refl; not_null = omega arith; fits = omega arith };
  user = record { aligned = refl; not_null = omega arith; fits = omega arith };
  apart = omega arith;
}

get_example :
    ((page : ℕ) × (m' : Memory) × (i : ℕ) × (palloc_get_multiple true true false 3 pages
        ≡ some (page, m'))
      × (page ≢ 0)
      × HasGot true true 3 i pages page m')
    ⊎ (((s : ℕ)
          → s + 3 ≤ (pool_of true pages).used_map.bit_cnt
          → SomeDiffers (bit_at (pool_of true pages).used_map) s 3 false)
        × (palloc_get_multiple true true false 3 pages
            ≡ some (0, set_used_map true (pool_of true pages).used_map pages)))
get_example = palloc_get_multiple_lem true true false 3 pages pages-IsMemory (omega arith)

free_example :
    (m' : Memory) × (palloc_free_multiple 0x10000 1 pages ≡ some m') × HasFreed false 1 0 pages m'
free_example =
    palloc_free_multiple_lem false 1 0 pages pages-IsMemory (omega arith) (omega arith) only_first
  where
    only_first : AllAre (bit_at (pool_of false pages).used_map) 0 1 true
    only_first j w = ground (arith, w)

palloc_init_example :
    (m : Memory) × (palloc_init (λ i j. true) (λ a. 0) 1024 500 ≡ some m)
    × IsMemory m
    × ((j : ℕ) → j < m.kernel_pool.used_map.bit_cnt → bit_at m.kernel_pool.used_map j ≡ false)
    × ((j : ℕ) → j < m.user_pool.used_map.bit_cnt → bit_at m.user_pool.used_map j ≡ false)
    × (m.user_pool.base + pg_size * m.user_pool.used_map.bit_cnt ≡ phys_base + 1024 * pg_size)
palloc_init_example =
    palloc_init_lem (λ i j. true) (λ a. 0) 1024 500 (omega arith) (omega arith) (omega arith)
