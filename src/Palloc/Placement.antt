-- ===== src/Palloc/Placement.antt =====
-- Where palloc_init places the pools.
use pintos_project.Base.{
  ℕ, ◌+◌, ◌-◌, ◌*◌, ◌/◌, ◌%◌, ◌^◌, ◌≤◌, ◌<◌, ◌≡◌, refl, ◌∙◌, false, some, ltb, leb, if◌then◌else◌,
  arith, assert_passes, some->>=, if_true,
}
use pintos_project.Bitmap.{Bitmap, Elem, bitmap_set_all}
use pintos_project.Bitmap.Bits.{bit_at}
use pintos_project.Bitmap.Ranges.{is_within, bitmap_set_multiple_lem}
use pintos_project.Palloc.{Pool, Memory, pg_size, phys_base, init_pool, palloc_init}
use pintos_project.Palloc.Pages.{IsMemory}

-- A pool of `n` pages from `start` on: its map takes some of them, and the rest are free.
pub record IsInit (start n : ℕ) (p : Pool) : Type 0 where
  pub base : start < p.base
  pub aligned : p.base % pg_size ≡ 0
  pub end : p.base + pg_size * p.used_map.bit_cnt ≡ start + pg_size * n
  pub free : (j : ℕ) → j < p.used_map.bit_cnt → bit_at p.used_map j ≡ false

-- The pages that the map of a pool of `n` pages takes.
abbrev map_pages : ℕ → ℕ
map_pages n = (8 + 4 * ((n + 31) / 32) + pg_size - 1) / pg_size

map_pages-le : (n : ℕ) → 0 < n → map_pages n ≤ n
map_pages-le n h = omega arith

map_pages_pos : (n : ℕ) → 0 < map_pages n
map_pages_pos n = omega arith

map_pages_enough : (n : ℕ) → 8 + 4 * ((n - map_pages n + 31) / 32) ≤ map_pages n * pg_size
map_pages_enough n = omega arith

init_pool_lem :
    (elems : ℕ → Elem) (start n : ℕ)
    → 0 < n
    → n < 2 ^ 20
    → start % pg_size ≡ 0
    → (p : Pool) × (init_pool elems start n ≡ some p) × IsInit start n p
unfolding init_pool bitmap_set_all
init_pool_lem elems start n some_pages small at_page =
    let k = map_pages n in
    let b : Bitmap = record { bit_cnt = n - k; bits = elems } in
    let (map, e, w) =
      bitmap_set_multiple_lem b 0 (n - k) false (omega arith) (omega (arith, small)) in
    (
      record { used_map = map; base = start + k * pg_size },
      assert_passes (leb k n) _ (ground (arith, map_pages-le n some_pages)) (
          assert_passes (leb (8 + 4 * ((n - k + 31) / 32)) (k * pg_size)) _
            (ground (arith, map_pages_enough n)) (some->>= (bitmap_set_all b false) _ e refl)),
      record {
        base = omega (arith, map_pages_pos n);
        aligned = omega (arith, at_page);
        end = omega (arith, w.size, map_pages-le n some_pages);
        free = λ j h.
            w.bits j
            ∙ if_true (is_within 0 (n - k) j) false (bit_at b j) (ground (arith, h, w.size));
      },
    )

-- palloc_init, with 1 MB of memory and two pages at least and less than 1 GB, and a limit that gives the
-- user pool a page, does not panic: the pools are at whole pages, inside the 32-bit address space and one
-- behind the other, every page of them is free, and with their maps they take the memory up to its end.
pub palloc_init_lem :
    (elems : ℕ → Elem) (bytes : ℕ → ℕ) (ram_pages limit : ℕ)
    → 258 ≤ ram_pages
    → ram_pages ≤ 262144
    → 0 < limit
    → (m : Memory) × (palloc_init elems bytes ram_pages limit ≡ some m)
      × IsMemory m
      × ((j : ℕ) → j < m.kernel_pool.used_map.bit_cnt → bit_at m.kernel_pool.used_map j ≡ false)
      × ((j : ℕ) → j < m.user_pool.used_map.bit_cnt → bit_at m.user_pool.used_map j ≡ false)
      × (m.user_pool.base + pg_size * m.user_pool.used_map.bit_cnt
          ≡ phys_base + ram_pages * pg_size)
unfolding palloc_init
palloc_init_lem elems bytes ram_pages limit lo hi some_limit =
    let free_start = phys_base + 1024 * 1024 in
    let free_pages = (phys_base + ram_pages * pg_size - free_start) / pg_size in
    let half = free_pages / 2 in
    let user_pages = if ltb limit half then limit else half in
    let kernel_pages = free_pages - user_pages in
    let all_pages : free_pages ≡ ram_pages - 256 = omega arith in
    let user_some : 0 < user_pages = ground (arith, lo, some_limit, all_pages) in
    let user_few : user_pages ≤ half = ground arith in
    let (k, e, i) =
      init_pool_lem elems free_start kernel_pages (omega (arith, user_few, all_pages, lo))
        (omega (arith, hi, all_pages)) (omega arith) in
    let (u, e2, i2) =
      init_pool_lem elems (free_start + kernel_pages * pg_size) user_pages user_some
        (omega (arith, user_few, hi, all_pages)) (omega arith) in
    (
      record { kernel_pool = k; user_pool = u; bytes = bytes },
      some->>= (init_pool elems free_start kernel_pages) _ e
          (some->>= (init_pool elems (free_start + kernel_pages * pg_size) user_pages) _ e2 refl),
      record {
        kernel = record {
          aligned = i.aligned;
          not_null = omega (arith, i.base);
          fits = omega (arith, i.end, hi, all_pages);
        };
        user = record {
          aligned = i2.aligned;
          not_null = omega (arith, i2.base);
          fits = omega (arith, i2.end, hi, all_pages, user_few);
        };
        apart = omega (arith, i.end, i2.base);
      },
      i.free,
      i2.free,
      omega (arith, i2.end, all_pages, user_few, lo),
    )
