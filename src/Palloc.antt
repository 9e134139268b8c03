-- ===== src/Palloc.antt =====
-- threads/palloc.c: the page allocator, with a pool of pages for the kernel and one for user programs.
-- An address is a number below 2 ^ 32 and NULL is 0. The lock of a pool, which keeps one search at a
-- time on its map, and the messages are not modelled. NOT_REACHED and PANIC are `none`.
pub mod Pages
pub mod Release
pub mod Placement
mod Tests
use pintos_project.Base.{
  ℕ, ◌+◌, ◌-◌, ◌*◌, ◌/◌, ◌%◌, ◌^◌, Bool, true, false, not, ◌&&◌, ◌||◌, Option, none, some, ◌==◌,
  ltb, leb, if◌then◌else◌, ◌>>=◌, ◌>>◌, assert,
}
use pintos_project.Bitmap.{
  Bitmap, Elem, bitmap_error, bitmap_all, bitmap_set_all, bitmap_set_multiple, bitmap_scan_and_flip,
}

-- PGSIZE
abbrev pub pg_size : ℕ
pg_size = 4096

-- struct pool
pub record Pool : Type 0 where
  pub used_map : Bitmap
  pub base : ℕ

-- The two pools, and the bytes of the memory.
pub record Memory : Type 0 where
  pub kernel_pool : Pool
  pub user_pool : Pool
  pub bytes : ℕ → ℕ

-- `flags & PAL_USER ? &user_pool : &kernel_pool`
abbrev pub pool_of : Bool → Memory → Pool
pool_of user m = if user then m.user_pool else m.kernel_pool

abbrev pub set_used_map : Bool → Bitmap → Memory → Memory
set_used_map user map m =
    if user
    then record m { user_pool = record m.user_pool { used_map = map } }
    else record m { kernel_pool = record m.kernel_pool { used_map = map } }

-- memset (start, value, size)
abbrev pub memset : ℕ → ℕ → ℕ → Memory → Memory
memset start value size m = record m {
  bytes = λ a. if leb start a && ltb a (start + size) then value else m.bytes a;
}

-- init_pool (p, base, page_cnt), with bitmap_buf_size and bitmap_create_in_buf: the map, over `elems`, stands in the pool's first pages.
-- `sizeof (struct bitmap)` is 8.
pub init_pool : (ℕ → Elem) → ℕ → ℕ → Option Pool
init_pool elems base page_cnt =
    let buf_size = 8 + 4 * ((page_cnt + 31) / 32) in
    let bm_pages = (buf_size + pg_size - 1) / pg_size in
    do
      assert (leb bm_pages page_cnt)
      assert (leb (8 + 4 * ((page_cnt - bm_pages + 31) / 32)) (bm_pages * pg_size))
      map ← bitmap_set_all (record { bit_cnt = page_cnt - bm_pages; bits = elems }) false
      some (record { used_map = map; base = base + bm_pages * pg_size })

-- What palloc_get_multiple does with the index of the first page.
unfoldable pub page_at : Bool → Bool → Bool → ℕ → ℕ × Bitmap → Memory → Option (ℕ × Memory)
page_at user zero_fill must page_cnt (page_idx, map) m =
    let m' = set_used_map user map m in
    let pages =
      if page_idx == bitmap_error
      then 0
      else ((pool_of user m).base + pg_size * page_idx) % 2 ^ 32 in
    if pages == 0
    then assert (not must) >> some (pages, m')
    else some (pages, if zero_fill then memset pages 0 (pg_size * page_cnt) m' else m')

-- palloc_get_multiple (flags, page_cnt), for the flags PAL_USER, PAL_ZERO and PAL_ASSERT
unfoldable pub palloc_get_multiple : Bool → Bool → Bool → ℕ → Memory → Option (ℕ × Memory)
unfolding page_at
palloc_get_multiple user zero_fill must page_cnt m =
    if page_cnt == 0
    then some (0, m)
    else bitmap_scan_and_flip (pool_of user m).used_map 0 page_cnt false >>= λ r.
        page_at user zero_fill must page_cnt r m

-- palloc_get_page (flags)
unfoldable pub palloc_get_page : Bool → Bool → Bool → Memory → Option (ℕ × Memory)
unfolding palloc_get_multiple
palloc_get_page user zero_fill must m = palloc_get_multiple user zero_fill must 1 m

-- page_from_pool (pool, page)
abbrev pub page_from_pool : Pool → ℕ → Bool
page_from_pool pool page =
    let start_page = pool.base / pg_size in
    let end_page = start_page + pool.used_map.bit_cnt in
    leb start_page (page / pg_size) && ltb (page / pg_size) end_page

-- The pool that a page is from: true for the user pool.
abbrev pub owner : ℕ → Memory → Option Bool
owner pages m =
    if page_from_pool m.kernel_pool pages
    then some false
    else if page_from_pool m.user_pool pages
    then some true
    else none

-- palloc_free_multiple (pages, page_cnt)
unfoldable pub palloc_free_multiple : ℕ → ℕ → Memory → Option Memory
palloc_free_multiple pages page_cnt m =
    let freed = (do
      user ← owner pages m
      let pool = pool_of user m
      let page_idx = pages / pg_size - pool.base / pg_size
      let m' = memset pages 0xcc (pg_size * page_cnt) m
      used ← bitmap_all pool.used_map page_idx page_cnt
      assert used
      map ← bitmap_set_multiple pool.used_map page_idx page_cnt false
      some (set_used_map user map m')) in
    assert (pages % pg_size == 0) >> (if pages == 0 || page_cnt == 0 then some m else freed)

-- palloc_free_page (page)
unfoldable pub palloc_free_page : ℕ → Memory → Option Memory
unfolding palloc_free_multiple
palloc_free_page page m = palloc_free_multiple page 1 m

-- palloc_init (user_page_limit), with `ram_pages` for init_ram_pages and what the memory holds for the
-- maps; ptov adds PHYS_BASE.
abbrev pub phys_base : ℕ
phys_base = 0xc0000000

pub palloc_init : (ℕ → Elem) → (ℕ → ℕ) → ℕ → ℕ → Option Memory
unfolding init_pool
palloc_init elems bytes ram_pages user_page_limit =
    let free_start = phys_base + 1024 * 1024 in
    let free_end = phys_base + ram_pages * pg_size in
    let free_pages = (free_end - free_start) / pg_size in
    let half = free_pages / 2 in
    let user_pages = if ltb user_page_limit half then user_page_limit else half in
    let kernel_pages = free_pages - user_pages in
    do
      kernel ← init_pool elems free_start kernel_pages
      user ← init_pool elems (free_start + kernel_pages * pg_size) user_pages
      some (record { kernel_pool = kernel; user_pool = user; bytes = bytes })
