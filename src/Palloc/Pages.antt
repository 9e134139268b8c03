-- ===== src/Palloc/Pages.antt =====
-- Getting pages from a pool, and giving them back.
use pintos_project.Base.{
  ℕ, ◌+◌, ◌*◌, ◌%◌, ◌^◌, ◌≤◌, ◌<◌, ◌≡◌, refl, ◌∙◌, ◌≢◌, ◌⊎◌, inl, inr, Bool, true, false, Option,
  none, some, ◌==◌, if◌then◌else◌, arith, some->>=, if_false,
}
use pintos_project.Bitmap.{Bitmap, bitmap_error, bitmap_scan_and_flip}
use pintos_project.Bitmap.Bits.{bit_at, HasBits}
use pintos_project.Bitmap.Ranges.{is_within}
use pintos_project.Bitmap.Search.{AllAre, SomeDiffers, bitmap_scan_and_flip_lem}
use pintos_project.Palloc.{
  Pool, Memory, pg_size, pool_of, set_used_map, memset, page_at, palloc_get_multiple,
}

-- A pool that starts at a page behind 0 and ends within 2 ^ 32 bytes.
pub record IsPool (p : Pool) : Type 0 where
  pub aligned : p.base % pg_size ≡ 0
  pub not_null : 0 < p.base
  pub fits : p.base + pg_size * p.used_map.bit_cnt ≤ 2 ^ 32

-- The user pool stands behind the kernel pool, as palloc_init places it.
pub record IsMemory (m : Memory) : Type 0 where
  pub kernel : IsPool m.kernel_pool
  pub user : IsPool m.user_pool
  pub apart : m.kernel_pool.base + pg_size * m.kernel_pool.used_map.bit_cnt ≤ m.user_pool.base

pub IsPool-pool_of : (u : Bool) (m : Memory) → IsMemory m → IsPool (pool_of u m)
IsPool-pool_of true m v = v.user
IsPool-pool_of false m v = v.kernel

-- What getting `cnt` pages of a pool leaves.
pub record HasGot (u zero_fill : Bool) (cnt i : ℕ) (m : Memory) (pages : ℕ) (m' : Memory)
    : Type 0 where
  pub address : pages ≡ (pool_of u m).base + pg_size * i
  pub inside : i + cnt ≤ (pool_of u m).used_map.bit_cnt
  pub free : AllAre (bit_at (pool_of u m).used_map) i cnt false
  pub first : (s : ℕ) → s < i → SomeDiffers (bit_at (pool_of u m).used_map) s cnt false
  pub map : Bitmap
  pub bits :
      HasBits
        (pool_of u m).used_map
        (λ j. if is_within i cnt j then true else bit_at (pool_of u m).used_map j)
        map
  pub memory : m' ≡ (
      if zero_fill
      then memset pages 0 (pg_size * cnt) (set_used_map u map m)
      else set_used_map u map m)

page_at_miss :
    (u zero_fill must : Bool) (cnt : ℕ) (map : Bitmap) (m : Memory)
    → page_at u zero_fill must cnt (bitmap_error, map) m
      ≡ (if must then none else some (0, set_used_map u map m))
unfolding page_at
page_at_miss u zero_fill true cnt map m = refl
page_at_miss u zero_fill false cnt map m = refl

abbrev filled : Bool → Bool → ℕ → ℕ → Bitmap → Memory → Memory
filled u zero_fill cnt start map m =
    if zero_fill
    then memset start 0 (pg_size * cnt) (set_used_map u map m)
    else set_used_map u map m

page_at_hit :
    (u zero_fill must : Bool) (cnt i : ℕ) (map : Bitmap) (m : Memory)
    → IsPool (pool_of u m)
    → i < (pool_of u m).used_map.bit_cnt
    → page_at u zero_fill must cnt (i, map) m
      ≡ some (
        (pool_of u m).base + pg_size * i,
        filled u zero_fill cnt ((pool_of u m).base + pg_size * i) map m,
      )
unfolding page_at
page_at_hit u zero_fill must cnt i map m p h =
    let start = (pool_of u m).base + pg_size * i in
    let small : start % 2 ^ 32 ≡ start = omega (arith, p.fits, h) in
    let real : (i == bitmap_error) ≡ false = ground (arith, p.fits, h) in
    let not_null : (start == 0) ≡ false = ground (arith, p.not_null) in
    rw (real, small, not_null) refl

-- palloc_get_multiple, of a positive number of pages from a pool that is placed in the address space,
-- passes its assertions. If `page_cnt` consecutive pages of the pool are free, it returns the address of
-- the first such group, not NULL, marks exactly these pages as used, fills them with zeros if that is
-- asked for, and changes nothing else. If there are none it panics with PAL_ASSERT, and returns NULL
-- otherwise, with the memory as it was.
pub palloc_get_multiple_lem :
    (u zero_fill must : Bool) (cnt : ℕ) (m : Memory)
    → IsMemory m
    → 0 < cnt
    → ((pages : ℕ) × (m' : Memory) × (i : ℕ) × (palloc_get_multiple u zero_fill must cnt m
          ≡ some (pages, m'))
        × (pages ≢ 0)
        × HasGot u zero_fill cnt i m pages m')
      ⊎ (((s : ℕ)
            → s + cnt ≤ (pool_of u m).used_map.bit_cnt
            → SomeDiffers (bit_at (pool_of u m).used_map) s cnt false)
          × (palloc_get_multiple u zero_fill must cnt m
              ≡ (if must then none else some (0, set_used_map u (pool_of u m).used_map m))))
unfolding palloc_get_multiple
palloc_get_multiple_lem u zero_fill must cnt m v h =
    let b = (pool_of u m).used_map in
    let p = IsPool-pool_of u m v in
    let (i, map, e, f) =
      bitmap_scan_and_flip_lem b 0 cnt false (omega arith) (omega (arith, p.fits, p.not_null)) in
    let start = (pool_of u m).base + pg_size * i in
    let pass : (r : Option (ℕ × Memory))
        → page_at u zero_fill must cnt (i, map) m ≡ r
        → palloc_get_multiple u zero_fill must cnt m ≡ r =
      λ r g.
        if_false (cnt == 0) (some (0, m)) _ (ground (arith, h))
        ∙ some->>= (bitmap_scan_and_flip b 0 cnt false) (λ q. page_at u zero_fill must cnt q m) e
            g in
    elim f [
      | inl (le, fits, all, before, w) ↦ inl (
        start,
        filled u zero_fill cnt start map m,
        i,
        pass _ (page_at_hit u zero_fill must cnt i map m p (omega (arith, fits, h))),
        (λ z. omega (arith, p.not_null, z)),
        record {
          address = refl;
          inside = fits;
          free = all;
          first = λ s. before s (omega arith);
          map = map;
          bits = w;
          memory = refl;
        },
      )
      | inr (er, same, none_fit) ↦ inr (
        (λ s fits. none_fit s (omega arith) fits),
        pass _ (rw (er, same) (page_at_miss u zero_fill must cnt b m)),
      )
    ]
