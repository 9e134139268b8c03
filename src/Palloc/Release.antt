-- ===== src/Palloc/Release.antt =====
-- Giving pages back.
use pintos_project.Base.{
  ℕ, ◌+◌, ◌-◌, ◌*◌, ◌/◌, ◌%◌, ◌≤◌, ◌<◌, ◌≡◌, refl, ap, ◌∙◌, inl, inr, Bool, true, false, some, ◌==◌,
  if◌then◌else◌, arith, assert_passes, some->>=, Bool-cases,
}
use pintos_project.Bitmap.{Bitmap, bitmap_all, bitmap_set_multiple}
use pintos_project.Bitmap.Bits.{bit_at, HasBits}
use pintos_project.Bitmap.Ranges.{
  is_within, has_bit, some_bit, bitmap_contains_lem, bitmap_set_multiple_lem,
}
use pintos_project.Bitmap.Search.{AllAre}
use pintos_project.Palloc.{
  Memory, pg_size, pool_of, set_used_map, memset, owner, palloc_free_multiple,
}
use pintos_project.Palloc.Pages.{IsMemory, IsPool-pool_of}

-- The pool is found again from a page of it.
owner_lem :
    (u : Bool) (m : Memory) (i : ℕ)
    → IsMemory m
    → i < (pool_of u m).used_map.bit_cnt
    → owner ((pool_of u m).base + pg_size * i) m ≡ some u
owner_lem true m i v h = ground (arith, v.user.aligned, v.kernel.aligned, v.apart, h)
owner_lem false m i v h = ground (arith, v.kernel.aligned, h)

index_lem : (base i : ℕ) → base % 4096 ≡ 0 → (base + 4096 * i) / 4096 - base / 4096 ≡ i
index_lem base i h = omega arith

-- What is left of a memory when `cnt` pages from the page `i` of a pool on are free again.
pub record HasFreed (u : Bool) (cnt i : ℕ) (m m' : Memory) : Type 0 where
  pub map : Bitmap
  pub bits :
      HasBits
        (pool_of u m).used_map
        (λ j. if is_within i cnt j then false else bit_at (pool_of u m).used_map j)
        map
  pub memory :
      m' ≡ set_used_map u map (memset ((pool_of u m).base + pg_size * i) 0xcc (pg_size * cnt) m)

all_used : (f : ℕ → Bool) (i n : ℕ) → AllAre f i n true → has_bit f i n false ≡ false
all_used f i n h = elim (Bool-cases (has_bit f i n false)) [
  | inl t ↦ let (j, w, e) = some_bit f i n true t in absurd (cc (h j w, e))
  | inr e ↦ e
]

-- palloc_free_multiple, of a positive number of pages that lie in one of two pools placed in the address
-- space and are all in use, finds the pool and passes its assertions: exactly these pages are free
-- afterwards, they are filled with 0xcc, and nothing else has changed.
pub palloc_free_multiple_lem :
    (u : Bool) (cnt i : ℕ) (m : Memory)
    → IsMemory m
    → 0 < cnt
    → i + cnt ≤ (pool_of u m).used_map.bit_cnt
    → AllAre (bit_at (pool_of u m).used_map) i cnt true
    → (m' : Memory) × (palloc_free_multiple ((pool_of u m).base + pg_size * i) cnt m ≡ some m')
      × HasFreed u cnt i m m'
unfolding palloc_free_multiple bitmap_all
palloc_free_multiple_lem u cnt i m v h fits used =
    let b = (pool_of u m).used_map in
    let p = IsPool-pool_of u m v in
    let start = (pool_of u m).base + pg_size * i in
    let real : (start == 0) ≡ false = ground (arith, p.not_null) in
    let some_pages : (cnt == 0) ≡ false = ground (arith, h) in
    let (map, e, w) =
      bitmap_set_multiple_lem b i cnt false fits (omega (arith, p.fits, p.not_null)) in
    let c =
      bitmap_contains_lem b i cnt false fits (omega (arith, p.fits, p.not_null))
      ∙ ap some (all_used (bit_at b) i cnt used) in
    (
      set_used_map u map (memset start 0xcc (pg_size * cnt) m),
      assert_passes (start % pg_size == 0) _ (ground (arith, p.aligned)) (
          rw
            (
              real,
              some_pages,
              owner_lem u m i v (omega (arith, h, fits)),
              index_lem (pool_of u m).base i p.aligned,
              c,
            )
            (some->>= (bitmap_set_multiple b i cnt false) _ e refl)),
      record { map = map; bits = w; memory = refl },
    )
