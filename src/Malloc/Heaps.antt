-- ===== src/Malloc/Heaps.antt =====
-- The invariant of the heap.
use pintos_project.Base.{
  ℕ, ◌+◌, ◌-◌, ◌*◌, ◌%◌, ◌^◌, ◌≤◌, ◌<◌, ◌≡◌, ◌≢◌, refl, ap, ◌∙◌, true, not, some, ◌==◌, count,
  arith, assert_passes,
}
use native.Mathlib.Nat.{mul-mod_left}
use pintos_project.Paging.Directory.{InUse, InUse-aligned}
use pintos_project.Palloc.Pages.{IsMemory}
use pintos_project.Paging.{pg_round_down, pg_ofs}
use pintos_project.Malloc.{Heap, arena_to_block, block_to_arena}
use pintos_project.Malloc.Blocks.{size_of, per_arena, in_page, blocks_fit, size_real}

-- A block of an arena of the descriptor `d`.
abbrev pub IsBlock : Heap → ℕ → ℕ → Type 0
IsBlock h d b =
    ((h.arenas (pg_round_down b)).magic ≡ true)
    × ((h.arenas (pg_round_down b)).desc ≡ some d)
    × (d < 7)
    × ((j : ℕ) × (j < per_arena d) × (b ≡ arena_to_block d (pg_round_down b) j))

-- Every free list holds blocks of its descriptor, none of them twice, and every arena counts its blocks in
-- the list; the arenas are pages that are in use.
pub record IsHeap (h : Heap) : Type 0 where
  pub memory : IsMemory h.memory
  pub paged : (a : ℕ) → (h.arenas a).magic ≡ true → InUse a h.memory
  pub sized : (a d : ℕ) → (h.arenas a).magic ≡ true → (h.arenas a).desc ≡ some d → d < 7
  pub listed : (d b : ℕ) → count b (h.free_lists d) ≢ 0 → IsBlock h d b
  pub once : (d b : ℕ) → count b (h.free_lists d) ≤ 1
  pub counted :
      (a d : ℕ)
      → (h.arenas a).magic ≡ true
      → (h.arenas a).desc ≡ some d
      → (h.arenas a).free_cnt ≡ in_page a (h.free_lists d)

-- A block that was handed out: it stands in no free list.
abbrev pub IsOut : Heap → ℕ → ℕ → Type 0
IsOut h d b = IsBlock h d b × (count b (h.free_lists d) ≡ 0)

-- An arena is aligned and is not NULL.
pub arena_aligned :
    (h : Heap) (a : ℕ) → IsHeap h → (h.arenas a).magic ≡ true → (a % 4096 ≡ 0) × (a ≢ 0)
arena_aligned h a v m =
    let u = v.paged a m in
    (
      InUse-aligned a h.memory v.memory u,
      λ z. omega (arith, u.address, z, v.memory.kernel.not_null),
    )

-- The assertions of block_to_arena hold for a block.
pub block_to_arena_lem :
    (h : Heap) (d b : ℕ) → IsHeap h → IsBlock h d b → block_to_arena b h ≡ some (pg_round_down b)
unfolding block_to_arena
block_to_arena_lem h d b v (magic, desc, lt, (j, jl, e)) =
    let a = pg_round_down b in
    let (al, nz) = arena_aligned h a v magic in
    let fits = blocks_fit d j lt jl in
    let ofs : pg_ofs b ≡ 12 + j * size_of d = omega (arith, e, al, fits, size_real d lt) in
    let inner : (pg_ofs b + (2 ^ 32 - 12)) % 2 ^ 32 ≡ j * size_of d = omega (arith, ofs, fits) in
    let whole : (pg_ofs b + (2 ^ 32 - 12)) % 2 ^ 32 % size_of d ≡ 0 =
      ap (λ x. x % size_of d) inner ∙ mul-mod_left j (size_of d) in
    assert_passes (not (a == 0)) _ (ground (arith, nz))
      (assert_passes (h.arenas a).magic _ magic (rw (desc, whole) refl))

-- A change that keeps the descriptors of the arenas keeps their blocks.
pub kept-IsBlock :
    (h h' : Heap) (d b : ℕ)
    → ((a : ℕ)
        → (h.arenas a).magic ≡ true
        → ((h'.arenas a).magic ≡ true) × ((h'.arenas a).desc ≡ (h.arenas a).desc))
    → IsBlock h d b
    → IsBlock h' d b
kept-IsBlock h h' d b kept (magic, desc, lt, at) =
    let (magic', desc') = kept (pg_round_down b) magic in (magic', desc' ∙ desc, lt, at)
