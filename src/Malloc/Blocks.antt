-- ===== src/Malloc/Blocks.antt =====
-- The blocks of an arena: where they lie, and how often they stand in a list.
use native.Mathlib.Decide.{ℕ_discrete}
use pintos_project.Base.{
  ℕ, zero, suc, ◌+◌, ◌*◌, ◌%◌, ◌≤◌, ◌<◌, ◌≡◌, ◌≢◌, refl, ap, List, [], ◌∷◌, ◌++◌, ◌==◌,
  if◌then◌else◌, count, count-append, arith,
}
use pintos_project.Paging.{pg_round_down}
use pintos_project.Malloc.{desc_at, arena_to_block, blocks}

abbrev pub size_of : ℕ → ℕ
size_of d = (desc_at d).block_size

abbrev pub per_arena : ℕ → ℕ
per_arena d = (desc_at d).blocks_per_arena

-- The blocks fit in the page of their arena.
pub blocks_fit : (d j : ℕ) → d < 7 → j < per_arena d → 12 + j * size_of d + size_of d ≤ 4096
unfolding desc_at
blocks_fit zero j h lt = omega (arith, lt)
blocks_fit (suc zero) j h lt = omega (arith, lt)
blocks_fit (suc (suc zero)) j h lt = omega (arith, lt)
blocks_fit (suc (suc (suc zero))) j h lt = omega (arith, lt)
blocks_fit (suc (suc (suc (suc zero)))) j h lt = omega (arith, lt)
blocks_fit (suc (suc (suc (suc (suc zero))))) j h lt = omega (arith, lt)
blocks_fit (suc (suc (suc (suc (suc (suc zero)))))) j h lt = omega (arith, lt)
blocks_fit (suc (suc (suc (suc (suc (suc (suc d))))))) j h lt = absurd (omega (arith, h))

pub size_real : (d : ℕ) → d < 7 → 16 ≤ size_of d
unfolding desc_at
size_real zero h = omega arith
size_real (suc zero) h = omega arith
size_real (suc (suc zero)) h = omega arith
size_real (suc (suc (suc zero))) h = omega arith
size_real (suc (suc (suc (suc zero)))) h = omega arith
size_real (suc (suc (suc (suc (suc zero))))) h = omega arith
size_real (suc (suc (suc (suc (suc (suc zero)))))) h = omega arith
size_real (suc (suc (suc (suc (suc (suc (suc d))))))) h = absurd (omega (arith, h))

pub per_real : (d : ℕ) → d < 7 → 0 < per_arena d
unfolding desc_at
per_real zero h = omega arith
per_real (suc zero) h = omega arith
per_real (suc (suc zero)) h = omega arith
per_real (suc (suc (suc zero))) h = omega arith
per_real (suc (suc (suc (suc zero)))) h = omega arith
per_real (suc (suc (suc (suc (suc zero))))) h = omega arith
per_real (suc (suc (suc (suc (suc (suc zero)))))) h = omega arith
per_real (suc (suc (suc (suc (suc (suc (suc d))))))) h = absurd (omega (arith, h))

-- The block lies in the page of its arena.
pub page_of_block :
    (d a j : ℕ) → d < 7 → j < per_arena d → a % 4096 ≡ 0 → pg_round_down (arena_to_block d a j) ≡ a
page_of_block d a j h lt al =
    let fits = blocks_fit d j h lt in let pos = size_real d h in omega (arith, fits, pos, al)

-- How many blocks of a list lie in a page.
abbrev pub in_page : ℕ → List ℕ → ℕ
in_page a [] = 0
in_page a (b ∷ bs) = (if pg_round_down b == a then 1 else 0) + in_page a bs

pub in_page-append : (a : ℕ) (xs ys : List ℕ) → in_page a (xs ++ ys) ≡ in_page a xs + in_page a ys
in_page-append a [] ys = omega arith
in_page-append a (x ∷ xs) ys = omega (arith, in_page-append a xs ys)

pub in_page-blocks :
    (d a c n : ℕ)
    → d < 7
    → n ≤ per_arena d
    → a % 4096 ≡ 0
    → in_page c (blocks d a n) ≡ (if a == c then n else 0)
in_page-blocks d a c zero h le al = ground arith
in_page-blocks d a c (suc n) h le al = ground (
  arith,
  in_page-append c (blocks d a n) (arena_to_block d a n ∷ []),
  in_page-blocks d a c n h (omega (arith, le)) al,
  page_of_block d a n h (omega (arith, le)) al,
)

-- The blocks of an arena are in the order of their addresses, so each of them stands there once.
blocks_below : (d a n b : ℕ) → d < 7 → count b (blocks d a n) ≢ 0 → b < arena_to_block d a n
blocks_below d a zero b h ne = absurd (ne refl)
blocks_below d a (suc n) b h ne =
    let step : arena_to_block d a (suc n) ≡ arena_to_block d a n + size_of d = omega arith in
    ground (
      arith,
      step,
      size_real d h,
      ne,
      count-append b (blocks d a n) (arena_to_block d a n ∷ []),
      blocks_below d a n b h,
    )

pub blocks_once : (d a n b : ℕ) → d < 7 → count b (blocks d a n) ≤ 1
blocks_once d a zero b h = omega arith
blocks_once d a (suc n) b h = ground (
  arith,
  count-append b (blocks d a n) (arena_to_block d a n ∷ []),
  blocks_once d a n b h,
  blocks_below d a n b h,
)

-- A block of the list is one of them.
pub block_listed :
    (d a n b : ℕ) → count b (blocks d a n) ≢ 0 → (j : ℕ) × (j < n) × (b ≡ arena_to_block d a j)
block_listed d a zero b ne = absurd (ne refl)
block_listed d a (suc n) b ne = elim (ℕ_discrete b (arena_to_block d a n)) [
  | yes e ↦ (n, omega arith, e)
  | no other ↦
      let (j, lt, e) =
        block_listed d a n b
          (ground (arith, ne, other, count-append b (blocks d a n) (arena_to_block d a n ∷ []))) in
      (j, omega (arith, lt), e)
]

pub count-blocks : (d a n j : ℕ) → j < n → count (arena_to_block d a j) (blocks d a n) ≢ 0
count-blocks d a zero j lt = absurd (omega (arith, lt))
count-blocks d a (suc n) j lt =
    let last = count-append (arena_to_block d a j) (blocks d a n) (arena_to_block d a n ∷ []) in
    elim (ℕ_discrete j n) [
      | yes e ↦ ground (arith, last, ap (arena_to_block d a) e)
      | no other ↦ ground (arith, last, count-blocks d a n j (omega (arith, lt, other)))
    ]
