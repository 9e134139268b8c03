-- ===== src/Malloc/Counts.antt =====
-- The blocks of an arena counted in a free list, from the arena's side and from the list's.
use native.Mathlib.Decide.{ℕ_discrete}
use pintos_project.Base.{
  ℕ, zero, suc, ◌+◌, ◌-◌, ◌%◌, ◌≤◌, ◌<◌, ◌≡◌, ◌≢◌, refl, sym, ap, ◌∙◌, List, [], ◌∷◌, ◌==◌,
  if◌then◌else◌, count, count-append, erase, arith,
}
use pintos_project.Paging.{pg_round_down}
use pintos_project.Malloc.{arena_to_block, blocks, unlink_all}
use pintos_project.Malloc.Blocks.{
  per_arena, in_page, blocks_once, block_listed, count-blocks, page_of_block,
}

-- An address that is a block of the arena, if it lies in its page.
abbrev pub FitsArena : ℕ → ℕ → ℕ → Type 0
FitsArena d a x = pg_round_down x ≡ a → (j : ℕ) × (j < per_arena d) × (x ≡ arena_to_block d a j)

pub count-blocks_page :
    (d a x : ℕ)
    → d < 7
    → a % 4096 ≡ 0
    → FitsArena d a x
    → count x (blocks d a (per_arena d)) ≡ (if pg_round_down x == a then 1 else 0)
count-blocks_page d a x h al f = elim (ℕ_discrete (pg_round_down x) a) [
  | yes p ↦
      let (j, lt, e) = f p in
      let at : count x (blocks d a (per_arena d)) ≢ 0 = λ z.
        count-blocks d a (per_arena d) j lt
          (ap (λ y. count y (blocks d a (per_arena d))) (sym e) ∙ z) in
      ground (arith, p, at, blocks_once d a (per_arena d) x h)
  | no p ↦ elim (ℕ_discrete (count x (blocks d a (per_arena d))) 0) [
    | yes z ↦ ground (arith, p, z)
    | no ne ↦
        let (j, lt, e) = block_listed d a (per_arena d) x ne in
        absurd (p (ap pg_round_down e ∙ page_of_block d a j h lt al))
  ]
]

-- How often the first `n` blocks stand in a list.
abbrev sum : ℕ → ℕ → ℕ → List ℕ → ℕ
sum d a zero l = 0
sum d a (suc n) l = sum d a n l + count (arena_to_block d a n) l

sum_nil : (d a n : ℕ) → sum d a n [] ≡ 0
sum_nil d a zero = refl
sum_nil d a (suc n) = omega (arith, sum_nil d a n)

sum_cons : (d a n x : ℕ) (l : List ℕ) → sum d a n (x ∷ l) ≡ sum d a n l + count x (blocks d a n)
sum_cons d a zero x l = refl
sum_cons d a (suc n) x l =
    ground (arith, sum_cons d a n x l, count-append x (blocks d a n) (arena_to_block d a n ∷ []))

sum_le : (d a n : ℕ) (l : List ℕ) → ((x : ℕ) → count x l ≤ 1) → sum d a n l ≤ n
sum_le d a zero l once = omega arith
sum_le d a (suc n) l once = omega (arith, sum_le d a n l once, once (arena_to_block d a n))

sum_lt :
    (d a n j : ℕ) (l : List ℕ)
    → ((x : ℕ) → count x l ≤ 1)
    → j < n
    → count (arena_to_block d a j) l ≡ 0
    → sum d a n l < n
sum_lt d a zero j l once lt z = absurd (omega (arith, lt))
sum_lt d a (suc n) j l once lt z = elim (ℕ_discrete j n) [
  | yes e ↦ omega (arith, sum_le d a n l once, z, ap (λ i. count (arena_to_block d a i) l) e)
  | no ne ↦
      omega (arith, once (arena_to_block d a n), sum_lt d a n j l once (omega (arith, lt, ne)) z)
]

sum-in_page :
    (d a : ℕ) (l : List ℕ)
    → d < 7
    → a % 4096 ≡ 0
    → ((x : ℕ) → count x l ≢ 0 → FitsArena d a x)
    → sum d a (per_arena d) l ≡ in_page a l
sum-in_page d a [] h al f = sum_nil d a (per_arena d)
sum-in_page d a (x ∷ l) h al f = ground (
  arith,
  sum_cons d a (per_arena d) x l,
  count-blocks_page d a x h al (f x (ground arith)),
  sum-in_page d a l h al (λ y ne. f y (ground (arith, ne))),
)

-- An arena has no more blocks in the list than it has blocks, and fewer if one of them does not stand there.
pub in_page_le :
    (d a : ℕ) (l : List ℕ)
    → d < 7
    → a % 4096 ≡ 0
    → ((x : ℕ) → count x l ≢ 0 → FitsArena d a x)
    → ((x : ℕ) → count x l ≤ 1)
    → in_page a l ≤ per_arena d
in_page_le d a l h al f once =
    omega (arith, sum-in_page d a l h al f, sum_le d a (per_arena d) l once)

pub in_page_lt :
    (d a j : ℕ) (l : List ℕ)
    → d < 7
    → a % 4096 ≡ 0
    → ((x : ℕ) → count x l ≢ 0 → FitsArena d a x)
    → ((x : ℕ) → count x l ≤ 1)
    → j < per_arena d
    → count (arena_to_block d a j) l ≡ 0
    → in_page a l < per_arena d
in_page_lt d a j l h al f once lt z =
    omega (arith, sum-in_page d a l h al f, sum_lt d a (per_arena d) j l once lt z)

-- The list without the blocks of an arena.
count-erase_any :
    (x y : ℕ) (l : List ℕ) → count x (erase y l) ≡ count x l - (if y == x then 1 else 0)
count-erase_any x y [] = ground arith
count-erase_any x y (z ∷ l) = ground (arith, count-erase_any x y l)

pub count-unlink_all : (x : ℕ) (bs l : List ℕ) → count x (unlink_all bs l) ≡ count x l - count x bs
count-unlink_all x [] l = omega arith
count-unlink_all x (b ∷ bs) l =
    ground (arith, count-unlink_all x bs (erase b l), count-erase_any x b l)

in_page-erase : (p y : ℕ) (l : List ℕ) → pg_round_down y ≢ p → in_page p (erase y l) ≡ in_page p l
in_page-erase p y [] ne = refl
in_page-erase p y (z ∷ l) ne = elim (ℕ_discrete z y) [
  | yes e ↦ ground (arith, e, ne)
  | no other ↦ ground (arith, other, in_page-erase p y l ne)
]

pub in_page-unlink_all :
    (p : ℕ) (bs l : List ℕ)
    → ((x : ℕ) → count x bs ≢ 0 → pg_round_down x ≢ p)
    → in_page p (unlink_all bs l) ≡ in_page p l
in_page-unlink_all p [] l ne = refl
in_page-unlink_all p (b ∷ bs) l ne =
    in_page-unlink_all p bs (erase b l) (λ x c. ne x (ground (arith, c)))
    ∙ in_page-erase p b l (ne b (ground arith))
