-- ===== src/Malloc/Answers.antt =====
-- malloc answers a request with a block of a descriptor, or with NULL.
use pintos_project.Base.{
  subst, ℕ, ◌≤◌, ◌<◌, ◌≡◌, ◌≢◌, refl, sym, ap, ◌∙◌, ◌⊎◌, inl, inr, false, Option, some, List, [],
  ◌∷◌, ◌==◌, arith, some->>=, if_false,
}
use pintos_project.Palloc.{palloc_get_page}
use pintos_project.Palloc.Pages.{palloc_get_multiple_lem}
use pintos_project.Threads.Kernel.Invariant.{List-cases}
use pintos_project.Malloc.{
  Heap, desc_at, take_block, malloc_small, fill_and_take, malloc, descs, find_desc,
}
use pintos_project.Malloc.Blocks.{size_of}
use pintos_project.Malloc.Heaps.{IsHeap, IsBlock, IsOut}
use pintos_project.Malloc.Taking.{HasTaken, taken, front, take_block_lem}
use pintos_project.Malloc.Filling.{filled, filled-IsHeap, filled-still, some_block}

-- What malloc of a block of the descriptor `d` does: it returns NULL, and every block that was out still
-- is, or it returns a block.
abbrev pub IsAnswered : ℕ → Heap → Option (ℕ × Heap) → Type 0
IsAnswered d h r =
    ((h' : Heap) × (r ≡ some (0, h')) × IsHeap h' × ((e c : ℕ) → IsOut h e c → IsOut h' e c))
    ⊎ ((b : ℕ) × (h' : Heap) × (r ≡ some (b, h')) × (b ≢ 0) × HasTaken d b h h')

block_real : (h : Heap) (d b : ℕ) → IsBlock h d b → b ≢ 0
block_real h d b (m, ds, lt, (j, jl, at)) z = omega (arith, at, z)

small_empty : (d : ℕ) (h : Heap) → h.free_lists d ≡ [] → malloc_small d h ≡ fill_and_take d h
unfolding malloc_small
small_empty d h e =
    ap
      (λ l. elim l as (λ _. Option (ℕ × Heap)) [ [] ↦ fill_and_take d h | b ∷ bs ↦ take_block d h ])
      e

small_listed :
    (d b : ℕ) (bs : List ℕ) (h : Heap) → h.free_lists d ≡ b ∷ bs → malloc_small d h ≡ take_block d h
unfolding malloc_small
small_listed d b bs h e = rw (e, malloc_small)

fill_and_take_lem :
    (d : ℕ) (h : Heap) → d < 7 → IsHeap h → h.free_lists d ≡ [] → IsAnswered d h (fill_and_take d h)
unfolding fill_and_take palloc_get_page filled
fill_and_take_lem d h lt v e =
    elim (palloc_get_multiple_lem false false false 1 h.memory v.memory (omega arith)) [
      | inr (none_free, p) ↦
          inl (h, some->>= (palloc_get_page false false false h.memory) _ p refl, v, λ e' c o. o)
      | inl (a, m1, i, p, nz, g) ↦
          let full = filled d a i m1 h v lt g e in
          let (b, bs, q) = some_block d a i m1 h v lt g e in
          let w = filled-IsHeap d a i m1 h v lt g e in
          let (t, tl) = take_block_lem d b bs full w q in
          let still = filled-still d a i m1 h v lt g e in
          inr (
            b,
            taken d b bs full,
            some->>= (palloc_get_page false false false h.memory) _ p
                (if_false (a == 0) _ _ (ground (arith, nz)) ∙ t),
            block_real full d b (front d b bs full w q),
            record {
              heap = tl.heap;
              is_out = tl.is_out;
              not_before = λ e' o. tl.not_before e' (still e' b o);
              still_out = λ e' c o. tl.still_out e' c (still e' c o);
            },
          )
    ]

malloc_small_lem : (d : ℕ) (h : Heap) → d < 7 → IsHeap h → IsAnswered d h (malloc_small d h)
malloc_small_lem d h lt v = elim (List-cases (h.free_lists d)) [
  | inr (b, bs, e) ↦
      let (t, taken_lem) = take_block_lem d b bs h v e in
      inr (
        b,
        taken d b bs h,
        small_listed d b bs h e ∙ t,
        block_real h d b (front d b bs h v e),
        taken_lem,
      )
  | inl e ↦ subst (IsAnswered d h) (sym (small_empty d h e)) (fill_and_take_lem d h lt v e)
]

-- The smallest descriptor that satisfies a request.
find_desc_lem :
    (size : ℕ)
    → (find_desc descs size 0 ≡ 7) × (1024 < size)
      ⊎ (find_desc descs size 0 < 7) × (size ≤ size_of (find_desc descs size 0))
unfolding desc_at
find_desc_lem size = ground arith

-- malloc of a size that is not 0, and is at most 1024, on a heap in order: it passes all assertions and
-- keeps the heap in order. It returns NULL, and every block that was out still is, or a block of a descriptor
-- whose blocks have at least that size: the block was not out before, and is out now with those that were.
pub malloc_lem :
    (size : ℕ) (h : Heap)
    → IsHeap h
    → 0 < size
    → size ≤ 1024
    → (d : ℕ) × (size ≤ size_of d) × IsAnswered d h (malloc size h)
unfolding malloc
malloc_lem size h v pos le = elim (find_desc_lem size) [
  | inl (e, lt) ↦ absurd (omega (arith, le, lt))
  | inr (lt, fits) ↦
      let d = find_desc descs size 0 in
      (
        d,
        fits,
        subst (IsAnswered d h)
            (sym (
              if_false (size == 0) _ _ (ground (arith, pos))
              ∙ if_false (d == 7) _ _ (ground (arith, lt))))
            (malloc_small_lem d h lt v),
      )
]
