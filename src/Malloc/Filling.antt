-- ===== src/Malloc/Filling.antt =====
-- A new arena, on a page that palloc gives.
use native.Mathlib.Decide.{ℕ_discrete}
use pintos_project.Base.{
  subst, ℕ, ◌+◌, ◌*◌, ◌%◌, ◌<◌, ◌≡◌, ◌≢◌, refl, sym, ap, ◌∙◌, ◌⊎◌, inl, inr, true, false, ◌&&◌,
  some, List, [], ◌∷◌, ◌==◌, if◌then◌else◌, count, count-append, arith,
}
use pintos_project.Palloc.{Memory, pg_size, memset}
use pintos_project.Palloc.Pages.{IsMemory, HasGot}
use pintos_project.Paging.{pg_round_down}
use pintos_project.Paging.Directory.{InUse, fresh-IsMemory, fresh-InUse, old-InUse, fresh_ne}
use pintos_project.Threads.Kernel.Invariant.{List-cases}
use pintos_project.Malloc.{Heap, blocks, new_arena}
use pintos_project.Malloc.Blocks.{
  per_arena, in_page, in_page-append, in_page-blocks, per_real, blocks_once, block_listed,
  page_of_block,
}
use pintos_project.Malloc.Heaps.{IsHeap, IsBlock, IsOut, kept-IsBlock}

-- A page that palloc gives: `h1` is the heap with its memory.
module _ (d a i : ℕ) (m1 : Memory) (h : Heap) (v : IsHeap h) (lt : d < 7)
    (g : HasGot false false 1 i h.memory a m1) (e : h.free_lists d ≡ []) where
  zeroed : HasGot false true 1 i h.memory a (memset a 0 (pg_size * 1) m1)
  zeroed = record {
    address = g.address;
    inside = g.inside;
    free = g.free;
    first = g.first;
    map = g.map;
    bits = g.bits;
    memory = ap (λ m. memset a 0 (pg_size * 1) m) g.memory;
  }

  m1-IsMemory : IsMemory m1
  m1-IsMemory =
      let z = fresh-IsMemory i a h.memory (memset a 0 (pg_size * 1) m1) v.memory zeroed in
      record { kernel = z.kernel; user = z.user; apart = z.apart }

  in_use : (p : ℕ) → InUse p (memset a 0 (pg_size * 1) m1) → InUse p m1
  in_use p u = record { idx = u.idx; address = u.address; inside = u.inside; used = u.used }

  no_arena : (h.arenas a).magic ≢ true
  no_arena m =
      fresh_ne i a h.memory (memset a 0 (pg_size * 1) m1) v.memory zeroed a (v.paged a m) refl

  a_in_use : InUse a m1
  a_in_use = in_use a (fresh-InUse i a h.memory (memset a 0 (pg_size * 1) m1) v.memory zeroed)

  a_aligned : a % 4096 ≡ 0
  a_aligned = omega (arith, a_in_use.address, m1-IsMemory.kernel.aligned)

  unfoldable pub filled : Heap
  filled = new_arena d a (record h { memory = m1 })

  filled-kept :
      (x : ℕ)
      → (h.arenas x).magic ≡ true
      → ((filled.arenas x).magic ≡ true) × ((filled.arenas x).desc ≡ (h.arenas x).desc)
  unfolding filled
  filled-kept x m = (ground (arith, m, no_arena), ground (arith, m, no_arena))

  count-filled :
      (d' c : ℕ)
      → count c (filled.free_lists d')
        ≡ count c (h.free_lists d') + (if d == d' then count c (blocks d a (per_arena d)) else 0)
  unfolding filled
  count-filled d' c =
      ground
        (arith, ap (λ l. count c l) e, count-append c (h.free_lists d) (blocks d a (per_arena d)))

  new-IsBlock : (c : ℕ) → count c (blocks d a (per_arena d)) ≢ 0 → IsBlock filled d c
  unfolding filled
  new-IsBlock c ne =
      let (j, jl, at) = block_listed d a (per_arena d) c ne in
      let page : pg_round_down c ≡ a = ap pg_round_down at ∙ page_of_block d a j lt jl a_aligned in
      rw page (ground arith, ground arith, lt, (j, jl, at))

  in_page-filled :
      (x d' : ℕ)
      → in_page x (filled.free_lists d')
        ≡ in_page x (h.free_lists d') + (if d == d' && a == x then per_arena d else 0)
  unfolding filled
  in_page-filled x d' = ground (
    arith,
    ap (in_page x) e,
    in_page-append x (h.free_lists d) (blocks d a (per_arena d)),
    in_page-blocks d a x (per_arena d) lt (omega arith) a_aligned,
  )

  -- The arenas are the new one and those before.
  arena-cases :
      (x : ℕ)
      → (filled.arenas x).magic ≡ true
      → (x ≡ a)
        ⊎ ((a ≢ x)
            × ((h.arenas x).magic ≡ true)
            × ((filled.arenas x).desc ≡ (h.arenas x).desc)
            × ((filled.arenas x).free_cnt ≡ (h.arenas x).free_cnt))
  unfolding filled
  arena-cases x m = elim (ℕ_discrete a x) [
    | yes q ↦ inl (sym q)
    | no q ↦ inr (q, ground (arith, m, q), ground (arith, q), ground (arith, q))
  ]

  new_fields : ((filled.arenas a).desc ≡ some d) × ((filled.arenas a).free_cnt ≡ per_arena d)
  unfolding filled
  new_fields = (ground arith, ground arith)

  filled-listed : (d' c : ℕ) → count c (filled.free_lists d') ≢ 0 → IsBlock filled d' c
  filled-listed d' c ne = elim (ℕ_discrete (count c (h.free_lists d')) 0) [
    | no old ↦ kept-IsBlock h filled d' c filled-kept (v.listed d' c old)
    | yes z ↦
        let same : d ≡ d' = ground (arith, ne, z, count-filled d' c) in
        let fresh : count c (blocks d a (per_arena d)) ≢ 0 =
          ground (arith, ne, z, count-filled d' c) in
        subst (λ x. IsBlock filled x c) same (new-IsBlock c fresh)
  ]

  filled_paged : (x : ℕ) → (filled.arenas x).magic ≡ true → InUse x m1
  filled_paged x m = elim (arena-cases x m) [
    | inl q ↦ rw q a_in_use
    | inr (ne, m', ds, fc) ↦
        in_use x
          (old-InUse i a h.memory (memset a 0 (pg_size * 1) m1) v.memory zeroed x (v.paged x m'))
  ]

  pub filled-IsHeap : IsHeap filled
  filled-IsHeap = record {
    memory = unfold filled in m1-IsMemory;
    paged = λ x m. unfold filled in filled_paged x m;
    sized = λ x d' m s. elim (arena-cases x m) [
      | inl q ↦
          (let same : d ≡ d' = cc (s, ap (λ y. (filled.arenas y).desc) q, new_fields.0) in
            omega (arith, lt, same))
      | inr (ne, m', ds, fc) ↦ v.sized x d' m' (sym ds ∙ s)
    ];
    listed = filled-listed;
    once = λ d' c.
        ground (
          arith,
          v.once d' c,
          blocks_once d a (per_arena d) c lt,
          count-filled d' c,
          ap (count c) e,
        );
    counted = λ x d' m s. elim (arena-cases x m) [
      | inl q ↦
          (let same : d ≡ d' = cc (s, ap (λ y. (filled.arenas y).desc) q, new_fields.0) in
            ground (
              arith,
              same,
              q,
              in_page-filled x d',
              new_fields.1,
              ap (λ y. (filled.arenas y).free_cnt) q,
              ap (in_page x) e,
            ))
      | inr (ne, m', ds, fc) ↦
          ground (arith, ne, fc, v.counted x d' m' (sym ds ∙ s), in_page-filled x d')
    ];
  }

  not_new : (e' c : ℕ) → IsBlock h e' c → count c (blocks d a (per_arena d)) ≡ 0
  not_new e' c o = elim (ℕ_discrete (count c (blocks d a (per_arena d))) 0) [
    | yes z ↦ z
    | no ne ↦
        let (j, jl, at) = block_listed d a (per_arena d) c ne in
        let page : pg_round_down c ≡ a =
          ap pg_round_down at ∙ page_of_block d a j lt jl a_aligned in
        absurd (no_arena (subst (λ x. (h.arenas x).magic ≡ true) page o.0))
  ]

  -- No block of the new arena was out, and every block that was out still is.
  pub filled-still : (e' c : ℕ) → IsOut h e' c → IsOut filled e' c
  filled-still e' c o = (
    kept-IsBlock h filled e' c filled-kept o.0,
    ground (arith, o.1, count-filled e' c, not_new e' c o.0),
  )

  -- The new arena has a block.
  pub some_block : (b : ℕ) × (bs : List ℕ) × (filled.free_lists d ≡ b ∷ bs)
  some_block = elim (List-cases (filled.free_lists d)) [
    | inl z ↦ absurd (omega (arith, per_real d lt, in_page_self, ap (in_page a) z))
    | inr (b, bs, q) ↦ (b, bs, q)
  ]
    where
      in_page_self : in_page a (filled.free_lists d) ≡ per_arena d
      in_page_self = ground (arith, in_page-filled a d, ap (in_page a) e)
