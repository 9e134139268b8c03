-- ===== src/Malloc/Tests.antt =====
-- A heap with one arena, at 0x10000, of the three blocks of 1024 bytes of which the first is out.
use native.Mathlib.Decide.{ℕ_discrete}
use pintos_project.Base.{
  ℕ, ◌≤◌, ◌≡◌, ◌≢◌, ◌==◌, ◌&&◌, refl, true, false, some, none, [], ◌∷◌, if◌then◌else◌, count, subst,
  arith,
}
use pintos_project.Palloc.{Memory}
use pintos_project.Malloc.{Heap, malloc, free, desc_at}
use pintos_project.Malloc.Blocks.{size_of, in_page}
use pintos_project.Malloc.Heaps.{IsHeap, IsBlock}
use pintos_project.Malloc.Answers.{IsAnswered, malloc_lem}
use pintos_project.Malloc.Giving.{HasGiven, free_lem}

abbrev memory : Memory
memory = record {
  kernel_pool = record {
    used_map = record { bit_cnt = 10; bits = λ i j. i == 0 && j == 0 };
    base = 0x10000;
  };
  user_pool = record { used_map = record { bit_cnt = 20; bits = λ i j. false }; base = 0x20000 };
  bytes = λ a. 0;
}

abbrev heap : Heap
heap = record {
  memory = memory;
  arenas = λ a.
      if a == 0x10000
      then record { magic = true; desc = some 6; free_cnt = 2 }
      else record { magic = false; desc = none; free_cnt = 0 };
  free_lists = λ d. if d == 6 then 0x1040c ∷ 0x1080c ∷ [] else [];
}

first-IsBlock : IsBlock heap 6 0x1000c
unfolding desc_at
first-IsBlock = (refl, refl, omega arith, (0, omega arith, refl))

second-IsBlock : IsBlock heap 6 0x1040c
unfolding desc_at
second-IsBlock = (refl, refl, omega arith, (1, omega arith, refl))

third-IsBlock : IsBlock heap 6 0x1080c
unfolding desc_at
third-IsBlock = (refl, refl, omega arith, (2, omega arith, refl))

listed-IsBlock : (d b : ℕ) → count b (heap.free_lists d) ≢ 0 → IsBlock heap d b
listed-IsBlock d b ne =
    let is_six : 6 ≡ d = ground (arith, ne) in
    elim (ℕ_discrete 0x1040c b) [
      | yes e ↦ subst (λ x. IsBlock heap x b) is_six (subst (IsBlock heap 6) e second-IsBlock)
      | no other ↦
          let e : 0x1080c ≡ b = ground (arith, ne, other) in
          subst (λ x. IsBlock heap x b) is_six (subst (IsBlock heap 6) e third-IsBlock)
    ]

counted_blocks :
    (a d : ℕ)
    → (heap.arenas a).magic ≡ true
    → (heap.arenas a).desc ≡ some d
    → (heap.arenas a).free_cnt ≡ in_page a (heap.free_lists d)
counted_blocks a d m s =
    let at : 0x10000 ≡ a = ground (arith, m) in
    let is_six : 6 ≡ d = ground (arith, m, s) in
    subst (λ x. (heap.arenas x).free_cnt ≡ in_page x (heap.free_lists d)) at
      (subst (λ x. 2 ≡ in_page 0x10000 (heap.free_lists x)) is_six refl)

heap-IsHeap : IsHeap heap
heap-IsHeap = record {
  memory = record {
    kernel = record { aligned = refl; not_null = omega arith; fits = omega arith };
    user = record { aligned = refl; not_null = omega arith; fits = omega arith };
    apart = omega arith;
  };
  paged = λ a m. record { idx = 0; address = ground (arith, m); inside = omega arith; used = refl };
  sized = λ a d m s. ground (arith, m, s);
  listed = listed-IsBlock;
  once = λ d b. ground arith;
  counted = counted_blocks;
}

malloc_example : (d : ℕ) × (600 ≤ size_of d) × IsAnswered d heap (malloc 600 heap)
malloc_example = malloc_lem 600 heap heap-IsHeap (omega arith) (omega arith)

-- The arena is given back.
give_back_example : (h' : Heap) × (free 0x1000c heap ≡ some h') × HasGiven 0x1000c heap h'
give_back_example = free_lem 6 0x1000c heap heap-IsHeap (first-IsBlock, refl)
