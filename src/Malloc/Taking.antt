-- ===== src/Malloc/Taking.antt =====
-- malloc of a block from the free list of a descriptor.
use pintos_project.Base.{
  ℕ, ◌+◌, ◌-◌, ◌≡◌, refl, ap, true, ◌&&◌, some, List, ◌∷◌, ◌==◌, if◌then◌else◌, update, count,
  arith, some->>=,
}
use pintos_project.Paging.{pg_round_down}
use pintos_project.Malloc.{Heap, block_to_arena, take_block}
use pintos_project.Malloc.Blocks.{in_page}
use pintos_project.Malloc.Heaps.{IsHeap, IsBlock, IsOut, block_to_arena_lem, kept-IsBlock}

-- What malloc does for a descriptor where it returns a block: the block is one of the descriptor and was not
-- out before; it is out now, and so is every block that was.
pub record HasTaken (d b : ℕ) (h h' : Heap) : Type 0 where
  pub heap : IsHeap h'
  pub is_out : IsOut h' d b
  pub not_before : (e : ℕ) → ¬ IsOut h e b
  pub still_out : (e c : ℕ) → IsOut h e c → IsOut h' e c

unfoldable pub taken : ℕ → ℕ → List ℕ → Heap → Heap
taken d b bs h =
    let a = pg_round_down b in
    record h {
      arenas = update h.arenas a (record (h.arenas a) { free_cnt = (h.arenas a).free_cnt - 1 });
      free_lists = update h.free_lists d bs;
    }

module _ (d b : ℕ) (bs : List ℕ) (h : Heap) (v : IsHeap h) (e : h.free_lists d ≡ b ∷ bs) where
  pub front : IsBlock h d b
  front = v.listed d b (ground (arith, ap (count b) e))

  kept :
      (a : ℕ)
      → (h.arenas a).magic ≡ true
      → (((taken d b bs h).arenas a).magic ≡ true)
        × (((taken d b bs h).arenas a).desc ≡ (h.arenas a).desc)
  unfolding taken
  kept a m = (ground (arith, m), ground arith)

  count-taken :
      (d' c : ℕ)
      → count c ((taken d b bs h).free_lists d') + (if d == d' && b == c then 1 else 0)
        ≡ count c (h.free_lists d')
  unfolding taken
  count-taken d' c = ground (arith, ap (count c) e)

  taken-IsHeap : IsHeap (taken d b bs h)
  unfolding taken
  taken-IsHeap = record {
    memory = v.memory;
    paged = λ a m. v.paged a (ground (arith, m));
    sized = λ a d' m s. v.sized a d' (ground (arith, m)) (ground (arith, s));
    listed = λ d' c ne.
        kept-IsBlock h (taken d b bs h) d' c kept
          (v.listed d' c (ground (arith, ne, count-taken d' c)));
    once = λ d' c. ground (arith, v.once d' c, count-taken d' c);
    counted = λ a d' m s.
        (let m' : (h.arenas a).magic ≡ true = ground (arith, m) in
          let s' : (h.arenas a).desc ≡ some d' = ground (arith, s) in
          let same : pg_round_down b ≡ a → d ≡ d' =
            λ p. cc (s', ap (λ x. (h.arenas x).desc) p, front.1) in
          ground (arith, v.counted a d' m' s', same, ap (in_page a) e));
  }

  pub take_block_lem : (take_block d h ≡ some (b, taken d b bs h)) × HasTaken d b h (taken d b bs h)
  unfolding take_block taken
  take_block_lem = (
    rw (e, take_block) (some->>= (block_to_arena b h) _ (block_to_arena_lem h d b v front) refl),
    record {
      heap = taken-IsHeap;
      is_out = (
        kept-IsBlock h (taken d b bs h) d b kept front,
        ground (arith, v.once d b, count-taken d b),
      );
      not_before = λ d' o.
          (let same : d ≡ d' = cc (o.0.1, front.1) in ground (arith, o.1, same, ap (count b) e));
      still_out = λ d' c o.
          (kept-IsBlock h (taken d b bs h) d' c kept o.0, ground (arith, o.1, count-taken d' c));
    },
  )
