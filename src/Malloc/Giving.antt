-- ===== src/Malloc/Giving.antt =====
-- free of a block of a descriptor: it goes back to the free list, or its arena to the page allocator.
use native.Mathlib.Decide.{ℕ_discrete}
use pintos_project.Base.{
  subst, ℕ, ◌+◌, ◌-◌, ◌*◌, ◌%◌, ◌≤◌, ◌<◌, ◌≡◌, ◌≢◌, refl, sym, ap, ◌∙◌, inl, inr, true, false, ◌&&◌,
  Option, none, some, List, ◌∷◌, ◌==◌, leb, if◌then◌else◌, update, count, arith, assert_passes,
  some->>=, update_ne, if_true, if_false, Bool-cases,
}
use pintos_project.Bitmap.Bits.{bit_at}
use pintos_project.Bitmap.Ranges.{is_within}
use pintos_project.Palloc.{Memory, pg_size, memset, palloc_free_page, palloc_free_multiple}
use pintos_project.Palloc.Pages.{IsMemory}
use pintos_project.Palloc.Release.{HasFreed, palloc_free_multiple_lem}
use pintos_project.Paging.{pg_round_down}
use pintos_project.Paging.Directory.{InUse}
use pintos_project.Malloc.{
  Heap, arena_to_block, blocks, block_to_arena, free, free_small, free_big, unlink_all,
}
use pintos_project.Malloc.Blocks.{size_of, per_arena, in_page, block_listed, page_of_block}
use pintos_project.Malloc.Counts.{
  FitsArena, count-blocks_page, in_page_le, in_page_lt, count-unlink_all, in_page-unlink_all,
}
use pintos_project.Malloc.Heaps.{
  IsHeap, IsBlock, IsOut, arena_aligned, block_to_arena_lem, kept-IsBlock,
}
use pintos_project.Malloc.Pages.{freed-IsMemory, freed-InUse}

-- What a block that was out, handed to `free`, leaves: every other block that was out still is.
pub record HasGiven (b : ℕ) (h h' : Heap) : Type 0 where
  pub heap : IsHeap h'
  pub not_out : (e : ℕ) → ¬ IsOut h' e b
  pub still_out : (e c : ℕ) → c ≢ b → IsOut h e c → IsOut h' e c

module _ (d b : ℕ) (h : Heap) (v : IsHeap h) (o : IsOut h d b) where
  a : ℕ
  a = pg_round_down b

  -- The memory with the block cleared.
  cleared : Memory
  cleared = memset b 0xcc (size_of d) h.memory

  cleared-IsMemory : IsMemory cleared
  unfolding cleared
  cleared-IsMemory = record {
    kernel = v.memory.kernel;
    user = v.memory.user;
    apart = v.memory.apart;
  }

  cleared-InUse : (p : ℕ) → InUse p h.memory → InUse p cleared
  unfolding cleared
  cleared-InUse p u = record { idx = u.idx; address = u.address; inside = u.inside; used = u.used }

  list : List ℕ
  list = b ∷ h.free_lists d

  list_once : (x : ℕ) → count x list ≤ 1
  unfolding list
  list_once x = ground (arith, v.once d x, o.1)

  list-IsBlock : (x : ℕ) → count x list ≢ 0 → IsBlock h d x
  unfolding list
  list-IsBlock x ne = elim (ℕ_discrete x b) [
    | yes e ↦ rw e o.0
    | no other ↦ v.listed d x (ground (arith, ne, other))
  ]

  count-list : (x : ℕ) → count x list ≡ (if b == x then 1 else 0) + count x (h.free_lists d)
  unfolding list
  count-list x = refl

  fits : (x : ℕ) → count x list ≢ 0 → FitsArena d a x
  fits x ne p =
      let (m, s, lt, (j, jl, at)) = list-IsBlock x ne in
      (j, jl, at ∙ ap (λ y. arena_to_block d y j) p)

  in_page_list : (x : ℕ) → in_page x list ≡ (if a == x then 1 else 0) + in_page x (h.free_lists d)
  unfolding list a
  in_page_list x = refl

  -- The block is put on its free list.
  kept : Heap
  kept = record {
    memory = cleared;
    arenas = update h.arenas a (record (h.arenas a) { free_cnt = (h.arenas a).free_cnt + 1 });
    free_lists = update h.free_lists d list;
  }

  same_fields :
      (x : ℕ)
      → ((kept.arenas x).magic ≡ (h.arenas x).magic) × ((kept.arenas x).desc ≡ (h.arenas x).desc)
  unfolding kept
  same_fields x = (ground arith, ground arith)

  same-IsBlock : (e x : ℕ) → IsBlock h e x → IsBlock kept e x
  same-IsBlock e x = kept-IsBlock h kept e x (λ y m. ((same_fields y).0 ∙ m, (same_fields y).1))

  count-kept :
      (e x : ℕ)
      → count x (kept.free_lists e) ≡ count x (h.free_lists e) + (if d == e && b == x then 1 else 0)
  unfolding kept list
  count-kept e x = ground arith

  cnt-kept : (x : ℕ) → (kept.arenas x).free_cnt ≡ (h.arenas x).free_cnt + (if a == x then 1 else 0)
  unfolding kept
  cnt-kept x = ground arith

  in_page-kept :
      (e x : ℕ)
      → in_page x (kept.free_lists e)
        ≡ in_page x (h.free_lists e) + (if d == e && a == x then 1 else 0)
  unfolding kept
  in_page-kept e x = ground (arith, in_page_list x)

  desc_a : (h.arenas a).desc ≡ some d
  unfolding a
  desc_a = o.0.1

  w_desc : (e : ℕ) → IsOut kept e b → (kept.arenas a).desc ≡ some e
  unfolding a
  w_desc e w = w.0.1

  kept-IsHeap : IsHeap kept
  kept-IsHeap = record {
    memory = unfold kept in cleared-IsMemory;
    paged = λ x m. unfold kept in cleared-InUse x (v.paged x (sym (same_fields x).0 ∙ m));
    sized = λ x e m s. v.sized x e (sym (same_fields x).0 ∙ m) (sym (same_fields x).1 ∙ s);
    listed = λ e x ne. elim (ℕ_discrete (count x (h.free_lists e)) 0) [
      | no old ↦ same-IsBlock e x (v.listed e x old)
      | yes z ↦
          (let p : d ≡ e = ground (arith, ne, z, count-kept e x) in
            let q : b ≡ x = ground (arith, ne, z, count-kept e x) in
            same-IsBlock e x (subst (λ y. IsBlock h y x) p (subst (IsBlock h d) q o.0)))
    ];
    once = λ e x. ground (arith, v.once e x, o.1, count-kept e x);
    counted = λ x e m s.
        (let s' : (h.arenas x).desc ≡ some e = sym (same_fields x).1 ∙ s in
          let same : a ≡ x → d ≡ e = λ p. cc (s', ap (λ y. (h.arenas y).desc) p, desc_a) in
          ground (
            arith,
            v.counted x e (sym (same_fields x).0 ∙ m) s',
            same,
            cnt-kept x,
            in_page-kept e x,
          ));
  }

  kept-HasGiven : HasGiven b h kept
  kept-HasGiven = record {
    heap = kept-IsHeap;
    not_out = λ e w.
        (let p : d ≡ e = cc (sym (same_fields a).1 ∙ w_desc e w, desc_a) in
          ground (arith, w.1, p, count-kept e b));
    still_out = λ e c ne w. (same-IsBlock e c w.0, ground (arith, w.1, ne, count-kept e c));
  }

  keep_lem : leb (per_arena d) ((h.arenas a).free_cnt + 1) ≡ false → free_small d a b h ≡ some kept
  unfolding free_small kept list cleared
  keep_lem f = if_false (leb (per_arena d) ((h.arenas a).free_cnt + 1)) _ _ f

  magic_a : (h.arenas a).magic ≡ true
  unfolding a
  magic_a = o.0.0

  descriptor_lt : d < 7
  descriptor_lt = o.0.2

  a_aligned : a % 4096 ≡ 0
  a_aligned = (arena_aligned h a v magic_a).0

  -- The arena has all its blocks free: it is given back, and `m1` is the memory then.
  module _ (full : per_arena d ≤ (h.arenas a).free_cnt + 1) (i : ℕ) (m1 : Memory)
      (at : a ≡ cleared.kernel_pool.base + pg_size * i) (g : HasFreed false 1 i cleared m1) where
    own : List ℕ
    own = blocks d a (per_arena d)

    given : Heap
    given = record {
      memory = m1;
      arenas = update h.arenas a (record { magic = false; desc = none; free_cnt = 0 });
      free_lists = update h.free_lists d (unlink_all own list);
    }

    cnt_lem : (h.arenas a).free_cnt + 1 ≡ in_page a list
    cnt_lem = ground (arith, v.counted a d magic_a desc_a, in_page_list a)

    all_free : (h.arenas a).free_cnt + 1 ≡ per_arena d
    all_free =
        omega (arith, cnt_lem, full, in_page_le d a list descriptor_lt a_aligned fits list_once)

    count-given :
        (e x : ℕ)
        → count x (given.free_lists e)
          ≡ (if d == e then count x list - count x own else count x (h.free_lists e))
    unfolding given
    count-given e x = ground (arith, count-unlink_all x own list)

    other_fields :
        (x : ℕ) → (given.arenas x).magic ≡ true → (a ≢ x) × ((given.arenas x) ≡ h.arenas x)
    unfolding given
    other_fields x m = elim (ℕ_discrete a x) [
      | yes q ↦ absurd (ground (arith, m, q))
      | no q ↦ (q, update_ne h.arenas a x (record { magic = false; desc = none; free_cnt = 0 }) q)
    ]

    same_desc : (e x : ℕ) → IsBlock h e x → pg_round_down x ≡ a → d ≡ e
    same_desc e x w p =
        let s : (h.arenas a).desc ≡ some e = subst (λ y. (h.arenas y).desc ≡ some e) p w.1 in
        cc (s, desc_a)

    given-listed :
        (e x : ℕ) → count x (given.free_lists e) ≢ 0 → (pg_round_down x ≢ a) × IsBlock h e x
    unfolding own
    given-listed e x ne = elim (ℕ_discrete d e) [
      | yes q ↦
          let at_list : count x list ≢ 0 = ground (arith, ne, q, count-given e x) in
          let gone : count x own ≡ 0 = ground (arith, ne, q, count-given e x, list_once x) in
          (
            (λ p.
                ground (
                  arith,
                  gone,
                  p,
                  count-blocks_page d a x descriptor_lt a_aligned (fits x at_list),
                )),
            subst (λ y. IsBlock h y x) q (list-IsBlock x at_list),
          )
      | no q ↦
          let w = v.listed e x (ground (arith, ne, q, count-given e x)) in
          ((λ p. q (same_desc e x w p)), w)
    ]

    given-IsBlock : (e x : ℕ) → pg_round_down x ≢ a → IsBlock h e x → IsBlock given e x
    unfolding given
    given-IsBlock e x ne w = (ground (arith, ne, w.0), ground (arith, ne, w.1), w.2, w.3)

    own_page : (y : ℕ) → count y own ≢ 0 → pg_round_down y ≡ a
    unfolding own
    own_page y c =
        let (j, jl, at') = block_listed d a (per_arena d) y c in
        ap pg_round_down at' ∙ page_of_block d a j descriptor_lt jl a_aligned

    in_page-given : (e x : ℕ) → a ≢ x → in_page x (given.free_lists e) ≡ in_page x (h.free_lists e)
    unfolding given
    in_page-given e x ne = ground (
      arith,
      ne,
      in_page-unlink_all x own list (λ y c p. ne (sym (own_page y c) ∙ p)),
      in_page_list x,
    )

    given-IsHeap : IsHeap given
    given-IsHeap = record {
      memory = unfold given in freed-IsMemory a i cleared m1 cleared-IsMemory at g;
      paged = λ x m.
          (let (ne, q) = other_fields x m in
            unfold given in
            freed-InUse a i cleared m1 cleared-IsMemory at g x (λ e. ne (sym e))
              (cleared-InUse x (v.paged x (sym (ap (λ y. y.magic) q) ∙ m))));
      sized = λ x e m s.
          v.sized x e (sym (ap (λ y. y.magic) (other_fields x m).1) ∙ m)
            (sym (ap (λ y. y.desc) (other_fields x m).1) ∙ s);
      listed = λ e x ne. given-IsBlock e x (given-listed e x ne).0 (given-listed e x ne).1;
      once = λ e x. ground (arith, v.once e x, list_once x, count-given e x);
      counted = λ x e m s.
          (let (ne, q) = other_fields x m in
            ap (λ y. y.free_cnt) q
            ∙ v.counted x e (sym (ap (λ y. y.magic) q) ∙ m) (sym (ap (λ y. y.desc) q) ∙ s)
            ∙ sym (in_page-given e x ne));
    }

    out_elsewhere : (e c : ℕ) → c ≢ b → IsOut h e c → pg_round_down c ≢ a
    out_elsewhere e c ne (w, z) p =
        let q = same_desc e c w p in
        let (j, jl, at') = (subst (λ y. IsBlock h y c) (sym q) w).3 in
        let here : c ≡ arena_to_block d a j = at' ∙ ap (λ y. arena_to_block d y j) p in
        let out : count c list ≡ 0 = ground (arith, count-list c, z, q, ne) in
        omega (
          arith,
          cnt_lem,
          all_free,
          in_page_lt d a j list descriptor_lt a_aligned fits list_once jl
              (subst (λ y. count y list ≡ 0) here out),
        )

    own_gone : (e : ℕ) → ¬ IsOut given e b
    unfolding a
    own_gone e w = (other_fields (pg_round_down b) w.0.0).0 refl

    given-HasGiven : HasGiven b h given
    given-HasGiven = record {
      heap = given-IsHeap;
      not_out = own_gone;
      still_out = λ e c ne w. (
        given-IsBlock e c (out_elsewhere e c ne w) w.0,
        ground (arith, count-given e c, count-list c, w.1, ne),
      );
    }

    give_lem : palloc_free_page a cleared ≡ some m1 → free_small d a b h ≡ some given
    unfolding free_small given kept own list cleared
    give_lem e =
        if_true (leb (per_arena d) ((h.arenas a).free_cnt + 1)) _ _ (ground (arith, full))
        ∙ assert_passes ((h.arenas a).free_cnt + 1 == per_arena d) _ (ground (arith, all_free))
            (some->>= (palloc_free_page a cleared) _ e refl)

  all_used :
      (u : InUse a cleared) (j : ℕ)
      → is_within u.idx 1 j ≡ true
      → bit_at cleared.kernel_pool.used_map j ≡ true
  all_used u j w =
      let same : j ≡ u.idx = ground (arith, w) in
      ap (λ x. bit_at cleared.kernel_pool.used_map x) same ∙ u.used

  page_freed :
      (u : InUse a cleared) (m1 : Memory)
      → palloc_free_multiple (cleared.kernel_pool.base + pg_size * u.idx) 1 cleared ≡ some m1
      → palloc_free_page a cleared ≡ some m1
  unfolding palloc_free_page
  page_freed u m1 e = ap (λ p. palloc_free_multiple p 1 cleared) u.address ∙ e

  free_small_lem : (h' : Heap) × (free_small d a b h ≡ some h') × HasGiven b h h'
  free_small_lem = elim (Bool-cases (leb (per_arena d) ((h.arenas a).free_cnt + 1))) [
    | inr f ↦ (kept, keep_lem f, kept-HasGiven)
    | inl t ↦
        let u = cleared-InUse a (v.paged a magic_a) in
        let (m1, e, g) =
          palloc_free_multiple_lem false 1 u.idx cleared cleared-IsMemory (omega arith)
            (omega (arith, u.inside)) (all_used u) in
        let full : per_arena d ≤ (h.arenas a).free_cnt + 1 = ground (arith, t) in
        (
          given full u.idx m1 u.address g,
          give_lem full u.idx m1 u.address g (page_freed u m1 e),
          given-HasGiven full u.idx m1 u.address g,
        )
  ]

  free_calls : free b h ≡ free_small d a b h
  unfolding free a
  free_calls =
      let real : (b == 0) ≡ false = (let (j, jl, at) = o.0.3 in ground (arith, at)) in
      if_false (b == 0) _ _ real
      ∙ some->>= (block_to_arena b h) _ (block_to_arena_lem h d b v o.0) (
          ap
            (λ x. elim x as (λ _. Option Heap) [
              | none ↦ free_big a h
              | some y ↦ free_small y a b h
            ])
            desc_a)

  free_block_lem : (h' : Heap) × (free b h ≡ some h') × HasGiven b h h'
  free_block_lem = let (h', e, g) = free_small_lem in (h', free_calls ∙ e, g)

-- free of a block that was handed out for a descriptor, on a heap in order, passes all assertions, those of
-- the page allocator with them where the arena is given back. The heap is in order again, the block is not
-- out any more, and every other block that was out still is.
pub free_lem :
    (d b : ℕ) (h : Heap)
    → IsHeap h
    → IsOut h d b
    → (h' : Heap) × (free b h ≡ some h') × HasGiven b h h'
free_lem d b h v o = free_block_lem d b h v o
