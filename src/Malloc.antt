-- ===== src/Malloc.antt =====
-- threads/malloc.c: the heap, blocks of seven sizes in pages of the page allocator.
-- A descriptor is its index in `descs`, and its free list the addresses of its free blocks, front first. The
-- header of an arena stands beside the bytes of the memory, under the address of the arena; it is gone when
-- the page is given back, which fills it with 0xcc. The locks of the descriptors are left out: one thread
-- at a time is inside. An ASSERT that fails is `none`.
pub mod Blocks
pub mod Heaps
pub mod Counts
pub mod Pages
pub mod Taking
pub mod Filling
pub mod Answers
pub mod Giving
mod Tests
use pintos_project.Base.{
  ℕ, zero, suc, ◌+◌, ◌-◌, ◌*◌, ◌/◌, ◌%◌, ◌^◌, Bool, true, false, not, ◌&&◌, ◌||◌, Option, none,
  some, List, [], ◌∷◌, ◌++◌, ◌==◌, ltb, leb, if◌then◌else◌, update, erase, length, get_or, ◌>>=◌,
  ◌>>◌, assert,
}
use pintos_project.Palloc.{
  Memory, memset, pg_size, palloc_get_page, palloc_get_multiple, palloc_free_page,
  palloc_free_multiple,
}
use pintos_project.Inode.{memcpy}
use pintos_project.Paging.{pg_ofs, pg_round_down}

-- struct desc, without its list and its lock
pub record Desc : Type 0 where
  pub block_size : ℕ
  pub blocks_per_arena : ℕ

-- struct arena: whether `magic` is ARENA_MAGIC, the descriptor, NULL for a big block, and the count.
pub record Arena : Type 0 where
  pub magic : Bool
  pub desc : Option ℕ
  pub free_cnt : ℕ

pub record Heap : Type 0 where
  pub memory : Memory
  pub arenas : ℕ → Arena
  pub free_lists : ℕ → List ℕ

-- sizeof (struct arena)
abbrev pub arena_size : ℕ
arena_size = 12

-- The loop of malloc_init, which makes `n` descriptors at most.
abbrev pub descs_from : ℕ → ℕ → List Desc
descs_from zero block_size = []
descs_from (suc n) block_size =
    let rest = descs_from n (block_size * 2) in
    if ltb block_size (pg_size / 2)
    then record { block_size = block_size; blocks_per_arena = (pg_size - arena_size) / block_size }
      ∷ rest
    else []

-- descs, as malloc_init () leaves them
abbrev pub descs : List Desc
descs = descs_from 10 16

unfoldable pub desc_at : ℕ → Desc
desc_at d = get_or descs d (record { block_size = 0; blocks_per_arena = 0 })

-- The search of malloc for the smallest descriptor that satisfies a request, from `d` on.
abbrev pub find_desc : List Desc → ℕ → ℕ → ℕ
find_desc [] size d = d
find_desc (x ∷ xs) size d = if leb size x.block_size then d else find_desc xs size (d + 1)

-- block_to_arena (b)
unfoldable pub block_to_arena : ℕ → Heap → Option ℕ
block_to_arena b h =
    let a = pg_round_down b in
    let arena = h.arenas a in
    let aligned : Bool = elim arena.desc [
      | none ↦ pg_ofs b == arena_size
      | some d ↦ (pg_ofs b + (2 ^ 32 - arena_size)) % 2 ^ 32 % (desc_at d).block_size == 0
    ] in
    do assert (not (a == 0)); assert arena.magic; assert aligned; some a

-- arena_to_block (a, idx)
abbrev pub arena_to_block : ℕ → ℕ → ℕ → ℕ
arena_to_block d a idx = a + arena_size + idx * (desc_at d).block_size

-- The first `n` blocks of an arena, in their order.
abbrev pub blocks : ℕ → ℕ → ℕ → List ℕ
blocks d a zero = []
blocks d a (suc n) = blocks d a n ++ arena_to_block d a n ∷ []

-- A block of more than the largest descriptor's size, in pages of its own.
unfoldable pub malloc_big : ℕ → Heap → Option (ℕ × Heap)
unfolding palloc_get_multiple
malloc_big size h =
    let page_cnt = (size + arena_size + (pg_size - 1)) % 2 ^ 32 / pg_size in
    palloc_get_multiple false false false page_cnt h.memory >>= λ r.
    let h' = record h { memory = r.1 } in
    let big : Arena = record { magic = true; desc = none; free_cnt = page_cnt } in
    if r.0 == 0
    then some (0, h')
    else some (r.0 + arena_size, record h' { arenas = update h.arenas r.0 big })

-- A new arena for the descriptor `d`, and all its blocks at the end of the free list.
abbrev pub new_arena : ℕ → ℕ → Heap → Heap
new_arena d a h =
    let per = (desc_at d).blocks_per_arena in
    record h {
      arenas = update h.arenas a (record { magic = true; desc = some d; free_cnt = per });
      free_lists = update h.free_lists d (h.free_lists d ++ blocks d a per);
    }

-- The block at the front of the free list is handed out.
unfoldable pub take_block : ℕ → Heap → Option (ℕ × Heap)
unfolding block_to_arena
take_block d h = elim (h.free_lists d) [
  | [] ↦ none
  | b ∷ bs ↦ do
    a ← block_to_arena b h
    let arena = h.arenas a
    some (
      b,
      record h {
        arenas = update h.arenas a (record arena { free_cnt = arena.free_cnt - 1 });
        free_lists = update h.free_lists d bs;
      },
    )
]

-- A block of the descriptor `d`, whose free list is empty: a new arena is made first.
unfoldable pub fill_and_take : ℕ → Heap → Option (ℕ × Heap)
unfolding take_block palloc_get_page
fill_and_take d h = palloc_get_page false false false h.memory >>= λ r.
    let h' = record h { memory = r.1 } in
    let taken = take_block d (new_arena d r.0 h') in if r.0 == 0 then some (0, h') else taken

unfoldable pub malloc_small : ℕ → Heap → Option (ℕ × Heap)
unfolding fill_and_take
malloc_small d h = elim (h.free_lists d) [ [] ↦ fill_and_take d h | b ∷ bs ↦ take_block d h ]

-- malloc (size)
unfoldable pub malloc : ℕ → Heap → Option (ℕ × Heap)
unfolding malloc_big malloc_small
malloc size h =
    let d = find_desc descs size 0 in
    let big = malloc_big size h in
    let small = malloc_small d h in
    if size == 0 then some (0, h) else if d == length descs then big else small

-- calloc (a, b)
unfoldable pub calloc : ℕ → ℕ → Heap → Option (ℕ × Heap)
unfolding malloc
calloc a b h =
    let size = a * b % 2 ^ 32 in
    let made = malloc size h >>= λ r.
    if r.0 == 0 then some r else some (r.0, record r.1 { memory = memset r.0 0 size r.1.memory }) in
    if ltb size a || ltb size b then some (0, h) else made

-- The blocks that `free` unlinks with their arena.
abbrev pub unlink_all : List ℕ → List ℕ → List ℕ
unlink_all [] l = l
unlink_all (b ∷ bs) l = unlink_all bs (erase b l)

-- The end of `free` for a block of the descriptor `d` in the arena `a`: the arena is given back when it is
-- entirely unused.
unfoldable pub free_small : ℕ → ℕ → ℕ → Heap → Option Heap
unfolding palloc_free_page
free_small d a b h =
    let desc = desc_at d in
    let cleared = memset b 0xcc desc.block_size h.memory in
    let list = b ∷ h.free_lists d in
    let cnt = (h.arenas a).free_cnt + 1 in
    let kept : Heap = record {
      memory = cleared;
      arenas = update h.arenas a (record (h.arenas a) { free_cnt = cnt });
      free_lists = update h.free_lists d list;
    } in
    let given : Option Heap = (do
      assert (cnt == desc.blocks_per_arena)
      m ← palloc_free_page a cleared
      some (record {
        memory = m;
        arenas = update h.arenas a (record { magic = false; desc = none; free_cnt = 0 });
        free_lists = update h.free_lists d (unlink_all (blocks d a desc.blocks_per_arena) list);
      })) in
    if leb desc.blocks_per_arena cnt then given else some kept

unfoldable pub free_big : ℕ → Heap → Option Heap
unfolding palloc_free_multiple
free_big a h = palloc_free_multiple a (h.arenas a).free_cnt h.memory >>= λ m. some (record h {
  memory = m;
  arenas = update h.arenas a (record { magic = false; desc = none; free_cnt = 0 });
})

-- free (p)
unfoldable pub free : ℕ → Heap → Option Heap
unfolding block_to_arena free_small free_big
free p h =
    let freed = block_to_arena p h >>= λ a. elim (h.arenas a).desc [
      | none ↦ free_big a h
      | some d ↦ free_small d a p h
    ] in
    if p == 0 then some h else freed

-- block_size (block)
unfoldable pub block_size : ℕ → Heap → Option ℕ
unfolding block_to_arena
block_size b h = block_to_arena b h >>= λ a. elim (h.arenas a).desc [
  | none ↦ some (pg_size * (h.arenas a).free_cnt - pg_ofs b)
  | some d ↦ some (desc_at d).block_size
]

-- memcpy (new_block, old_block, size)
abbrev pub move_bytes : ℕ → ℕ → ℕ → Memory → Memory
move_bytes new_block old_block size m = record m {
  bytes = memcpy m.bytes new_block m.bytes old_block size;
}

-- realloc (old_block, new_size), where the new block is there
unfoldable pub move_block : ℕ → ℕ → ℕ → Heap → Option (ℕ × Heap)
unfolding free block_size
move_block old_block new_block new_size h = do
  old_size ← block_size old_block h
  let min_size = if ltb new_size old_size then new_size else old_size
  h' ← free old_block (record h { memory = move_bytes new_block old_block min_size h.memory })
  some (new_block, h')

-- realloc (old_block, new_size)
unfoldable pub realloc : ℕ → ℕ → Heap → Option (ℕ × Heap)
unfolding malloc free move_block
realloc old_block new_size h =
    let freed = (do h' ← free old_block h; some (0, h')) in
    let resized = (do
      r ← malloc new_size h
      let moved = move_block old_block r.0 new_size r.1
      if not (old_block == 0) && not (r.0 == 0) then moved else some r) in
    if new_size == 0 then freed else resized
