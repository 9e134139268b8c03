-- ===== src/LinkedList.antt =====
-- lib/kernel/list.c: the doubly linked lists that the kernel keeps its threads, waiters and alarms in.
-- A `struct list_elem` stands behind an address, 0 is NULL, and `Links` holds the two pointers of each.
-- A `struct list` is the addresses of its head and its tail. `less` stands for the comparison that a
-- caller passes, with its `aux`. An ASSERT that fails is `none`, and so is a walk whose fuel is used up.
pub mod Chain
pub mod Editing
pub mod Removal
pub mod Walking
pub mod Refinement
mod Tests
use pintos_project.Base.{
  ℕ, zero, suc, ◌+◌, Bool, true, false, not, ◌&&◌, ◌||◌, Option, none, some, ◌==◌, if◌then◌else◌,
  update, ◌>>=◌, ◌>>◌, assert,
}

-- struct list_elem, for every address
pub record Links : Type 0 where
  pub prev : ℕ → ℕ
  pub next : ℕ → ℕ

-- struct list: the addresses of its two elements
pub record Ends : Type 0 where
  pub head : ℕ
  pub tail : ℕ

abbrev pub set_prev : ℕ → ℕ → Links → Links
set_prev e v s = record s { prev = update s.prev e v }

abbrev pub set_next : ℕ → ℕ → Links → Links
set_next e v s = record s { next = update s.next e v }

-- is_head (elem), is_interior (elem) and is_tail (elem)
abbrev pub is_head : ℕ → Links → Bool
is_head e s = not (e == 0) && s.prev e == 0 && not (s.next e == 0)

abbrev pub is_interior : ℕ → Links → Bool
is_interior e s = not (e == 0) && not (s.prev e == 0) && not (s.next e == 0)

abbrev pub is_tail : ℕ → Links → Bool
is_tail e s = not (e == 0) && not (s.prev e == 0) && s.next e == 0

-- list_init (list)
unfoldable pub list_init : Ends → Links → Links
list_init l s =
    set_next l.tail 0 (set_prev l.tail l.head (set_next l.head l.tail (set_prev l.head 0 s)))

-- list_begin (list), list_end (list), list_rbegin (list) and list_rend (list)
abbrev pub list_begin : Ends → Links → ℕ
list_begin l s = s.next l.head

abbrev pub list_end : Ends → ℕ
list_end l = l.tail

abbrev pub list_rbegin : Ends → Links → ℕ
list_rbegin l s = s.prev l.tail

abbrev pub list_rend : Ends → ℕ
list_rend l = l.head

-- list_next (elem)
unfoldable pub list_next : ℕ → Links → Option ℕ
list_next e s = assert (is_head e s || is_interior e s) >> some (s.next e)

-- list_prev (elem)
unfoldable pub list_prev : ℕ → Links → Option ℕ
list_prev e s = assert (is_interior e s || is_tail e s) >> some (s.prev e)

-- The writes of list_insert, in their order.
abbrev pub link_before : ℕ → ℕ → Links → Links
link_before before elem s =
    let s1 = set_prev elem (s.prev before) s in
    let s2 = set_next elem before s1 in
    let s3 = set_next (s2.prev before) elem s2 in set_prev before elem s3

-- list_insert (before, elem)
unfoldable pub list_insert : ℕ → ℕ → Links → Option Links
list_insert before elem s = do
  assert (is_interior before s || is_tail before s)
  assert (not (elem == 0))
  some (link_before before elem s)

-- The writes of list_splice, with `last` already moved back to the last element of the range.
abbrev pub move_range : ℕ → ℕ → ℕ → Links → Links
move_range before first last s =
    let s1 = set_next (s.prev first) (s.next last) s in
    let s2 = set_prev (s1.next last) (s1.prev first) s1 in
    let s3 = set_prev first (s2.prev before) s2 in
    let s4 = set_next last before s3 in
    let s5 = set_next (s4.prev before) first s4 in set_prev before last s5

-- list_splice (before, first, last)
unfoldable pub list_splice : ℕ → ℕ → ℕ → Links → Option Links
list_splice before first last s =
    let moved = (do
      last' ← list_prev last s
      assert (is_interior first s)
      assert (is_interior last' s)
      some (move_range before first last' s)) in
    assert (is_interior before s || is_tail before s) >> (if first == last then some s else moved)

-- list_push_front (list, elem)
unfoldable pub list_push_front : Ends → ℕ → Links → Option Links
list_push_front l elem s = list_insert (list_begin l s) elem s

-- list_push_back (list, elem)
unfoldable pub list_push_back : Ends → ℕ → Links → Option Links
list_push_back l elem s = list_insert (list_end l) elem s

-- list_remove (elem), with the element that followed it
unfoldable pub list_remove : ℕ → Links → Option (ℕ × Links)
list_remove elem s =
    let s1 = set_next (s.prev elem) (s.next elem) s in
    let s2 = set_prev (s1.next elem) (s1.prev elem) s1 in
    assert (is_interior elem s) >> some (s2.next elem, s2)

-- list_empty (list)
abbrev pub list_empty : Ends → Links → Bool
list_empty l s = list_begin l s == list_end l

-- list_front (list) and list_back (list)
unfoldable pub list_front : Ends → Links → Option ℕ
list_front l s = assert (not (list_empty l s)) >> some (s.next l.head)

unfoldable pub list_back : Ends → Links → Option ℕ
list_back l s = assert (not (list_empty l s)) >> some (s.prev l.tail)

-- list_pop_front (list) and list_pop_back (list)
unfoldable pub list_pop_front : Ends → Links → Option (ℕ × Links)
list_pop_front l s = do front ← list_front l s; (after, s') ← list_remove front s; some (front, s')

unfoldable pub list_pop_back : Ends → Links → Option (ℕ × Links)
list_pop_back l s = do back ← list_back l s; (after, s') ← list_remove back s; some (back, s')

-- The loop of list_size, from the element `e` on.
unfoldable pub size_from : ℕ → Ends → ℕ → ℕ → Links → Option ℕ
size_from zero l e cnt s = none
size_from (suc n) l e cnt s =
    let rest = list_next e s >>= λ e'. size_from n l e' (cnt + 1) s in
    if e == list_end l then some cnt else rest

-- list_size (list)
unfoldable pub list_size : ℕ → Ends → Links → Option ℕ
list_size fuel l s = size_from fuel l (list_begin l s) 0 s

-- The loop of list_insert_ordered: the element to insert before.
unfoldable pub place_from : (ℕ → ℕ → Bool) → ℕ → Ends → ℕ → ℕ → Links → Option ℕ
place_from less zero l elem e s = none
place_from less (suc n) l elem e s =
    let rest = list_next e s >>= λ e'. place_from less n l elem e' s in
    if e == list_end l || less elem e then some e else rest

-- list_insert_ordered (list, elem, less, aux)
unfoldable pub list_insert_ordered : (ℕ → ℕ → Bool) → ℕ → Ends → ℕ → Links → Option Links
list_insert_ordered less fuel l elem s = do
  assert (not (elem == 0))
  e ← place_from less fuel l elem (list_begin l s) s
  list_insert e elem s

-- The loops of list_max and list_min, with the best element so far.
unfoldable pub max_from : (ℕ → ℕ → Bool) → ℕ → Ends → ℕ → ℕ → Links → Option ℕ
max_from less zero l best e s = none
max_from less (suc n) l best e s =
    let rest = list_next e s >>= λ e'. max_from less n l (if less best e then e else best) e' s in
    if e == list_end l then some best else rest

-- list_max (list, less, aux)
unfoldable pub list_max : (ℕ → ℕ → Bool) → ℕ → Ends → Links → Option ℕ
list_max less fuel l s =
    let first = list_begin l s in
    let search = list_next first s >>= λ e. max_from less fuel l first e s in
    if first == list_end l then some first else search

-- list_min (list, less, aux): list_max with the arguments of `less` in the other order.
unfoldable pub list_min : (ℕ → ℕ → Bool) → ℕ → Ends → Links → Option ℕ
list_min less fuel l s =
    let first = list_begin l s in
    let search = list_next first s >>= λ e. max_from (λ a b. less b a) fuel l first e s in
    if first == list_end l then some first else search
