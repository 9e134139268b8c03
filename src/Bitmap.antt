-- ===== src/Bitmap.antt =====
-- lib/kernel/bitmap.c: the array of bits behind the free map of the file system and the page pools.
-- An element is the function from a bit's number to the bit, 32 of them in an `unsigned long`, and
-- the operators `|`, `&`, `^` and `~` act bit by bit. A bitmap is not NULL and its element array is
-- as long as bitmap_create makes it; its allocation is not modelled. A `size_t` sum wraps at 32 bits.
-- An ASSERT that fails is `none`.
pub mod Bits
pub mod Ranges
pub mod Search
use pintos_project.Base.{
  ℕ, zero, suc, ◌+◌, ◌-◌, ◌/◌, ◌%◌, ◌^◌, Bool, true, false, not, ◌&&◌, ◌||◌, Option, some, ◌==◌,
  ltb, leb, if◌then◌else◌, update, ◌>>=◌, ◌>>◌, assert,
}

-- ELEM_BITS
abbrev pub elem_bits : ℕ
elem_bits = 32

-- elem_type
abbrev pub Elem : Type 0
Elem = ℕ → Bool

-- struct bitmap
pub record Bitmap : Type 0 where
  pub bit_cnt : ℕ
  pub bits : ℕ → Elem

-- elem_idx (bit_idx)
abbrev pub elem_idx : ℕ → ℕ
elem_idx bit_idx = bit_idx / elem_bits

-- bit_mask (bit_idx)
abbrev pub bit_mask : ℕ → Elem
bit_mask bit_idx j = j == bit_idx % elem_bits

abbrev pub bool_xor : Bool → Bool → Bool
bool_xor true b = not b
bool_xor false b = b

-- A bit below `n` of the element is set.
pub any_below : ℕ → Elem → Bool
any_below zero e = false
any_below (suc n) e = e n || any_below n e

-- An element is not 0.
abbrev pub is_nonzero : Elem → Bool
is_nonzero e = any_below elem_bits e

abbrev pub set_elem : Bitmap → ℕ → Elem → Bitmap
set_elem b i e = record b { bits = update b.bits i e }

-- bitmap_mark (b, bit_idx)
pub bitmap_mark : Bitmap → ℕ → Bitmap
bitmap_mark b bit_idx =
    let idx = elem_idx bit_idx in
    let mask = bit_mask bit_idx in set_elem b idx (λ j. b.bits idx j || mask j)

-- bitmap_reset (b, bit_idx)
pub bitmap_reset : Bitmap → ℕ → Bitmap
bitmap_reset b bit_idx =
    let idx = elem_idx bit_idx in
    let mask = bit_mask bit_idx in set_elem b idx (λ j. b.bits idx j && not (mask j))

-- bitmap_flip (b, bit_idx)
pub bitmap_flip : Bitmap → ℕ → Bitmap
bitmap_flip b bit_idx =
    let idx = elem_idx bit_idx in
    let mask = bit_mask bit_idx in set_elem b idx (λ j. bool_xor (b.bits idx j) (mask j))

-- bitmap_set (b, idx, value)
pub bitmap_set : Bitmap → ℕ → Bool → Option Bitmap
unfolding bitmap_mark bitmap_reset
bitmap_set b idx value =
    assert (ltb idx b.bit_cnt) >> some (if value then bitmap_mark b idx else bitmap_reset b idx)

-- bitmap_test (b, idx)
pub bitmap_test : Bitmap → ℕ → Option Bool
unfolding any_below
bitmap_test b idx =
    assert (ltb idx b.bit_cnt) >> some (is_nonzero (λ j. b.bits (elem_idx idx) j && bit_mask idx j))

-- The assertions on a range.
abbrev pub in_range : Bitmap → ℕ → ℕ → Bool
in_range b start cnt = leb start b.bit_cnt && leb ((start + cnt) % 2 ^ 32) b.bit_cnt

-- The loop of bitmap_set_multiple, from bit `i` on.
pub set_from : Bitmap → ℕ → ℕ → Bool → Option Bitmap
set_from b i zero value = some b
set_from b i (suc n) value = do b' ← bitmap_set b i value; set_from b' (i + 1) n value

-- bitmap_set_multiple (b, start, cnt, value)
pub bitmap_set_multiple : Bitmap → ℕ → ℕ → Bool → Option Bitmap
unfolding set_from
bitmap_set_multiple b start cnt value = assert (in_range b start cnt) >> set_from b start cnt value

-- bitmap_set_all (b, value)
unfoldable pub bitmap_set_all : Bitmap → Bool → Option Bitmap
unfolding bitmap_set_multiple
bitmap_set_all b value = bitmap_set_multiple b 0 b.bit_cnt value

-- The loop of bitmap_count.
pub count_from : Bitmap → ℕ → ℕ → Bool → Option ℕ
count_from b i zero value = some 0
count_from b i (suc n) value = do
  bit ← bitmap_test b i
  rest ← count_from b (i + 1) n value
  some ((if bool_xor bit value then 0 else 1) + rest)

-- bitmap_count (b, start, cnt, value)
pub bitmap_count : Bitmap → ℕ → ℕ → Bool → Option ℕ
unfolding count_from
bitmap_count b start cnt value = assert (in_range b start cnt) >> count_from b start cnt value

-- The loop of bitmap_contains.
pub contains_from : Bitmap → ℕ → ℕ → Bool → Option Bool
contains_from b i zero value = some false
contains_from b i (suc n) value =
    let rest = contains_from b (i + 1) n value in
    do bit ← bitmap_test b i; if bool_xor bit value then rest else some true

-- bitmap_contains (b, start, cnt, value)
pub bitmap_contains : Bitmap → ℕ → ℕ → Bool → Option Bool
unfolding contains_from
bitmap_contains b start cnt value = assert (in_range b start cnt) >> contains_from b start cnt value

-- bitmap_any, bitmap_none and bitmap_all
pub bitmap_any : Bitmap → ℕ → ℕ → Option Bool
unfolding bitmap_contains
bitmap_any b start cnt = bitmap_contains b start cnt true

pub bitmap_none : Bitmap → ℕ → ℕ → Option Bool
unfolding bitmap_contains
bitmap_none b start cnt = bitmap_contains b start cnt true >>= λ c. some (not c)

unfoldable pub bitmap_all : Bitmap → ℕ → ℕ → Option Bool
unfolding bitmap_contains
bitmap_all b start cnt = bitmap_contains b start cnt false >>= λ c. some (not c)

-- BITMAP_ERROR
abbrev pub bitmap_error : ℕ
bitmap_error = 2 ^ 32 - 1

-- The loop of bitmap_scan, with `n` starts left to try from `i` on.
pub scan_from : Bitmap → ℕ → ℕ → ℕ → Bool → Option ℕ
scan_from b i zero cnt value = some bitmap_error
scan_from b i (suc n) cnt value =
    let rest = scan_from b (i + 1) n cnt value in
    do other ← bitmap_contains b i cnt (not value); if other then rest else some i

-- bitmap_scan (b, start, cnt, value): the starts to try are those up to `last`.
pub bitmap_scan : Bitmap → ℕ → ℕ → Bool → Option ℕ
unfolding scan_from
bitmap_scan b start cnt value =
    let last = b.bit_cnt - cnt in
    do
      assert (leb start b.bit_cnt)
      if leb cnt b.bit_cnt
          then scan_from b start (last + 1 - start) cnt value
          else some bitmap_error

-- bitmap_scan_and_flip (b, start, cnt, value)
pub bitmap_scan_and_flip : Bitmap → ℕ → ℕ → Bool → Option (ℕ × Bitmap)
unfolding bitmap_scan bitmap_set_multiple
bitmap_scan_and_flip b start cnt value = do
  idx ← bitmap_scan b start cnt value
  b' ← (if idx == bitmap_error then some b else bitmap_set_multiple b idx cnt (not value))
  some (idx, b')
