-- ===== src/Bitmap/Ranges.antt =====
-- Ranges of bits: what the loops of bitmap_set_multiple, bitmap_contains and bitmap_count compute.
use pintos_project.Base.{
  ℕ, zero, suc, ◌+◌, ◌^◌, ◌≤◌, ◌<◌, ◌≡◌, refl, ap, ◌∙◌, inl, inr, Bool, true, false, not, ◌&&◌,
  some, ◌==◌, ltb, leb, if◌then◌else◌, arith, assert_passes, some->>=, Bool-cases,
}
use pintos_project.Bitmap.{
  Bitmap, bool_xor, bitmap_set, bitmap_test, in_range, set_from, bitmap_set_multiple, count_from,
  bitmap_count, contains_from, bitmap_contains,
}
use pintos_project.Bitmap.Bits.{bit_at, HasBits, bitmap_test_lem, bitmap_set_lem}

-- The bit `j` is one of the `cnt` bits from `start` on.
abbrev pub is_within : ℕ → ℕ → ℕ → Bool
is_within start cnt j = leb start j && ltb j (start + cnt)

-- A range that lies in the bitmap passes the assertions on it.
pub in_range_lem :
    (b : Bitmap) (start cnt : ℕ)
    → start + cnt ≤ b.bit_cnt
    → b.bit_cnt < 2 ^ 32
    → in_range b start cnt ≡ true
in_range_lem b start cnt h small = ground arith

set_from_lem :
    (b : Bitmap) (i n : ℕ) (v : Bool)
    → i + n ≤ b.bit_cnt
    → (b' : Bitmap) × (set_from b i n v ≡ some b')
      × HasBits b (λ j. if is_within i n j then v else bit_at b j) b'
unfolding set_from
set_from_lem b i zero v h = (b, refl, record { size = refl; bits = λ j. ground arith })
set_from_lem b i (suc n) v h =
    let (b1, e1, f1) = bitmap_set_lem b i v (omega arith) in
    let (b2, e2, f2) = set_from_lem b1 (i + 1) n v (omega (arith, f1.size)) in
    (
      b2,
      some->>= (bitmap_set b i v) _ e1 e2,
      record { size = f2.size ∙ f1.size; bits = λ j. ground (arith, f1.bits j, f2.bits j) },
    )

-- bitmap_set_multiple, on a range that lies in a bitmap of fewer than 2 ^ 32 bits, passes its
-- assertions, gives every bit of the range the value, and leaves all other bits and the size alone.
pub bitmap_set_multiple_lem :
    (b : Bitmap) (start cnt : ℕ) (v : Bool)
    → start + cnt ≤ b.bit_cnt
    → b.bit_cnt < 2 ^ 32
    → (b' : Bitmap) × (bitmap_set_multiple b start cnt v ≡ some b')
      × HasBits b (λ j. if is_within start cnt j then v else bit_at b j) b'
unfolding bitmap_set_multiple
bitmap_set_multiple_lem b start cnt v h small =
    let (b', e, f) = set_from_lem b start cnt v h in
    (b', assert_passes (in_range b start cnt) _ (in_range_lem b start cnt h small) e, f)

-- How many of the `n` bits from `i` on have the value `v`.
abbrev pub number_of : (ℕ → Bool) → ℕ → ℕ → Bool → ℕ
number_of f i zero v = 0
number_of f i (suc n) v = (if bool_xor (f i) v then 0 else 1) + number_of f (i + 1) n v

count_from_lem :
    (b : Bitmap) (i n : ℕ) (v : Bool)
    → i + n ≤ b.bit_cnt
    → count_from b i n v ≡ some (number_of (bit_at b) i n v)
unfolding count_from
count_from_lem b i zero v h = refl
count_from_lem b i (suc n) v h =
    some->>= (bitmap_test b i) _ (bitmap_test_lem b i (omega arith))
      (some->>= (count_from b (i + 1) n v) _ (count_from_lem b (i + 1) n v (omega arith)) refl)

-- What bitmap_contains finds in a range of an array of bits.
abbrev pub has_bit : (ℕ → Bool) → ℕ → ℕ → Bool → Bool
has_bit f i zero v = false
has_bit f i (suc n) v = if bool_xor (f i) v then has_bit f (i + 1) n v else true

contains_from_lem :
    (b : Bitmap) (i n : ℕ) (v : Bool)
    → i + n ≤ b.bit_cnt
    → contains_from b i n v ≡ some (has_bit (bit_at b) i n v)
unfolding contains_from
contains_from_lem b i zero v h = refl
contains_from_lem b i (suc n) v h =
    some->>= (bitmap_test b i) _ (bitmap_test_lem b i (omega arith))
      (go (bool_xor (bit_at b i) v) (contains_from_lem b (i + 1) n v (omega arith)))
  where
    go :
        (c : Bool)
        → contains_from b (i + 1) n v ≡ some (has_bit (bit_at b) (i + 1) n v)
        → (if c then contains_from b (i + 1) n v else some true)
          ≡ some (if c then has_bit (bit_at b) (i + 1) n v else true)
    go true e = e
    go false e = refl

pub bitmap_contains_lem :
    (b : Bitmap) (start cnt : ℕ) (v : Bool)
    → start + cnt ≤ b.bit_cnt
    → b.bit_cnt < 2 ^ 32
    → bitmap_contains b start cnt v ≡ some (has_bit (bit_at b) start cnt v)
unfolding bitmap_contains
bitmap_contains_lem b start cnt v h small =
    assert_passes (in_range b start cnt) _ (in_range_lem b start cnt h small)
      (contains_from_lem b start cnt v h)

-- Without a bit of the value `not v`, all bits of the range have the value `v`.
pub no_bit :
    (f : ℕ → Bool) (i n : ℕ) (v : Bool)
    → has_bit f i n (not v) ≡ false
    → (j : ℕ) → is_within i n j ≡ true
    → f j ≡ v
no_bit f i zero v h j w = absurd (ground (arith, w))
no_bit f i (suc n) v h j w = elim (Bool-cases (i == j)) [
  | inl e ↦ ground (arith, e, h)
  | inr ne ↦ no_bit f (i + 1) n v (ground (arith, h)) j (ground (arith, w, ne))
]

pub some_bit :
    (f : ℕ → Bool) (i n : ℕ) (v : Bool)
    → has_bit f i n (not v) ≡ true
    → (j : ℕ) × (is_within i n j ≡ true) × (f j ≡ not v)
some_bit f i zero v h = absurd (cc)
some_bit f i (suc n) v h = elim (Bool-cases (bool_xor (f i) (not v))) [
  | inl d ↦
      let (j, w, e) = some_bit f (i + 1) n v (ground (arith, h, d)) in (j, ground (arith, w), e)
  | inr s ↦ (i, ground arith, ground (arith, s))
]

-- bitmap_count, on a range that lies in a bitmap of fewer than 2 ^ 32 bits, returns the number of bits
-- of the range that have the value, and bitmap_contains whether there is such a bit: it is true exactly
-- if that number is positive.
pub bitmap_count_lem :
    (b : Bitmap) (start cnt : ℕ) (v : Bool)
    → start + cnt ≤ b.bit_cnt
    → b.bit_cnt < 2 ^ 32
    → (bitmap_count b start cnt v ≡ some (number_of (bit_at b) start cnt v))
      × (bitmap_contains b start cnt v ≡ some (ltb 0 (number_of (bit_at b) start cnt v)))
unfolding bitmap_count
bitmap_count_lem b start cnt v h small = (
  assert_passes (in_range b start cnt) _ (in_range_lem b start cnt h small)
      (count_from_lem b start cnt v h),
  bitmap_contains_lem b start cnt v h small ∙ ap some (has_bit_iff (bit_at b) start cnt),
)
  where
    has_bit_iff : (f : ℕ → Bool) (i n : ℕ) → has_bit f i n v ≡ ltb 0 (number_of f i n v)
    has_bit_iff f i zero = refl
    has_bit_iff f i (suc n) = elim (Bool-cases (bool_xor (f i) v)) [
      | inl d ↦ ground (arith, d, has_bit_iff f (i + 1) n)
      | inr s ↦ ground (arith, s)
    ]
