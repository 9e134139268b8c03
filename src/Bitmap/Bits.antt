-- ===== src/Bitmap/Bits.antt =====
-- Single bits: what a test reads and what a write changes.
use pintos_project.Base.{
  ℕ, zero, suc, ◌/◌, ◌%◌, ◌<◌, ◌≡◌, refl, ap, ◌∙◌, Bool, true, false, not, ◌&&◌, some, ◌==◌, ltb,
  if◌then◌else◌, arith, assert_passes, lt→ltb,
}
use pintos_project.Bitmap.{
  Bitmap, Elem, elem_bits, elem_idx, any_below, bitmap_mark, bitmap_reset, bitmap_flip, bitmap_set,
  bitmap_test,
}

-- The array of bits that a bitmap stands for.
abbrev pub bit_at : Bitmap → ℕ → Bool
bit_at b i = b.bits (i / elem_bits) (i % elem_bits)

-- What a call leaves of a bitmap whose bits are to be `f`.
pub record HasBits (b : Bitmap) (f : ℕ → Bool) (b' : Bitmap) : Type 0 where
  pub size : b'.bit_cnt ≡ b.bit_cnt
  pub bits : (j : ℕ) → bit_at b' j ≡ f j

any_below-masked : (n r : ℕ) (e : Elem) → any_below n (λ j. e j && (j == r)) ≡ (ltb r n && e r)
unfolding any_below
any_below-masked zero r e = ground arith
any_below-masked (suc n) r e = ground (arith, any_below-masked n r e)

pub bitmap_test_lem : (b : Bitmap) (i : ℕ) → i < b.bit_cnt → bitmap_test b i ≡ some (bit_at b i)
unfolding bitmap_test
bitmap_test_lem b i h = assert_passes (ltb i b.bit_cnt) _ (lt→ltb i b.bit_cnt h) (
    ap some (any_below-masked elem_bits (i % elem_bits) (b.bits (elem_idx i)) ∙ below (bit_at b i)))
  where
    below : (x : Bool) → (ltb (i % elem_bits) elem_bits && x) ≡ x
    below x = rw (lt→ltb (i % elem_bits) elem_bits (omega arith)) refl

pub bit_at-mark :
    (b : Bitmap) (i j : ℕ) → bit_at (bitmap_mark b i) j ≡ (if i == j then true else bit_at b j)
unfolding bitmap_mark
bit_at-mark b i j = ground arith

pub bit_at-reset :
    (b : Bitmap) (i j : ℕ) → bit_at (bitmap_reset b i) j ≡ (if i == j then false else bit_at b j)
unfolding bitmap_reset
bit_at-reset b i j = ground arith

pub bit_at-flip :
    (b : Bitmap) (i j : ℕ)
    → bit_at (bitmap_flip b i) j ≡ (if i == j then not (bit_at b j) else bit_at b j)
unfolding bitmap_flip
bit_at-flip b i j = ground arith

pub bitmap_set_lem :
    (b : Bitmap) (i : ℕ) (v : Bool)
    → i < b.bit_cnt
    → (b' : Bitmap) × (bitmap_set b i v ≡ some b')
      × HasBits b (λ j. if i == j then v else bit_at b j) b'
unfolding bitmap_set
bitmap_set_lem b i true h = (
  bitmap_mark b i,
  assert_passes (ltb i b.bit_cnt) _ (lt→ltb i b.bit_cnt h) refl,
  record { size = unfold bitmap_mark in refl; bits = λ j. bit_at-mark b i j },
)
bitmap_set_lem b i false h = (
  bitmap_reset b i,
  assert_passes (ltb i b.bit_cnt) _ (lt→ltb i b.bit_cnt h) refl,
  record { size = unfold bitmap_reset in refl; bits = λ j. bit_at-reset b i j },
)
