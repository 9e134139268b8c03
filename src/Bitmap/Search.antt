-- ===== src/Bitmap/Search.antt =====
-- bitmap_scan and bitmap_scan_and_flip: the first group of bits of a value.
use native.Mathlib.Decide.{dec_lt, dec_le}
use pintos_project.Base.{
  subst, ℕ, zero, suc, ◌+◌, ◌-◌, ◌^◌, ◌≤◌, ◌<◌, ◌≡◌, refl, ap, ◌∙◌, ◌⊎◌, inl, inr, Bool, true, not,
  some, ◌==◌, leb, if◌then◌else◌, arith, assert_passes, some->>=, Bool-cases, if_true, if_false,
}
use pintos_project.Bitmap.{
  Bitmap, bitmap_contains, bitmap_error, scan_from, bitmap_scan, bitmap_set_multiple,
  bitmap_scan_and_flip,
}
use pintos_project.Bitmap.Bits.{bit_at, HasBits}
use pintos_project.Bitmap.Ranges.{
  is_within, has_bit, no_bit, some_bit, bitmap_contains_lem, bitmap_set_multiple_lem,
}

-- All `cnt` bits from `start` on have the value `v`.
abbrev pub AllAre : (ℕ → Bool) → ℕ → ℕ → Bool → Type 0
AllAre f start cnt v = (j : ℕ) → is_within start cnt j ≡ true → f j ≡ v

-- One of the `cnt` bits from `start` on has the other value.
abbrev pub SomeDiffers : (ℕ → Bool) → ℕ → ℕ → Bool → Type 0
SomeDiffers f start cnt v = (j : ℕ) × (is_within start cnt j ≡ true) × (f j ≡ not v)

-- `r` is the start of the first group at or behind `i` and before `last + 1`, or the error value if
-- there is none.
abbrev pub IsFirst : (ℕ → Bool) → ℕ → ℕ → ℕ → Bool → ℕ → Type 0
IsFirst f i stop cnt v r =
    ((i ≤ r) × (r < stop) × AllAre f r cnt v × ((s : ℕ) → i ≤ s → s < r → SomeDiffers f s cnt v))
    ⊎ ((r ≡ bitmap_error) × ((s : ℕ) → i ≤ s → s < stop → SomeDiffers f s cnt v))

-- The starts from `i` on, given those behind it.
split_start :
    (f : ℕ → Bool) (i s cnt : ℕ) (v : Bool)
    → SomeDiffers f i cnt v
    → (i + 1 ≤ s → SomeDiffers f s cnt v)
    → i ≤ s
    → SomeDiffers f s cnt v
split_start f i s cnt v d rest le = elim (dec_lt i s) [
  | yes lt ↦ rest (omega arith)
  | no ge ↦ let e : s ≡ i = omega arith in rw e d
]

scan_from_lem :
    (b : Bitmap) (i n cnt : ℕ) (v : Bool)
    → i + n + cnt ≤ b.bit_cnt + 1
    → b.bit_cnt < 2 ^ 32
    → (r : ℕ) × (scan_from b i n cnt v ≡ some r) × IsFirst (bit_at b) i (i + n) cnt v r
unfolding scan_from
scan_from_lem b i zero cnt v h small =
    (bitmap_error, refl, inr (refl, λ s le lt. absurd (omega arith)))
scan_from_lem b i (suc n) cnt v h small =
    let (r, e, f) = scan_from_lem b (i + 1) n cnt v (omega arith) small in
    let c = bitmap_contains_lem b i cnt (not v) (omega arith) small in
    let body = λ (other : Bool). if other then scan_from b (i + 1) n cnt v else some i in
    elim (Bool-cases (has_bit (bit_at b) i cnt (not v))) [
      | inl d ↦ (
        r,
        some->>= (bitmap_contains b i cnt (not v)) body (c ∙ ap some d) e,
        elim f [
          | inl (le, lt, all, before) ↦ inl (
            omega arith,
            omega arith,
            all,
            λ s le' lt'.
                split_start (bit_at b) i s cnt v (some_bit (bit_at b) i cnt v d)
                  (λ up. before s up lt') le',
          )
          | inr (er, none_fit) ↦ inr (
            er,
            λ s le' lt'.
                split_start (bit_at b) i s cnt v (some_bit (bit_at b) i cnt v d)
                  (λ up. none_fit s up (omega arith)) le',
          )
        ],
      )
      | inr no_other ↦ (
        i,
        some->>= (bitmap_contains b i cnt (not v)) body (c ∙ ap some no_other) refl,
        inl (
          omega arith,
          omega arith,
          no_bit (bit_at b) i cnt v no_other,
          λ s le lt. absurd (omega arith),
        ),
      )
    ]

-- bitmap_scan, from a start inside a bitmap of fewer than 2 ^ 32 bits, passes its assertions. It
-- returns the first index at or behind the start from which `cnt` bits lie in the bitmap and all have
-- the value, and every earlier one has a bit of the other value in its group; if there is no such
-- index it returns the error value.
pub bitmap_scan_lem :
    (b : Bitmap) (start cnt : ℕ) (v : Bool)
    → start ≤ b.bit_cnt
    → b.bit_cnt < 2 ^ 32
    → (r : ℕ) × (bitmap_scan b start cnt v ≡ some r)
      × IsFirst (bit_at b) start (b.bit_cnt + 1 - cnt) cnt v r
unfolding bitmap_scan
bitmap_scan_lem b start cnt v h small = elim (Bool-cases (leb cnt b.bit_cnt)) [
  | inl fits ↦ elim (dec_le start (b.bit_cnt - cnt)) [
    | yes le ↦
        let n = b.bit_cnt - cnt + 1 - start in
        let le_cnt : cnt ≤ b.bit_cnt = ground (arith, fits) in
        let (r, e, f) = scan_from_lem b start n cnt v (omega arith) small in
        let stop : start + n ≡ b.bit_cnt + 1 - cnt = omega arith in
        (
          r,
          assert_passes (leb start b.bit_cnt) _ (ground arith)
              (if_true (leb cnt b.bit_cnt) _ _ fits ∙ e),
          subst (λ t. IsFirst (bit_at b) start t cnt v r) stop f,
        )
    | no gt ↦
        let none_left : b.bit_cnt - cnt + 1 - start ≡ 0 = omega arith in
        (
          bitmap_error,
          assert_passes (leb start b.bit_cnt) _ (ground arith)
              (if_true (leb cnt b.bit_cnt) _ _ fits ∙ unfold scan_from in rw none_left refl),
          inr (refl, λ s le lt. absurd (omega arith)),
        )
  ]
  | inr big ↦ (
    bitmap_error,
    assert_passes (leb start b.bit_cnt) _ (ground arith) (if_false (leb cnt b.bit_cnt) _ _ big),
    inr (refl, λ s le lt. absurd (ground (arith, big, le, lt))),
  )
]

-- What bitmap_scan_and_flip returns and leaves.
abbrev pub HasFlipped : Bitmap → ℕ → ℕ → Bool → ℕ → Bitmap → Type 0
HasFlipped b start cnt v r b' =
    ((start ≤ r)
      × (r + cnt ≤ b.bit_cnt)
      × AllAre (bit_at b) r cnt v
      × ((s : ℕ) → start ≤ s → s < r → SomeDiffers (bit_at b) s cnt v)
      × HasBits b (λ j. if is_within r cnt j then not v else bit_at b j) b')
    ⊎ ((r ≡ bitmap_error)
        × (b' ≡ b)
        × ((s : ℕ) → start ≤ s → s + cnt ≤ b.bit_cnt → SomeDiffers (bit_at b) s cnt v))

-- bitmap_scan_and_flip, from a start inside a bitmap of fewer than 2 ^ 32 - 1 bits, passes its
-- assertions. Either it returns the first index at or behind the start from which `cnt` bits lie in the
-- bitmap and all have the value, and exactly these bits are flipped; or it returns the error value, the
-- bitmap is unchanged, and every group at or behind the start has a bit of the other value.
pub bitmap_scan_and_flip_lem :
    (b : Bitmap) (start cnt : ℕ) (v : Bool)
    → start ≤ b.bit_cnt
    → b.bit_cnt < bitmap_error
    → (r : ℕ) × (b' : Bitmap) × (bitmap_scan_and_flip b start cnt v ≡ some (r, b'))
      × HasFlipped b start cnt v r b'
unfolding bitmap_scan_and_flip
bitmap_scan_and_flip_lem b start cnt v h small =
    let (r, e, f) = bitmap_scan_lem b start cnt v h (omega arith) in
    let choice = if r == bitmap_error then some b else bitmap_set_multiple b r cnt (not v) in
    elim f [
      | inl (le, lt, all, before) ↦
          let (b', e', w) = bitmap_set_multiple_lem b r cnt (not v) (omega arith) (omega arith) in
          (
            r,
            b',
            some->>= (bitmap_scan b start cnt v) _ e
                (some->>= choice _ (if_false (r == bitmap_error) _ _ (ground arith) ∙ e') refl),
            inl (le, omega arith, all, before, w),
          )
      | inr (er, none_fit) ↦ (
        r,
        b,
        some->>= (bitmap_scan b start cnt v) _ e
            (some->>= choice _ (if_true (r == bitmap_error) _ _ (ground (arith, er))) refl),
        inr (er, refl, λ s le fits. none_fit s le (omega arith)),
      )
    ]
