-- ===== src/FreeMap/Allocation.antt =====
-- Allocating sectors and giving them back.
use pintos_project.Base.{
  ℕ, ◌+◌, ◌≤◌, ◌<◌, ◌≡◌, refl, ap, ◌∙◌, sym, ◌⊎◌, inl, inr, Bool, true, false, not, ◌&&◌, Option,
  none, some, ◌==◌, if◌then◌else◌, arith, some->>=, Bool-cases, if_true, if_false, ◌>>=◌,
}
use pintos_project.Bitmap.{Bitmap, bitmap_error, bitmap_set_multiple, bitmap_scan_and_flip}
use pintos_project.Bitmap.Bits.{bit_at, HasBits}
use pintos_project.Bitmap.Ranges.{is_within, bitmap_set_multiple_lem}
use pintos_project.Bitmap.Search.{AllAre, SomeDiffers, bitmap_scan_and_flip_lem}
use pintos_project.FreeMap.{free_map_allocate}

-- What an allocation of `cnt` sectors returns and leaves.
abbrev pub HasAllocated : Bool → Bool → ℕ → Bitmap → Option ℕ → Bitmap → Type 0
HasAllocated file written cnt b r b' =
    ((s : ℕ) × (r ≡ some s)
      × ((file && not written) ≡ false)
      × (s + cnt ≤ b.bit_cnt)
      × AllAre (bit_at b) s cnt false
      × ((t : ℕ) → t < s → SomeDiffers (bit_at b) t cnt false)
      × HasBits b (λ j. if is_within s cnt j then true else bit_at b j) b')
    ⊎ ((r ≡ none)
        × HasBits b (bit_at b) b'
        × (((file && not written) ≡ true)
            ⊎ ((s : ℕ) → s + cnt ≤ b.bit_cnt → SomeDiffers (bit_at b) s cnt false)))

-- A range that is set and cleared again, over bits that were clear.
restored :
    (b b1 b2 : Bitmap) (s cnt : ℕ)
    → AllAre (bit_at b) s cnt false
    → HasBits b (λ j. if is_within s cnt j then true else bit_at b j) b1
    → HasBits b1 (λ j. if is_within s cnt j then false else bit_at b1 j) b2
    → HasBits b (bit_at b) b2
restored b b1 b2 s cnt all f g = record {
  size = g.size ∙ f.size;
  bits = λ j. elim (Bool-cases (is_within s cnt j)) [
    | inl w ↦ g.bits j ∙ if_true (is_within s cnt j) _ _ w ∙ sym (all j w)
    | inr n ↦
        g.bits j
        ∙ if_false (is_within s cnt j) _ _ n
        ∙ f.bits j
        ∙ if_false (is_within s cnt j) _ _ n
  ];
}

abbrev finish : Bool → Bool → ℕ → ℕ × Bitmap → Option (Option ℕ × Bitmap)
finish file written cnt (sector, b1) =
    let failed = not (sector == bitmap_error) && file && not written in
    (if failed then bitmap_set_multiple b1 sector cnt false else some b1) >>= λ b2.
    (let result = if failed then bitmap_error else sector in
      some (if result == bitmap_error then none else some result, b2))

-- free_map_allocate on a map of fewer than 2 ^ 32 - 1 sectors passes its assertions. Either it returns
-- the first of the first `cnt` consecutive sectors of the map that were all free, these are in use now, no
-- other sector has changed, and the write of the map did not fail if it has a file; or it returns none, every sector is as it was, and either the write of the
-- map to its file failed or no `cnt` consecutive sectors are free.
pub free_map_allocate_lem :
    (file written : Bool) (cnt : ℕ) (b : Bitmap)
    → b.bit_cnt < bitmap_error
    → (r : Option ℕ) × (b' : Bitmap) × (free_map_allocate file written cnt b ≡ some (r, b'))
      × HasAllocated file written cnt b r b'
unfolding free_map_allocate
free_map_allocate_lem file written cnt b small =
    let (s, b1, e, f) = bitmap_scan_and_flip_lem b 0 cnt false (omega arith) small in
    let failed = not (s == bitmap_error) && file && not written in
    let write_back = if failed then bitmap_set_multiple b1 s cnt false else some b1 in
    elim f [
      | inl (le, fits, all, before, w) ↦
          let real : (s == bitmap_error) ≡ false = ground arith in
          elim (Bool-cases (file && not written)) [
            | inl bad ↦
                let (b2, e2, w2) =
                  bitmap_set_multiple_lem b1 s cnt false (omega (arith, w.size))
                    (omega (arith, w.size)) in
                (
                  none,
                  b2,
                  some->>= (bitmap_scan_and_flip b 0 cnt false) (finish file written cnt) e (
                      some->>= write_back _ (if_true failed _ _ (ground (arith, real, bad)) ∙ e2)
                        (ground (arith, real, bad))),
                  inr (refl, restored b b1 b2 s cnt all w w2, inl bad),
                )
            | inr good ↦ (
              some s,
              b1,
              some->>= (bitmap_scan_and_flip b 0 cnt false) (finish file written cnt) e (
                  some->>= write_back _ (if_false failed _ _ (ground (arith, real, good)))
                    (ground (arith, real, good))),
              inl (s, refl, good, fits, all, (λ t. before t (omega arith)), w),
            )
          ]
      | inr (er, same, none_fit) ↦
          let error : (s == bitmap_error) ≡ true = ground (arith, er) in
          (
            none,
            b1,
            some->>= (bitmap_scan_and_flip b 0 cnt false) (finish file written cnt) e (
                some->>= write_back _ (if_false failed _ _ (ground (arith, error)))
                  (ground (arith, error))),
            inr (
              refl,
              record { size = ap (λ x. x.bit_cnt) same; bits = λ j. ap (λ x. bit_at x j) same },
              inr (λ t. none_fit t (omega arith)),
            ),
          )
    ]

-- What giving `cnt` sectors back comes to.
abbrev pub HasReleased : Bool → Bool → ℕ → ℕ → Bitmap → Bitmap → Option (Bitmap × Bitmap) → Type 0
HasReleased file written sector cnt b saved r =
    (SomeDiffers (bit_at b) sector cnt true × (r ≡ none))
    ⊎ (AllAre (bit_at b) sector cnt true
        × (((file ≡ false) × (r ≡ none))
            ⊎ ((b' : Bitmap) × (file ≡ true)
                × (r ≡ some (b', (if written then b' else saved)))
                × HasBits b (λ j. if is_within sector cnt j then false else bit_at b j) b')))
