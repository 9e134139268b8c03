-- ===== src/Hash/Finding.antt =====
-- The invariant of a hash table, and what find_elem finds.
use pintos_project.Base.{
  ℕ, ◌-◌, ◌≤◌, ◌<◌, ◌≡◌, ◌≢◌, refl, ◌⊎◌, inl, inr, true, false, List, [], ◌∷◌, ◌==◌, if◌then◌else◌,
  count, length, Bool-cases, arith,
}
use pintos_project.Hash.{Hash, is_equal, find_bucket, find_elem, hash_find, elements}
use pintos_project.Hash.Counting.{count-elements_in, bit_and_le}

-- What the client's functions promise: `less` orders the keys, and equal keys have the same hash.
pub record IsKeyed (h : Hash) : Type 0 where
  pub irrefl : (x : ℕ) → h.less x x ≡ false
  pub trans : (x y z : ℕ) → is_equal h x y ≡ true → is_equal h y z ≡ true → is_equal h x z ≡ true
  pub same_hash : (x y : ℕ) → is_equal h x y ≡ true → h.hash x ≡ h.hash y

-- How often an element stands in the table.
abbrev pub held : Hash → ℕ → ℕ
held h x = count x (elements h.bucket_cnt h.buckets)

-- Every element stands in its bucket, and NULL in none; there are elem_cnt of them, and no two are equal.
pub record IsValid (h : Hash) : Type 0 where
  pub some_bucket : 0 < h.bucket_cnt
  pub placed : (i x : ℕ) → count x (h.buckets i) ≢ 0 → i ≡ find_bucket h x
  pub counted : h.elem_cnt ≡ length (elements h.bucket_cnt h.buckets)
  pub null_out : held h 0 ≡ 0
  pub once : (x : ℕ) → held h x ≤ 1
  pub apart : (x y : ℕ) → held h x ≢ 0 → held h y ≢ 0 → is_equal h x y ≡ true → x ≡ y

pub find_bucket-lt : (h : Hash) (e : ℕ) → 0 < h.bucket_cnt → find_bucket h e < h.bucket_cnt
unfolding find_bucket
find_bucket-lt h e pos = omega (arith, bit_and_le (h.hash e) (h.bucket_cnt - 1))

-- The elements of a table are those that stand in their buckets.
pub held_lem :
    (h : Hash) (x : ℕ)
    → 0 < h.bucket_cnt
    → ((i : ℕ) → count x (h.buckets i) ≢ 0 → i ≡ find_bucket h x)
    → held h x ≡ count x (h.buckets (find_bucket h x))
held_lem h x pos place =
    count-elements_in h.bucket_cnt (find_bucket h x) x h.buckets (find_bucket-lt h x pos)
      (λ j ne. ground (arith, place j))

-- How often an element stands in a bucket.
pub stands :
    (h : Hash) (i x : ℕ)
    → 0 < h.bucket_cnt
    → ((i : ℕ) → count x (h.buckets i) ≢ 0 → i ≡ find_bucket h x)
    → count x (h.buckets i) ≡ (if i == find_bucket h x then held h x else 0)
stands h i x pos place = ground (arith, place i, held_lem h x pos place)

find_bucket-same : (h : Hash) (x y : ℕ) → h.hash x ≡ h.hash y → find_bucket h x ≡ find_bucket h y
unfolding find_bucket
find_bucket-same h x y e = rw e

-- What a search for an element equal to `e` returns: the one that the table holds, or NULL.
abbrev pub IsFound : Hash → ℕ → ℕ → Type 0
IsFound h e r =
    (r ≡ 0) × ((x : ℕ) → held h x ≢ 0 → is_equal h x e ≡ false)
    ⊎ (r ≢ 0) × (held h r ≡ 1) × (is_equal h r e ≡ true)

find_elem-cases :
    (h : Hash) (es : List ℕ) (e : ℕ)
    → count 0 es ≡ 0
    → (find_elem h es e ≡ 0) × ((x : ℕ) → count x es ≢ 0 → is_equal h x e ≡ false)
      ⊎ (find_elem h es e ≢ 0)
        × (count (find_elem h es e) es ≢ 0)
        × (is_equal h (find_elem h es e) e ≡ true)
unfolding find_elem
find_elem-cases h [] e nn = inl (refl, λ x ne. absurd (ne refl))
find_elem-cases h (y ∷ es) e nn = elim (Bool-cases (is_equal h y e)) [
  | inl t ↦ inr (ground (arith, t, nn), ground (arith, t), ground (arith, t))
  | inr f ↦ elim (find_elem-cases h es e (ground (arith, nn))) [
    | inl (z, miss) ↦ inl (ground (arith, f, z), λ x ne. ground (arith, f, ne, miss x))
    | inr (nz, c, eq) ↦ inr (ground (arith, f, nz), ground (arith, f, c), ground (arith, f, eq))
  ]
]

-- hash_find of a valid table, whose functions compare and hash its elements consistently, returns the
-- element of the table that is equal to `e`, or NULL if it holds none.
pub hash_find_lem : (h : Hash) (e : ℕ) → IsKeyed h → IsValid h → IsFound h e (hash_find e h)
unfolding hash_find
hash_find_lem h e k v =
    elim (find_elem-cases h (h.buckets (find_bucket h e)) e (
      ground (arith, stands h (find_bucket h e) 0 v.some_bucket (λ i. v.placed i 0), v.null_out))) [
        | inl (z, miss) ↦ inl (
          z,
          λ x ne. elim (Bool-cases (is_equal h x e)) [
            | inl t ↦ ground (
              arith,
              miss x,
              t,
              ne,
              find_bucket-same h x e (k.same_hash x e t),
              held_lem h x v.some_bucket (λ i. v.placed i x),
            )
            | inr f ↦ f
          ],
        )
        | inr (nz, c, eq) ↦
            let r = find_elem h (h.buckets (find_bucket h e)) e in
            inr (
              nz,
              ground (
                arith,
                c,
                v.once r,
                stands h (find_bucket h e) r v.some_bucket (λ i. v.placed i r),
              ),
              eq,
            )
      ]
