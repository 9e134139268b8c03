-- ===== src/Hash/Iteration.antt =====
-- hash_first, hash_next and hash_cur go through all elements of a table.
use pintos_project.Base.{
  ℕ, subst, zero, suc, ◌+◌, ◌-◌, ◌<◌, ◌≡◌, refl, sym, ◌∙◌, ap, true, false, List, [], ◌∷◌, ◌++◌,
  append-nil, append_assoc, ◌==◌, ltb, if◌then◌else◌, count, length, arith,
}
use pintos_project.Hash.{Hash, elements, Iterator, hash_first, hash_next, hash_apply}
use pintos_project.Hash.Finding.{IsValid}

-- The loop of a client: the elements that hash_next gives until it gives NULL, `n` of them at most.
unfoldable pub visited : ℕ → Hash → Iterator → List ℕ
visited zero h i = []
visited (suc n) h i =
    let i' = hash_next h.bucket_cnt h i in
    let rest = visited n h i' in if i'.elem == 0 then [] else i'.elem ∷ rest

-- The elements of `k` buckets from one on.
abbrev elements_from : ℕ → ℕ → (ℕ → List ℕ) → List ℕ
elements_from zero i b = []
elements_from (suc k) i b = b i ++ elements_from k (i + 1) b

elements_from_snoc :
    (k i : ℕ) (b : ℕ → List ℕ) → elements_from (suc k) i b ≡ elements_from k i b ++ b (i + k)
elements_from_snoc zero i b = append-nil (b i) ∙ ap b (omega arith)
elements_from_snoc (suc k) i b =
    let at : i + 1 + k ≡ i + suc k = omega arith in
    ap (λ l. b i ++ l) (elements_from_snoc k (i + 1) b)
    ∙ sym (append_assoc (b i) (elements_from k (i + 1) b) (b (i + 1 + k)))
    ∙ ap (λ j. b i ++ elements_from k (i + 1) b ++ b j) at

elements_from_lem : (n : ℕ) (b : ℕ → List ℕ) → elements n b ≡ elements_from n 0 b
elements_from_lem zero b = refl
elements_from_lem (suc n) b =
    let at : n ≡ 0 + n = omega arith in
    ap (λ l. l ++ b n) (elements_from_lem n b)
    ∙ ap (λ j. elements_from n 0 b ++ b j) at
    ∙ sym (elements_from_snoc n 0 b)

first_bucket : (n : ℕ) (b : ℕ → List ℕ) → 0 < n → b 0 ++ elements_from (n - 1) 1 b ≡ elements n b
first_bucket zero b pos = absurd (omega arith)
first_bucket (suc n) b pos =
    let less : suc n - 1 ≡ n = omega arith in
    ap (λ k. b 0 ++ elements_from k 1 b) less ∙ sym (elements_from_lem (suc n) b)

-- An iterator that has the elements `rest` before it.
data IsAt (h : Hash) (i : Iterator) (rest : List ℕ) : Type 0 where
  at :
      (k : ℕ)
      → i.bucket + 1 + k ≡ h.bucket_cnt
      → i.ahead ++ elements_from k (i.bucket + 1) h.buckets ≡ rest
      → IsAt h i rest

-- What hash_next does at such an iterator.
abbrev IsAdvanced : Hash → List ℕ → Iterator → Type 0
IsAdvanced h [] i = i.elem ≡ 0
IsAdvanced h (e ∷ rest) i = (i.elem ≡ e) × IsAt h i rest

hash_next_lem :
    (n k : ℕ) (h : Hash) (bucket elem : ℕ) (ahead : List ℕ)
    → bucket + 1 + k ≡ h.bucket_cnt
    → k < n
    → IsAdvanced h
        (ahead ++ elements_from k (bucket + 1) h.buckets)
        (hash_next n h (record { bucket = bucket; ahead = ahead; elem = elem }))
unfolding hash_next
hash_next_lem zero k h bucket elem ahead e lt = absurd (omega arith)
hash_next_lem (suc n) k h bucket elem (x ∷ xs) e lt = (refl, at k e refl)
hash_next_lem (suc n) zero h bucket elem [] e lt =
    let test : ltb (bucket + 1) h.bucket_cnt ≡ false = ground (arith, e) in rw test refl
hash_next_lem (suc n) (suc k) h bucket elem [] e lt =
    let test : ltb (bucket + 1) h.bucket_cnt ≡ true = ground (arith, e) in
    rw test (
      hash_next_lem n k h (bucket + 1) 0 (h.buckets (bucket + 1)) (omega (arith, e))
        (omega (arith, lt)))

visited_lem :
    (n : ℕ) (h : Hash) (i : Iterator) (rest : List ℕ)
    → count 0 rest ≡ 0
    → length rest < n
    → IsAt h i rest
    → visited n h i ≡ rest
unfolding visited
visited_lem zero h i rest nz lt a = absurd (omega arith)
visited_lem (suc n) h i [] nz lt (at k e eq) =
    let stops : (hash_next h.bucket_cnt h i).elem ≡ 0 =
      subst (λ r. IsAdvanced h r (hash_next h.bucket_cnt h i)) eq
        (hash_next_lem h.bucket_cnt k h i.bucket i.elem i.ahead e (omega (arith, e))) in
    rw stops
visited_lem (suc n) h i (x ∷ rest) nz lt (at k e eq) =
    let (gives, a') : IsAdvanced h (x ∷ rest) (hash_next h.bucket_cnt h i) =
      subst (λ r. IsAdvanced h r (hash_next h.bucket_cnt h i)) eq
        (hash_next_lem h.bucket_cnt k h i.bucket i.elem i.ahead e (omega (arith, e))) in
    let test : ((hash_next h.bucket_cnt h i).elem == 0) ≡ false = ground (arith, gives, nz) in
    let rest_lem =
      visited_lem n h (hash_next h.bucket_cnt h i) rest (ground (arith, nz)) (omega (arith, lt))
        a' in
    rw test (ap (λ l. (hash_next h.bucket_cnt h i).elem ∷ l) rest_lem ∙ ap (λ e. e ∷ rest) gives)

-- Going through a valid table by hash_first and hash_next comes to an end, and visits the elements in
-- the order of hash_apply, so each of them once: one step more than the table has elements is enough.
pub hash_first-hash_next :
    (h : Hash) (n : ℕ) → IsValid h → h.elem_cnt < n → visited n h (hash_first h) ≡ hash_apply h
unfolding hash_apply
hash_first-hash_next h n v lt =
    visited_lem n h (hash_first h) (hash_apply h) v.null_out (omega (arith, v.counted, lt)) (
      at (h.bucket_cnt - 1) (omega (arith, v.some_bucket))
        (first_bucket h.bucket_cnt h.buckets v.some_bucket))
