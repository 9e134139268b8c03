-- ===== src/Hash/Changing.antt =====
-- insert_elem and remove_elem keep the invariant of a hash table.
use pintos_project.Base.{
  ℕ, zero, suc, ◌+◌, ◌-◌, ◌^◌, ◌≤◌, ◌<◌, ◌≡◌, ◌≢◌, refl, false, List, ◌∷◌, ◌==◌, if◌then◌else◌,
  erase, count, length, arith,
}
use pintos_project.Hash.{Hash, is_equal, find_bucket, elements, insert_elem, remove_elem}
use pintos_project.Hash.Counting.{
  count-elements-update, length-elements-update, count-erase, length-elements-erase, count_step,
}
use pintos_project.Hash.Finding.{IsKeyed, IsValid, held, find_bucket-lt, stands}
use pintos_project.Hash.Rehashing.{find_bucket-fields}

pub held-insert_elem :
    (h : Hash) (e x : ℕ)
    → 0 < h.bucket_cnt
    → held (insert_elem (find_bucket h e) e h) x ≡ held h x + (if e == x then 1 else 0)
held-insert_elem h e x pos = ground (
  arith,
  count-elements-update h.bucket_cnt (find_bucket h e) x h.buckets (e ∷ h.buckets (find_bucket h e))
      (find_bucket-lt h e pos),
)

-- An element that equals none of the table is added.
pub insert_elem-IsValid :
    (h : Hash) (e : ℕ)
    → IsKeyed h
    → IsValid h
    → e ≢ 0
    → h.elem_cnt + 1 < 2 ^ 32
    → ((x : ℕ) → held h x ≢ 0 → is_equal h x e ≡ false)
    → IsValid (insert_elem (find_bucket h e) e h)
insert_elem-IsValid h e k v nz few none =
    let h' = insert_elem (find_bucket h e) e h in
    let b = find_bucket h e in
    record {
      some_bucket = v.some_bucket;
      placed = λ i x ne. ground (arith, ne, v.placed i x, find_bucket-fields h h' x refl refl);
      counted = ground (
        arith,
        few,
        v.counted,
        length-elements-update h.bucket_cnt b h.buckets (e ∷ h.buckets b)
            (find_bucket-lt h e v.some_bucket),
      );
      null_out = ground (arith, nz, v.null_out, held-insert_elem h e 0 v.some_bucket);
      once =
          λ x. ground (arith, v.once x, held-insert_elem h e x v.some_bucket, none x, k.irrefl x);
      apart = λ x y nx ny eq. ground (
        arith,
        nx,
        ny,
        eq,
        v.apart x y,
        none x,
        none y,
        held-insert_elem h e x v.some_bucket,
        held-insert_elem h e y v.some_bucket,
      );
    }

count-elements-erase :
    (n e x : ℕ) (b : ℕ → List ℕ)
    → count e (elements n b) ≤ 1
    → count x (elements n (λ i. erase e (b i))) ≡ count x (elements n b) - (if e == x then 1 else 0)
count-elements-erase zero e x b le = ground arith
count-elements-erase (suc n) e x b le = ground (
  arith,
  count_step n x b,
  count_step n e b,
  count_step n x (λ i. erase e (b i)),
  count-erase x e (b n),
  count-elements-erase n e x b,
)

pub held-remove_elem :
    (h : Hash) (e x : ℕ)
    → held h e ≤ 1
    → held (remove_elem e h) x ≡ held h x - (if e == x then 1 else 0)
held-remove_elem h e x le = count-elements-erase h.bucket_cnt e x h.buckets le

pub removed_cnt :
    (h : Hash) (e : ℕ)
    → IsValid h
    → held h e ≡ 1
    → h.elem_cnt < 2 ^ 32
    → ((remove_elem e h).elem_cnt + 1 ≡ h.elem_cnt)
      × ((remove_elem e h).elem_cnt ≡ length (elements h.bucket_cnt (λ i. erase e (h.buckets i))))
removed_cnt h e v one few =
    let erased =
      length-elements-erase h.bucket_cnt e h.buckets
        (λ j. ground (arith, one, stands h j e v.some_bucket (λ i. v.placed i e))) in
    (omega (arith, one, few, v.counted, erased), omega (arith, one, few, v.counted, erased))

-- An element of the table is removed.
pub remove_elem-IsValid :
    (h : Hash) (e : ℕ) → IsValid h → held h e ≡ 1 → h.elem_cnt < 2 ^ 32 → IsValid (remove_elem e h)
remove_elem-IsValid h e v one few =
    let h' = remove_elem e h in
    let le : held h e ≤ 1 = omega (arith, one) in
    record {
      some_bucket = v.some_bucket;
      placed = λ i x ne. ground (
        arith,
        ne,
        v.placed i x,
        count-erase x e (h.buckets i),
        find_bucket-fields h h' x refl refl,
      );
      counted = (removed_cnt h e v one few).1;
      null_out = ground (arith, v.null_out, held-remove_elem h e 0 le);
      once = λ x. ground (arith, v.once x, held-remove_elem h e x le);
      apart = λ x y nx ny eq.
          ground
            (arith, nx, ny, eq, v.apart x y, held-remove_elem h e x, held-remove_elem h e y le);
    }
