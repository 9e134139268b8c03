-- ===== src/Hash/Tests.antt =====
-- Runs of the hash table, on elements two of which are equal if they have the same half.
use pintos_project.Base.{
  ℕ, ◌+◌, ◌/◌, ◌≡◌, refl, true, [], ◌∷◌, ◌==◌, ltb, ◌&&◌, if◌then◌else◌, arith,
}
use pintos_project.Hash.{
  Hash, hash_insert, hash_find, hash_first, hash_apply, hash_string, hash_bytes, hash_init,
  find_bucket,
}
use pintos_project.Hash.Finding.{IsKeyed, IsValid, IsFound, held}
use pintos_project.Hash.Operations.{hash_insert_lem, hash_init_lem}
use pintos_project.Hash.Iteration.{visited, hash_first-hash_next}
use pintos_project.Hash.Bytes.{hash_string-hash_bytes}

abbrev empty : Hash
empty = record {
  elem_cnt = 0;
  bucket_cnt = 4;
  buckets = λ i. if ltb i 4 then [] else [];
  hash = λ x. x / 2;
  less = λ x y. ltb (x / 2) (y / 2);
}

empty-IsKeyed : IsKeyed empty
empty-IsKeyed = record {
  irrefl = λ x. ground arith;
  trans = λ x y z e e'. ground (arith, e, e');
  same_hash = λ x y e. ground (arith, e);
}

empty-IsValid : IsValid empty
unfolding hash_init
empty-IsValid = (hash_init_lem (λ x. x / 2) (λ x y. ltb (x / 2) (y / 2)) empty refl).0

-- 10 and 12 in their buckets
abbrev two : Hash
two = record {
  elem_cnt = 2;
  bucket_cnt = 4;
  buckets = λ i. if i == 1 then 10 ∷ [] else if i == 2 then 12 ∷ [] else [];
  hash = λ x. x / 2;
  less = λ x y. ltb (x / 2) (y / 2);
}

two-IsKeyed : IsKeyed two
two-IsKeyed = record {
  irrefl = empty-IsKeyed.irrefl;
  trans = empty-IsKeyed.trans;
  same_hash = empty-IsKeyed.same_hash;
}

bucket_of_10 : find_bucket two 10 ≡ 1
unfolding find_bucket
bucket_of_10 = refl

bucket_of_12 : find_bucket two 12 ≡ 2
unfolding find_bucket
bucket_of_12 = refl

two-IsValid : IsValid two
two-IsValid = record {
  some_bucket = omega arith;
  placed = λ i x ne. ground (arith, ne, bucket_of_10, bucket_of_12);
  counted = refl;
  null_out = refl;
  once = λ x. ground arith;
  apart = λ x y nx ny e. ground (arith, nx, ny, e);
}

hash_find-two : hash_find 11 two ≡ 10
unfolding hash_find
hash_find-two = refl

hash_insert_example :
    let (old, h') = hash_insert true 9 two in
    IsFound two 9 old
    × IsValid h'
    × ((x : ℕ) → held h' x ≡ held two x + (if old == 0 && 9 == x then 1 else 0))
hash_insert_example = hash_insert_lem true 9 two two-IsKeyed two-IsValid (omega arith) (omega arith)

iteration_example : visited 3 two (hash_first two) ≡ hash_apply two
iteration_example = hash_first-hash_next two 3 two-IsValid (omega arith)

-- The characters `a`, `b` and the terminator.
abbrev ab : ℕ → ℕ
ab i = if i == 0 then 97 else if i == 1 then 98 else 0

hash_string_example : hash_string 8 ab 0 ≡ hash_bytes ab 0 2
hash_string_example =
    hash_string-hash_bytes 8 2 0 ab (omega arith) refl (λ i lt. ground (arith, lt))
