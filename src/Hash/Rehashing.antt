-- ===== src/Hash/Rehashing.antt =====
-- rehash keeps the elements of a table.
use pintos_project.Base.{
  ℕ, zero, suc, ◌+◌, ◌-◌, ◌/◌, ◌≤◌, ◌<◌, ◌≡◌, ◌≢◌, refl, sym, ◌∙◌, inl, inr, Bool, true, false,
  List, [], ◌∷◌, ◌++◌, ◌==◌, count, length, count-append, length-append, Bool-cases, arith,
}
use pintos_project.Hash.{
  Hash, is_equal, find_bucket, elements, turn_off_least_1bit, is_power_of_2, to_power_of_2,
  new_bucket_cnt, push_front, move_bucket, move_buckets, rehash,
}
use pintos_project.Hash.Counting.{
  count-elements-update, length-elements-update, count-elements_out, bit_and_le, length_step,
}
use pintos_project.Hash.Finding.{IsValid, held, find_bucket-lt}

turn_off_least_1bit-lt : (x : ℕ) → x ≢ 0 → turn_off_least_1bit x < x
unfolding turn_off_least_1bit
turn_off_least_1bit-lt x nz = omega (arith, bit_and_le x (x - 1))

is_power-off : (x : ℕ) → x ≢ 0 → is_power_of_2 x ≡ false → turn_off_least_1bit x ≢ 0
unfolding is_power_of_2
is_power-off x nz f = ground (arith, nz, f)

-- The loop ends in a power of 2.
pub to_power_of_2_lem : (n x : ℕ) → x ≢ 0 → x ≤ n → is_power_of_2 (to_power_of_2 n x) ≡ true
unfolding to_power_of_2
to_power_of_2_lem zero x nz le = absurd (omega arith)
to_power_of_2_lem (suc n) x nz le = elim (Bool-cases (is_power_of_2 x)) [
  | inl t ↦ ground (arith, t)
  | inr f ↦ ground (
    arith,
    f,
    is_power-off x nz f,
    turn_off_least_1bit-lt x nz,
    to_power_of_2_lem n (turn_off_least_1bit x),
  )
]

is_power_of_2_zero : (x : ℕ) → is_power_of_2 x ≡ true → x ≢ 0
unfolding is_power_of_2
is_power_of_2_zero x t = ground arith

new_bucket_cnt_lem : (n : ℕ) → is_power_of_2 (new_bucket_cnt n) ≡ true
unfolding new_bucket_cnt
new_bucket_cnt_lem n = ground (arith, to_power_of_2_lem 4 4, to_power_of_2_lem (n / 2) (n / 2))

-- The fields that the move keeps, and what it adds.
pub record IsMoved (h h' : Hash) (es : List ℕ) : Type 0 where
  pub same_cnt : h'.elem_cnt ≡ h.elem_cnt
  pub same_buckets : h'.bucket_cnt ≡ h.bucket_cnt
  pub same_hash : h'.hash ≡ h.hash
  pub same_less : h'.less ≡ h.less
  pub all_held : (x : ℕ) → held h' x ≡ held h x + count x es
  pub all_length :
      length (elements h'.bucket_cnt h'.buckets)
      ≡ length (elements h.bucket_cnt h.buckets) + length es
  pub all_placed :
      ((i x : ℕ) → count x (h.buckets i) ≢ 0 → i ≡ find_bucket h x)
      → (i x : ℕ) → count x (h'.buckets i) ≢ 0
      → i ≡ find_bucket h x

push_front-IsMoved :
    (h : Hash) (e : ℕ) → 0 < h.bucket_cnt → IsMoved h (push_front (find_bucket h e) e h) (e ∷ [])
push_front-IsMoved h e pos = record {
  same_cnt = refl;
  same_buckets = refl;
  same_hash = refl;
  same_less = refl;
  all_held = λ x. ground (
    arith,
    count-elements-update h.bucket_cnt (find_bucket h e) x h.buckets
        (e ∷ h.buckets (find_bucket h e)) (find_bucket-lt h e pos),
  );
  all_length = ground (
    arith,
    length-elements-update h.bucket_cnt (find_bucket h e) h.buckets
        (e ∷ h.buckets (find_bucket h e)) (find_bucket-lt h e pos),
  );
  all_placed = λ place i x ne. ground (arith, ne, place i x);
}

pub find_bucket-fields :
    (h h' : Hash) (x : ℕ)
    → h'.hash ≡ h.hash
    → h'.bucket_cnt ≡ h.bucket_cnt
    → find_bucket h' x ≡ find_bucket h x
unfolding find_bucket
find_bucket-fields h h' x e e' = rw (e, e')

IsMoved-trans :
    (h h' h2 : Hash) (es es' : List ℕ)
    → IsMoved h h' es
    → IsMoved h' h2 es'
    → IsMoved h h2 (es ++ es')
IsMoved-trans h h' h2 es es' m m' = record {
  same_cnt = m'.same_cnt ∙ m.same_cnt;
  same_buckets = m'.same_buckets ∙ m.same_buckets;
  same_hash = m'.same_hash ∙ m.same_hash;
  same_less = m'.same_less ∙ m.same_less;
  all_held = λ x. omega (arith, m.all_held x, m'.all_held x, count-append x es es');
  all_length = omega (arith, m.all_length, m'.all_length, length-append es es');
  all_placed = λ place i x ne.
      m'.all_placed
        (λ j y ne'.
          m.all_placed place j y ne' ∙ sym (find_bucket-fields h h' y m.same_hash m.same_buckets))
        i x ne
      ∙ find_bucket-fields h h' x m.same_hash m.same_buckets;
}

IsMoved-none : (h : Hash) → IsMoved h h []
IsMoved-none h = record {
  same_cnt = refl;
  same_buckets = refl;
  same_hash = refl;
  same_less = refl;
  all_held = λ x. omega arith;
  all_length = omega arith;
  all_placed = λ place. place;
}

move_bucket-IsMoved : (es : List ℕ) (h : Hash) → 0 < h.bucket_cnt → IsMoved h (move_bucket es h) es
unfolding move_bucket
move_bucket-IsMoved [] h pos = IsMoved-none h
move_bucket-IsMoved (e ∷ es) h pos =
    let h' = push_front (find_bucket h e) e h in
    IsMoved-trans h h' (move_bucket es h') (e ∷ []) es (push_front-IsMoved h e pos)
      (move_bucket-IsMoved es h' pos)

move_buckets-IsMoved :
    (n : ℕ) (old : ℕ → List ℕ) (h : Hash)
    → 0 < h.bucket_cnt
    → IsMoved h (move_buckets n old h) (elements n old)
unfolding move_buckets
move_buckets-IsMoved zero old h pos = IsMoved-none h
move_buckets-IsMoved (suc n) old h pos =
    let h' = move_buckets n old h in
    let m = move_buckets-IsMoved n old h pos in
    IsMoved-trans h h' (move_bucket (old n) h') (elements n old) (old n) m
      (move_bucket-IsMoved (old n) h' (omega (arith, m.same_buckets)))

-- What a rehash keeps: everything but the order of the elements and the number of buckets.
pub record IsKept (h h' : Hash) : Type 0 where
  pub same_cnt : h'.elem_cnt ≡ h.elem_cnt
  pub same_hash : h'.hash ≡ h.hash
  pub same_less : h'.less ≡ h.less
  pub same_held : (x : ℕ) → held h' x ≡ held h x

IsKept-refl : (h : Hash) → IsKept h h
IsKept-refl h = record {
  same_cnt = refl;
  same_hash = refl;
  same_less = refl;
  same_held = λ x. refl;
}

length-elements_none : (n : ℕ) → length (elements n (λ i. [])) ≡ 0
length-elements_none zero = refl
length-elements_none (suc n) = omega (arith, length_step n (λ i. []), length-elements_none n)

is_equal-kept : (h h' : Hash) (x y : ℕ) → h'.less ≡ h.less → is_equal h' x y ≡ is_equal h x y
is_equal-kept h h' x y e = rw e

-- The table with its elements in new buckets.
moved_lem :
    (h : Hash) (cnt : ℕ)
    → IsValid h
    → 0 < cnt
    → let h' =
        move_buckets h.bucket_cnt h.buckets (record h { bucket_cnt = cnt; buckets = λ i. [] }) in
      IsValid h' × IsKept h h'
moved_lem h cnt v pos =
    let h0 = record h { bucket_cnt = cnt; buckets = λ i. [] } in
    let h' = move_buckets h.bucket_cnt h.buckets h0 in
    let m = move_buckets-IsMoved h.bucket_cnt h.buckets h0 pos in
    let same : (x : ℕ) → held h' x ≡ held h x =
      λ x. omega (arith, m.all_held x, count-elements_out cnt x (λ i. []) (λ j lt. refl)) in
    (
      record {
        some_bucket = omega (arith, m.same_buckets);
        placed = λ i x ne.
            m.all_placed (λ j y no_one. absurd (no_one refl)) i x ne
            ∙ sym (find_bucket-fields h0 h' x m.same_hash m.same_buckets);
        counted = omega (arith, v.counted, m.same_cnt, m.all_length, length-elements_none cnt);
        null_out = omega (arith, same 0, v.null_out);
        once = λ x. omega (arith, same x, v.once x);
        apart = λ x y nx ny e.
            v.apart x y (λ z. nx (same x ∙ z)) (λ z. ny (same y ∙ z))
              (sym (is_equal-kept h h' x y m.same_less) ∙ e);
      },
      record {
        same_cnt = m.same_cnt;
        same_hash = m.same_hash;
        same_less = m.same_less;
        same_held = same;
      },
    )

-- Where the elements are moved, the number of buckets is new_bucket_cnt.
pub rehash_lem :
    (got : Bool) (h : Hash) → IsValid h → IsValid (rehash got h) × IsKept h (rehash got h)
unfolding rehash
rehash_lem true h v = elim (Bool-cases (new_bucket_cnt h.elem_cnt == h.bucket_cnt)) [
  | inl t ↦ rw t (v, IsKept-refl h)
  | inr f ↦ rw f (
      moved_lem h (new_bucket_cnt h.elem_cnt) v (
        omega
          (arith, is_power_of_2_zero (new_bucket_cnt h.elem_cnt) (new_bucket_cnt_lem h.elem_cnt))))
]
rehash_lem false h v = elim (Bool-cases (new_bucket_cnt h.elem_cnt == h.bucket_cnt)) [
  | inl t ↦ rw t (v, IsKept-refl h)
  | inr f ↦ rw f (v, IsKept-refl h)
]
