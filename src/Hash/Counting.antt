-- ===== src/Hash/Counting.antt =====
-- The elements of the buckets of Hash, counted.
use Prim.Native.Nat.{bit_and, bit_and-bitwise, digits, min}
use pintos_project.Base.{
  ℕ, zero, suc, ◌+◌, ◌-◌, ◌/◌, ◌≤◌, ◌<◌, ◌≡◌, ◌≢◌, refl, List, [], ◌∷◌, ◌==◌, if◌then◌else◌, update,
  erase, count, count-append, length, length-append, arith,
}
use pintos_project.Hash.{elements}

pub count_step :
    (n x : ℕ) (b : ℕ → List ℕ)
    → count x (elements (suc n) b) ≡ count x (elements n b) + count x (b n)
count_step n x b = count-append x (elements n b) (b n)

pub length_step :
    (n : ℕ) (b : ℕ → List ℕ) → length (elements (suc n) b) ≡ length (elements n b) + length (b n)
length_step n b = length-append (elements n b) (b n)

count-elements_beyond :
    (n i x : ℕ) (b : ℕ → List ℕ) (ys : List ℕ)
    → n ≤ i
    → count x (elements n (update b i ys)) ≡ count x (elements n b)
count-elements_beyond zero i x b ys h = refl
count-elements_beyond (suc n) i x b ys h =
    ground
      (arith, count_step n x b, count_step n x (update b i ys), count-elements_beyond n i x b ys)

pub count-elements-update :
    (n i x : ℕ) (b : ℕ → List ℕ) (ys : List ℕ)
    → i < n
    → count x (elements n (update b i ys)) + count x (b i) ≡ count x (elements n b) + count x ys
count-elements-update zero i x b ys h = absurd (omega arith)
count-elements-update (suc n) i x b ys h = ground (
  arith,
  count_step n x b,
  count_step n x (update b i ys),
  count-elements-update n i x b ys,
  count-elements_beyond n i x b ys,
)

length-elements_above :
    (n i : ℕ) (b : ℕ → List ℕ) (ys : List ℕ)
    → n ≤ i
    → length (elements n (update b i ys)) ≡ length (elements n b)
length-elements_above zero i b ys h = refl
length-elements_above (suc n) i b ys h =
    ground (arith, length_step n b, length_step n (update b i ys), length-elements_above n i b ys)

pub length-elements-update :
    (n i : ℕ) (b : ℕ → List ℕ) (ys : List ℕ)
    → i < n
    → length (elements n (update b i ys)) + length (b i) ≡ length (elements n b) + length ys
length-elements-update zero i b ys h = absurd (omega arith)
length-elements-update (suc n) i b ys h = ground (
  arith,
  length_step n b,
  length_step n (update b i ys),
  length-elements-update n i b ys,
  length-elements_above n i b ys,
)

-- An element that stands in no bucket but one.
pub count-elements_out :
    (n x : ℕ) (b : ℕ → List ℕ) → ((j : ℕ) → j < n → count x (b j) ≡ 0) → count x (elements n b) ≡ 0
count-elements_out zero x b out = refl
count-elements_out (suc n) x b out =
    ground (arith, count_step n x b, out n, count-elements_out n x b (λ j lt. out j (omega arith)))

pub count-elements_in :
    (n i x : ℕ) (b : ℕ → List ℕ)
    → i < n
    → ((j : ℕ) → j ≢ i → count x (b j) ≡ 0)
    → count x (elements n b) ≡ count x (b i)
count-elements_in n i x b lt out = ground (
  arith,
  count-elements-update n i x b [] lt,
  count-elements_out n x (update b i []) (λ j jl. ground (arith, out j)),
)

-- Erasing from every bucket.
pub count-erase :
    (x y : ℕ) (xs : List ℕ) → count x (erase y xs) ≡ count x xs - (if y == x then 1 else 0)
count-erase x y [] = ground arith
count-erase x y (z ∷ xs) = ground (arith, count-erase x y xs)

pub length-erase :
    (y : ℕ) (xs : List ℕ) → count y xs ≤ 1 → length (erase y xs) + count y xs ≡ length xs
length-erase y [] h = refl
length-erase y (z ∷ xs) h = ground (arith, length-erase y xs)

pub length-elements-erase :
    (n y : ℕ) (b : ℕ → List ℕ)
    → ((j : ℕ) → count y (b j) ≤ 1)
    → length (elements n (λ i. erase y (b i))) + count y (elements n b) ≡ length (elements n b)
length-elements-erase zero y b h = refl
length-elements-erase (suc n) y b h = ground (
  arith,
  length_step n b,
  length_step n (λ i. erase y (b i)),
  count_step n y b,
  length-elements-erase n y b h,
  length-erase y (b n) (h n),
)

and_le : (n a b : ℕ) → digits (λ b. zero) min n a b ≤ b
and_le zero a b = omega arith
and_le (suc n) zero b = omega arith
and_le (suc n) (suc a) b = ground (arith, and_le n (suc a / 2) (b / 2))

pub bit_and_le : (a b : ℕ) → bit_and a b ≤ b
bit_and_le a b = rw (bit_and-bitwise a b) (and_le a a b)
