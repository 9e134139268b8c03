-- ===== src/Base/Queues.antt =====
-- Queues of element addresses, as the kernel's lists hold them: membership, counting, removal and
-- functions that are changed at one place.
use Prim.Native.Nat.{ℕ, ◌+◌, ◌-◌}
use mathlib.Core.Path.{◌≡◌, refl}
use mathlib.Core.Logic.{◌≢◌}
use mathlib.Core.List.{List, [], ◌∷◌, ◌++◌}
use native.Mathlib.Omega.{arith}
use pintos_project.Base.Tests.{◌==◌, if◌then◌else◌}

-- How often `x` stands in a queue.
abbrev pub count : ℕ → List ℕ → ℕ
count x [] = 0
count x (y ∷ ys) = (if y == x then 1 else 0) + count x ys

-- The queue with the first occurrence of `x` unlinked.
abbrev pub erase : ℕ → List ℕ → List ℕ
erase x [] = []
erase x (y ∷ ys) = if y == x then ys else y ∷ erase x ys

pub count-append : (x : ℕ) (xs ys : List ℕ) → count x (xs ++ ys) ≡ count x xs + count x ys
count-append x [] ys = omega arith
count-append x (y ∷ xs) ys = ground (arith, count-append x xs ys)

pub count-snoc :
    (x y : ℕ) (xs : List ℕ) → count x (xs ++ y ∷ []) ≡ count x xs + (if y == x then 1 else 0)
count-snoc x y [] = ground arith
count-snoc x y (z ∷ xs) = ground (arith, count-snoc x y xs)

pub count-erase_self : (x : ℕ) (xs : List ℕ) → count x (erase x xs) ≡ count x xs - 1
count-erase_self x [] = refl
count-erase_self x (y ∷ xs) = ground (arith, count-erase_self x xs)

pub count-erase_ne : (x y : ℕ) (xs : List ℕ) → y ≢ x → count x (erase y xs) ≡ count x xs
count-erase_ne x y [] h = refl
count-erase_ne x y (z ∷ xs) h = ground (arith, count-erase_ne x y xs)

pub erase_of_count_zero : (x : ℕ) (xs : List ℕ) → count x xs ≡ 0 → erase x xs ≡ xs
erase_of_count_zero x [] h = refl
erase_of_count_zero x (y ∷ xs) h = ground (arith, erase_of_count_zero x xs)

-- A function changed at one argument.
abbrev pub update {ℓ} : {A : Type ℓ} → (ℕ → A) → ℕ → A → ℕ → A
update f i v j = if i == j then v else f j

pub update_self {ℓ} : {A : Type ℓ} (f : ℕ → A) (i : ℕ) (v : A) → update f i v i ≡ v
update_self f i v = ground arith

pub update_ne {ℓ} : {A : Type ℓ} (f : ℕ → A) (i j : ℕ) (v : A) → i ≢ j → update f i v j ≡ f j
update_ne f i j v h = ground arith
