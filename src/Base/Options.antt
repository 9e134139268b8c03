-- ===== src/Base/Options.antt =====
-- Fallible steps: `none` is a kernel panic, from an ASSERT that does not hold or a PANIC.
use mathlib.Core.Path.{◌≡◌, refl}
use mathlib.Core.Bool.{Bool, true, false}
use mathlib.Core.Option.{Option, none, some}

infixl 5 ◌>>=◌ ◌>>◌
abbrev pub ◌>>=◌ {ℓ κ} : {A : Type ℓ} {B : Type κ} → Option A → (A → Option B) → Option B
none >>= f = none
some a >>= f = f a

abbrev pub ◌>>◌ {ℓ} : {B : Type ℓ} → Option (Unit {0}) → Option B → Option B
m >> k = m >>= λ _. k

-- ASSERT (condition)
abbrev pub assert : Bool → Option (Unit {0})
assert true = some tt
assert false = none

-- Inversion of a successful bind.
pub >>=-eq-some {ℓ κ} :
    {A : Type ℓ} {B : Type κ} (m : Option A) (f : A → Option B) {b : B}
    → (m >>= f) ≡ some b
    → (a : A) × (m ≡ some a) × (f a ≡ some b)
>>=-eq-some none f h = absurd (cc)
>>=-eq-some (some a) f h = (a, refl, h)

pub >>-eq-some {ℓ} :
    {B : Type ℓ} (c : Bool) (m : Option B) {b : B}
    → (assert c >> m) ≡ some b
    → (c ≡ true) × (m ≡ some b)
>>-eq-some true m h = (refl, h)
>>-eq-some false m h = absurd (cc)

-- An assertion that holds is passed.
pub assert_passes {ℓ} :
    {B : Type ℓ} (c : Bool) (m : Option B) {r : Option B} → c ≡ true → m ≡ r → (assert c >> m) ≡ r
assert_passes true m h e = e
assert_passes false m h e = absurd (cc)

-- A bind after a step that succeeds.
pub some->>= {ℓ κ} :
    {A : Type ℓ} {B : Type κ} (m : Option A) (f : A → Option B) {a : A} {r : Option B}
    → m ≡ some a
    → f a ≡ r
    → (m >>= f) ≡ r
some->>= m f e e' = rw e e'
