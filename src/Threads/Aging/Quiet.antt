-- ===== src/Threads/Aging/Quiet.antt =====
-- Aging touches no status and no interrupt state.
use pintos_project.Base.{
  Bool, true, some, ◌≡◌, ◌∙◌, refl, if◌then◌else◌, assert_passes, ℕ, zero, suc, List, [], ◌∷◌,
  false, arith,
}
use pintos_project.Threads.FixedPoint.{pri_max}
use pintos_project.Threads.Kernel.{Kernel, intr_yield_on_return}
use pintos_project.Threads.Kernel.Quiet.{IsQuiet, IsQuiet-refl, IsQuiet-trans, flag_set-IsQuiet}
use pintos_project.Threads.Aging.{Pass, raise, age_one, age_level, age_below, aged, thread_aging}

age_one-IsQuiet : (s : Pass) (t : ℕ) → IsQuiet s.kernel (age_one s t).kernel
unfolding age_one raise
age_one-IsQuiet s t = record {
  status = λ u. ground arith;
  name = λ u. ground arith;
  idle = ground arith;
  current = ground arith;
  ticks = ground arith;
  intr = ground arith;
  external = ground arith;
  aging = ground arith;
  flag = λ e. ground (arith, e);
}

age_level-IsQuiet : (s : Pass) (ts : List ℕ) → IsQuiet s.kernel (age_level s ts).kernel
unfolding age_level
age_level-IsQuiet s [] = IsQuiet-refl s.kernel
age_level-IsQuiet s (t ∷ ts) =
    IsQuiet-trans _ _ _ (age_one-IsQuiet s t) (age_level-IsQuiet (age_one s t) ts)

age_below-IsQuiet : (n : ℕ) (s : Pass) → IsQuiet s.kernel (age_below n s).kernel
unfolding age_below
age_below-IsQuiet zero s = IsQuiet-refl s.kernel
age_below-IsQuiet (suc i) s =
    IsQuiet-trans _ _ _ (age_level-IsQuiet s (s.kernel.ready i)) (age_below-IsQuiet i _)

pub aged-IsQuiet : (k : Kernel) → IsQuiet k (aged k)
unfolding aged
aged-IsQuiet k =
    IsQuiet-trans _ _ _ (age_below-IsQuiet pri_max (record { kernel = k; yield = false }))
      (flag_set-IsQuiet _ _)

-- In an external interrupt the request to yield is granted.
pub thread_aging_lem : (k : Kernel) → k.in_external ≡ true → thread_aging k ≡ some (aged k)
unfolding thread_aging aged
thread_aging_lem k ext =
    let s = age_below pri_max (record { kernel = k; yield = false }) in
    grant s.yield s.kernel
      ((age_below-IsQuiet pri_max (record { kernel = k; yield = false })).external ∙ ext)
  where
    grant :
        (b : Bool) (k' : Kernel)
        → k'.in_external ≡ true
        → (if b then intr_yield_on_return k' else some k')
          ≡ some (if b then record k' { yield_on_return = true } else k')
    grant true k' e = assert_passes k'.in_external _ e refl
    grant false k' e = refl
