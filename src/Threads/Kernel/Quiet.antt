-- ===== src/Threads/Kernel/Quiet.antt =====
-- What a change of priorities and CPU accounts leaves alone in a kernel.
use pintos_project.Base.{ℕ, ◌≡◌, refl, ◌∙◌, Bool, true, false, if◌then◌else◌}
use pintos_project.Threads.Kernel.{Kernel}

-- What a tick's work on the priorities does not touch; a yield that was asked for stays asked for.
pub record IsQuiet (o k : Kernel) : Type 0 where
  pub status : (u : ℕ) → (k.threads u).status ≡ (o.threads u).status
  pub name : (u : ℕ) → (k.threads u).name ≡ (o.threads u).name
  pub idle : k.idle ≡ o.idle
  pub current : k.current ≡ o.current
  pub ticks : k.ticks ≡ o.ticks
  pub intr : k.intr_on ≡ o.intr_on
  pub external : k.in_external ≡ o.in_external
  pub aging : k.aging ≡ o.aging
  pub flag : o.yield_on_return ≡ true → k.yield_on_return ≡ true

pub IsQuiet-refl : (k : Kernel) → IsQuiet k k
IsQuiet-refl k = record {
  status = λ u. refl;
  name = λ u. refl;
  idle = refl;
  current = refl;
  ticks = refl;
  intr = refl;
  external = refl;
  aging = refl;
  flag = λ e. e;
}

pub IsQuiet-trans : (a b c : Kernel) → IsQuiet a b → IsQuiet b c → IsQuiet a c
IsQuiet-trans a b c p q = record {
  status = λ u. q.status u ∙ p.status u;
  name = λ u. q.name u ∙ p.name u;
  idle = q.idle ∙ p.idle;
  current = q.current ∙ p.current;
  ticks = q.ticks ∙ p.ticks;
  intr = q.intr ∙ p.intr;
  external = q.external ∙ p.external;
  aging = q.aging ∙ p.aging;
  flag = λ e. q.flag (p.flag e);
}

pub flag_set-IsQuiet :
    (b : Bool) (k : Kernel) → IsQuiet k (if b then record k { yield_on_return = true } else k)
flag_set-IsQuiet true k = record {
  status = λ u. refl;
  name = λ u. refl;
  idle = refl;
  current = refl;
  ticks = refl;
  intr = refl;
  external = refl;
  aging = refl;
  flag = λ e. refl;
}
flag_set-IsQuiet false k = IsQuiet-refl k
