-- ===== src/Syscall/Numbers.antt =====
-- The calls that compute with numbers.
use pintos_project.Base.{
  ℕ, zero, suc, ◌+◌, ◌%◌, ◌^◌, ◌<◌, ◌≡◌, refl, ap, ◌∙◌, ◌==◌, leb, arith, if_false,
}
use pintos_project.Syscall.{fibonacci_from, fibonacci}

-- The Fibonacci numbers.
abbrev pub fib : ℕ → ℕ
fib zero = 0
fib (suc zero) = 1
fib (suc (suc n)) = fib (suc n) + fib n

sum_lem : (k : ℕ) → (fib k % 2 ^ 32 + fib (suc k) % 2 ^ 32) % 2 ^ 32 ≡ fib (suc (suc k)) % 2 ^ 32
sum_lem k = omega arith

fibonacci_from_lem :
    (n k : ℕ)
    → fibonacci_from (suc n) (fib k % 2 ^ 32) (fib (suc k) % 2 ^ 32)
      ≡ fib (suc (suc (k + n))) % 2 ^ 32
unfolding fibonacci_from
fibonacci_from_lem zero k = sum_lem k ∙ ap (λ x. fib (suc (suc x)) % 2 ^ 32) (omega arith)
fibonacci_from_lem (suc n) k =
    if_false (suc n == 0) _ _ (ground arith)
    ∙ ap (λ x. fibonacci_from (suc n) (fib (suc k) % 2 ^ 32) x) (sum_lem k)
    ∙ fibonacci_from_lem n (suc k)
    ∙ ap (λ x. fib (suc (suc x)) % 2 ^ 32) (omega arith)

-- sys_fibonacci of a number below 2 ^ 31 returns that Fibonacci number, as far as 32 bits hold it.
pub fibonacci_lem : (n : ℕ) → n < 2 ^ 31 → fibonacci n ≡ fib n % 2 ^ 32
unfolding fibonacci
fibonacci_lem zero h = refl
fibonacci_lem (suc zero) h = refl
fibonacci_lem (suc (suc n)) h =
    if_false (suc (suc n) == 0) _ _ (ground arith)
    ∙ if_false (suc (suc n) == 1) _ _ (ground arith)
    ∙ if_false (leb (2 ^ 31) (suc (suc n))) _ _ (ground (arith, h))
    ∙ ap (λ x. fibonacci_from x 0 1) (omega arith)
    ∙ fibonacci_from_lem n 0
    ∙ ap (λ x. fib (suc (suc x)) % 2 ^ 32) (omega arith)
