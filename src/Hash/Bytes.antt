-- ===== src/Hash/Bytes.antt =====
-- hash_string hashes the characters before the terminator as hash_bytes does.
use Prim.Native.Nat.{bit_xor}
use pintos_project.Base.{
  ℕ, zero, suc, ◌+◌, ◌*◌, ◌%◌, ◌^◌, ◌<◌, ◌≡◌, ◌≢◌, sym, ap, ◌∙◌, ◌==◌, true, false, arith,
}
use pintos_project.Hash.{fnv_32_basis, hash_from, hash_string_from, hash_string, hash_bytes}

from_lem :
    (n len s hash : ℕ) (bytes : ℕ → ℕ)
    → len < n
    → bytes (s + len) ≡ 0
    → ((i : ℕ) → i < len → bytes (s + i) ≢ 0)
    → hash_string_from bytes hash s n ≡ hash_from bytes hash s len
unfolding hash_string_from hash_from
from_lem zero len s hash bytes lt ends inside = absurd (omega arith)
from_lem (suc n) zero s hash bytes lt ends inside =
    let at : s + 0 ≡ s = omega arith in
    let test : (bytes s == 0) ≡ true = ground (arith, ends, ap bytes at) in rw test
from_lem (suc n) (suc len) s hash bytes lt ends inside =
    let at : (i : ℕ) → s + 1 + i ≡ s + suc i = λ i. omega arith in
    let here : s + 0 ≡ s = omega arith in
    let test : (bytes s == 0) ≡ false = ground (arith, inside 0, ap bytes here) in
    rw test (
      from_lem n len (s + 1) (bit_xor (hash * 16777619 % 2 ^ 32) (bytes s)) bytes
        (omega (arith, lt)) (ap bytes (at len) ∙ ends)
        (λ i lt' z. inside (suc i) (omega (arith, lt')) (sym (ap bytes (at i)) ∙ z)))

-- hash_string of a string, with more rounds than it has characters, is hash_bytes of its characters, as
-- many as stand before the terminator.
pub hash_string-hash_bytes :
    (n len s : ℕ) (bytes : ℕ → ℕ)
    → len < n
    → bytes (s + len) ≡ 0
    → ((i : ℕ) → i < len → bytes (s + i) ≢ 0)
    → hash_string n bytes s ≡ hash_bytes bytes s len
unfolding hash_string hash_bytes
hash_string-hash_bytes n len s bytes lt ends inside =
    from_lem n len s fnv_32_basis bytes lt ends inside
