-- ===== src/Directory/Records.antt =====
-- The entries of a directory as records of bytes, and their names.
use pintos_project.Base.{
  ℕ, zero, suc, ◌+◌, ◌-◌, ◌*◌, ◌^◌, ◌≤◌, ◌<◌, ◌≡◌, refl, sym, ap, ◌∙◌, ◌≢◌, Bool, true, false, ◌&&◌,
  List, [], ◌∷◌, ◌==◌, length, get_or, arith, ltb, if_true, if_false, Bool-cases, inl, inr,
}
use pintos_project.Inode.{Block, Inode}
use pintos_project.Inode.Reading.{byte_at}
use pintos_project.Files.{word_at}
use pintos_project.Directory.{in_use, name_is, new_entry}

-- The entry of a number.
abbrev pub entry_at : Block → Inode → ℕ → ℕ → ℕ
entry_at d inode k j = byte_at d inode (20 * k + j)

-- Two entries with the same 20 bytes.
abbrev pub AreSame : (ℕ → ℕ) → (ℕ → ℕ) → Type 0
AreSame e e' = (j : ℕ) → j < 20 → e j ≡ e' j

abbrev pub matches : List ℕ → (ℕ → ℕ) → Bool
matches name e = in_use e && name_is name e 4

-- Characters of a name: none is NUL.
pub data IsName : List ℕ → Type 0 where
  empty : IsName []
  more : {c : ℕ} {cs : List ℕ} → c ≢ 0 → IsName cs → IsName (c ∷ cs)

name_is_same :
    (name : List ℕ) (e e' : ℕ → ℕ) (i : ℕ)
    → AreSame e e'
    → i + length name < 20
    → name_is name e i ≡ name_is name e' i
name_is_same [] e e' i h fits = rw (h i (omega (arith, fits))) refl
name_is_same (c ∷ cs) e e' i h fits =
    rw (h i (omega (arith, fits)), name_is_same cs e e' (i + 1) h (omega (arith, fits))) refl

pub matches_same :
    (name : List ℕ) (e e' : ℕ → ℕ)
    → AreSame e e'
    → length name ≤ 14
    → matches name e ≡ matches name e'
matches_same name e e' h short =
    rw (h 19 (omega arith), name_is_same name e e' 4 h (omega (arith, short))) refl

-- An entry has one name.
one_name :
    (x y : List ℕ) (e : ℕ → ℕ) (i : ℕ)
    → IsName x
    → IsName y
    → name_is x e i ≡ true
    → name_is y e i ≡ true
    → x ≡ y
one_name [] [] e i hx hy mx my = refl
one_name [] (c ∷ cs) e i hx (more ne hy) mx my = absurd (ground (arith, ne, mx, my))
one_name (c ∷ cs) [] e i (more ne hx) hy mx my = absurd (ground (arith, ne, mx, my))
one_name (c ∷ cs) (b ∷ bs) e i (more ne hx) (more nb hy) mx my =
    let first : c ≡ b = ground (arith, mx, my) in
    let restx : name_is cs e (i + 1) ≡ true = ground (arith, mx) in
    let resty : name_is bs e (i + 1) ≡ true = ground (arith, my) in
    let rest = one_name cs bs e (i + 1) hx hy restx resty in rw (first, rest) refl

-- A name that stands in an entry from `i` on.
written_name :
    (name : List ℕ) (e : ℕ → ℕ) (i : ℕ)
    → ((j : ℕ) → j ≤ length name → e (i + j) ≡ get_or name j 0)
    → name_is name e i ≡ true
written_name [] e i h =
    let z : e i ≡ 0 = ap e (omega arith) ∙ h 0 (omega arith) in ground (arith, z)
written_name (c ∷ cs) e i h =
    let first : e i ≡ c = ap e (omega arith) ∙ h 0 (omega arith) in
    let rest =
      written_name cs e (i + 1) (λ j le. ap e (omega arith) ∙ h (suc j) (omega (arith, le))) in
    rw rest (ground (arith, first))

get_or_end : (name : List ℕ) (j : ℕ) → length name ≤ j → get_or name j 0 ≡ 0
get_or_end [] j h = refl
get_or_end (c ∷ cs) zero h = absurd (omega (arith, h))
get_or_end (c ∷ cs) (suc j) h = get_or_end cs j (omega (arith, h))

new_entry_char :
    (name : List ℕ) (sector : ℕ) (e : ℕ → ℕ) (j : ℕ)
    → j ≤ length name
    → length name ≤ 14
    → new_entry name sector e (4 + j) ≡ get_or name j 0
new_entry_char name sector e j le short =
    let back : 4 + j - 4 ≡ j = omega arith in
    if_false (ltb (4 + j) 4) _ _ (ground arith)
    ∙ if_false (4 + j == 19) _ _ (ground (arith, le, short))
    ∙ rw back (elim (Bool-cases (ltb j (length name))) [
      | inl y ↦ rw y refl
      | inr n ↦ rw n (
          if_true (j == length name) 0 _ (ground (arith, le, n))
          ∙ sym (get_or_end name j (ground (arith, n))))
    ])

-- What dir_add writes is in use, has the name, and the sector.
pub new_entry-matches :
    (name : List ℕ) (sector : ℕ) (e : ℕ → ℕ)
    → length name ≤ 14
    → matches name (new_entry name sector e) ≡ true
new_entry-matches name sector e short =
    written_name name (new_entry name sector e) 4 (λ j le. new_entry_char name sector e j le short)

pub new_entry_sector :
    (name : List ℕ) (sector : ℕ) (e : ℕ → ℕ)
    → sector < 2 ^ 32
    → word_at (new_entry name sector e) 0 ≡ sector
new_entry_sector name sector e small = omega (arith, small)

pub new_entry_other :
    (name other : List ℕ) (sector : ℕ) (e : ℕ → ℕ)
    → length name ≤ 14
    → IsName name
    → IsName other
    → other ≢ name
    → matches other (new_entry name sector e) ≡ false
new_entry_other name other sector e short hn ho ne =
    elim (Bool-cases (name_is other (new_entry name sector e) 4)) [
      | inl y ↦ absurd (
          ne (
            one_name other name (new_entry name sector e) 4 ho hn y
              (new_entry-matches name sector e short)))
      | inr n ↦ n
    ]
