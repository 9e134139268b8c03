-- ===== src/Directory/Searching.antt =====
-- The loop over the entries of a directory.
use pintos_project.Base.{
  ℕ, zero, suc, ◌+◌, ◌*◌, ◌/◌, ◌≤◌, ◌<◌, ◌≡◌, refl, sym, ap, ◌∙◌, inl, inr, Bool, true, false, not,
  ◌&&◌, List, Option, none, some, ◌>>=◌, ◌==◌, if◌then◌else◌, leb, ltb, length, arith, Bool-cases,
  if_true, some->>=,
}
use pintos_project.Inode.{Block, Inode, inode_read_at}
use pintos_project.Inode.Reading.{OnDevice, IsRead, byte_at, moved, inode_read_at_lem}
use pintos_project.Files.{word_at}
use pintos_project.Directory.{find_from, lookup, rounds}
use pintos_project.Directory.Records.{entry_at, AreSame, matches, matches_same}

-- The sector of the first entry that passes a test, of `n` entries from `k` on.
abbrev pub search : ((ℕ → ℕ) → Bool) → Block → Inode → ℕ → ℕ → Option ℕ
search test d inode k zero = none
search test d inode k (suc n) =
    if test (entry_at d inode k)
    then some (word_at (entry_at d inode k) 0)
    else search test d inode (suc k) n

-- The sector in what the loop returns.
abbrev pub sector_of : Bool × (ℕ → ℕ) × ℕ → Option (Option ℕ)
sector_of (found, e, ofs) = some (if found then some (word_at e 0) else none)

-- One read of the loop, which is whole before the last entry and short behind it.
module _ (d : Block) (inode : Inode) (on : OnDevice d inode) (e : ℕ → ℕ) (k : ℕ) where
  whole_read :
      k < inode.length / 20
      → (e' : ℕ → ℕ) × (inode_read_at true d inode e 20 (20 * k) ≡ some (e', 20))
        × AreSame e' (entry_at d inode k)
  whole_read h =
      let (e', r, w) = inode_read_at_lem d inode e 20 (20 * k) on in
      let count : moved inode 20 (20 * k) ≡ 20 = ground (arith, h) in
      (e', r ∙ ap (λ c. some (e', c)) count, same e' w count)
    where
      same :
          (e' : ℕ → ℕ)
          → IsRead d inode e (moved inode 20 (20 * k)) (20 * k) 0 e'
          → moved inode 20 (20 * k) ≡ 20
          → AreSame e' (entry_at d inode k)
      same e' w count j hj =
          w j
          ∙ if_true (leb 0 j && ltb j (0 + moved inode 20 (20 * k))) _ (e j)
              (ground (arith, count, hj))
          ∙ ap (λ p. byte_at d inode p) (omega arith)

  short_read :
      k ≡ inode.length / 20
      → (e' : ℕ → ℕ) × (count : ℕ) × (inode_read_at true d inode e 20 (20 * k) ≡ some (e', count))
        × ((count == 20) ≡ false)
  short_read h =
      let (e', r, w) = inode_read_at_lem d inode e 20 (20 * k) on in
      (e', moved inode 20 (20 * k), r, ground (arith, h))

pub word_same : (e e' : ℕ → ℕ) → AreSame e e' → word_at e 0 ≡ word_at e' 0
word_same e e' h =
    rw (h 0 (omega arith), h 1 (omega arith), h 2 (omega arith), h 3 (omega arith)) refl

-- A test that looks at the 20 bytes of an entry only.
abbrev pub IsLocal : ((ℕ → ℕ) → Bool) → Type 0
IsLocal test = (e e' : ℕ → ℕ) → AreSame e e' → test e ≡ test e'

-- How the loop ends.
pub data Ended (test : (ℕ → ℕ) → Bool) (d : Block) (inode : Inode) (k n : ℕ)
    : Bool × (ℕ → ℕ) × ℕ → Type 0 where
  stopped :
      {e : ℕ → ℕ} {i : ℕ}
      → k ≤ i
      → i < k + n
      → test (entry_at d inode i) ≡ true
      → AreSame e (entry_at d inode i)
      → search test d inode k n ≡ some (word_at e 0)
      → Ended test d inode k n (true, e, 20 * i)
  exhausted :
      {e : ℕ → ℕ} {ofs : ℕ}
      → ofs ≡ 20 * (k + n)
      → ((i : ℕ) → k ≤ i → i < k + n → test (entry_at d inode i) ≡ false)
      → search test d inode k n ≡ none
      → Ended test d inode k n (false, e, ofs)

later :
    (test : (ℕ → ℕ) → Bool) (d : Block) (inode : Inode) (k n : ℕ) (q : Bool × (ℕ → ℕ) × ℕ)
    → test (entry_at d inode k) ≡ false
    → Ended test d inode (suc k) n q
    → Ended test d inode k (suc n) q
later test d inode k n q off (stopped lo hi y same s) =
    stopped (omega (arith, lo)) (omega (arith, hi)) y same (rw off s)
later test d inode k n q off (exhausted end all s) =
    exhausted (omega (arith, end)) (λ i lo hi. skip i (all i) lo hi) (rw off s)
  where
    skip :
        (i : ℕ)
        → (suc k ≤ i → i < suc k + n → test (entry_at d inode i) ≡ false)
        → k ≤ i
        → i < k + suc n
        → test (entry_at d inode i) ≡ false
    skip i rest lo hi = elim (Bool-cases (i == k)) [
      | inl y ↦ let e : i ≡ k = ground (arith, y) in rw e off
      | inr m ↦ rest (ground (arith, lo, m)) (omega (arith, hi))
    ]

abbrev pub EndsAt : ((ℕ → ℕ) → Bool) → Block → Inode → (ℕ → ℕ) → ℕ → ℕ → Type 0
EndsAt test d inode e k n =
    (r : Bool × (ℕ → ℕ) × ℕ) × (find_from test (suc n) true d inode e (20 * k) ≡ some r)
    × Ended test d inode k n r

-- The loop over `n` entries, in one round more than them, comes to an end: at the first that passes the
-- test, or behind the last.
pub find_from_lem :
    (test : (ℕ → ℕ) → Bool) (d : Block) (inode : Inode)
    → IsLocal test
    → OnDevice d inode
    → (n k : ℕ) (e : ℕ → ℕ) → k + n ≡ inode.length / 20
    → EndsAt test d inode e k n
unfolding find_from
find_from_lem test d inode local on zero k e h =
    let (e', count, r, short) = short_read d inode on e k (omega (arith, h)) in
    (
      (false, e', 20 * k),
      some->>= (inode_read_at true d inode e 20 (20 * k)) _ r
          (if_true (not (count == 20)) _ _ (ap not short)),
      exhausted (omega arith) (λ i lo hi. absurd (omega (arith, lo, hi))) refl,
    )
find_from_lem test d inode local on (suc n) k e h =
    let (e', r, same) = whole_read d inode on e k (omega (arith, h)) in
    let here = local e' (entry_at d inode k) same in
    elim (Bool-cases (test (entry_at d inode k))) [
      | inl y ↦ (
        (true, e', 20 * k),
        some->>= (inode_read_at true d inode e 20 (20 * k)) _ r (rw (here, y) refl),
        stopped (omega arith) (omega arith) y same
            (rw y (ap some (sym (word_same e' (entry_at d inode k) same)))),
      )
      | inr off ↦
          let (q, s, x) = find_from_lem test d inode local on n (suc k) e' (omega (arith, h)) in
          (
            q,
            some->>= (inode_read_at true d inode e 20 (20 * k)) _ r (
                rw (here, off)
                  (ap (λ o. find_from test (suc n) true d inode e' o) (omega arith) ∙ s)),
            later test d inode k n q off x,
          )
    ]

-- lookup of a name of 14 characters at most, in a directory whose sectors lie on the device, comes to an
-- end: the sector that it finds is that of the first entry in use that has the name.
pub lookup_lem :
    (garbage : ℕ → ℕ) (name : List ℕ) (d : Block) (inode : Inode)
    → OnDevice d inode
    → length name ≤ 14
    → (lookup true garbage name d inode >>= sector_of)
      ≡ some (search (matches name) d inode 0 (inode.length / 20))
unfolding lookup
lookup_lem garbage name d inode on short =
    let (r, e, x) =
      find_from_lem (matches name) d inode (λ a b h. matches_same name a b h short) on
        (inode.length / 20) 0 garbage (omega arith) in
    some->>= (find_from (matches name) (rounds inode) true d inode garbage 0) sector_of e
      (ended r x)
  where
    ended :
        (r : Bool × (ℕ → ℕ) × ℕ)
        → Ended (matches name) d inode 0 (inode.length / 20) r
        → sector_of r ≡ some (search (matches name) d inode 0 (inode.length / 20))
    ended r (stopped lo hi y same s) = ap some (sym s)
    ended r (exhausted end all s) = ap some (sym s)
