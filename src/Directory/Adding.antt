-- ===== src/Directory/Adding.antt =====
-- Adding an entry to a directory.
use pintos_project.Base.{
  ℕ, zero, suc, ◌+◌, ◌*◌, ◌/◌, ◌^◌, ◌≤◌, ◌<◌, ◌≡◌, refl, sym, ap, subst, ◌∙◌, ◌≢◌, inl, inr, Bool,
  true, false, not, ◌&&◌, ◌||◌, List, none, some, ◌>>=◌, ◌==◌, leb, ltb, length, arith, Bool-cases,
  if_true, if_false, some->>=,
}
use pintos_project.Inode.{Block, Inode, inode_write_at}
use pintos_project.Inode.Reading.{OnDevice, moved}
use pintos_project.Inode.Writing.{IsWritten, inode_write_at_lem}
use pintos_project.Files.{word_at}
use pintos_project.Directory.{in_use, find_from, lookup, new_entry, name_max, dir_add}
use pintos_project.Directory.Records.{
  entry_at, AreSame, IsName, matches, matches_same, new_entry-matches, new_entry_sector,
  new_entry_other,
}
use pintos_project.Directory.Searching.{
  search, sector_of, word_same, Ended, stopped, exhausted, find_from_lem, lookup_lem,
}

-- One entry passes the test, or none does.
search_found :
    (test : (ℕ → ℕ) → Bool) (d : Block) (inode : Inode) (i n k : ℕ)
    → k ≤ i
    → i < k + n
    → test (entry_at d inode i) ≡ true
    → ((m : ℕ) → m ≢ i → k ≤ m → m < k + n → test (entry_at d inode m) ≡ false)
    → search test d inode k n ≡ some (word_at (entry_at d inode i) 0)
search_found test d inode i zero k lo hi y others = absurd (omega (arith, lo, hi))
search_found test d inode i (suc n) k lo hi y others = elim (Bool-cases (k == i)) [
  | inl e ↦ let same : k ≡ i = ground (arith, e) in rw (same, y) refl
  | inr m ↦
      let ne : k ≢ i = ground (arith, m) in
      rw (others k ne (omega arith) (omega arith)) (
        search_found test d inode i n (suc k) (omega (arith, lo, ne)) (omega (arith, hi)) y
          (λ j q l h. others j q (omega (arith, l)) (omega (arith, h))))
]

search_same :
    (test : (ℕ → ℕ) → Bool) (d d' : Block) (inode : Inode) (n k : ℕ)
    → ((m : ℕ) → k ≤ m → m < k + n → test (entry_at d' inode m) ≡ test (entry_at d inode m))
    → ((m : ℕ)
        → k ≤ m
        → m < k + n
        → test (entry_at d inode m) ≡ true
        → word_at (entry_at d' inode m) 0 ≡ word_at (entry_at d inode m) 0)
    → search test d' inode k n ≡ search test d inode k n
search_same test d d' inode zero k same words = refl
search_same test d d' inode (suc n) k same words =
    let rest =
      search_same test d d' inode n (suc k) (λ m l h. same m (omega (arith, l)) (omega (arith, h)))
        (λ m l h. words m (omega (arith, l)) (omega (arith, h))) in
    elim (Bool-cases (test (entry_at d inode k))) [
      | inl y ↦
          rw (same k (omega arith) (omega arith), y)
            (ap some (words k (omega arith) (omega arith) y))
      | inr off ↦ rw (same k (omega arith) (omega arith), off) rest
    ]

-- A write of an entry to the place of the entry `i`.
module _ (d d' : Block) (inode : Inode) (buffer : ℕ → ℕ) (i : ℕ) (h : i < inode.length / 20)
    (w : IsWritten d inode buffer 20 (20 * i) 0 d') where
  written_same : AreSame (entry_at d' inode i) buffer
  written_same j hj =
      w.bytes (20 * i + j)
      ∙ if_true (leb (20 * i) (20 * i + j) && ltb (20 * i + j) (20 * i + 20)) _ _
          (ground (arith, hj))
      ∙ ap buffer (omega arith)

  others_same : (m : ℕ) → m ≢ i → AreSame (entry_at d' inode m) (entry_at d inode m)
  others_same m ne j hj =
      w.bytes (20 * m + j)
      ∙ if_false (leb (20 * i) (20 * m + j) && ltb (20 * m + j) (20 * i + 20)) _ _
          (ground (arith, hj, ne))

not_found :
    (name : List ℕ) (d : Block) (inode : Inode) (r : Bool × (ℕ → ℕ) × ℕ)
    → Ended (matches name) d inode 0 (inode.length / 20) r
    → sector_of r ≡ some none
    → (r.0 ≡ false) × ((m : ℕ) → m < inode.length / 20 → matches name (entry_at d inode m) ≡ false)
not_found name d inode r (stopped lo hi y same s) q = absurd (cc (q))
not_found name d inode r (exhausted end all s) q =
    (refl, λ m h. all m (omega arith) (omega (arith, h)))

-- The free entry that the loop of dir_add stops at.
free_entry :
    (d : Block) (inode : Inode) (r : Bool × (ℕ → ℕ) × ℕ) (k : ℕ)
    → Ended (λ e. not (in_use e)) d inode 0 (inode.length / 20) r
    → k < inode.length / 20
    → in_use (entry_at d inode k) ≡ false
    → (i : ℕ) × (e : ℕ → ℕ) × (r ≡ (true, e, 20 * i))
      × (i < inode.length / 20)
      × (in_use (entry_at d inode i) ≡ false)
free_entry d inode r k (stopped {e} {i} lo hi y same s) h free =
    (i, e, refl, omega (arith, hi), ground (arith, y))
free_entry d inode r k (exhausted end all s) h free =
    absurd (ground (arith, free, all k (omega arith) (omega (arith, h))))

-- What dir_add leaves where it returns true.
pub record HasAdded (name : List ℕ) (sector : ℕ) (d : Block) (inode : Inode) (d' : Block)
    : Type 0 where
  pub device : OnDevice d' inode
  pub found :
      (garbage : ℕ → ℕ) → (lookup true garbage name d' inode >>= sector_of) ≡ some (some sector)
  pub others :
      (garbage : ℕ → ℕ) (other : List ℕ)
      → IsName other
      → length other ≤ 14
      → other ≢ name
      → (lookup true garbage other d' inode >>= sector_of)
        ≡ (lookup true garbage other d inode >>= sector_of)

-- The entry `i`, which was free, is written.
added :
    (name : List ℕ) (sector i : ℕ) (e : ℕ → ℕ) (d d' : Block) (inode : Inode)
    → OnDevice d inode
    → IsName name
    → length name ≤ 14
    → sector < 2 ^ 32
    → i < inode.length / 20
    → in_use (entry_at d inode i) ≡ false
    → ((m : ℕ) → m < inode.length / 20 → matches name (entry_at d inode m) ≡ false)
    → IsWritten d inode (new_entry name sector e) 20 (20 * i) 0 d'
    → HasAdded name sector d inode d'
added name sector i e d d' inode on hn short small hi unused all w =
    let n = inode.length / 20 in
    let buffer = new_entry name sector e in
    let here = written_same d d' inode buffer i hi w in
    let there = others_same d d' inode buffer i hi w in
    let on' : OnDevice d' inode = omega (arith, on, w.size) in
    record {
      device = on';
      found = λ garbage.
          lookup_lem garbage name d' inode on' short
          ∙ ap some (
              search_found (matches name) d' inode i n 0 (omega arith) (omega (arith, hi))
                (matches_same name (entry_at d' inode i) buffer here short
                  ∙ new_entry-matches name sector e short)
                (λ m ne lo h.
                  matches_same name (entry_at d' inode m) (entry_at d inode m) (there m ne) short
                  ∙ all m (omega (arith, h)))
              ∙ ap some (
                  word_same (entry_at d' inode i) buffer here
                  ∙ new_entry_sector name sector e small));
      others = λ garbage other ho so ne.
          lookup_lem garbage other d' inode on' so
          ∙ ap some (
              search_same (matches other) d d' inode n 0
                (λ m lo h. elim (Bool-cases (m == i)) [
                  | inl y ↦
                      let q : m ≡ i = ground (arith, y) in
                      rw q (
                        matches_same other (entry_at d' inode i) buffer here so
                        ∙ new_entry_other name other sector e short hn ho ne
                        ∙ sym (unused_matches other (entry_at d inode i) unused))
                  | inr y ↦
                      matches_same other (entry_at d' inode m) (entry_at d inode m)
                        (there m (ground (arith, y))) so
                ])
                (λ m lo h z. elim (Bool-cases (m == i)) [
                  | inl y ↦
                      let q : m ≡ i = ground (arith, y) in
                      let u : matches other (entry_at d inode m) ≡ false =
                        rw q (unused_matches other (entry_at d inode i) unused) in
                      absurd (cc (u, z))
                  | inr y ↦
                      word_same (entry_at d' inode m) (entry_at d inode m)
                        (there m (ground (arith, y)))
                ]))
          ∙ sym (lookup_lem garbage other d inode on so);
    }
  where
    unused_matches : (x : List ℕ) (f : ℕ → ℕ) → in_use f ≡ false → matches x f ≡ false
    unused_matches x f h = rw h refl

-- dir_add of a name of 1 to 14 characters that lookup does not find, with a sector below 2 ^ 32, to a
-- directory whose sectors lie on the device, that has a free entry and whose writes are not denied, where
-- every call gets the memory for its bounce buffer, returns true: lookup of the name then finds the sector
-- that was added, and lookup of any other name of at most 14 characters finds what it found before.
pub dir_add_lem :
    (garbage : ℕ → ℕ) (name : List ℕ) (sector k : ℕ) (d : Block) (inode : Inode)
    → OnDevice d inode
    → inode.deny_write_cnt ≡ 0
    → IsName name
    → 0 < length name
    → length name ≤ 14
    → sector < 2 ^ 32
    → (lookup true garbage name d inode >>= sector_of) ≡ some none
    → k < inode.length / 20
    → in_use (entry_at d inode k) ≡ false
    → (d' : Block) × (dir_add true garbage name sector d inode ≡ some (true, d'))
      × HasAdded name sector d inode d'
unfolding dir_add lookup
dir_add_lem garbage name sector k d inode on allowed hn some_char short small absent room free =
    let n = inode.length / 20 in
    let (r, e1, x) =
      find_from_lem (matches name) d inode (λ a b h. matches_same name a b h short) on n 0 garbage
        (omega arith) in
    let none_found : sector_of r ≡ some none =
      sym (some->>= (find_from (matches name) (suc n) true d inode garbage 0) sector_of e1 refl)
      ∙ absent in
    let (off, all) = not_found name d inode r x none_found in
    let (q, e2, y) =
      find_from_lem (λ e. not (in_use e)) d inode
        (λ a b h. ap (λ v. not (not (v == 0))) (h 19 (omega arith))) on n 0 garbage (omega arith) in
    let (i, e, q', hi, unused) = free_entry d inode q k y room free in
    let buffer = new_entry name sector e in
    let count : moved inode 20 (20 * i) ≡ 20 = ground (arith, hi) in
    elim (inode_write_at_lem d inode buffer 20 (20 * i) on) [
      | inl (denied, z) ↦ absurd (omega (arith, denied, allowed))
      | inr (_, d', z, w) ↦ (
        d',
        if_false (length name == 0 || ltb name_max (length name)) _ _
              (ground (arith, some_char, short))
            ∙ some->>= (find_from (matches name) (suc n) true d inode garbage 0) _ e1 (
                if_false r.0 _ _ off
                ∙ some->>= (find_from (λ e'. not (in_use e')) (suc n) true d inode garbage 0) _
                    (e2 ∙ ap some q')
                    (some->>= (inode_write_at true d inode buffer 20 (20 * i)) _ z
                      (ap (λ c. some (c == 20, d')) count))),
        added name sector i e d d' inode on hn short small hi unused all
            (subst (λ c. IsWritten d inode buffer c (20 * i) 0 d') count w),
      )
    ]
