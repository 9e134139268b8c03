-- ===== src/Files/Denial.antt =====
-- Denied writes: the counts of an inode agree with the files that are open on it.
use pintos_project.Base.{
  ℕ, ◌+◌, ◌-◌, ◌≤◌, ◌<◌, ◌≡◌, refl, ap, sym, ◌∙◌, ◌≢◌, inl, inr, Bool, true, false, not, ◌&&◌, some,
  List, [], ◌∷◌, ◌==◌, ltb, leb, if◌then◌else◌, update, count, arith, Bool-cases, if_true, if_false,
  assert_passes, some->>=,
}
use pintos_project.Inode.{Inode, inode_deny_write, inode_allow_write}
use pintos_project.Files.{File, Files, set_inode, file_deny_write, file_allow_write}

-- How many files of a list are open on the inode `i`, and how many of them deny writes to it.
abbrev pub openers : (ℕ → File) → ℕ → List ℕ → ℕ
openers files i [] = 0
openers files i (f ∷ fs) = (if (files f).inode == i then 1 else 0) + openers files i fs

abbrev pub deniers : (ℕ → File) → ℕ → List ℕ → ℕ
deniers files i [] = 0
deniers files i (f ∷ fs) =
    (if (files f).inode == i && (files f).deny_write then 1 else 0) + deniers files i fs

-- Each live file is listed once, the count of denials of an inode is the number of files that deny writes
-- to it, and its count of openers covers the files that are open on it.
pub record AreCounted (s : Files) : Type 0 where
  pub once : (f : ℕ) → count f s.live ≤ 1
  pub denied : (i : ℕ) → (s.inodes i).deny_write_cnt ≡ deniers s.files i s.live
  pub opened : (i : ℕ) → openers s.files i s.live ≤ (s.inodes i).open_cnt

deniers-le : (files : ℕ → File) (i : ℕ) (fs : List ℕ) → deniers files i fs ≤ openers files i fs
deniers-le files i [] = omega arith
deniers-le files i (f ∷ fs) = ground (arith, deniers-le files i fs)

-- Changing the flag of one file.
flagged : (ℕ → File) → ℕ → Bool → ℕ → File
flagged files f b = update files f (record (files f) { deny_write = b })

openers-flagged :
    (files : ℕ → File) (f i : ℕ) (b : Bool) (fs : List ℕ)
    → openers (flagged files f b) i fs ≡ openers files i fs
unfolding flagged
openers-flagged files f i b [] = refl
openers-flagged files f i b (g ∷ fs) = ground (arith, openers-flagged files f i b fs)

deniers-flagged_out :
    (files : ℕ → File) (f i : ℕ) (b : Bool) (fs : List ℕ)
    → count f fs ≡ 0
    → deniers (flagged files f b) i fs ≡ deniers files i fs
unfolding flagged
deniers-flagged_out files f i b [] h = refl
deniers-flagged_out files f i b (g ∷ fs) h = ground (arith, h, deniers-flagged_out files f i b fs)

abbrev weight : Bool → ℕ
weight b = if b then 1 else 0

deniers-flagged :
    (files : ℕ → File) (f i : ℕ) (b : Bool) (fs : List ℕ)
    → count f fs ≡ 1
    → deniers (flagged files f b) i fs + weight ((files f).inode == i && (files f).deny_write)
      ≡ deniers files i fs + weight ((files f).inode == i && b)
unfolding flagged
deniers-flagged files f i b [] h = absurd (omega arith)
deniers-flagged files f i b (g ∷ fs) h = elim (Bool-cases (g == f)) [
  | inl e ↦ ground (arith, h, e, deniers-flagged_out files f i b fs)
  | inr n ↦ ground (arith, h, n, deniers-flagged files f i b fs)
]

-- A state in which the file `f` has its flag changed, and the inode's count with it.
counted_flagged :
    (s : Files) (f : ℕ) (b : Bool) (inode : Inode)
    → AreCounted s
    → count f s.live ≡ 1
    → inode.open_cnt ≡ (s.inodes (s.files f).inode).open_cnt
    → inode.deny_write_cnt ≡ deniers (flagged s.files f b) (s.files f).inode s.live
    → AreCounted (set_inode (s.files f).inode inode (record s { files = flagged s.files f b }))
counted_flagged s f b inode v h same_open same_deny = record {
  once = v.once;
  denied = λ i. elim (Bool-cases ((s.files f).inode == i)) [
    | inl e ↦
        let here : (s.files f).inode ≡ i = ground (arith, e) in
        ap (λ x. x.deny_write_cnt) (if_true ((s.files f).inode == i) inode (s.inodes i) e)
        ∙ same_deny
        ∙ ap (λ j. deniers (flagged s.files f b) j s.live) here
    | inr n ↦
        ap (λ x. x.deny_write_cnt) (if_false ((s.files f).inode == i) inode (s.inodes i) n)
        ∙ v.denied i
        ∙ sym (ground (arith, n, deniers-flagged s.files f i b s.live h))
  ];
  opened = λ i. ground (arith, v.opened i, same_open, openers-flagged s.files f i b s.live);
}

-- file_deny_write of a live file, with the counts in order, passes its assertions: the file denies writes
-- afterwards and the counts are in order again.
pub file_deny_write_lem :
    (f : ℕ) (s : Files)
    → AreCounted s
    → count f s.live ≡ 1
    → f ≢ 0
    → (s' : Files) × (file_deny_write f s ≡ some s')
      × AreCounted s'
      × ((s'.files f).deny_write ≡ true)
unfolding file_deny_write inode_deny_write
file_deny_write_lem f s v h nn = elim (Bool-cases (s.files f).deny_write) [
  | inl already ↦ (
    s,
    assert_passes (not (f == 0)) _ (ground (arith, nn))
        (if_false (not (s.files f).deny_write) _ _ (ap not already)),
    v,
    already,
  )
  | inr fresh ↦
      let i = (s.files f).inode in
      let inode : Inode = record (s.inodes i) {
        deny_write_cnt = (s.inodes i).deny_write_cnt + 1;
      } in
      let one_more : deniers (flagged s.files f true) i s.live ≡ deniers s.files i s.live + 1 =
        ground (arith, fresh, deniers-flagged s.files f i true s.live h) in
      let room : (s.inodes i).deny_write_cnt + 1 ≤ (s.inodes i).open_cnt = omega (
        arith,
        v.denied i,
        v.opened i,
        one_more,
        openers-flagged s.files f i true s.live,
        deniers-le (flagged s.files f true) i s.live,
      ) in
      (
        set_inode i inode (record s { files = flagged s.files f true }),
        assert_passes (not (f == 0)) _ (ground (arith, nn)) (
            if_true (not (s.files f).deny_write) _ _ (ap not fresh)
            ∙ some->>= (inode_deny_write (s.inodes i)) _
                (assert_passes (leb ((s.inodes i).deny_write_cnt + 1) (s.inodes i).open_cnt) _
                  (ground (arith, room)) refl)
                (unfold flagged in refl)),
        counted_flagged s f true inode v h refl (omega (arith, v.denied i, one_more)),
        unfold flagged in ground arith,
      )
]

-- What file_allow_write leaves.
pub record HasAllowed (f : ℕ) (s s' : Files) : Type 0 where
  pub counted : AreCounted s'
  pub flag : (s'.files f).deny_write ≡ false
  pub live : s'.live ≡ s.live
  pub inode : (s'.files f).inode ≡ (s.files f).inode
  pub removed : (i : ℕ) → (s'.inodes i).removed ≡ (s.inodes i).removed
  pub open_cnt : (i : ℕ) → (s'.inodes i).open_cnt ≡ (s.inodes i).open_cnt

-- file_allow_write of a live file, with the counts in order, passes its assertions: the file no longer
-- denies writes, the counts are in order again, and no file is closed, no inode removed, opened or closed.
pub file_allow_write_lem :
    (f : ℕ) (s : Files)
    → AreCounted s
    → count f s.live ≡ 1
    → f ≢ 0
    → (s' : Files) × (file_allow_write f s ≡ some s') × HasAllowed f s s'
unfolding file_allow_write inode_allow_write
file_allow_write_lem f s v h nn = elim (Bool-cases (s.files f).deny_write) [
  | inl denies ↦
      let i = (s.files f).inode in
      let n = (s.inodes i).deny_write_cnt in
      let inode : Inode = record (s.inodes i) { deny_write_cnt = n - 1 } in
      let one_less : deniers (flagged s.files f false) i s.live + 1 ≡ deniers s.files i s.live =
        ground (arith, denies, deniers-flagged s.files f i false s.live h) in
      let room : n ≤ (s.inodes i).open_cnt =
        omega (arith, v.denied i, v.opened i, deniers-le s.files i s.live) in
      let some_one : 0 < n = omega (arith, v.denied i, one_less) in
      (
        set_inode i inode (record s { files = flagged s.files f false }),
        assert_passes (not (f == 0)) _ (ground (arith, nn)) (
            if_true (s.files f).deny_write _ _ denies
            ∙ some->>= (inode_allow_write (s.inodes i)) _
                (assert_passes (ltb 0 n) _ (ground (arith, some_one)) (
                  assert_passes (leb n (s.inodes i).open_cnt) _ (ground (arith, room)) (
                    assert_passes (leb (n - 1) (s.inodes i).open_cnt) _ (ground (arith, room))
                      refl)))
                (unfold flagged in refl)),
        record {
          counted = counted_flagged s f false inode v h refl (omega (arith, v.denied i, one_less));
          flag = unfold flagged in ground arith;
          live = refl;
          inode = unfold flagged in ground arith;
          removed = λ j. ground arith;
          open_cnt = λ j. ground arith;
        },
      )
  | inr already ↦ (
    s,
    assert_passes (not (f == 0)) _ (ground (arith, nn))
        (if_false (s.files f).deny_write _ _ already),
    record {
      counted = v;
      flag = already;
      live = refl;
      inode = refl;
      removed = λ j. refl;
      open_cnt = λ j. refl;
    },
  )
]
