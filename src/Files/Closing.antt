-- ===== src/Files/Closing.antt =====
-- Closing a file.
use pintos_project.Base.{
  ℕ, ◌+◌, ◌-◌, ◌≤◌, ◌≡◌, refl, ap, ◌∙◌, ◌≢◌, inl, inr, false, some, List, [], ◌∷◌, ◌==◌,
  if◌then◌else◌, update, erase, count, count-erase_self, arith, Bool-cases, if_true, if_false,
  some->>=,
}
use pintos_project.Files.{File, Files, file_allow_write, file_close, inode_close}
use pintos_project.Files.Denial.{openers, deniers, AreCounted, file_allow_write_lem}

openers-erase :
    (files : ℕ → File) (f i : ℕ) (fs : List ℕ)
    → count f fs ≡ 1
    → openers files i (erase f fs) + (if (files f).inode == i then 1 else 0) ≡ openers files i fs
openers-erase files f i [] h = absurd (omega arith)
openers-erase files f i (g ∷ fs) h = elim (Bool-cases (g == f)) [
  | inl e ↦
      let same : g ≡ f = ground (arith, e) in ground (arith, e, ap (λ x. (files x).inode) same)
  | inr n ↦ ground (arith, h, n, openers-erase files f i fs)
]

deniers-erase :
    (files : ℕ → File) (f i : ℕ) (fs : List ℕ)
    → (files f).deny_write ≡ false
    → deniers files i (erase f fs) ≡ deniers files i fs
deniers-erase files f i [] h = refl
deniers-erase files f i (g ∷ fs) h = elim (Bool-cases (g == f)) [
  | inl e ↦
      let same : g ≡ f = ground (arith, e) in
      ground (arith, e, h, ap (λ x. (files x).deny_write) same)
  | inr n ↦ ground (arith, n, deniers-erase files f i fs)
]

count-erase-le : (g f : ℕ) (fs : List ℕ) → count g (erase f fs) ≤ count g fs
count-erase-le g f [] = omega arith
count-erase-le g f (x ∷ fs) = ground (arith, count-erase-le g f fs)

-- The state when a file `f` without its flag is taken off, and its inode has one opener less.
closed : (s : Files) (f : ℕ) (opened : List ℕ) → Files
closed s f opened =
    let i = (s.files f).inode in
    record s {
      inodes = update s.inodes i (record (s.inodes i) { open_cnt = (s.inodes i).open_cnt - 1 });
      open_inodes = opened;
      live = erase f s.live;
    }

closed-AreCounted :
    (s : Files) (f : ℕ) (opened : List ℕ)
    → AreCounted s
    → count f s.live ≡ 1
    → (s.files f).deny_write ≡ false
    → AreCounted (closed s f opened)
unfolding closed
closed-AreCounted s f opened v h flag = record {
  once = λ g. omega (arith, v.once g, count-erase-le g f s.live);
  denied = λ i. ground (arith, v.denied i, deniers-erase s.files f i s.live flag);
  opened = λ i. ground (arith, v.opened i, openers-erase s.files f i s.live h);
}

-- file_close of a live file, with the counts in order and whose inode is not removed, passes all
-- assertions, those of file_allow_write too: the file is no longer live, its inode has one opener less, and
-- the counts are in order again.
pub file_close_lem :
    (f : ℕ) (s : Files)
    → AreCounted s
    → count f s.live ≡ 1
    → f ≢ 0
    → (s.files f).inode ≢ 0
    → (s.inodes (s.files f).inode).removed ≡ false
    → (s' : Files) × (file_close f s ≡ some s')
      × AreCounted s'
      × (count f s'.live ≡ 0)
      × ((s'.inodes (s.files f).inode).open_cnt ≡ (s.inodes (s.files f).inode).open_cnt - 1)
unfolding file_close inode_close
file_close_lem f s v h nn real kept =
    let (s1, e, a) = file_allow_write_lem f s v h nn in
    let i = (s1.files f).inode in
    let once1 : count f s1.live ≡ 1 = rw a.live h in
    let kept1 : (s1.inodes i).removed ≡ false = rw a.inode (a.removed (s.files f).inode ∙ kept) in
    let real1 : (i == 0) ≡ false = ground (arith, real, a.inode) in
    let not_null : (f == 0) ≡ false = ground (arith, nn) in
    let less : (opened : List ℕ)
        → ((closed s1 f opened).inodes (s.files f).inode).open_cnt
          ≡ (s.inodes (s.files f).inode).open_cnt - 1 =
      λ opened.
        unfold closed in
        ground (
          arith,
          a.inode,
          a.open_cnt (s.files f).inode,
          ap (λ j. (s1.inodes j).open_cnt) a.inode,
        ) in
    let gone : (opened : List ℕ) → count f (closed s1 f opened).live ≡ 0 =
      λ opened. unfold closed in omega (arith, count-erase_self f s1.live, once1) in
    elim (Bool-cases ((s1.inodes i).open_cnt == 1)) [
      | inl last ↦
          let opened = erase i s1.open_inodes in
          (
            closed s1 f opened,
            if_false (f == 0) _ _ not_null
                ∙ some->>= (file_allow_write f s) _ e (
                    some->>= (inode_close i s1) _
                      (if_false (i == 0) _ _ real1
                        ∙ if_true ((s1.inodes i).open_cnt == 1) _ _ last
                        ∙ if_false (s1.inodes i).removed _ _ kept1)
                      (unfold closed in refl)),
            closed-AreCounted s1 f opened a.counted once1 a.flag,
            gone opened,
            less opened,
          )
      | inr more ↦
          let opened = s1.open_inodes in
          (
            closed s1 f opened,
            if_false (f == 0) _ _ not_null
                ∙ some->>= (file_allow_write f s) _ e (
                    some->>= (inode_close i s1) _
                      (if_false (i == 0) _ _ real1
                        ∙ if_false ((s1.inodes i).open_cnt == 1) _ _ more)
                      (unfold closed in refl)),
            closed-AreCounted s1 f opened a.counted once1 a.flag,
            gone opened,
            less opened,
          )
    ]
