-- ===== src/Syscall/Descriptors.antt =====
-- The table of descriptors is large enough, and maps descriptors to their files.
use pintos_project.Base.{
  ℕ, ◌+◌, ◌-◌, ◌*◌, ◌/◌, ◌%◌, ◌^◌, ◌≤◌, ◌<◌, ◌≡◌, refl, sym, ap, ◌∙◌, ◌≢◌, ◌⊎◌, Bool, true, false,
  not, ◌||◌, Option, none, some, ◌==◌, ltb, if◌then◌else◌, update, arith, assert, ◌>>◌,
  assert_passes, some->>=, if_true, if_false, Bool-cases, inl, inr,
}
use pintos_project.Files.{Files, file_close, file_length, file_seek, file_tell}
use pintos_project.Syscall.{
  Table, User, fdtable_size, table_at, set_table, resize, open_file, is_open_fd, close_fd,
  filesize_fd, seek_fd, tell_fd, read_fd, write_fd,
}

-- The table has the entries that sys_open gave it last.
pub record HasRoom (u : User) : Type 0 where
  pub some_fd : 1 ≤ u.fd
  pub capacity : 2 ≤ u.fd → u.files_table.cap ≡ 20 * ((u.fd - 2) / 20) + 21

-- The file of a descriptor.
abbrev pub file_of : ℕ → User → Option ℕ
file_of fd u = table_at (fd - 2) u.files_table

-- The entry of a descriptor is inside the table.
pub inside : (fd : ℕ) (u : User) → HasRoom u → 1 < fd → fd ≤ u.fd → fd - 2 < u.files_table.cap
inside fd u v lo hi = omega (arith, v.capacity (omega (arith, lo, hi)), lo, hi)

-- The table that sys_open writes to.
abbrev grown : (ℕ → ℕ) → User → Table
grown fresh u =
    if (u.fd + 1 - 2) % 20 == 0
    then resize fresh (fdtable_size (u.fd + 1) + 20) u.files_table
    else u.files_table

record IsGrown (u : User) (t : Table) : Type 0 where
  capacity : t.cap ≡ 20 * ((u.fd + 1 - 2) / 20) + 21
  kept : (g : ℕ) → 1 < g → g ≤ u.fd → table_at (g - 2) t ≡ file_of g u

grown_lem : (fresh : ℕ → ℕ) (u : User) → HasRoom u → IsGrown u (grown fresh u)
unfolding table_at
grown_lem fresh u v = elim (Bool-cases ((u.fd + 1 - 2) % 20 == 0)) [
  | inl y ↦ rw y (record {
    capacity = ground (arith, y, v.some_fd);
    kept = λ g lo hi.
        let old = inside g u v lo hi in
        assert_passes (ltb (g - 2) (fdtable_size (u.fd + 1) + 20)) _ (ground (arith, hi)) (
          ap some (if_true (ltb (g - 2) u.files_table.cap) _ (fresh (g - 2)) (ground (arith, old))))
        ∙ sym (assert_passes (ltb (g - 2) u.files_table.cap) _ (ground (arith, old)) refl);
  })
  | inr n ↦
      rw n (record { capacity = ground (arith, n, v.some_fd, v.capacity); kept = λ g lo hi. refl })
]

-- A write to the table, at the entry of a descriptor.
written :
    (t : Table) (i file : ℕ)
    → i < t.cap
    → set_table i file t ≡ some (record t { entry = update t.entry i file })
unfolding set_table
written t i file h = assert_passes (ltb i t.cap) _ (ground (arith, h)) refl

read_back :
    (t : Table) (i file : ℕ)
    → i < t.cap
    → table_at i (record t { entry = update t.entry i file }) ≡ some file
unfolding table_at
read_back t i file h = assert_passes (ltb i t.cap) _ (ground (arith, h)) (ground arith)

read_other :
    (t : Table) (i j file : ℕ)
    → i ≢ j
    → table_at j (record t { entry = update t.entry i file }) ≡ table_at j t
unfolding table_at
read_other t i j file ne = ap (λ f. assert (ltb j t.cap) >> some f) (ground (arith, ne))

-- What opening a file leaves.
pub record HasOpened (file : ℕ) (u u' : User) : Type 0 where
  pub table : HasRoom u'
  pub next_fd : u'.fd ≡ u.fd + 1
  pub opened : file_of (u.fd + 1) u' ≡ some file
  pub others : (g : ℕ) → 1 < g → g ≤ u.fd → file_of g u' ≡ file_of g u
  pub files : u'.files ≡ u.files

-- sys_open of a file that was found, with a table that has its entries: it faults where the table has to
-- grow and realloc fails, and only there. Otherwise it writes inside the table and returns the next
-- descriptor, which is that of the file; all other descriptors keep their files, also where the table is
-- moved.
pub open_file_lem :
    (room : Bool) (fresh : ℕ → ℕ) (file : ℕ) (u : User)
    → HasRoom u
    → file ≢ 0
    → (((u.fd + 1 - 2) % 20 ≡ 0) × (room ≡ false) × (open_file room fresh file u ≡ none))
      ⊎ ((((u.fd + 1 - 2) % 20 ≢ 0) ⊎ (room ≡ true))
          × (u' : User) × (open_file room fresh file u ≡ some (u.fd + 1, u'))
          × HasOpened file u u')
unfolding open_file
open_file_lem room fresh file u v real =
    let g = grown_lem fresh u v in
    let t = grown fresh u in
    let fits : u.fd + 1 - 2 < t.cap = omega (arith, g.capacity) in
    let passes = not ((u.fd + 1 - 2) % 20 == 0) || room in
    elim (Bool-cases passes) [
      | inr bad ↦ inl (
        ground (arith, bad),
        ground (arith, bad),
        if_false (file == 0) _ _ (ground (arith, real)) ∙ rw bad refl,
      )
      | inl good ↦ inr (
        ground (arith, good),
        record u {
          fd = u.fd + 1;
          files_table = record t { entry = update t.entry (u.fd + 1 - 2) file };
        },
        if_false (file == 0) _ _ (ground (arith, real))
            ∙ assert_passes passes _ good (
                some->>= (set_table (u.fd + 1 - 2) file t) _ (written t (u.fd + 1 - 2) file fits)
                  refl),
        record {
          table = record { some_fd = omega arith; capacity = λ h. g.capacity };
          next_fd = refl;
          opened = read_back t (u.fd + 1 - 2) file fits;
          others = λ f lo hi.
              read_other t (u.fd + 1 - 2) (f - 2) file (omega (arith, lo, hi)) ∙ g.kept f lo hi;
          files = refl;
        },
      )
    ]

-- What closing a descriptor leaves. sys_close of it again does nothing, and every other call on it panics.
pub record HasClosed (fd : ℕ) (u u' : User) : Type 0 where
  pub table : HasRoom u'
  pub closed : file_of fd u' ≡ some 0
  pub others : (g : ℕ) → 1 < g → g ≢ fd → file_of g u' ≡ file_of g u
  pub closed_again : close_fd fd u' ≡ some u'
  pub no_size : filesize_fd fd u' ≡ none
  pub no_seek : (position : ℕ) → seek_fd fd position u' ≡ none
  pub no_tell : tell_fd fd u' ≡ none
  pub no_read : (room : Bool) (buf size : ℕ) → read_fd room fd buf size u' ≡ none
  pub no_write : (room : Bool) (buf size : ℕ) → write_fd room fd buf size u' ≡ none

closed_lem :
    (fd : ℕ) (u u' : User)
    → is_open_fd fd u' ≡ true
    → file_of fd u' ≡ some 0
    → HasRoom u'
    → ((g : ℕ) → 1 < g → g ≢ fd → file_of g u' ≡ file_of g u)
    → HasClosed fd u u'
unfolding close_fd filesize_fd seek_fd tell_fd read_fd write_fd file_length file_seek file_tell
closed_lem fd u u' open_fd empty v others = record {
  table = v;
  closed = empty;
  others = others;
  closed_again =
      if_true (is_open_fd fd u') _ (some u') open_fd ∙ some->>= (file_of fd u') _ empty refl;
  no_size =
      if_true (is_open_fd fd u') _ (some (2 ^ 32 - 1)) open_fd
      ∙ some->>= (file_of fd u') _ empty refl;
  no_seek = λ position.
      if_true (is_open_fd fd u') _ (some u') open_fd ∙ some->>= (file_of fd u') _ empty refl;
  no_tell =
      if_true (is_open_fd fd u') _ (some (2 ^ 32 - 1)) open_fd
      ∙ some->>= (file_of fd u') _ empty refl;
  no_read = λ room buf size.
      if_true (is_open_fd fd u') _ (some (2 ^ 32 - 1, u')) open_fd
      ∙ some->>= (file_of fd u') _ empty refl;
  no_write = λ room buf size.
      if_false (fd == 1) _ _ (ground (arith, open_fd))
      ∙ if_true (is_open_fd fd u') _ (some (2 ^ 32 - 1, u')) open_fd
      ∙ some->>= (file_of fd u') _ empty refl;
}

-- sys_close of an open descriptor, whose file file_close closes without a panic, leaves the files as
-- file_close does, with the file closed, and clears its entry and no other one. To
-- close it again does nothing, but sys_filesize, sys_seek, sys_tell, sys_read and sys_write of it panic.
pub close_fd_lem :
    (fd file : ℕ) (u : User) (files : Files)
    → HasRoom u
    → 1 < fd
    → fd ≤ u.fd
    → file_of fd u ≡ some file
    → file ≢ 0
    → file_close file u.files ≡ some files
    → (u' : User) × (close_fd fd u ≡ some u') × (u'.files ≡ files) × HasClosed fd u u'
unfolding close_fd
close_fd_lem fd file u files v lo hi at real ok =
    let t = u.files_table in
    let u' = record u {
      files = files;
      files_table = record t { entry = update t.entry (fd - 2) 0 };
    } in
    let room = inside fd u v lo hi in
    let open_fd : is_open_fd fd u ≡ true = ground (arith, lo, hi) in
    let empty : file_of fd u' ≡ some 0 = read_back t (fd - 2) 0 room in
    (
      u',
      if_true (is_open_fd fd u) _ (some u) open_fd
          ∙ some->>= (table_at (fd - 2) t) _ at (
              if_false (file == 0) (some u) _ (ground (arith, real))
              ∙ some->>= (file_close file u.files) _ ok
                  (some->>= (set_table (fd - 2) 0 t) _ (written t (fd - 2) 0 room) refl)),
      refl,
      closed_lem fd u u' open_fd empty (record { some_fd = v.some_fd; capacity = v.capacity })
          (λ g lo' ne. read_other t (fd - 2) (g - 2) 0 (omega (arith, lo, lo', ne))),
    )
