-- ===== src/Files/Tests.antt =====
-- Two files on an inode with two openers, of which the first denies writes.
use pintos_project.Base.{
  ℕ, ◌≡◌, refl, true, false, some, [], ◌∷◌, ◌==◌, if◌then◌else◌, count, arith,
}
use pintos_project.Inode.{Inode}
use pintos_project.Files.{File, Files, file_close}
use pintos_project.Files.Denial.{AreCounted}
use pintos_project.Files.Closing.{file_close_lem}

abbrev inode_of : ℕ → Inode
inode_of i = record {
  sector = 9;
  open_cnt = if i == 5 then 2 else 0;
  removed = false;
  deny_write_cnt = if i == 5 then 1 else 0;
  start = 10;
  length = 700;
}

abbrev file_of : ℕ → File
file_of f = record { inode = 5; pos = 0; deny_write = f == 7 }

abbrev table : Files
table = record {
  device = record { size = 100; sectors = λ s a. 0 };
  map = record { bit_cnt = 100; bits = λ i j. true };
  inodes = inode_of;
  open_inodes = 5 ∷ [];
  files = file_of;
  live = 7 ∷ 8 ∷ [];
}

table-AreCounted : AreCounted table
table-AreCounted = record {
  once = λ f. ground arith;
  denied = λ i. ground arith;
  opened = λ i. ground arith;
}

close_example :
    (s' : Files) × (file_close 7 table ≡ some s')
    × AreCounted s'
    × (count 7 s'.live ≡ 0)
    × ((s'.inodes 5).open_cnt ≡ 1)
close_example = file_close_lem 7 table table-AreCounted refl (omega arith) (omega arith) refl
