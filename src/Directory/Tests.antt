-- ===== src/Directory/Tests.antt =====
-- An empty directory of 3 entries in the sector 5 of a device of 100, and the name "ls".
use pintos_project.Base.{ℕ, ◌≡◌, refl, ◌∙◌, true, false, some, none, List, [], ◌∷◌, ◌>>=◌, arith}
use pintos_project.Inode.{Block, Inode}
use pintos_project.Directory.{lookup, dir_add}
use pintos_project.Directory.Records.{empty, more}
use pintos_project.Directory.Searching.{sector_of, lookup_lem}
use pintos_project.Directory.Adding.{HasAdded, dir_add_lem}

abbrev disk : Block
disk = record { size = 100; sectors = λ s a. 0 }

abbrev root : Inode
root = record {
  sector = 1;
  open_cnt = 1;
  removed = false;
  deny_write_cnt = 0;
  start = 5;
  length = 60;
}

abbrev name : List ℕ
name = 108 ∷ 115 ∷ []

absent : (lookup true (λ a. 7) name disk root >>= sector_of) ≡ some none
absent = lookup_lem (λ a. 7) name disk root (omega arith) (omega arith) ∙ refl

dir_add_example :
    (d' : Block) × (dir_add true (λ a. 7) name 40 disk root ≡ some (true, d'))
    × HasAdded name 40 disk root d'
dir_add_example =
    dir_add_lem (λ a. 7) name 40 2 disk root (omega arith) refl
      (more (omega arith) (more (omega arith) empty)) (omega arith) (omega arith) (omega arith)
      absent (omega arith) refl
