-- ===== src/Inode/Tests.antt =====
-- A file of 700 bytes from the sector 10 of a device of 100 sectors on.
use pintos_project.Base.{ℕ, ◌<◌, ◌≡◌, ◌⊎◌, refl, false, true, some, arith}
use pintos_project.Inode.{Block, Inode, inode_read_at, inode_write_at}
use pintos_project.Inode.Reading.{OnDevice, moved, IsRead, inode_read_at_lem}
use pintos_project.Inode.Writing.{IsWritten, inode_write_at_lem, inode_read_at-inode_write_at}

abbrev device : Block
device = record { size = 100; sectors = λ s a. 0 }

abbrev small_file : Inode
small_file = record {
  sector = 9;
  open_cnt = 1;
  removed = false;
  deny_write_cnt = 0;
  start = 10;
  length = 700;
}

small_file-OnDevice : OnDevice device small_file
small_file-OnDevice = omega arith

reading_example :
    (buffer' : ℕ → ℕ) × (inode_read_at true device small_file (λ a. a) 300 500
      ≡ some (buffer', moved small_file 300 500))
    × IsRead device small_file (λ a. a) (moved small_file 300 500) 500 0 buffer'
reading_example = inode_read_at_lem device small_file (λ a. a) 300 500 small_file-OnDevice

writing_example :
    ((0 < small_file.deny_write_cnt)
      × (inode_write_at true device small_file (λ a. a) 300 500 ≡ some (device, 0)))
    ⊎ ((small_file.deny_write_cnt ≡ 0)
        × (d' : Block) × (inode_write_at true device small_file (λ a. a) 300 500
            ≡ some (d', moved small_file 300 500))
        × IsWritten device small_file (λ a. a) (moved small_file 300 500) 500 0 d')
writing_example = inode_write_at_lem device small_file (λ a. a) 300 500 small_file-OnDevice

reading_back_example :
    (d' : Block) × (buffer' : ℕ → ℕ) × (inode_write_at true device small_file (λ a. a) 300 500
      ≡ some (d', moved small_file 300 500))
    × (inode_read_at true d' small_file (λ a. 0) 300 500 ≡ some (buffer', moved small_file 300 500))
    × ((a : ℕ) → a < moved small_file 300 500 → buffer' a ≡ a)
reading_back_example =
    inode_read_at-inode_write_at device small_file (λ a. a) (λ a. 0) 300 500 small_file-OnDevice
      refl
