-- ===== src/FreeMap.antt =====
-- filesys/free-map.c: the bitmap of used sectors. `file` is `free_map_file != NULL`, and `written` what
-- bitmap_write returns, which writes the elements to that file. Opening and creating the file, and the
-- panics there, are not modelled.
pub mod Allocation
mod Tests
use pintos_project.Base.{
  ℕ, Bool, true, false, not, ◌&&◌, Option, none, some, ◌==◌, if◌then◌else◌, ◌>>=◌, ◌>>◌, assert,
}
use pintos_project.Bitmap.{
  Bitmap, bitmap_mark, bitmap_error, bitmap_all, bitmap_set_all, bitmap_set_multiple,
  bitmap_scan_and_flip,
}

abbrev pub free_map_sector : ℕ
free_map_sector = 0

abbrev pub root_dir_sector : ℕ
root_dir_sector = 1

-- free_map_init (), for a device of `sectors` sectors: bitmap_create clears the bits of the elements
-- that it gets from malloc.
pub free_map_init : (ℕ → ℕ → Bool) → ℕ → Option Bitmap
free_map_init memory sectors = do
  b ← bitmap_set_all (record { bit_cnt = sectors; bits = memory }) false
  some (bitmap_mark (bitmap_mark b free_map_sector) root_dir_sector)

-- free_map_allocate (cnt, sectorp): the sector stored, if it returns true.
pub free_map_allocate : Bool → Bool → ℕ → Bitmap → Option (Option ℕ × Bitmap)
free_map_allocate file written cnt b = do
  (sector, b1) ← bitmap_scan_and_flip b 0 cnt false
  let failed = not (sector == bitmap_error) && file && not written
  b2 ← (if failed then bitmap_set_multiple b1 sector cnt false else some b1)
  let result = if failed then bitmap_error else sector
  some (if result == bitmap_error then none else some result, b2)

-- free_map_release (sector, cnt), with what is in the file before and after: whether its bitmap_write
-- succeeds is not tested, and without a file it dereferences NULL.
pub free_map_release : Bool → Bool → ℕ → ℕ → Bitmap × Bitmap → Option (Bitmap × Bitmap)
free_map_release file written sector cnt (b, saved) = do
  used ← bitmap_all b sector cnt
  assert used
  b' ← bitmap_set_multiple b sector cnt false
  assert file
  some (b', if written then b' else saved)
