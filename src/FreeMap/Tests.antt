-- ===== src/FreeMap/Tests.antt =====
-- The bitmap and the free map of a device of 100 sectors, of which 0 and 1 are in use.
use pintos_project.Base.{ℕ, ◌≡◌, true, false, Option, some, ◌==◌, ltb, if◌then◌else◌, arith}
use pintos_project.Bitmap.{Bitmap, bitmap_scan_and_flip}
use pintos_project.Bitmap.Search.{HasFlipped, bitmap_scan_and_flip_lem}
use pintos_project.FreeMap.{free_map_allocate}
use pintos_project.FreeMap.Allocation.{HasAllocated, free_map_allocate_lem}

abbrev disk : Bitmap
disk = record { bit_cnt = 100; bits = λ i j. if i == 0 then ltb j 2 else false }

scan_and_flip_example :
    (r : ℕ) × (b' : Bitmap) × (bitmap_scan_and_flip disk 0 40 false ≡ some (r, b'))
    × HasFlipped disk 0 40 false r b'
scan_and_flip_example = bitmap_scan_and_flip_lem disk 0 40 false (omega arith) (omega arith)

allocate_example :
    (r : Option ℕ) × (b' : Bitmap) × (free_map_allocate true false 40 disk ≡ some (r, b'))
    × HasAllocated true false 40 disk r b'
allocate_example = free_map_allocate_lem true false 40 disk (omega arith)
