-- ===== src/Inode.antt =====
-- filesys/inode.c: a file's bytes on the device, and the counts of an open inode. Sizes and offsets
-- (`off_t`) are numbers: a negative size moves no byte, as 0 does. `room` is whether malloc finds memory
-- for the bounce buffer. The semaphore of an inode, which keeps one write at a time on it, is not
-- modelled. Of devices/block.c the check of a sector is modelled, whose panic is `none`.
pub mod Reading
pub mod Writing
mod Tests
use pintos_project.Base.{
  ℕ, zero, suc, ◌+◌, ◌-◌, ◌/◌, ◌%◌, ◌^◌, Bool, true, false, not, ◌&&◌, ◌||◌, Option, none, some,
  ◌==◌, ltb, leb, if◌then◌else◌, update, ◌>>=◌, ◌>>◌, assert,
}

-- BLOCK_SECTOR_SIZE
abbrev pub block_sector_size : ℕ
block_sector_size = 512

-- struct block, and the bytes of its sectors.
pub record Block : Type 0 where
  pub size : ℕ
  pub sectors : ℕ → ℕ → ℕ

-- block_read (block, sector, buffer), with check_sector
abbrev pub block_read : Block → ℕ → Option (ℕ → ℕ)
block_read d sector = assert (ltb sector d.size) >> some (d.sectors sector)

-- block_write (block, sector, buffer), with check_sector
abbrev pub block_write : Block → ℕ → (ℕ → ℕ) → Option Block
block_write d sector bytes =
    assert (ltb sector d.size) >> some (record d { sectors = update d.sectors sector bytes })

-- memcpy (dst + to, src + from, size)
abbrev pub memcpy : (ℕ → ℕ) → ℕ → (ℕ → ℕ) → ℕ → ℕ → ℕ → ℕ
memcpy dst to src from size a =
    if leb to a && ltb a (to + size) then src (from + (a - to)) else dst a

-- struct inode, with the `start` and `length` of its struct inode_disk
pub record Inode : Type 0 where
  pub sector : ℕ
  pub open_cnt : ℕ
  pub removed : Bool
  pub deny_write_cnt : ℕ
  pub start : ℕ
  pub length : ℕ

-- bytes_to_sectors (size)
abbrev pub bytes_to_sectors : ℕ → ℕ
bytes_to_sectors size = (size + block_sector_size - 1) / block_sector_size

-- byte_to_sector (inode, pos): -1 is the largest block_sector_t.
abbrev pub byte_to_sector : Inode → ℕ → ℕ
byte_to_sector inode pos =
    if ltb pos inode.length then inode.start + pos / block_sector_size else 2 ^ 32 - 1

-- The chunk of one round of the loops: what is left of the sector, the inode and the request. It is 0
-- behind the end of the inode, where the source has a negative number.
abbrev pub chunk_of : Inode → ℕ → ℕ → ℕ
chunk_of inode size offset =
    let inode_left = inode.length - offset in
    let sector_left = block_sector_size - offset % block_sector_size in
    let min_left = if ltb inode_left sector_left then inode_left else sector_left in
    if ltb size min_left then size else min_left

-- The loop of inode_read_at, with `n` rounds left at most.
pub read_from : ℕ → Bool → Block → Inode → (ℕ → ℕ) → ℕ → ℕ → ℕ → Option ((ℕ → ℕ) × ℕ)
read_from zero room d inode buffer size offset bytes_read =
    if size == 0 then some (buffer, bytes_read) else none
read_from (suc n) room d inode buffer size offset bytes_read =
    let sector_ofs = offset % block_sector_size in
    let chunk_size = chunk_of inode size offset in
    let rest = λ (filled : ℕ → ℕ).
      read_from n room d inode filled (size - chunk_size) (offset + chunk_size)
        (bytes_read + chunk_size) in
    let full = sector_ofs == 0 && chunk_size == block_sector_size in
    if size == 0 || chunk_size == 0 || (not full && not room)
    then some (buffer, bytes_read)
    else (do
      bytes ← block_read d (byte_to_sector inode offset)
      rest (memcpy buffer bytes_read bytes sector_ofs chunk_size))

-- inode_read_at (inode, buffer, size, offset)
pub inode_read_at : Bool → Block → Inode → (ℕ → ℕ) → ℕ → ℕ → Option ((ℕ → ℕ) × ℕ)
unfolding read_from
inode_read_at room d inode buffer size offset = read_from size room d inode buffer size offset 0

-- The bytes of a sector that a round of inode_write_at writes.
abbrev pub sector_image : Bool → (ℕ → ℕ) → ℕ → (ℕ → ℕ) → ℕ → ℕ → ℕ → ℕ
sector_image full old sector_ofs buffer bytes_written chunk_size =
    let sector_left = block_sector_size - sector_ofs in
    let bounce = if ltb 0 sector_ofs || ltb chunk_size sector_left then old else (λ a. 0) in
    if full
    then memcpy old 0 buffer bytes_written block_sector_size
    else memcpy bounce sector_ofs buffer bytes_written chunk_size

-- The loop of inode_write_at, with `n` rounds left at most. Reading the old sector panics where writing
-- it does, so it is read in each round.
pub write_from : ℕ → Bool → Block → Inode → (ℕ → ℕ) → ℕ → ℕ → ℕ → Option (Block × ℕ)
write_from zero room d inode buffer size offset bytes_written =
    if size == 0 then some (d, bytes_written) else none
write_from (suc n) room d inode buffer size offset bytes_written =
    let sector_idx = byte_to_sector inode offset in
    let sector_ofs = offset % block_sector_size in
    let chunk_size = chunk_of inode size offset in
    let rest = λ (d' : Block).
      write_from n room d' inode buffer (size - chunk_size) (offset + chunk_size)
        (bytes_written + chunk_size) in
    let full = sector_ofs == 0 && chunk_size == block_sector_size in
    if size == 0 || chunk_size == 0 || (not full && not room) then some (d, bytes_written) else (do
      old ← block_read d sector_idx
      d' ←
          block_write d sector_idx
            (sector_image full old sector_ofs buffer bytes_written chunk_size)
      rest d')

-- inode_write_at (inode, buffer, size, offset)
pub inode_write_at : Bool → Block → Inode → (ℕ → ℕ) → ℕ → ℕ → Option (Block × ℕ)
unfolding write_from
inode_write_at room d inode buffer size offset =
    if ltb 0 inode.deny_write_cnt
    then some (d, 0)
    else write_from size room d inode buffer size offset 0

-- inode_deny_write (inode)
unfoldable pub inode_deny_write : Inode → Option Inode
inode_deny_write inode =
    let inode' = record inode { deny_write_cnt = inode.deny_write_cnt + 1 } in
    assert (leb inode'.deny_write_cnt inode'.open_cnt) >> some inode'

-- inode_allow_write (inode)
unfoldable pub inode_allow_write : Inode → Option Inode
inode_allow_write inode = do
  assert (ltb 0 inode.deny_write_cnt)
  assert (leb inode.deny_write_cnt inode.open_cnt)
  let inode' = record inode { deny_write_cnt = inode.deny_write_cnt - 1 }
  assert (leb inode'.deny_write_cnt inode'.open_cnt)
  some inode'
