-- ===== src/Files.antt =====
-- filesys/file.c, and the open inodes of filesys/inode.c. Inodes and files stand behind addresses, 0 is
-- NULL; `open_inodes` is the list of that name, and `live` the files that are not freed. The address that
-- malloc or calloc returns is an argument. An inode that is open has a count of openers above 0.
pub mod Denial
pub mod Closing
mod Tests
use pintos_project.Base.{
  ℕ, ◌+◌, ◌-◌, ◌*◌, Bool, true, false, not, ◌&&◌, Option, none, some, List, [], ◌∷◌, ◌==◌, ltb, ◌^◌,
  if◌then◌else◌, update, erase, ◌>>=◌, ◌>>◌, assert,
}
use pintos_project.Bitmap.{Bitmap}
use pintos_project.FreeMap.{free_map_release}
use pintos_project.Inode.{
  Block, Inode, block_read, bytes_to_sectors, inode_read_at, inode_write_at, inode_deny_write,
  inode_allow_write,
}

-- struct file
pub record File : Type 0 where
  pub inode : ℕ
  pub pos : ℕ
  pub deny_write : Bool

pub record Files : Type 0 where
  pub device : Block
  pub map : Bitmap
  pub inodes : ℕ → Inode
  pub open_inodes : List ℕ
  pub files : ℕ → File
  pub live : List ℕ

abbrev pub set_inode : ℕ → Inode → Files → Files
set_inode i inode s = record s { inodes = update s.inodes i inode }

abbrev pub set_file : ℕ → File → Files → Files
set_file f file s = record s { files = update s.files f file }

-- A little-endian word of a sector, as struct inode_disk lies in it.
abbrev pub word_at : (ℕ → ℕ) → ℕ → ℕ
word_at bytes o = bytes o + 256 * bytes (o + 1) + 65536 * bytes (o + 2) + 16777216 * bytes (o + 3)

-- The loop of inode_open: the open inode of a sector, or NULL.
pub find_open : (ℕ → Inode) → ℕ → List ℕ → ℕ
find_open inodes sector [] = 0
find_open inodes sector (i ∷ is) =
    if (inodes i).sector == sector then i else find_open inodes sector is

-- inode_reopen (inode)
unfoldable pub inode_reopen : ℕ → Files → Files
inode_reopen i s =
    let inode = s.inodes i in
    if i == 0 then s else set_inode i (record inode { open_cnt = inode.open_cnt + 1 }) s

-- inode_open (sector), where malloc returns `fresh`
unfoldable pub inode_open : ℕ → ℕ → Files → Option (ℕ × Files)
inode_open fresh sector s =
    let found = find_open s.inodes sector s.open_inodes in
    let opened = (do
      bytes ← block_read s.device sector
      some (
        fresh,
        record s {
          open_inodes = fresh ∷ s.open_inodes;
          inodes = update s.inodes fresh (record {
            sector = sector;
            open_cnt = 1;
            removed = false;
            deny_write_cnt = 0;
            start = word_at bytes 0;
            length = word_at bytes 4;
          });
        },
      )) in
    if not (found == 0)
    then some (found, inode_reopen found s)
    else if fresh == 0
    then some (0, s)
    else opened

-- inode_remove (inode)
unfoldable pub inode_remove : ℕ → Files → Option Files
inode_remove i s =
    assert (not (i == 0)) >> some (set_inode i (record (s.inodes i) { removed = true }) s)

-- inode_close (inode), with the file of the free map open and its writes successful
unfoldable pub inode_close : ℕ → Files → Option Files
inode_close i s =
    let inode = s.inodes i in
    let s' = set_inode i (record inode { open_cnt = inode.open_cnt - 1 }) s in
    let left = record s' { open_inodes = erase i s.open_inodes } in
    let released = (do
      map1 ← free_map_release true true inode.sector 1 (s.map, s.map)
      map2 ← free_map_release true true inode.start (bytes_to_sectors inode.length) map1
      some (record left { map = map2.0 })) in
    if i == 0
    then some s
    else if inode.open_cnt == 1
    then (if inode.removed then released else some left)
    else some s'

-- file_open (inode), where calloc returns `fresh`
unfoldable pub file_open : ℕ → ℕ → Files → Option (ℕ × Files)
file_open fresh inode s =
    let file : File = record { inode = inode; pos = 0; deny_write = false } in
    let closed = (do s' ← inode_close inode s; some (0, s')) in
    if not (inode == 0) && not (fresh == 0)
    then some (fresh, record (set_file fresh file s) { live = fresh ∷ s.live })
    else closed

-- file_reopen (file)
pub file_reopen : ℕ → ℕ → Files → Option (ℕ × Files)
file_reopen fresh f s = let i = (s.files f).inode in file_open fresh i (inode_reopen i s)

-- file_deny_write (file)
unfoldable pub file_deny_write : ℕ → Files → Option Files
file_deny_write f s =
    let file = s.files f in
    let denied = (do
      inode ← inode_deny_write (s.inodes file.inode)
      some (set_inode file.inode inode (set_file f (record file { deny_write = true }) s))) in
    assert (not (f == 0)) >> (if not file.deny_write then denied else some s)

-- file_allow_write (file)
unfoldable pub file_allow_write : ℕ → Files → Option Files
file_allow_write f s =
    let file = s.files f in
    let allowed = (do
      inode ← inode_allow_write (s.inodes file.inode)
      some (set_inode file.inode inode (set_file f (record file { deny_write = false }) s))) in
    assert (not (f == 0)) >> (if file.deny_write then allowed else some s)

-- file_close (file)
unfoldable pub file_close : ℕ → Files → Option Files
unfolding file_allow_write inode_close
file_close f s =
    let closed = (do
      s1 ← file_allow_write f s
      s2 ← inode_close (s1.files f).inode s1
      some (record s2 { live = erase f s2.live })) in
    if f == 0 then some s else closed

-- file_read (file, buffer, size)
pub file_read : Bool → ℕ → (ℕ → ℕ) → ℕ → Files → Option ((ℕ → ℕ) × ℕ × Files)
file_read room f buffer size s = do
  let file = s.files f
  (buffer', bytes_read) ← inode_read_at room s.device (s.inodes file.inode) buffer size file.pos
  some (buffer', bytes_read, set_file f (record file { pos = file.pos + bytes_read }) s)

-- file_write (file, buffer, size)
pub file_write : Bool → ℕ → (ℕ → ℕ) → ℕ → Files → Option (ℕ × Files)
file_write room f buffer size s = do
  let file = s.files f
  (device, bytes_written) ← inode_write_at room s.device (s.inodes file.inode) buffer size file.pos
  some (
    bytes_written,
    set_file f (record file { pos = file.pos + bytes_written }) (record s { device = device }),
  )

-- file_length (file), file_seek (file, new_pos) and file_tell (file): an off_t from 2 ^ 31 on is negative.
unfoldable pub file_length : ℕ → Files → Option ℕ
file_length f s = assert (not (f == 0)) >> some (s.inodes (s.files f).inode).length

unfoldable pub file_seek : ℕ → ℕ → Files → Option Files
file_seek f new_pos s = do
  assert (not (f == 0))
  assert (ltb new_pos (2 ^ 31))
  some (set_file f (record (s.files f) { pos = new_pos }) s)

unfoldable pub file_tell : ℕ → Files → Option ℕ
file_tell f s = assert (not (f == 0)) >> some (s.files f).pos
