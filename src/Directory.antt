-- ===== src/Directory.antt =====
-- filesys/directory.c, and filesys_open and filesys_remove of filesys/filesys.c without their lock. A
-- directory entry is 20 bytes: the sector of its file's inode, the name with its NUL in 15 bytes, and
-- `in_use`. A name is the list of its characters before the NUL. `garbage` is what a variable holds before it
-- is set, `fresh` what malloc or calloc returns, and `room` whether malloc finds memory for a bounce buffer.
pub mod Records
pub mod Searching
pub mod Adding
mod Tests
use pintos_project.Base.{
  ℕ, zero, suc, ◌+◌, ◌-◌, ◌*◌, ◌/◌, ◌%◌, ◌^◌, Bool, true, false, not, ◌&&◌, ◌||◌, Option, none,
  some, List, [], ◌∷◌, ◌==◌, ltb, leb, if◌then◌else◌, update, ◌>>=◌, ◌>>◌, assert, length, get_or,
}
use pintos_project.FreeMap.{root_dir_sector}
use pintos_project.Inode.{Block, Inode, inode_read_at, inode_write_at}
use pintos_project.Files.{
  Files, word_at, inode_open, inode_close, inode_remove, inode_reopen, file_open,
}

-- NAME_MAX
abbrev pub name_max : ℕ
name_max = 14

-- sizeof (struct dir_entry), and `in_use` of an entry
abbrev pub entry_size : ℕ
entry_size = 20

abbrev pub in_use : (ℕ → ℕ) → Bool
in_use e = not (e 19 == 0)

-- strcmp (name, e.name) == 0, from the byte `i` of the entry on
abbrev pub name_is : List ℕ → (ℕ → ℕ) → ℕ → Bool
name_is [] e i = e i == 0
name_is (c ∷ cs) e i = e i == c && name_is cs e (i + 1)

-- The loop over the entries, in lookup, dir_add and dir_readdir: whether it ended at an entry that passes
-- the test, with the variable that the entries are read to and the offset. `n` bounds the rounds.
unfoldable pub find_from :
    ((ℕ → ℕ) → Bool) → ℕ → Bool → Block → Inode → (ℕ → ℕ) → ℕ → Option (Bool × (ℕ → ℕ) × ℕ)
find_from test zero room d inode e ofs = none
find_from test (suc n) room d inode e ofs =
    let rest = λ (e' : ℕ → ℕ). find_from test n room d inode e' (ofs + entry_size) in
    inode_read_at room d inode e entry_size ofs >>= λ r.
    if not (r.1 == entry_size)
    then some (false, r.0, ofs)
    else if test r.0
    then some (true, r.0, ofs)
    else rest r.0

-- One round for each entry, and one that finds the end.
abbrev pub rounds : Inode → ℕ
rounds inode = suc (inode.length / entry_size)

-- lookup (dir, name, ep, ofsp), for the inode of the directory
unfoldable pub lookup : Bool → (ℕ → ℕ) → List ℕ → Block → Inode → Option (Bool × (ℕ → ℕ) × ℕ)
lookup room garbage name d inode =
    find_from (λ e. in_use e && name_is name e 4) (rounds inode) room d inode garbage 0

-- The entry that dir_add writes: the name is copied by strlcpy.
abbrev pub new_entry : List ℕ → ℕ → (ℕ → ℕ) → ℕ → ℕ
new_entry name sector e j =
    if ltb j 4
    then sector / 256 ^ j % 256
    else if j == 19
    then 1
    else if ltb (j - 4) (length name)
    then get_or name (j - 4) 0
    else if j - 4 == length name
    then 0
    else e j

-- dir_add (dir, name, inode_sector)
unfoldable pub dir_add : Bool → (ℕ → ℕ) → List ℕ → ℕ → Block → Inode → Option (Bool × Block)
dir_add room garbage name sector d inode =
    let write = (do
      (free, e, ofs) ← find_from (λ e. not (in_use e)) (rounds inode) room d inode garbage 0
      (d', written) ← inode_write_at room d inode (new_entry name sector e) entry_size ofs
      some (written == entry_size, d')) in
    let add = (do
      (found, e, ofs) ← lookup room garbage name d inode
      if found then some (false, d) else write) in
    if length name == 0 || ltb name_max (length name) then some (false, d) else add

-- dir_lookup (dir, name, inode), with the inode that it opens, NULL for none
unfoldable pub dir_lookup : Bool → (ℕ → ℕ) → ℕ → ℕ → List ℕ → Files → Option (ℕ × Files)
dir_lookup room garbage fresh dir name s = do
  (found, e, ofs) ← lookup room garbage name s.device (s.inodes dir)
  if found then inode_open fresh (word_at e 0) s else some (0, s)

-- dir_remove (dir, name)
unfoldable pub dir_remove : Bool → (ℕ → ℕ) → ℕ → ℕ → List ℕ → Files → Option (Bool × Files)
dir_remove room garbage fresh dir name s = do
  (found, e, ofs) ← lookup room garbage name s.device (s.inodes dir)
  let remove = (do
    (inode, s1) ← inode_open fresh (word_at e 0) s
    let erase = (do
      (d, written) ← inode_write_at room s1.device (s1.inodes dir) (update e 19 0) entry_size ofs
      let s2 = record s1 { device = d }
      s3 ← if written == entry_size then inode_remove inode s2 else some s2
      s4 ← inode_close inode s3
      some (written == entry_size, s4))
    if inode == 0 then some (false, s1) else erase)
  if found then remove else some (false, s)

-- struct dir
pub record Dir : Type 0 where
  pub inode : ℕ
  pub pos : ℕ

-- dir_open (inode) and dir_open_root (), where calloc finds memory if `room` says so: `none` for NULL
unfoldable pub dir_open : Bool → ℕ → Files → Option (Option Dir × Files)
dir_open room inode s =
    let closed = (do s' ← inode_close inode s; some (none, s')) in
    if not (inode == 0) && room then some (some (record { inode = inode; pos = 0 }), s) else closed

unfoldable pub dir_open_root : Bool → ℕ → Files → Option (Option Dir × Files)
dir_open_root room fresh s = do
  (inode, s') ← inode_open fresh root_dir_sector s
  dir_open room inode s'

-- dir_lookup_file (name)
unfoldable pub dir_lookup_file : Bool → (ℕ → ℕ) → ℕ → List ℕ → Files → Option (Bool × Files)
dir_lookup_file room garbage fresh name s = do
  (root, s1) ← dir_open_root room fresh s
  dir ← root
  (found, e, ofs) ← lookup room garbage name s1.device (s1.inodes dir.inode)
  some (found, s1)

-- dir_reopen (dir), dir_close (dir) and dir_get_inode (dir)
unfoldable pub dir_reopen : Bool → Dir → Files → Option (Option Dir × Files)
dir_reopen room dir s = dir_open room dir.inode (inode_reopen dir.inode s)

unfoldable pub dir_close : Option Dir → Files → Option Files
dir_close none s = some s
dir_close (some dir) s = inode_close dir.inode s

abbrev pub dir_get_inode : Dir → ℕ
dir_get_inode dir = dir.inode

-- The characters of a name of at most `n` bytes, from the byte `i` of an entry on.
abbrev pub name_from : ℕ → (ℕ → ℕ) → ℕ → List ℕ
name_from zero e i = []
name_from (suc n) e i = if e i == 0 then [] else e i ∷ name_from n e (i + 1)

-- dir_readdir (dir, name), with the name where it returns true
unfoldable pub dir_readdir : Bool → (ℕ → ℕ) → Dir → Files → Option (Option (List ℕ) × Dir)
dir_readdir room garbage dir s = do
  (found, e, ofs) ←
      find_from in_use (rounds (s.inodes dir.inode)) room s.device (s.inodes dir.inode) garbage
        dir.pos
  some (
    if found then some (name_from name_max e 4) else none,
    record dir { pos = if found then ofs + entry_size else ofs },
  )

-- filesys_open (name), with the addresses that its calls of malloc and calloc return
unfoldable pub filesys_open : Bool → (ℕ → ℕ) → ℕ → ℕ → ℕ → List ℕ → Files → Option (ℕ × Files)
filesys_open room garbage root_fresh fresh file_fresh name s = do
  (dir, s1) ← dir_open_root room root_fresh s
  (inode, s2) ← elim dir [
    | none ↦ some (0, s1)
    | some x ↦ dir_lookup room garbage fresh x.inode name s1
  ]
  s3 ← dir_close dir s2
  file_open file_fresh inode s3

-- filesys_remove (name)
unfoldable pub filesys_remove : Bool → (ℕ → ℕ) → ℕ → ℕ → List ℕ → Files → Option (Bool × Files)
filesys_remove room garbage root_fresh fresh name s = do
  (dir, s1) ← dir_open_root room root_fresh s
  (success, s2) ← elim dir [
    | none ↦ some (false, s1)
    | some x ↦ dir_remove room garbage fresh x.inode name s1
  ]
  s3 ← dir_close dir s2
  some (success, s3)
