-- ===== src/Syscall.antt =====
-- userprog/syscall.c: the table of a process's descriptors, and what the system calls do behind their
-- arguments; Handlers has the handlers. Descriptors are numbers: an `int` below 0 is one from 2 ^ 31 on,
-- which no descriptor is. `bytes` is the user's memory, by the user's addresses. What realloc leaves in
-- new entries is an argument, and so is whether it succeeds; the malloc of the handlers for their
-- arguments is taken to succeed. A panic is `none`.
pub mod Handlers
pub mod Descriptors
pub mod Numbers
pub mod Addresses
mod Tests
use pintos_project.Base.{
  ℕ, zero, suc, ◌+◌, ◌-◌, ◌*◌, ◌/◌, ◌%◌, ◌^◌, Bool, true, false, not, ◌&&◌, ◌||◌, Option, none,
  some, List, [], ◌∷◌, ◌++◌, ◌==◌, ltb, leb, if◌then◌else◌, update, ◌>>=◌, ◌>>◌, assert, get_or,
  get_elem?,
}
use pintos_project.Palloc.{Memory}
use pintos_project.Inode.{memcpy}
use pintos_project.Files.{
  Files, file_close, file_read, file_write, file_length, file_seek, file_tell,
}

-- files_table: its number of entries, and the entries.
pub record Table : Type 0 where
  pub cap : ℕ
  pub entry : ℕ → ℕ

-- The thread that calls: its page directory, descriptors and exit status, its memory, the file system,
-- and what was printed.
pub record User : Type 0 where
  pub pagedir : ℕ
  pub fd : ℕ
  pub files_table : Table
  pub exit_status : ℕ
  pub memory : Memory
  pub bytes : ℕ → ℕ
  pub files : Files
  pub console : List ℕ

-- What init_thread sets of them.
abbrev pub with_no_files : User → User
with_no_files u = record u { fd = 1; files_table = record { cap = 0; entry = λ i. 0 } }

-- fdtable_idx (fd) and fdtable_size (fd)
abbrev pub fdtable_idx : ℕ → ℕ
fdtable_idx fd = fd - 2

abbrev pub fdtable_size : ℕ → ℕ
fdtable_size fd = fd - 1

-- A read and a write of files_table, which panics outside of it.
unfoldable pub table_at : ℕ → Table → Option ℕ
table_at i t = assert (ltb i t.cap) >> some (t.entry i)

unfoldable pub set_table : ℕ → ℕ → Table → Option Table
set_table i file t = assert (ltb i t.cap) >> some (record t { entry = update t.entry i file })

-- realloc of files_table to `n` entries, where it succeeds
abbrev pub resize : (ℕ → ℕ) → ℕ → Table → Table
resize fresh n t = record { cap = n; entry = λ i. if ltb i t.cap then t.entry i else fresh i }

-- What sys_open does with the file that filesys_open returns: the value for eax. `room` is whether realloc
-- succeeds: the source writes through the NULL that it returns otherwise.
unfoldable pub open_file : Bool → (ℕ → ℕ) → ℕ → User → Option (ℕ × User)
open_file room fresh file u =
    let fd = u.fd + 1 in
    let grows = (fd - 2) % 20 == 0 in
    let table =
      if grows then resize fresh (fdtable_size fd + 20) u.files_table else u.files_table in
    let opened = (do
      assert (not grows || room)
      t ← set_table (fdtable_idx fd) file table
      some (fd, record u { fd = fd; files_table = t })) in
    if file == 0 then some (2 ^ 32 - 1, u) else opened

-- `fd > 1 && fd <= thread_current ()->fd`
abbrev pub is_open_fd : ℕ → User → Bool
is_open_fd fd u = ltb 1 fd && leb fd u.fd

-- sys_close behind its arguments
unfoldable pub close_fd : ℕ → User → Option User
close_fd fd u =
    let close = (do
      file ← table_at (fdtable_idx fd) u.files_table
      let closed = (do
        files ← file_close file u.files
        t ← set_table (fdtable_idx fd) 0 u.files_table
        some (record u { files = files; files_table = t }))
      if file == 0 then some u else closed) in
    if is_open_fd fd u then close else some u

-- sys_filesize, sys_seek and sys_tell behind their arguments
unfoldable pub filesize_fd : ℕ → User → Option ℕ
filesize_fd fd u =
    if is_open_fd fd u
    then (table_at (fd - 2) u.files_table >>= λ file. file_length file u.files)
    else some (2 ^ 32 - 1)

unfoldable pub seek_fd : ℕ → ℕ → User → Option User
seek_fd fd position u =
    let seek = (do
      file ← table_at (fd - 2) u.files_table
      files ← file_seek file position u.files
      some (record u { files = files })) in
    if is_open_fd fd u then seek else some u

unfoldable pub tell_fd : ℕ → User → Option ℕ
tell_fd fd u =
    if is_open_fd fd u
    then (table_at (fd - 2) u.files_table >>= λ file. file_tell file u.files)
    else some (2 ^ 32 - 1)

-- sys_read of a file and sys_write, behind their arguments and checks. A NULL file is dereferenced.
unfoldable pub read_fd : Bool → ℕ → ℕ → ℕ → User → Option (ℕ × User)
read_fd room fd buf size u =
    let read = (do
      file ← table_at (fd - 2) u.files_table
      assert (not (file == 0))
      (buffer, bytes_read, files) ← file_read room file (λ a. u.bytes (buf + a)) size u.files
      some (
        bytes_read,
        record u { files = files; bytes = memcpy u.bytes buf buffer 0 bytes_read },
      )) in
    if is_open_fd fd u then read else some (2 ^ 32 - 1, u)

-- The characters that putbuf writes.
abbrev pub chars_from : (ℕ → ℕ) → ℕ → ℕ → List ℕ
chars_from bytes buf zero = []
chars_from bytes buf (suc n) = bytes buf ∷ chars_from bytes (buf + 1) n

unfoldable pub write_fd : Bool → ℕ → ℕ → ℕ → User → Option (ℕ × User)
write_fd room fd buf size u =
    let write = (do
      file ← table_at (fd - 2) u.files_table
      assert (not (file == 0))
      (bytes_written, files) ← file_write room file (λ a. u.bytes (buf + a)) size u.files
      some (bytes_written, record u { files = files })) in
    if fd == 1
    then some (size, record u { console = u.console ++ chars_from u.bytes buf size })
    else if is_open_fd fd u
    then write
    else some (2 ^ 32 - 1, u)

-- The loop of sys_fibonacci, from `i` on with `n` numbers left to count to, and the int that it leaves.
unfoldable pub fibonacci_from : ℕ → ℕ → ℕ → ℕ
fibonacci_from zero a1 a2 = a1
fibonacci_from (suc n) a1 a2 =
    let sum = (a1 + a2) % 2 ^ 32 in
    let rest = fibonacci_from n a2 sum in if n == 0 then sum else rest

-- sys_fibonacci and sys_sum_of_four_integers behind their arguments
unfoldable pub fibonacci : ℕ → ℕ
fibonacci n =
    if n == 0
    then 0
    else if n == 1
    then 1
    else if leb (2 ^ 31) n
    then 0
    else fibonacci_from (n - 1) 0 1

unfoldable pub sum_of_four_integers : ℕ → ℕ → ℕ → ℕ → ℕ
sum_of_four_integers a b c d = (a + b + c + d) % 2 ^ 32
