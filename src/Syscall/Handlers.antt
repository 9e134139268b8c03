-- ===== src/Syscall/Handlers.antt =====
-- userprog/syscall.c: the handlers of the system calls. A call ends in a panic, with its process ended, or
-- with the value for eax. What filesys_open, filesys_create and filesys_remove return is an argument, and
-- sys_halt, sys_exec and sys_wait as a whole. The messages of a process that ends are not modelled.
use pintos_project.Base.{
  ℕ, zero, suc, ◌+◌, ◌-◌, ◌%◌, ◌^◌, Bool, true, false, not, ◌&&◌, Option, none, some, List, [], ◌∷◌,
  ◌==◌, if◌then◌else◌, update, ◌>>=◌, get_or,
}
use pintos_project.Files.{word_at}
use pintos_project.Paging.{is_kernel_vaddr, pagedir_is_mapped}
use pintos_project.Syscall.{
  User, open_file, close_fd, filesize_fd, seek_fd, tell_fd, read_fd, write_fd, fibonacci,
  sum_of_four_integers,
}

-- How a call ends: `killed` is a process that has ended, by sys_exit or terminate_process.
pub data Outcome : Type 0 where
  panicked : Outcome
  killed : User → Outcome
  returned : ℕ → User → Outcome

-- terminate_process ()
abbrev pub terminate_process : User → Outcome
terminate_process u = killed (record u { exit_status = 2 ^ 32 - 1 })

-- check_address (address): whether it lets the process go on
unfoldable pub check_address : ℕ → User → Option Bool
check_address address u =
    let mapped =
      pagedir_is_mapped u.pagedir address u.memory >>= λ b. some (b && not (address == 0)) in
    if is_kernel_vaddr address then some false else mapped

-- What stands behind a check_address.
abbrev pub checked : Option Bool → User → Outcome → Outcome
checked none u next = panicked
checked (some false) u next = terminate_process u
checked (some true) u next = next

-- get_argv (syscall_num, intr, argv), for `n` arguments from the address `sp` on
unfoldable pub get_argv : ℕ → ℕ → User → (List ℕ → Outcome) → Outcome
get_argv zero sp u next = next []
get_argv (suc n) sp u next =
    checked (check_address sp u) u
      (get_argv n (sp + 4) u (λ args. next (word_at u.bytes sp ∷ args)))

abbrev pub answer : Option (ℕ × User) → Outcome
answer none = panicked
answer (some (eax, u)) = returned eax u

-- The handlers, with what the file system returns. A handler that leaves eax alone returns `eax`.
unfoldable pub sys_exit : ℕ → User → Outcome
sys_exit sp u = get_argv 1 (sp + 4) u (λ args. killed (record u { exit_status = get_or args 0 0 }))

unfoldable pub sys_create : Bool → ℕ → User → Outcome
sys_create success sp u =
    get_argv 2 (sp + 4) u (λ args.
      checked (check_address (get_or args 0 0) u) u (returned (if success then 1 else 0) u))

unfoldable pub sys_remove : Bool → ℕ → User → Outcome
sys_remove success sp u =
    get_argv 1 (sp + 4) u (λ args.
      checked (check_address (get_or args 0 0) u) u (returned (if success then 1 else 0) u))

unfoldable pub sys_open : Bool → (ℕ → ℕ) → ℕ → ℕ → User → Outcome
sys_open room fresh file sp u =
    get_argv 1 (sp + 4) u
      (λ args. checked (check_address (get_or args 0 0) u) u (answer (open_file room fresh file u)))

unfoldable pub sys_close : ℕ → ℕ → User → Outcome
sys_close eax sp u =
    get_argv 1 (sp + 4) u (λ args. answer (close_fd (get_or args 0 0) u >>= λ v. some (eax, v)))

unfoldable pub sys_filesize : ℕ → User → Outcome
sys_filesize sp u =
    get_argv 1 (sp + 4) u (λ args. answer (filesize_fd (get_or args 0 0) u >>= λ n. some (n, u)))

unfoldable pub sys_seek : ℕ → ℕ → User → Outcome
sys_seek eax sp u =
    get_argv 2 (sp + 4) u
      (λ args. answer (seek_fd (get_or args 0 0) (get_or args 1 0) u >>= λ v. some (eax, v)))

unfoldable pub sys_tell : ℕ → User → Outcome
sys_tell sp u =
    get_argv 1 (sp + 4) u (λ args. answer (tell_fd (get_or args 0 0) u >>= λ n. some (n, u)))

-- The loop of sys_read over the keys, `key i` the one that input_getc returns in the round `i`.
unfoldable pub read_keys : (ℕ → ℕ) → ℕ → ℕ → ℕ → ℕ → User → Outcome
read_keys key zero i buf_ptr size u = returned size u
read_keys key (suc n) i buf_ptr size u =
    let u' = record u { bytes = update u.bytes buf_ptr (key i) } in
    checked (check_address (buf_ptr + 1) u') u' (read_keys key n (i + 1) (buf_ptr + 1) size u')

unfoldable pub sys_read : Bool → (ℕ → ℕ) → ℕ → User → Outcome
sys_read room key sp u = get_argv 3 (sp + 4) u (λ args.
    let fd = get_or args 0 0 in
    let buf = get_or args 1 0 in
    let size = get_or args 2 0 in
    checked (check_address buf u) u (
      checked (check_address ((buf + size) % 2 ^ 32) u) u
        (if fd == 0 then read_keys key size 0 buf size u else answer (read_fd room fd buf size u))))

unfoldable pub sys_write : Bool → ℕ → User → Outcome
sys_write room sp u = get_argv 3 (sp + 4) u (λ args.
    let fd = get_or args 0 0 in
    let buf = get_or args 1 0 in
    let size = get_or args 2 0 in
    checked (check_address buf u) u
      (checked (check_address ((buf + size) % 2 ^ 32) u) u (answer (write_fd room fd buf size u))))

unfoldable pub sys_fibonacci : ℕ → User → Outcome
sys_fibonacci sp u = get_argv 1 (sp + 4) u (λ args. returned (fibonacci (get_or args 0 0)) u)

unfoldable pub sys_sum_of_four_integers : ℕ → User → Outcome
sys_sum_of_four_integers sp u = get_argv 4 (sp + 4) u (λ args.
    returned
      (sum_of_four_integers (get_or args 0 0) (get_or args 1 0) (get_or args 2 0) (get_or args 3 0))
      u)

-- What surrounds a call: what the file system and the keyboard return, the old eax, and the three calls
-- that are arguments.
pub record Around : Type 0 where
  pub room : Bool
  pub table_room : Bool
  pub fresh : ℕ → ℕ
  pub opened : ℕ
  pub success : Bool
  pub key : ℕ → ℕ
  pub eax : ℕ
  pub sys_halt : ℕ → User → Outcome
  pub sys_exec : ℕ → User → Outcome
  pub sys_wait : ℕ → User → Outcome

-- sys_mmap, sys_mummap, sys_chdir, sys_mkdir, sys_readdir, sys_isdir and sys_inumber, which do nothing
abbrev pub sys_nothing : ℕ → ℕ → User → Outcome
sys_nothing eax sp u = returned eax u

-- sys_handler_
abbrev pub sys_handlers : Around → List (ℕ → User → Outcome)
sys_handlers w =
    w.sys_halt
    ∷ sys_exit
    ∷ w.sys_exec
    ∷ w.sys_wait
    ∷ sys_create w.success
    ∷ sys_remove w.success
    ∷ sys_open w.table_room w.fresh w.opened
    ∷ sys_filesize
    ∷ sys_read w.room w.key
    ∷ sys_write w.room
    ∷ sys_seek w.eax
    ∷ sys_tell
    ∷ sys_close w.eax
    ∷ sys_nothing w.eax
    ∷ sys_nothing w.eax
    ∷ sys_nothing w.eax
    ∷ sys_nothing w.eax
    ∷ sys_nothing w.eax
    ∷ sys_nothing w.eax
    ∷ sys_nothing w.eax
    ∷ sys_fibonacci
    ∷ sys_sum_of_four_integers
    ∷ []

-- syscall_handler (f), with the stack pointer. A number behind the table calls what is no handler, which
-- is a panic here.
unfoldable pub syscall_handler : Around → ℕ → User → Outcome
syscall_handler w sp u =
    checked (check_address sp u) u
      (get_or (sys_handlers w) (word_at u.bytes sp) (λ sp' u'. panicked) sp u)
