-- ===== src/Loader/Arguments.antt =====
-- construct_ESP and parse_filename of userprog/process.c, with strtok_r of lib/string.c for the delimiter
-- " ". A string is the list of its characters before the NUL. `Stack` is the user's memory, by the user's
-- addresses, and the stack pointer. In construct_ESP, `room` is
-- whether realloc succeeds for a number of arguments, `made` whether malloc does, and `junk` what is in
-- `success` before it is set. Where realloc fails, a pointer that was never set is freed: `none`, as for a
-- push behind the page of the stack.
pub mod Parsing
pub mod Pushes
pub mod Frame
use pintos_project.Base.{
  ℕ, zero, suc, ◌+◌, ◌-◌, ◌*◌, ◌/◌, ◌%◌, ◌^◌, Bool, true, ◌&&◌, Option, none, some, List, [], ◌∷◌,
  ◌==◌, ltb, leb, if◌then◌else◌, ◌>>=◌, ◌>>◌, assert, length, get_or,
}

-- The loops of strtok_r: over the delimiters, and over the token with the delimiter that ends it.
abbrev pub skip_spaces : List ℕ → List ℕ
skip_spaces [] = []
skip_spaces (c ∷ cs) = if c == 32 then skip_spaces cs else c ∷ cs

abbrev pub token_of : List ℕ → List ℕ
token_of [] = []
token_of (c ∷ cs) = if c == 32 then [] else c ∷ token_of cs

abbrev pub behind_token : List ℕ → List ℕ
behind_token [] = []
behind_token (c ∷ cs) = if c == 32 then cs else behind_token cs

abbrev pub split_token : List ℕ → Option (List ℕ × List ℕ)
split_token [] = none
split_token (c ∷ cs) = some (token_of (c ∷ cs), behind_token (c ∷ cs))

-- strtok_r (s, " ", save_ptr), with what save_ptr points to
unfoldable pub strtok_r : List ℕ → Option (List ℕ × List ℕ)
strtok_r s = split_token (skip_spaces s)

-- parse_filename (argv_list, file_name, tp_ptr)
unfoldable pub parse_filename : List ℕ → Option (List ℕ)
parse_filename argv_list = strtok_r argv_list >>= λ r. some r.0

-- A round of the loop of construct_ESP that takes the arguments apart, before the others.
abbrev pub add_argument :
    Bool → Option (List ℕ × List ℕ) → (List ℕ → Option (List (List ℕ))) → Option (List (List ℕ))
add_argument room none others = some []
add_argument room (some (t, rest)) others = do assert room; args ← others rest; some (t ∷ args)

-- That loop, with `n` rounds left at most and `num_argv` arguments before.
unfoldable pub parse_arguments : (ℕ → Bool) → ℕ → ℕ → List ℕ → Option (List (List ℕ))
parse_arguments room num_argv zero s = none
parse_arguments room num_argv (suc n) s =
    add_argument (room (num_argv + 1)) (strtok_r s)
      (λ rest. parse_arguments room (num_argv + 1) n rest)

pub record Stack : Type 0 where
  pub esp : ℕ
  pub bytes : ℕ → ℕ

-- A string is pushed with its NUL, and `n` bytes 0 and a word.
unfoldable pub push_string : List ℕ → Stack → Stack
push_string x s =
    let esp = s.esp - length x - 1 in
    record {
      esp = esp;
      bytes = λ a.
          if leb esp a && ltb a (esp + (1 + length x)) then get_or x (a - esp) 0 else s.bytes a;
    }

unfoldable pub push_zeros : ℕ → Stack → Stack
push_zeros n s =
    let esp = s.esp - n in
    record { esp = esp; bytes = λ a. if leb esp a && ltb a (esp + n) then 0 else s.bytes a }

unfoldable pub push_word : ℕ → Stack → Stack
push_word v s =
    let esp = s.esp - 4 in
    record {
      esp = esp;
      bytes = λ a. if leb esp a && ltb a (esp + 4) then v / 256 ^ (a - esp) % 256 else s.bytes a;
    }

-- The loops that push the strings and their addresses, the last first.
unfoldable pub push_strings : List (List ℕ) → Stack → List ℕ × Stack
push_strings [] s = ([], s)
push_strings (x ∷ xs) s =
    let (argv_addr, s') = push_strings xs s in
    let s'' = push_string x s' in (s''.esp ∷ argv_addr, s'')

unfoldable pub push_words : List ℕ → Stack → Stack
push_words [] s = s
push_words (v ∷ vs) s = push_word v (push_words vs s)

-- The pushes of construct_ESP.
unfoldable pub push_arguments : List (List ℕ) → Stack → Stack
push_arguments args s =
    let (argv_addr, s1) = push_strings args s in
    let s2 = push_zeros 4 (push_zeros 1 s1) in
    let s3 = push_words argv_addr s2 in
    let s4 = push_word s3.esp s3 in push_zeros 4 (push_word (length args) s4)

-- construct_ESP (esp, argv_list), on a stack that has one page: the value and the stack.
unfoldable pub construct_esp : (ℕ → Bool) → Bool → Bool → ℕ → List ℕ → Stack → Option (Bool × Stack)
unfolding parse_arguments push_arguments
construct_esp room made junk n argv_list s = do
  args ← parse_arguments room 0 n argv_list
  let s' = push_arguments args s
  let push = assert (leb s.esp (s'.esp + 4096)) >> some (true, s')
  if made then push else some (junk, s)
