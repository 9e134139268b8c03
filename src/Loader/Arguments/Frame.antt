-- ===== src/Loader/Arguments/Frame.antt =====
-- The stack that construct_ESP leaves.
use pintos_project.Base.{
  ℕ, suc, ◌+◌, ◌*◌, ◌^◌, ◌≤◌, ◌<◌, ◌≡◌, refl, ap, ◌∙◌, ◌⊎◌, inl, inr, Bool, true, false, Bool-cases,
  Option, none, leb, List, [], length, get_or, arith,
}
use pintos_project.Files.{word_at}
use pintos_project.Loader.Arguments.{
  Stack, push_zeros, push_word, push_strings, push_words, push_arguments,
}
use pintos_project.Base.{some, some->>=}
use pintos_project.Loader.Arguments.{parse_arguments, construct_esp}
use pintos_project.Loader.Arguments.Parsing.{
  AreArguments, command_line, parse_arguments-command_line,
}
use pintos_project.Loader.Arguments.Pushes.{
  frame_size, HasPushed, after_push, push_zeros_lem, push_word_lem, IsString, pushed_zeros,
  pushed_word, kept_word, kept-IsString, push_strings_lem, push_words_lem,
}

-- The stack that a program starts with: the return address, argc, argv, the addresses of the arguments
-- with a NULL behind them, and the arguments above.
pub record HasFrame (args : List (List ℕ)) (s s' : Stack) : Type 0 where
  pub pushed : HasPushed (frame_size args) s s'
  pub return_address : word_at s'.bytes s'.esp ≡ 0
  pub argc : word_at s'.bytes (s'.esp + 4) ≡ length args
  pub argv : word_at s'.bytes (s'.esp + 8) ≡ s'.esp + 12
  pub argv_end : word_at s'.bytes (s'.esp + 12 + 4 * length args) ≡ 0
  pub arguments :
      (i : ℕ)
      → i < length args
      → IsString (word_at s'.bytes (s'.esp + 12 + 4 * i)) (get_or args i []) s'

push_arguments_lem :
    (args : List (List ℕ)) (s : Stack)
    → frame_size args ≤ s.esp
    → s.esp ≤ 2 ^ 32
    → HasFrame args s (push_arguments args s)
unfolding push_arguments
push_arguments_lem args s fits top =
    let (p1, q) = push_strings_lem args s (omega (arith, fits)) in
    let addrs = (push_strings args s).0 in
    let s1 = (push_strings args s).1 in
    let s1' = push_zeros 1 s1 in
    let p1' = push_zeros_lem 1 s1 (omega (arith, p1.esp, fits)) in
    let s2 = push_zeros 4 s1' in
    let room2 : 4 ≤ s1'.esp = omega (arith, p1.esp, p1'.esp, fits) in
    let p2 = push_zeros_lem 4 s1' room2 in
    let s3 = push_words addrs s2 in
    let n = q.count in
    let (p3, words) =
      push_words_lem addrs s2 (omega (arith, p1.esp, p1'.esp, p2.esp, n, fits))
        (λ i hi. omega (arith, (q.above i (omega (arith, hi, n))).1, top)) in
    let s4 = push_word s3.esp s3 in
    let room4 : 12 ≤ s3.esp = omega (arith, p1.esp, p1'.esp, p2.esp, p3.esp, n, fits) in
    let p4 = push_word_lem s3.esp s3 (omega (arith, room4)) in
    let s5 = push_word (length args) s4 in
    let p5 = push_word_lem (length args) s4 (omega (arith, room4, p4.esp)) in
    let p6 = push_zeros_lem 4 s5 (omega (arith, room4, p4.esp, p5.esp)) in
    let s6 = push_zeros 4 s5 in
    let last : HasPushed 12 s3 s6 = after_push p4 (after_push p5 p6 refl) refl in
    let low : HasPushed (4 * length args + 12) s2 s6 = after_push p3 last (omega (arith, n)) in
    let all : HasPushed (4 + (4 * length args + 12)) s1' s6 = after_push p2 low refl in
    record {
      pushed = after_push p1 (after_push p1' all refl) (omega arith);
      return_address = pushed_zeros s5 (omega (arith, room4, p4.esp, p5.esp));
      argc =
          ap (λ a. word_at s6.bytes a) (omega (arith, p6.esp))
          ∙ kept_word s5.esp p6 (omega arith)
          ∙ pushed_word (length args) s4 (omega (arith, room4, p4.esp)) (omega (arith, fits, top));
      argv =
          ap (λ a. word_at s6.bytes a) (omega (arith, p6.esp, p5.esp))
          ∙ kept_word s4.esp (after_push p5 p6 refl) (omega arith)
          ∙ pushed_word s3.esp s3 (omega (arith, room4))
              (omega (arith, p3.esp, p2.esp, p1'.esp, p1.esp, top))
          ∙ omega (arith, last.esp);
      argv_end =
          ap (λ a. word_at s6.bytes a) (omega (arith, low.esp))
          ∙ kept_word s2.esp low (omega arith)
          ∙ pushed_zeros s1' room2;
      arguments = λ i hi.
          at_address s6 (s6.esp + 12 + 4 * i) (get_or addrs i 0) (get_or args i [])
            (ap (λ a. word_at s6.bytes a) (omega (arith, last.esp))
              ∙ kept_word (s3.esp + 4 * i) last (omega arith)
              ∙ words i (omega (arith, hi, n)))
            (kept-IsString (get_or addrs i 0) (get_or args i []) (after_push p1' all refl)
              (q.above i hi).0 (q.strings i hi));
    }
  where
    at_address :
        (s : Stack) (a p : ℕ) (x : List ℕ)
        → word_at s.bytes a ≡ p
        → IsString p x s
        → IsString (word_at s.bytes a) x s
    at_address s a p x e h = rw e h

-- What construct_ESP comes to: a realloc fails, the malloc fails, or the frame is pushed.
abbrev pub HasConstructed :
    (ℕ → Bool) → Bool → Bool → List (List ℕ) → Stack → Option (Bool × Stack) → Type 0
HasConstructed room made junk args s r =
    ((i : ℕ) × (0 < i) × (i ≤ length args) × (room i ≡ false) × (r ≡ none))
    ⊎ (((made ≡ false) × (r ≡ some (junk, s)))
        ⊎ ((made ≡ true) × (s' : Stack) × (r ≡ some (true, s')) × HasFrame args s s'))

-- construct_ESP, for a command line of arguments with a space behind each and a frame that fits in the one
-- page of the stack. If its allocations succeed, it returns true with the stack that a C program starts
-- with: a return address 0, the number of the arguments, the address of the array of their addresses, the
-- array with a NULL at its end, and each argument with its NUL at its address; the bytes above the old
-- stack pointer stay. If the malloc fails, it returns what was in `success` before, with the stack as it
-- was; if a realloc for an argument fails, it frees a pointer that was never set, which is a fault here.
pub construct_esp_lem :
    (room : ℕ → Bool) (made junk : Bool) (args : List (List ℕ)) (s : Stack)
    → AreArguments args
    → frame_size args ≤ 4096
    → 4096 ≤ s.esp
    → s.esp ≤ 2 ^ 32
    → HasConstructed room made junk args s
        (construct_esp room made junk (suc (length args)) (command_line args) s)
unfolding construct_esp
construct_esp_lem room made junk args s h fits page top =
    let frame = push_arguments_lem args s (omega (arith, fits, page)) top in
    let s' = push_arguments args s in
    let mapped : leb s.esp (s'.esp + 4096) ≡ true = ground (arith, frame.pushed.esp, fits) in
    let parsed = parse_arguments room 0 (suc (length args)) (command_line args) in
    elim (parse_arguments-command_line room 0 args h) [
      | inr (i, lo, hi, f, e) ↦ inl (i, lo, omega (arith, hi), f, rw e refl)
      | inl (all, e) ↦ elim (Bool-cases made) [
        | inr f ↦ inr (inl (f, some->>= parsed _ e (rw f refl)))
        | inl y ↦ inr (inr (y, s', some->>= parsed _ e (rw (y, mapped) refl), frame))
      ]
    ]
