-- ===== src/Loader/Arguments/Pushes.antt =====
-- What the pushes of construct_ESP write, and what they leave above the stack pointer.
use pintos_project.Base.{
  ℕ, zero, suc, ◌+◌, ◌-◌, ◌*◌, ◌/◌, ◌%◌, ◌^◌, ◌≤◌, ◌<◌, ◌≡◌, refl, ap, ◌∙◌, List, [], ◌∷◌, length,
  get_or, arith, leb, ltb, if◌then◌else◌, ◌&&◌, if_true,
}
use pintos_project.Files.{word_at}
use pintos_project.Loader.Arguments.{
  Stack, push_string, push_zeros, push_word, push_strings, push_words,
}

-- The bytes of strings with their NULs, and of the whole frame.
abbrev pub strings_size : List (List ℕ) → ℕ
strings_size [] = 0
strings_size (x ∷ xs) = length x + 1 + strings_size xs

abbrev pub frame_size : List (List ℕ) → ℕ
frame_size args = strings_size args + 5 + 4 * length args + 12

-- `n` bytes are pushed, and the bytes above stay.
pub record HasPushed (n : ℕ) (s s' : Stack) : Type 0 where
  pub esp : s'.esp + n ≡ s.esp
  pub kept : (a : ℕ) → s.esp ≤ a → s'.bytes a ≡ s.bytes a

pub after_push :
    {n k m : ℕ} {s s' s'' : Stack}
    → HasPushed n s s'
    → HasPushed k s' s''
    → n + k ≡ m
    → HasPushed m s s''
after_push h h' e = record {
  esp = omega (arith, h.esp, h'.esp, e);
  kept = λ a le. h'.kept a (omega (arith, h.esp, le)) ∙ h.kept a le;
}

pub push_string_lem :
    (x : List ℕ) (s : Stack) → length x + 1 ≤ s.esp → HasPushed (length x + 1) s (push_string x s)
unfolding push_string
push_string_lem x s h = record { esp = omega (arith, h); kept = λ a le. ground (arith, h, le) }

pub push_zeros_lem : (n : ℕ) (s : Stack) → n ≤ s.esp → HasPushed n s (push_zeros n s)
unfolding push_zeros
push_zeros_lem n s h = record { esp = omega (arith, h); kept = λ a le. ground (arith, h, le) }

pub push_word_lem : (v : ℕ) (s : Stack) → 4 ≤ s.esp → HasPushed 4 s (push_word v s)
unfolding push_word
push_word_lem v s h = record { esp = omega (arith, h); kept = λ a le. ground (arith, h, le) }

-- A string with its NUL at an address.
abbrev pub IsString : ℕ → List ℕ → Stack → Type 0
IsString p x s = (j : ℕ) → j ≤ length x → s.bytes (p + j) ≡ get_or x j 0

pub pushed-IsString :
    (x : List ℕ) (s : Stack)
    → length x + 1 ≤ s.esp
    → IsString (push_string x s).esp x (push_string x s)
unfolding push_string
pushed-IsString x s h j le =
    let esp = s.esp - length x - 1 in
    let d : esp + j - esp ≡ j = omega arith in
    if_true (leb esp (esp + j) && ltb (esp + j) (esp + (1 + length x))) _ _ (ground (arith, le))
    ∙ ap (λ i. get_or x i 0) d

pub pushed_zeros : (s : Stack) → 4 ≤ s.esp → word_at (push_zeros 4 s).bytes (push_zeros 4 s).esp ≡ 0
unfolding push_zeros
pushed_zeros s h = ground (arith, h)

byte_of :
    (i v p a : ℕ) (old : ℕ)
    → a ≡ p + i
    → i < 4
    → (if leb p a && ltb a (p + 4) then v / 256 ^ (a - p) % 256 else old) ≡ v / 256 ^ i % 256
byte_of i v p a old e h =
    let d : a - p ≡ i = omega (arith, e) in
    if_true (leb p a && ltb a (p + 4)) _ old (ground (arith, e, h)) ∙ ap (λ k. v / 256 ^ k % 256) d

pub pushed_word :
    (v : ℕ) (s : Stack)
    → 4 ≤ s.esp
    → v < 2 ^ 32
    → word_at (push_word v s).bytes (push_word v s).esp ≡ v
unfolding push_word
pushed_word v s h small =
    let p = s.esp - 4 in
    let b0 = byte_of 0 v p p (s.bytes p) (omega arith) (omega arith) in
    let b1 = byte_of 1 v p (p + 1) (s.bytes (p + 1)) refl (omega arith) in
    let b2 = byte_of 2 v p (p + 2) (s.bytes (p + 2)) refl (omega arith) in
    let b3 = byte_of 3 v p (p + 3) (s.bytes (p + 3)) refl (omega arith) in
    rw (b0, b1, b2, b3) (omega (arith, small))

-- What is above the stack pointer stays.
pub kept_word :
    {n : ℕ} {s s' : Stack} (a : ℕ)
    → HasPushed n s s'
    → s.esp ≤ a
    → word_at s'.bytes a ≡ word_at s.bytes a
kept_word a h le =
    rw
      (
        h.kept a le,
        h.kept (a + 1) (omega (arith, le)),
        h.kept (a + 2) (omega (arith, le)),
        h.kept (a + 3) (omega (arith, le)),
      )
      refl

pub kept-IsString :
    {n : ℕ} {s s' : Stack} (p : ℕ) (x : List ℕ)
    → HasPushed n s s'
    → s.esp ≤ p
    → IsString p x s
    → IsString p x s'
kept-IsString p x h le str j hj = h.kept (p + j) (omega (arith, le)) ∙ str j hj

-- The strings, at the addresses.
pub record AreStrings (args : List (List ℕ)) (addrs : List ℕ) (top : ℕ) (s : Stack) : Type 0 where
  pub count : length addrs ≡ length args
  pub strings : (i : ℕ) → i < length args → IsString (get_or addrs i 0) (get_or args i []) s
  pub above : (i : ℕ) → i < length args → (s.esp ≤ get_or addrs i 0) × (get_or addrs i 0 < top)

one_string :
    (x : List ℕ) (args : List (List ℕ)) (addrs : List ℕ) (top : ℕ) (s s' : Stack)
    → AreStrings args addrs top s
    → s.esp ≤ top
    → HasPushed (length x + 1) s s'
    → IsString s'.esp x s'
    → AreStrings (x ∷ args) (s'.esp ∷ addrs) top s'
one_string x args addrs top s s' all le p str = record {
  count = ap suc all.count;
  strings = λ i. here i;
  above = λ i. place i;
}
  where
    here :
        (i : ℕ)
        → i < suc (length args)
        → IsString (get_or (s'.esp ∷ addrs) i 0) (get_or (x ∷ args) i []) s'
    here zero hi = str
    here (suc i) hi =
        kept-IsString (get_or addrs i 0) (get_or args i []) p ((all.above i (omega (arith, hi))).0)
          (all.strings i (omega (arith, hi)))

    place :
        (i : ℕ)
        → i < suc (length args)
        → (s'.esp ≤ get_or (s'.esp ∷ addrs) i 0) × (get_or (s'.esp ∷ addrs) i 0 < top)
    place zero hi = (omega arith, omega (arith, p.esp, le))
    place (suc i) hi =
        let (lo, hi') = all.above i (omega (arith, hi)) in (omega (arith, lo, p.esp), hi')

pub push_strings_lem :
    (args : List (List ℕ)) (s : Stack)
    → strings_size args ≤ s.esp
    → HasPushed (strings_size args) s (push_strings args s).1
      × AreStrings args (push_strings args s).0 s.esp (push_strings args s).1
unfolding push_strings
push_strings_lem [] s h = (
  record { esp = omega arith; kept = λ a le. refl },
  record {
    count = refl;
    strings = λ i hi. absurd (omega arith);
    above = λ i hi. absurd (omega arith);
  },
)
push_strings_lem (x ∷ xs) s h =
    let (p, q) = push_strings_lem xs s (omega (arith, h)) in
    let s' = (push_strings xs s).1 in
    let room : length x + 1 ≤ s'.esp = omega (arith, p.esp, h) in
    let r = push_string_lem x s' room in
    (
      after_push p r (omega arith),
      one_string x xs (push_strings xs s).0 s.esp s' (push_string x s') q (omega (arith, p.esp)) r
          (pushed-IsString x s' room),
    )

pub push_words_lem :
    (vs : List ℕ) (s : Stack)
    → 4 * length vs ≤ s.esp
    → ((i : ℕ) → i < length vs → get_or vs i 0 < 2 ^ 32)
    → HasPushed (4 * length vs) s (push_words vs s)
      × ((i : ℕ)
          → i < length vs
          → word_at (push_words vs s).bytes ((push_words vs s).esp + 4 * i) ≡ get_or vs i 0)
unfolding push_words
push_words_lem [] s h small =
    (record { esp = omega arith; kept = λ a le. refl }, λ i hi. absurd (omega arith))
push_words_lem (v ∷ vs) s h small =
    let (p, words) =
      push_words_lem vs s (omega (arith, h)) (λ i hi. small (suc i) (omega (arith, hi))) in
    let s' = push_words vs s in
    let room : 4 ≤ s'.esp = omega (arith, p.esp, h) in
    let r = push_word_lem v s' room in
    (
      after_push p r (omega arith),
      λ i.
          word_here v vs s' (push_word v s') r (pushed_word v s' room (small 0 (omega arith))) words
            i,
    )
  where
    word_here :
        (v : ℕ) (vs : List ℕ) (s s' : Stack)
        → HasPushed 4 s s'
        → word_at s'.bytes s'.esp ≡ v
        → ((i : ℕ) → i < length vs → word_at s.bytes (s.esp + 4 * i) ≡ get_or vs i 0)
        → (i : ℕ) → i < suc (length vs)
        → word_at s'.bytes (s'.esp + 4 * i) ≡ get_or (v ∷ vs) i 0
    word_here v vs s s' r top words zero hi = ap (λ a. word_at s'.bytes a) (omega arith) ∙ top
    word_here v vs s s' r top words (suc i) hi =
        let at : s'.esp + 4 * suc i ≡ s.esp + 4 * i = omega (arith, r.esp) in
        ap (λ a. word_at s'.bytes a) at
        ∙ kept_word (s.esp + 4 * i) r (omega arith)
        ∙ words i (omega (arith, hi))
