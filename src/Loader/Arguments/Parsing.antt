-- ===== src/Loader/Arguments/Parsing.antt =====
-- Taking a command line apart.
use native.Mathlib.Decide.{ℕ_discrete}
use pintos_project.Base.{
  ℕ, zero, suc, ◌+◌, ◌≤◌, ◌<◌, ◌≡◌, refl, sym, ap, ◌∙◌, ◌≢◌, ◌⊎◌, inl, inr, Bool, true, false,
  Option, none, some, Bool-cases, assert_passes, List, [], ◌∷◌, ◌++◌, ◌==◌, if◌then◌else◌, length,
  arith, some->>=, if_false,
}
use pintos_project.Loader.Arguments.{
  skip_spaces, token_of, behind_token, split_token, add_argument, strtok_r, parse_arguments,
}

-- Characters that are no space.
pub data NoSpace : List ℕ → Type 0 where
  empty : NoSpace []
  more : {c : ℕ} {cs : List ℕ} → c ≢ 32 → NoSpace cs → NoSpace (c ∷ cs)

-- Arguments: none is empty or holds a space.
pub data AreArguments : List (List ℕ) → Type 0 where
  none_left : AreArguments []
  one_more :
      {c : ℕ} {cs : List ℕ} {xs : List (List ℕ)}
      → NoSpace (c ∷ cs)
      → AreArguments xs
      → AreArguments ((c ∷ cs) ∷ xs)

-- The characters that are no space, in their order.
abbrev pub unspaced : List ℕ → List ℕ
unspaced [] = []
unspaced (c ∷ cs) = if c == 32 then unspaced cs else c ∷ unspaced cs

abbrev pub concat : List (List ℕ) → List ℕ
concat [] = []
concat (x ∷ xs) = x ++ concat xs

-- A command line of arguments, each with a space behind it.
abbrev pub command_line : List (List ℕ) → List ℕ
command_line [] = []
command_line (x ∷ xs) = x ++ 32 ∷ command_line xs

space_or_not : (c : ℕ) → (c ≡ 32) ⊎ (((c == 32) ≡ false) × (c ≢ 32))
space_or_not c = ground arith

token-NoSpace : (s : List ℕ) → NoSpace (token_of s)
token-NoSpace [] = empty
token-NoSpace (c ∷ cs) = elim (space_or_not c) [
  | inl y ↦ rw y empty
  | inr (n, ne) ↦ rw n (more ne (token-NoSpace cs))
]

token_unspaced : (s : List ℕ) → token_of s ++ unspaced (behind_token s) ≡ unspaced s
token_unspaced [] = refl
token_unspaced (c ∷ cs) = elim (space_or_not c) [
  | inl y ↦ rw y refl
  | inr (n, ne) ↦ rw n (ap (λ t. c ∷ t) (token_unspaced cs))
]

behind_shorter : (s : List ℕ) → length (behind_token s) ≤ length s
behind_shorter [] = omega arith
behind_shorter (c ∷ cs) = elim (space_or_not c) [
  | inl y ↦ rw y (omega arith)
  | inr (n, ne) ↦ rw n (omega (arith, behind_shorter cs))
]

-- A token ends at a space or at the end of the string.
token_parts :
    (s : List ℕ)
    → (s ≡ token_of s ++ 32 ∷ behind_token s) ⊎ ((s ≡ token_of s) × (behind_token s ≡ []))
token_parts [] = inr (refl, refl)
token_parts (c ∷ cs) = elim (space_or_not c) [
  | inl y ↦ rw y (inl refl)
  | inr (n, ne) ↦ elim (token_parts cs) [
    | inl e ↦ rw n (inl (ap (λ t. c ∷ t) e))
    | inr (e, last) ↦ rw n (inr (ap (λ t. c ∷ t) e, last))
  ]
]

-- The arguments of a string, each as long as it can be: spaces, an argument, and behind it a space and
-- the rest, or the end.
abbrev pub Splits : List ℕ → List (List ℕ) → Type 0
Splits s [] = unspaced s ≡ []
Splits s (x ∷ xs) =
    (before : List ℕ) × (rest : List ℕ) × (unspaced before ≡ [])
    × ((s ≡ before ++ x ++ 32 ∷ rest) ⊎ ((s ≡ before ++ x) × (rest ≡ [])))
    × Splits rest xs

-- What strtok_r finds in a string.
record IsToken (s t rest : List ℕ) : Type 0 where
  first : ℕ
  others : List ℕ
  shape : t ≡ first ∷ others
  no_space : NoSpace (first ∷ others)
  order : t ++ unspaced rest ≡ unspaced s
  shorter : length rest < length s
  before : List ℕ
  blank : unspaced before ≡ []
  parts : (s ≡ before ++ t ++ 32 ∷ rest) ⊎ ((s ≡ before ++ t) × (rest ≡ []))

split_first :
    (c : ℕ) (cs : List ℕ)
    → (c == 32) ≡ false
    → split_token (c ∷ cs) ≡ some (c ∷ token_of cs, behind_token cs)
split_first c cs n =
    ap (λ b. some ((if b then [] else c ∷ token_of cs), (if b then cs else behind_token cs))) n

strtok_r_cases :
    (s : List ℕ)
    → ((strtok_r s ≡ none) × (unspaced s ≡ []))
      ⊎ ((t rest : List ℕ) × (strtok_r s ≡ some (t, rest)) × IsToken s t rest)
unfolding strtok_r
strtok_r_cases [] = inl (refl, refl)
strtok_r_cases (c ∷ cs) = elim (space_or_not c) [
  | inl y ↦ elim (strtok_r_cases cs) [
    | inl (e, u) ↦ inl (rw y e, rw y u)
    | inr (t, rest, e, k) ↦ inr (
      t,
      rest,
      rw y e,
      record {
        first = k.first;
        others = k.others;
        shape = k.shape;
        no_space = k.no_space;
        order = rw y k.order;
        shorter = omega (arith, k.shorter);
        before = c ∷ k.before;
        blank = rw y k.blank;
        parts = elim k.parts [
          | inl p ↦ inl (ap (λ l. c ∷ l) p)
          | inr (p, z) ↦ inr (ap (λ l. c ∷ l) p, z)
        ];
      },
    )
  ]
  | inr (n, ne) ↦ inr (
    c ∷ token_of cs,
    behind_token cs,
    ap split_token (if_false (c == 32) (skip_spaces cs) (c ∷ cs) n) ∙ split_first c cs n,
    record {
      first = c;
      others = token_of cs;
      shape = refl;
      no_space = more ne (token-NoSpace cs);
      order = rw n (ap (λ t. c ∷ t) (token_unspaced cs));
      shorter = omega (arith, behind_shorter cs);
      before = [];
      blank = refl;
      parts = elim (token_parts cs) [
        | inl p ↦ inl (ap (λ l. c ∷ l) p)
        | inr (p, z) ↦ inr (ap (λ l. c ∷ l) p, z)
      ];
    },
  )
]

-- What the realloc calls for the arguments behind the first `k` come to.
abbrev pub HasParsed : (ℕ → Bool) → ℕ → List (List ℕ) → Option (List (List ℕ)) → Type 0
HasParsed room k args r =
    (((i : ℕ) → k < i → i ≤ k + length args → room i ≡ true) × (r ≡ some args))
    ⊎ ((i : ℕ) × (k < i) × (i ≤ k + length args) × (room i ≡ false) × (r ≡ none))

-- One argument more, with the realloc for it.
one_parsed :
    (room : ℕ → Bool) (k : ℕ) (t rest : List ℕ) (args : List (List ℕ))
    (others : List ℕ → Option (List (List ℕ)))
    → HasParsed room (k + 1) args (others rest)
    → HasParsed room k (t ∷ args) (add_argument (room (k + 1)) (some (t, rest)) others)
one_parsed room k t rest args others h = elim (Bool-cases (room (k + 1))) [
  | inr f ↦ inr (k + 1, omega arith, omega arith, f, rw f refl)
  | inl y ↦ elim h [
    | inl (all, e) ↦ inl (
      (λ i lo hi. elim (ℕ_discrete i (k + 1)) [
        | yes q ↦ rw q y
        | no q ↦ all i (omega (arith, lo, q)) (omega (arith, hi))
      ]),
      assert_passes (room (k + 1)) _ y (some->>= (others rest) _ e refl),
    )
    | inr (i, lo, hi, f, e) ↦
        inr
          (i, omega (arith, lo), omega (arith, hi), f, assert_passes (room (k + 1)) _ y (rw e refl))
  ]
]

-- Taking a command line apart, with more rounds than it has characters, comes to an end. The arguments are
-- those that the spaces part: none has a space or is empty, each has a space or the end of the line behind
-- it, and together they are the characters of the line that are no space. They are what is returned,
-- unless the realloc for one of them fails: then the source frees a pointer that was never set, which is
-- a fault here.
pub parse_arguments_lem :
    (room : ℕ → Bool) (k n : ℕ) (s : List ℕ)
    → length s < n
    → (args : List (List ℕ)) × HasParsed room k args (parse_arguments room k n s)
      × Splits s args
      × AreArguments args
      × (concat args ≡ unspaced s)
unfolding parse_arguments
parse_arguments_lem room k zero s h = absurd (omega arith)
parse_arguments_lem room k (suc n) s h = elim (strtok_r_cases s) [
  | inl (e, u) ↦ (
    [],
    inl (
      (λ i lo hi. absurd (omega (arith, lo, hi))),
      ap (λ r. add_argument (room (k + 1)) r (λ x. parse_arguments room (k + 1) n x)) e,
    ),
    u,
    none_left,
    sym u,
  )
  | inr (t, rest, e, tok) ↦
      let (args, done, split, all, order) =
        parse_arguments_lem room (k + 1) n rest (omega (arith, h, tok.shorter)) in
      (
        t ∷ args,
        rw e (one_parsed room k t rest args (λ x. parse_arguments room (k + 1) n x) done),
        (tok.before, rest, tok.blank, tok.parts, split),
        rw tok.shape (one_more tok.no_space all),
        ap (λ x. t ++ x) order ∙ tok.order,
      )
]

token_first :
    (x rest : List ℕ)
    → NoSpace x
    → (token_of (x ++ 32 ∷ rest) ≡ x) × (behind_token (x ++ 32 ∷ rest) ≡ rest)
token_first [] rest empty = (refl, refl)
token_first (c ∷ cs) rest (more ne h) =
    let (t, b) = token_first cs rest h in
    let n : (c == 32) ≡ false = ground (arith, ne) in (rw n (ap (λ x. c ∷ x) t), rw n b)

strtok_r_first :
    (c : ℕ) (cs rest : List ℕ)
    → NoSpace (c ∷ cs)
    → strtok_r (c ∷ cs ++ 32 ∷ rest) ≡ some (c ∷ cs, rest)
unfolding strtok_r
strtok_r_first c cs rest (more ne h) =
    let (t, b) = token_first cs rest h in
    let n : (c == 32) ≡ false = ground (arith, ne) in
    ap split_token (if_false (c == 32) (skip_spaces (cs ++ 32 ∷ rest)) (c ∷ cs ++ 32 ∷ rest) n)
    ∙ split_first c (cs ++ 32 ∷ rest) n
    ∙ rw (t, b) refl

-- The arguments of a command line, each followed by a space, are found again, in one round more than
-- there are arguments.
pub parse_arguments-command_line :
    (room : ℕ → Bool) (k : ℕ) (args : List (List ℕ))
    → AreArguments args
    → HasParsed room k args (parse_arguments room k (suc (length args)) (command_line args))
unfolding parse_arguments strtok_r
parse_arguments-command_line room k [] none_left =
    inl ((λ i lo hi. absurd (omega (arith, lo, hi))), refl)
parse_arguments-command_line room k ([] ∷ xs) h = elim h [ ]
parse_arguments-command_line room k ((c ∷ cs) ∷ xs) (one_more h r) =
    rw (strtok_r_first c cs (command_line xs) h) (
      one_parsed room k (c ∷ cs) (command_line xs) xs
        (λ x. parse_arguments room (k + 1) (suc (length xs)) x)
        (parse_arguments-command_line room (k + 1) xs r))
