-- ===== src/Hash.antt =====
-- lib/kernel/hash.c: the hash table.
-- An element is the address of its `struct hash_elem`, 0 is NULL; a bucket is the list of the elements that
-- it links, front first. The functions `hash` and `less` of a table are those of its client, as they are
-- while the client does not change the keys. `got` is whether malloc gives the new buckets.
pub mod Counting
pub mod Finding
pub mod Rehashing
pub mod Changing
pub mod Operations
pub mod Iteration
pub mod Bytes
mod Tests
use Prim.Native.Nat.{bit_and, bit_xor}
use pintos_project.Base.{
  ℕ, zero, suc, ◌+◌, ◌-◌, ◌*◌, ◌/◌, ◌%◌, ◌^◌, Bool, true, false, not, ◌&&◌, Option, none, some,
  List, [], ◌∷◌, ◌++◌, ◌==◌, ltb, if◌then◌else◌, update, erase,
}

-- struct hash
pub record Hash : Type 0 where
  pub elem_cnt : ℕ
  pub bucket_cnt : ℕ
  pub buckets : ℕ → List ℕ
  pub hash : ℕ → ℕ
  pub less : ℕ → ℕ → Bool

-- Equal, as find_elem tests it.
abbrev pub is_equal : Hash → ℕ → ℕ → Bool
is_equal h hi e = not (h.less hi e) && not (h.less e hi)

-- find_bucket (h, e), as the index of the bucket
unfoldable pub find_bucket : Hash → ℕ → ℕ
find_bucket h e = bit_and (h.hash e) (h.bucket_cnt - 1)

-- find_elem (h, bucket, e)
unfoldable pub find_elem : Hash → List ℕ → ℕ → ℕ
find_elem h [] e = 0
find_elem h (hi ∷ rest) e = if is_equal h hi e then hi else find_elem h rest e

abbrev pub push_front : ℕ → ℕ → Hash → Hash
push_front bucket e h = record h { buckets = update h.buckets bucket (e ∷ h.buckets bucket) }

-- insert_elem (h, bucket, e)
abbrev pub insert_elem : ℕ → ℕ → Hash → Hash
insert_elem bucket e h = push_front bucket e (record h { elem_cnt = (h.elem_cnt + 1) % 2 ^ 32 })

-- remove_elem (h, e): list_remove needs no bucket to be named.
abbrev pub remove_elem : ℕ → Hash → Hash
remove_elem e h = record h {
  elem_cnt = (h.elem_cnt + (2 ^ 32 - 1)) % 2 ^ 32;
  buckets = λ i. erase e (h.buckets i);
}

-- turn_off_least_1bit (x)
unfoldable pub turn_off_least_1bit : ℕ → ℕ
turn_off_least_1bit x = bit_and x (x - 1)

-- is_power_of_2 (x)
unfoldable pub is_power_of_2 : ℕ → Bool
unfolding turn_off_least_1bit
is_power_of_2 x = not (x == 0) && turn_off_least_1bit x == 0

-- The loop of rehash that turns bits off until a power of 2 is left, for `n` rounds.
unfoldable pub to_power_of_2 : ℕ → ℕ → ℕ
unfolding is_power_of_2
to_power_of_2 zero x = x
to_power_of_2 (suc n) x =
    let rest = to_power_of_2 n (turn_off_least_1bit x) in if is_power_of_2 x then x else rest

-- The number of buckets for so many elements: each round turns one bit off, so as many rounds as the
-- number are enough.
unfoldable pub new_bucket_cnt : ℕ → ℕ
unfolding to_power_of_2
new_bucket_cnt elem_cnt =
    let ideal = if ltb (elem_cnt / 2) 4 then 4 else elem_cnt / 2 in to_power_of_2 ideal ideal

-- The loops of rehash that move the elements of the old buckets.
unfoldable pub move_bucket : List ℕ → Hash → Hash
unfolding find_bucket
move_bucket [] h = h
move_bucket (e ∷ es) h = move_bucket es (push_front (find_bucket h e) e h)

unfoldable pub move_buckets : ℕ → (ℕ → List ℕ) → Hash → Hash
unfolding move_bucket
move_buckets zero old h = h
move_buckets (suc i) old h = move_bucket (old i) (move_buckets i old h)

-- rehash (h)
unfoldable pub rehash : Bool → Hash → Hash
unfolding move_buckets new_bucket_cnt
rehash got h =
    let cnt = new_bucket_cnt h.elem_cnt in
    let moved =
      move_buckets h.bucket_cnt h.buckets (record h { bucket_cnt = cnt; buckets = λ i. [] }) in
    if cnt == h.bucket_cnt then h else if got then moved else h

-- hash_find (h, e)
unfoldable pub hash_find : ℕ → Hash → ℕ
unfolding find_bucket find_elem
hash_find e h = find_elem h (h.buckets (find_bucket h e)) e

-- hash_insert (h, new): the equal element that was there, and the table.
unfoldable pub hash_insert : Bool → ℕ → Hash → ℕ × Hash
unfolding find_bucket find_elem rehash
hash_insert got new h =
    let bucket = find_bucket h new in
    let old = find_elem h (h.buckets bucket) new in
    (old, rehash got (if old == 0 then insert_elem bucket new h else h))

-- hash_replace (h, new)
unfoldable pub hash_replace : Bool → ℕ → Hash → ℕ × Hash
unfolding find_bucket find_elem rehash
hash_replace got new h =
    let bucket = find_bucket h new in
    let old = find_elem h (h.buckets bucket) new in
    (old, rehash got (insert_elem bucket new (if old == 0 then h else remove_elem old h)))

-- hash_delete (h, e)
unfoldable pub hash_delete : Bool → ℕ → Hash → ℕ × Hash
unfolding find_bucket find_elem rehash
hash_delete got e h =
    let found = find_elem h (h.buckets (find_bucket h e)) e in
    (found, if found == 0 then h else rehash got (remove_elem found h))

-- The elements in the order in which hash_apply (h, action) hands them to the action, from the first
-- bucket to the last of so many.
abbrev pub elements : ℕ → (ℕ → List ℕ) → List ℕ
elements zero buckets = []
elements (suc i) buckets = elements i buckets ++ buckets i

unfoldable pub hash_apply : Hash → List ℕ
hash_apply h = elements h.bucket_cnt h.buckets

-- hash_clear (h, destructor): the elements that the destructor is called for, if there is one, and the
-- table.
unfoldable pub hash_clear : Bool → Hash → List ℕ × Hash
hash_clear destructor h = (
  if destructor then elements h.bucket_cnt h.buckets else [],
  record h { buckets = (λ i. if ltb i h.bucket_cnt then [] else h.buckets i); elem_cnt = 0 },
)

-- hash_init (h, hash, less): the lists of the buckets are set up by hash_clear.
unfoldable pub hash_init : Bool → (ℕ → ℕ) → (ℕ → ℕ → Bool) → Option Hash
unfolding hash_clear
hash_init got hash less =
    if got
    then some (
        (hash_clear false
          (record { elem_cnt = 0; bucket_cnt = 4; buckets = λ i. []; hash = hash; less = less })).1)
    else none

-- hash_size (h) and hash_empty (h)
abbrev pub hash_size : Hash → ℕ
hash_size h = h.elem_cnt

abbrev pub hash_empty : Hash → Bool
hash_empty h = h.elem_cnt == 0

-- struct hash_iterator, on a table that does not change: `ahead` are the elements behind `elem` in its
-- bucket, as list_next gives them.
pub record Iterator : Type 0 where
  pub bucket : ℕ
  pub ahead : List ℕ
  pub elem : ℕ

-- hash_first (i, h): `elem` is the head of the first bucket, which is no element.
abbrev pub hash_first : Hash → Iterator
hash_first h = record { bucket = 0; ahead = h.buckets 0; elem = 0 }

-- hash_next (i), whose loop enters `n` further buckets at most.
unfoldable pub hash_next : ℕ → Hash → Iterator → Iterator
hash_next zero h i = i
hash_next (suc n) h i =
    let bucket = i.bucket + 1 in
    let rest = hash_next n h (record { bucket = bucket; ahead = h.buckets bucket; elem = 0 }) in
    elim i.ahead [
      | e ∷ es ↦ record i { elem = e; ahead = es }
      | [] ↦
          if ltb bucket h.bucket_cnt then rest else record { bucket = bucket; ahead = []; elem = 0 }
    ]

-- hash_bytes (buf, size), from the hash so far
unfoldable pub hash_from : (ℕ → ℕ) → ℕ → ℕ → ℕ → ℕ
hash_from bytes hash buf zero = hash
hash_from bytes hash buf (suc size) =
    hash_from bytes (bit_xor (hash * 16777619 % 2 ^ 32) (bytes buf)) (buf + 1) size

abbrev pub fnv_32_basis : ℕ
fnv_32_basis = 2166136261

unfoldable pub hash_bytes : (ℕ → ℕ) → ℕ → ℕ → ℕ
unfolding hash_from
hash_bytes bytes buf size = hash_from bytes fnv_32_basis buf size

-- hash_string (s), from the hash so far, for a string of less than `n` characters
unfoldable pub hash_string_from : (ℕ → ℕ) → ℕ → ℕ → ℕ → ℕ
hash_string_from bytes hash s zero = hash
hash_string_from bytes hash s (suc n) =
    let rest = hash_string_from bytes (bit_xor (hash * 16777619 % 2 ^ 32) (bytes s)) (s + 1) n in
    if bytes s == 0 then hash else rest

unfoldable pub hash_string : ℕ → (ℕ → ℕ) → ℕ → ℕ
unfolding hash_string_from
hash_string n bytes s = hash_string_from bytes fnv_32_basis s n

-- hash_int (i), of the 4 bytes of an int
unfoldable pub hash_int : ℕ → ℕ
unfolding hash_bytes
hash_int i = hash_bytes (λ a. i / 256 ^ a % 256) 0 4
