-- ===== src/Inode/Reading.antt =====
-- inode_read_at: how many bytes it reads, and which.
use pintos_project.Base.{
  ℕ, zero, suc, ◌+◌, ◌-◌, ◌/◌, ◌%◌, ◌≤◌, ◌<◌, ◌≡◌, refl, ap, ◌∙◌, sym, inl, inr, Bool, true, false,
  not, ◌&&◌, ◌||◌, some, ◌==◌, ltb, leb, if◌then◌else◌, arith, Bool-cases, if_true, if_false,
  assert_passes, some->>=,
}
use pintos_project.Inode.{
  Block, Inode, block_sector_size, block_read, memcpy, byte_to_sector, bytes_to_sectors, chunk_of,
  read_from, inode_read_at,
}

-- The byte at a position of the inode's data.
abbrev pub byte_at : Block → Inode → ℕ → ℕ
byte_at d inode p = d.sectors (inode.start + p / block_sector_size) (p % block_sector_size)

-- The sectors of the inode's data are sectors of the device.
abbrev pub OnDevice : Block → Inode → Type 0
OnDevice d inode = inode.start + bytes_to_sectors inode.length ≤ d.size

-- The number of bytes that a request moves: those of it that lie before the end of the inode.
abbrev pub moved : Inode → ℕ → ℕ → ℕ
moved inode size offset = let left = inode.length - offset in if ltb size left then size else left

-- A round moves nothing only if nothing is left to move.
pub chunk_none :
    (inode : Inode) (size offset : ℕ) → chunk_of inode size offset ≡ 0 → moved inode size offset ≡ 0
chunk_none inode size offset h = ground (arith, h)

pub chunk_le :
    (inode : Inode) (size offset : ℕ) → chunk_of inode size offset ≤ moved inode size offset
chunk_le inode size offset = ground arith

pub moved_rest :
    (inode : Inode) (size offset c : ℕ)
    → c ≤ moved inode size offset
    → moved inode size offset ≡ c + moved inode (size - c) (offset + c)
moved_rest inode size offset c h = ground (arith, h)

pub valid_sector :
    (d : Block) (inode : Inode) (size offset : ℕ)
    → OnDevice d inode
    → 0 < moved inode size offset
    → ltb (byte_to_sector inode offset) d.size ≡ true
valid_sector d inode size offset on h = ground (arith, on, h)

-- The chunk lies in one sector.
pub chunk_fits : (inode : Inode) (size offset : ℕ) → offset % 512 + chunk_of inode size offset ≤ 512
chunk_fits inode size offset = ground arith

-- What a read leaves in the buffer from `from` on.
abbrev pub IsRead : Block → Inode → (ℕ → ℕ) → ℕ → ℕ → ℕ → (ℕ → ℕ) → Type 0
IsRead d inode buffer count offset from buffer' =
    (a : ℕ)
    → buffer' a ≡ (
        if leb from a && ltb a (from + count)
        then byte_at d inode (offset + (a - from))
        else buffer a)

-- A range of `c` positions from `from` on, and one of `m` behind it, make one of `c + m`.
pub join_ranges :
    (bytes : ℕ → ℕ) (x y z from off c m a : ℕ)
    → x
      ≡ (if leb (from + c) a && ltb a (from + c + m) then bytes (off + c + (a - (from + c))) else y)
    → y ≡ (if leb from a && ltb a (from + c) then bytes (off + (a - from)) else z)
    → x ≡ (if leb from a && ltb a (from + (c + m)) then bytes (off + (a - from)) else z)
join_ranges bytes x y z from off c m a p q = elim (Bool-cases (leb (from + c) a)) [
  | inl late ↦
      let same : off + c + (a - (from + c)) ≡ off + (a - from) = ground (arith, late) in
      ground (arith, rw same at p, q, late)
  | inr early ↦ ground (arith, p, q, early)
]

module _ (d : Block) (inode : Inode) (buffer : ℕ → ℕ) (size offset from : ℕ) where
  abbrev chunk : ℕ
  chunk = chunk_of inode size offset

  -- The buffer after one round.
  abbrev round : ℕ → ℕ
  round =
      memcpy buffer from (d.sectors (byte_to_sector inode offset)) (offset % block_sector_size)
        chunk

  round_lem :
      0 < moved inode size offset
      → (a : ℕ)
      → round a ≡ (
          if leb from a && ltb a (from + chunk)
          then byte_at d inode (offset + (a - from))
          else buffer a)
  round_lem h a = elim (Bool-cases (leb from a && ltb a (from + chunk))) [
    | inl w ↦ if_true _ _ _ w ∙ same_byte w ∙ sym (if_true _ _ _ w)
    | inr n ↦ if_false _ _ _ n ∙ sym (if_false _ _ _ n)
  ]
    where
      in_inode : ltb offset inode.length ≡ true
      in_inode = ground (arith, h)

      same_byte :
          (leb from a && ltb a (from + chunk)) ≡ true
          → d.sectors (byte_to_sector inode offset) (offset % block_sector_size + (a - from))
            ≡ byte_at d inode (offset + (a - from))
      same_byte w =
          let sector : offset / 512 ≡ (offset + (a - from)) / 512 =
            ground (arith, w, chunk_fits inode size offset) in
          let place : offset % 512 + (a - from) ≡ (offset + (a - from)) % 512 =
            ground (arith, w, chunk_fits inode size offset) in
          rw (in_inode, sector, place) refl

  after_round :
      (buffer' : ℕ → ℕ)
      → 0 < moved inode size offset
      → IsRead d inode round
          (moved inode (size - chunk) (offset + chunk))
          (offset + chunk)
          (from + chunk)
          buffer'
      → IsRead d inode buffer (moved inode size offset) offset from buffer'
  after_round buffer' h r a = rw (moved_rest inode size offset chunk (chunk_le inode size offset)) (
      join_ranges (byte_at d inode) (buffer' a) (round a) (buffer a) from offset chunk
        (moved inode (size - chunk) (offset + chunk)) a (r a) (round_lem h a))

-- The loop stops where nothing is left to move.
abbrev pub is_over : Inode → ℕ → ℕ → Bool
is_over inode size offset = size == 0 || chunk_of inode size offset == 0

pub over_moved :
    (inode : Inode) (size offset : ℕ)
    → is_over inode size offset ≡ true
    → moved inode size offset ≡ 0
over_moved inode size offset h = elim (Bool-cases (size == 0)) [
  | inl z ↦ ground (arith, z)
  | inr n ↦ chunk_none inode size offset (ground (arith, h, n))
]

pub not_over_moved :
    (inode : Inode) (size offset : ℕ)
    → is_over inode size offset ≡ false
    → (0 < chunk_of inode size offset) × (0 < moved inode size offset)
not_over_moved inode size offset h =
    let some_chunk : 0 < chunk_of inode size offset = ground (arith, h) in
    (some_chunk, omega (arith, some_chunk, chunk_le inode size offset))

-- With memory for the bounce buffer, only that ends the loop.
pub stops : (a b full : Bool) → (a || b || (not full && not true)) ≡ (a || b)
stops true b full = refl
stops false true full = refl
stops false false true = refl
stops false false false = refl

-- The condition under which a round leaves the loop.
abbrev pub leaves : Bool → Inode → ℕ → ℕ → Bool
leaves room inode size offset =
    size == 0
    || chunk_of inode size offset == 0
    || (not (offset % block_sector_size == 0 && chunk_of inode size offset == block_sector_size)
        && not room)

pub leaves_iff :
    (inode : Inode) (size offset : ℕ) → leaves true inode size offset ≡ is_over inode size offset
leaves_iff inode size offset = stops (size == 0) (chunk_of inode size offset == 0) _

unmoved_buffer :
    (d : Block) (inode : Inode) (buffer : ℕ → ℕ) (size offset from : ℕ)
    → moved inode size offset ≡ 0
    → IsRead d inode buffer (moved inode size offset) offset from buffer
unmoved_buffer d inode buffer size offset from z a = rw z (
    sym (
      if_false (leb from a && ltb a (from + 0)) (byte_at d inode (offset + (a - from))) (buffer a)
        (ground arith)))

pub moved_zero : (inode : Inode) (size offset : ℕ) → size ≤ 0 → moved inode size offset ≡ 0
moved_zero inode size offset h = ground (arith, h)

read_from_lem :
    (n : ℕ) (d : Block) (inode : Inode) (buffer : ℕ → ℕ) (size offset from : ℕ)
    → OnDevice d inode
    → size ≤ n
    → (buffer' : ℕ → ℕ) × (read_from n true d inode buffer size offset from
        ≡ some (buffer', from + moved inode size offset))
      × IsRead d inode buffer (moved inode size offset) offset from buffer'
unfolding read_from
read_from_lem zero d inode buffer size offset from on h =
    let none_left = moved_zero inode size offset h in
    (
      buffer,
      if_true (size == 0) _ _ (ground (arith, h))
          ∙ ap (λ m. some (buffer, m)) (omega (arith, none_left)),
      unmoved_buffer d inode buffer size offset from none_left,
    )
read_from_lem (suc n) d inode buffer size offset from on h =
    elim (Bool-cases (is_over inode size offset)) [
      | inl over ↦
          let none_left = over_moved inode size offset over in
          (
            buffer,
            if_true (leaves true inode size offset) _ _ (leaves_iff inode size offset ∙ over)
                ∙ ap (λ m. some (buffer, m)) (omega (arith, none_left)),
            unmoved_buffer d inode buffer size offset from none_left,
          )
      | inr more ↦
          let (some_chunk, some_left) = not_over_moved inode size offset more in
          let c = chunk_of inode size offset in
          let b = round d inode buffer size offset from in
          let (buffer', e, r) =
            read_from_lem n d inode b (size - c) (offset + c) (from + c) on
              (omega (arith, h, some_chunk)) in
          let count : from + c + moved inode (size - c) (offset + c)
              ≡ from + moved inode size offset =
            omega (arith, moved_rest inode size offset c (chunk_le inode size offset)) in
          (
            buffer',
            if_false (leaves true inode size offset) _ _ (leaves_iff inode size offset ∙ more)
                ∙ some->>= (block_read d (byte_to_sector inode offset)) _
                    (assert_passes (ltb (byte_to_sector inode offset) d.size) _
                      (valid_sector d inode size offset on some_left) refl)
                    (e ∙ ap (λ m. some (buffer', m)) count),
            after_round d inode buffer size offset from buffer' some_left r,
          )
    ]

-- inode_read_at, of an inode whose sectors lie on the device and with memory for the bounce buffer, comes
-- to an end and returns the number of bytes of the request that lie before the end of the inode. That
-- many bytes of the buffer are the inode's from the offset on, whichever sectors they are in, and the
-- rest of the buffer is unchanged.
pub inode_read_at_lem :
    (d : Block) (inode : Inode) (buffer : ℕ → ℕ) (size offset : ℕ)
    → OnDevice d inode
    → (buffer' : ℕ → ℕ) × (inode_read_at true d inode buffer size offset
        ≡ some (buffer', moved inode size offset))
      × IsRead d inode buffer (moved inode size offset) offset 0 buffer'
unfolding inode_read_at
inode_read_at_lem d inode buffer size offset on =
    let (buffer', e, r) = read_from_lem size d inode buffer size offset 0 on (omega arith) in
    (buffer', e ∙ ap (λ m. some (buffer', m)) (omega arith), r)
