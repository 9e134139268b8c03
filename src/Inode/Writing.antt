-- ===== src/Inode/Writing.antt =====
-- inode_write_at: how many bytes it writes, and where.
use pintos_project.Base.{
  ℕ, zero, suc, ◌+◌, ◌-◌, ◌/◌, ◌%◌, ◌≤◌, ◌<◌, ◌≡◌, refl, ap, ◌∙◌, sym, ◌⊎◌, inl, inr, Bool, true,
  false, ◌&&◌, ◌||◌, some, ◌==◌, ltb, leb, if◌then◌else◌, arith, Bool-cases, if_true, if_false,
  assert_passes, some->>=, update,
}
use pintos_project.Inode.{
  Block, Inode, block_sector_size, block_read, block_write, byte_to_sector, bytes_to_sectors,
  chunk_of, sector_image, write_from, inode_read_at, inode_write_at,
}
use pintos_project.Inode.Reading.{
  byte_at, OnDevice, moved, chunk_le, chunk_fits, moved_rest, moved_zero, valid_sector, is_over,
  over_moved, not_over_moved, leaves, leaves_iff, join_ranges, IsRead, inode_read_at_lem,
}

-- What a write of `count` bytes from `from` on leaves of the device: the inode's bytes from the offset
-- on are those of the buffer, its other bytes and the sectors of others are as they were.
pub record IsWritten (d : Block) (inode : Inode) (buffer : ℕ → ℕ) (count offset from : ℕ)
    (d' : Block) : Type 0 where
  pub size : d'.size ≡ d.size
  pub bytes :
      (p : ℕ)
      → byte_at d' inode p ≡ (
          if leb offset p && ltb p (offset + count)
          then buffer (from + (p - offset))
          else byte_at d inode p)
  pub others :
      (s : ℕ)
      → s < inode.start ⊎ (inode.start + bytes_to_sectors inode.length ≤ s)
      → d'.sectors s ≡ d.sectors s

-- The new sector has the buffer's bytes in the chunk, and its old bytes elsewhere.
image_lem :
    (old buffer : ℕ → ℕ) (ofs c from r : ℕ)
    → r < 512
    → ofs + c ≤ 512
    → sector_image (ofs == 0 && c == 512) old ofs buffer from c r
      ≡ (if leb ofs r && ltb r (ofs + c) then buffer (from + (r - ofs)) else old r)
image_lem old buffer ofs c from r h fits = elim (Bool-cases (ofs == 0 && c == 512)) [
  | inl full ↦
      let at_zero : ofs ≡ 0 = ground (arith, full) in
      let whole : c ≡ 512 = ground (arith, full) in rw (at_zero, whole) refl
  | inr part ↦
      let keeps : (ltb 0 ofs || ltb c (512 - ofs)) ≡ true = ground (arith, part) in
      rw (part, keeps) refl
]

module _ (d : Block) (inode : Inode) (buffer : ℕ → ℕ) (size offset from : ℕ) where
  abbrev chunk : ℕ
  chunk = chunk_of inode size offset

  abbrev full : Bool
  full = offset % block_sector_size == 0 && chunk == block_sector_size

  abbrev sector : ℕ
  sector = byte_to_sector inode offset

  -- The device after one round.
  abbrev round : Block
  round = record d {
    sectors =
        update d.sectors sector
          (sector_image full (d.sectors sector) (offset % block_sector_size) buffer from chunk);
  }

  bytes_lem :
      0 < moved inode size offset
      → (p : ℕ)
      → byte_at round inode p ≡ (
          if leb offset p && ltb p (offset + chunk)
          then buffer (from + (p - offset))
          else byte_at d inode p)
  bytes_lem h p = elim (Bool-cases (offset / 512 == p / 512)) [
    | inl same ↦
        let hit : (sector == inode.start + p / 512) ≡ true = ground (arith, same, h) in
        let it : sector ≡ inode.start + p / 512 = ground (arith, same, h) in
        let place : p % 512 - offset % 512 ≡ p - offset = ground (arith, same) in
        let within : (leb (offset % 512) (p % 512) && ltb (p % 512) (offset % 512 + chunk))
            ≡ (leb offset p && ltb p (offset + chunk)) =
          ground (arith, same) in
        ap (λ g. g (p % 512))
          (if_true (sector == inode.start + p / 512)
            (sector_image full (d.sectors sector) (offset % 512) buffer from chunk)
            (d.sectors (inode.start + p / 512)) hit)
        ∙ image_lem (d.sectors sector) buffer (offset % 512) chunk from (p % 512) (omega arith)
            (chunk_fits inode size offset)
        ∙ rw (within, place, it) refl
    | inr other ↦
        let miss : (sector == inode.start + p / 512) ≡ false = ground (arith, other, h) in
        let outside : (leb offset p && ltb p (offset + chunk)) ≡ false =
          ground (arith, other, chunk_fits inode size offset) in
        ap (λ g. g (p % 512))
          (if_false (sector == inode.start + p / 512)
            (sector_image full (d.sectors sector) (offset % 512) buffer from chunk)
            (d.sectors (inode.start + p / 512)) miss)
        ∙ sym (
            if_false (leb offset p && ltb p (offset + chunk)) (buffer (from + (p - offset)))
              (byte_at d inode p) outside)
  ]

  round_lem : 0 < moved inode size offset → IsWritten d inode buffer chunk offset from round
  round_lem h = record {
    size = refl;
    bytes = bytes_lem h;
    others = λ s o. if_false (sector == s) _ _ (ground (arith, h, o));
  }

  after_round :
      (d' : Block)
      → 0 < moved inode size offset
      → IsWritten round inode buffer
          (moved inode (size - chunk) (offset + chunk))
          (offset + chunk)
          (from + chunk)
          d'
      → IsWritten d inode buffer (moved inode size offset) offset from d'
  after_round d' h w = record {
    size = w.size;
    bytes = λ p. rw (moved_rest inode size offset chunk (chunk_le inode size offset)) (
        join_ranges buffer (byte_at d' inode p) (byte_at round inode p) (byte_at d inode p) offset
          from chunk (moved inode (size - chunk) (offset + chunk)) p (w.bytes p) (bytes_lem h p));
    others = λ s o. w.others s o ∙ (round_lem h).others s o;
  }

unmoved_block :
    (d : Block) (inode : Inode) (buffer : ℕ → ℕ) (count offset from : ℕ)
    → count ≡ 0
    → IsWritten d inode buffer count offset from d
unmoved_block d inode buffer count offset from z = record {
  size = refl;
  bytes = λ p. sym (
      if_false (leb offset p && ltb p (offset + count)) (buffer (from + (p - offset)))
        (byte_at d inode p) (ground (arith, z)));
  others = λ s o. refl;
}

write_from_lem :
    (n : ℕ) (d : Block) (inode : Inode) (buffer : ℕ → ℕ) (size offset from : ℕ)
    → OnDevice d inode
    → size ≤ n
    → (d' : Block) × (write_from n true d inode buffer size offset from
        ≡ some (d', from + moved inode size offset))
      × IsWritten d inode buffer (moved inode size offset) offset from d'
unfolding write_from
write_from_lem zero d inode buffer size offset from on h =
    let none_left = moved_zero inode size offset h in
    (
      d,
      if_true (size == 0) _ _ (ground (arith, h))
          ∙ ap (λ m. some (d, m)) (omega (arith, none_left)),
      unmoved_block d inode buffer _ offset from none_left,
    )
write_from_lem (suc n) d inode buffer size offset from on h =
    elim (Bool-cases (is_over inode size offset)) [
      | inl over ↦
          let none_left = over_moved inode size offset over in
          (
            d,
            if_true (leaves true inode size offset) _ _ (leaves_iff inode size offset ∙ over)
                ∙ ap (λ m. some (d, m)) (omega (arith, none_left)),
            unmoved_block d inode buffer _ offset from none_left,
          )
      | inr more ↦
          let (some_chunk, some_left) = not_over_moved inode size offset more in
          let c = chunk_of inode size offset in
          let d1 = round d inode buffer size offset from in
          let (d', e, w) =
            write_from_lem n d1 inode buffer (size - c) (offset + c) (from + c) on
              (omega (arith, h, some_chunk)) in
          let count : from + c + moved inode (size - c) (offset + c)
              ≡ from + moved inode size offset =
            omega (arith, moved_rest inode size offset c (chunk_le inode size offset)) in
          let valid = valid_sector d inode size offset on some_left in
          (
            d',
            if_false (leaves true inode size offset) _ _ (leaves_iff inode size offset ∙ more)
                ∙ some->>= (block_read d (byte_to_sector inode offset)) _
                    (assert_passes (ltb (byte_to_sector inode offset) d.size) _ valid refl)
                    (some->>= (block_write d (byte_to_sector inode offset) _) _
                      (assert_passes (ltb (byte_to_sector inode offset) d.size) _ valid refl)
                      (e ∙ ap (λ m. some (d', m)) count)),
            after_round d inode buffer size offset from d' some_left w,
          )
    ]

-- inode_write_at, of an inode whose sectors lie on the device and with memory for the bounce buffer, comes
-- to an end. If writes to the inode are denied it returns 0 and the device is unchanged. Otherwise it
-- returns the number of bytes of the request that lie before the end of the inode: that many bytes of
-- the inode from the offset on are the buffer's, and its other bytes, those of a sector that is written
-- in part too, and all sectors outside the inode are unchanged.
pub inode_write_at_lem :
    (d : Block) (inode : Inode) (buffer : ℕ → ℕ) (size offset : ℕ)
    → OnDevice d inode
    → ((0 < inode.deny_write_cnt) × (inode_write_at true d inode buffer size offset ≡ some (d, 0)))
      ⊎ ((inode.deny_write_cnt ≡ 0)
          × (d' : Block) × (inode_write_at true d inode buffer size offset
              ≡ some (d', moved inode size offset))
          × IsWritten d inode buffer (moved inode size offset) offset 0 d')
unfolding inode_write_at
inode_write_at_lem d inode buffer size offset on = elim (Bool-cases (ltb 0 inode.deny_write_cnt)) [
  | inl denied ↦ inl (ground (arith, denied), if_true (ltb 0 inode.deny_write_cnt) _ _ denied)
  | inr allowed ↦
      let (d', e, w) = write_from_lem size d inode buffer size offset 0 on (omega arith) in
      inr (
        ground (arith, allowed),
        d',
        if_false (ltb 0 inode.deny_write_cnt) _ _ allowed
            ∙ e
            ∙ ap (λ m. some (d', m)) (omega arith),
        w,
      )
]

-- What inode_write_at wrote, inode_read_at reads: if writes to an inode whose sectors lie on the device
-- are not denied, and both calls get the memory for their bounce buffers, reading as many bytes from the same offset afterwards returns the same count, and that
-- many bytes of the buffer read into are those of the buffer written.
pub inode_read_at-inode_write_at :
    (d : Block) (inode : Inode) (buffer buffer2 : ℕ → ℕ) (size offset : ℕ)
    → OnDevice d inode
    → inode.deny_write_cnt ≡ 0
    → (d' : Block) × (buffer' : ℕ → ℕ) × (inode_write_at true d inode buffer size offset
        ≡ some (d', moved inode size offset))
      × (inode_read_at true d' inode buffer2 size offset ≡ some (buffer', moved inode size offset))
      × ((a : ℕ) → a < moved inode size offset → buffer' a ≡ buffer a)
inode_read_at-inode_write_at d inode buffer buffer2 size offset on allowed =
    elim (inode_write_at_lem d inode buffer size offset on) [
      | inl (denied, e) ↦ absurd (omega (arith, denied, allowed))
      | inr (_, d', e, w) ↦
          let (buffer', e2, r) =
            inode_read_at_lem d' inode buffer2 size offset (omega (arith, on, w.size)) in
          (d', buffer', e, e2, same d' buffer' w r)
    ]
  where
    same :
        (d' : Block) (buffer' : ℕ → ℕ)
        → IsWritten d inode buffer (moved inode size offset) offset 0 d'
        → IsRead d' inode buffer2 (moved inode size offset) offset 0 buffer'
        → (a : ℕ) → a < moved inode size offset
        → buffer' a ≡ buffer a
    same d' buffer' w r a h =
        let n = moved inode size offset in
        let back : 0 + (offset + (a - 0) - offset) ≡ a = omega arith in
        r a
        ∙ if_true (leb 0 a && ltb a (0 + n)) (byte_at d' inode (offset + (a - 0))) (buffer2 a)
            (ground (arith, h))
        ∙ w.bytes (offset + (a - 0))
        ∙ if_true (leb offset (offset + (a - 0)) && ltb (offset + (a - 0)) (offset + n))
            (buffer (0 + (offset + (a - 0) - offset))) (byte_at d inode (offset + (a - 0)))
            (ground (arith, h))
        ∙ ap buffer back
