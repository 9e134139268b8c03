-- ===== src/Loader/Segments.antt =====
-- The segments that validate_segment accepts.
use pintos_project.Base.{
  ℕ, ◌+◌, ◌-◌, ◌%◌, ◌^◌, ◌≤◌, ◌<◌, ◌≡◌, ◌∙◌, true, ◌==◌, if◌then◌else◌, arith,
}
use pintos_project.Palloc.{pg_size, phys_base}
use pintos_project.Paging.{pg_ofs}
use pintos_project.Loader.{Phdr, Segment, validate_segment, round_up, segment_of}

-- The fields of a program header are 32-bit words.
pub record IsPhdr (p : Phdr) : Type 0 where
  pub offset : p.offset < 2 ^ 32
  pub vaddr : p.vaddr < 2 ^ 32
  pub filesz : p.filesz < 2 ^ 32
  pub memsz : p.memsz < 2 ^ 32

-- A segment of whole pages, from a page behind the first up to the kernel's addresses at most.
pub record IsUserSegment (g : Segment) : Type 0 where
  pub whole : (g.read_bytes + g.zero_bytes) % pg_size ≡ 0
  pub aligned : pg_ofs g.upage ≡ 0
  pub ofs_aligned : g.ofs % pg_size ≡ 0
  pub behind_null : pg_size ≤ g.upage
  pub below_kernel : g.upage + (g.read_bytes + g.zero_bytes) ≤ phys_base
  pub some_page : 0 < g.read_bytes + g.zero_bytes

validated :
    (p : Phdr) (length : ℕ)
    → IsPhdr p
    → validate_segment p length ≡ true
    → (p.vaddr + p.memsz < phys_base)
      × (pg_size ≤ p.vaddr)
      × (p.filesz ≤ p.memsz)
      × (0 < p.memsz)
      × (pg_ofs p.offset ≡ pg_ofs p.vaddr)
      × (p.offset ≤ length)
unfolding validate_segment
validated p length w h = ground (arith, w.vaddr, w.memsz, h)

-- The pages of `x` bytes.
record IsRounded (x t : ℕ) : Type 0 where
  whole : t % pg_size ≡ 0
  enough : x ≤ t
  tight : t < x + pg_size

round_up_lem : (x : ℕ) → x < phys_base → IsRounded x (round_up (x % 2 ^ 32))
round_up_lem x h = record {
  whole = omega arith;
  enough = omega (arith, h);
  tight = omega (arith, h);
}

read_lem :
    (p : Phdr)
    → p.vaddr + p.memsz < phys_base
    → p.filesz ≤ p.memsz
    → (segment_of p).read_bytes ≡ (if p.filesz == 0 then 0 else pg_ofs p.vaddr + p.filesz)
unfolding segment_of
read_lem p end fits = ground (arith, end, fits)

sum_lem :
    (p : Phdr)
    → p.vaddr + p.memsz < phys_base
    → p.filesz ≤ p.memsz
    → (segment_of p).read_bytes + (segment_of p).zero_bytes
      ≡ round_up ((pg_ofs p.vaddr + p.memsz) % 2 ^ 32)
unfolding segment_of
sum_lem p end fits =
    let t = round_up ((pg_ofs p.vaddr + p.memsz) % 2 ^ 32) in
    let r = round_up_lem (pg_ofs p.vaddr + p.memsz) (omega (arith, end)) in
    let small : (segment_of p).read_bytes ≤ t =
      ground (arith, read_lem p end fits, r.enough, fits) in
    omega (arith, small, r.tight, end)

-- A program header that validate_segment accepts gives load_segment arguments that pass its assertions:
-- whole pages of the user's addresses behind the first page, which the segment's bytes in memory lie in.
-- The bytes that are read are those of the file up to the end of the segment in it, none where it has no
-- byte there.
pub validate_segment_lem :
    (p : Phdr) (length : ℕ)
    → IsPhdr p
    → validate_segment p length ≡ true
    → IsUserSegment (segment_of p)
      × ((segment_of p).upage ≤ p.vaddr)
      × (p.vaddr + p.memsz
          ≤ (segment_of p).upage + ((segment_of p).read_bytes + (segment_of p).zero_bytes))
      × ((segment_of p).ofs ≤ p.offset)
      × ((segment_of p).read_bytes
          ≡ (if p.filesz == 0 then 0 else (p.offset - (segment_of p).ofs) + p.filesz))
unfolding segment_of
validate_segment_lem p length w h =
    let (end, low, fits, some_byte, same, inside) = validated p length w h in
    let sum = sum_lem p end fits in
    let r = round_up_lem (pg_ofs p.vaddr + p.memsz) (omega (arith, end)) in
    (
      record {
        whole = rw sum r.whole;
        aligned = omega arith;
        ofs_aligned = omega arith;
        behind_null = omega (arith, low);
        below_kernel = rw sum (omega (arith, r.whole, r.tight, end));
        some_page = rw sum (omega (arith, r.enough, some_byte));
      },
      omega arith,
      rw sum (omega (arith, r.enough)),
      omega arith,
      read_lem p end fits ∙ ground (arith, same),
    )
