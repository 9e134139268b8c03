-- ===== src/Loader.antt =====
-- userprog/process.c: the loader of user programs. Arguments has the stack of a program's arguments.
-- Words are numbers below 2 ^ 32, NULL is 0, and what an ASSERT stops is `none`. The messages and the
-- activation of the page directory in the processor are not modelled. `room` is whether malloc finds
-- memory for a bounce buffer.
pub mod Arguments
pub mod Segments
pub mod Rounds
pub mod Unopened
mod Tests
use pintos_project.Base.{
  ℕ, zero, suc, ◌+◌, ◌-◌, ◌*◌, ◌/◌, ◌%◌, ◌^◌, Bool, true, false, not, ◌&&◌, ◌||◌, Option, none,
  some, List, [], ◌∷◌, ◌==◌, ltb, leb, if◌then◌else◌, ◌>>=◌, ◌>>◌, assert,
}
use pintos_project.Palloc.{Memory, pg_size, phys_base, palloc_get_page, palloc_free_page}
use pintos_project.Loader.Arguments.{Stack, construct_esp}
use pintos_project.Inode.{memcpy}
use pintos_project.Files.{Files, word_at, file_read, file_seek, file_length, file_deny_write}
use pintos_project.Paging.{
  pg_ofs, is_user_vaddr, pagedir_create, pagedir_get_page, pagedir_set_page,
}

-- struct Elf32_Ehdr, as far as the loader reads it
pub record Ehdr : Type 0 where
  pub ident : ℕ → ℕ
  pub type : ℕ
  pub machine : ℕ
  pub version : ℕ
  pub entry : ℕ
  pub phoff : ℕ
  pub phentsize : ℕ
  pub phnum : ℕ

-- struct Elf32_Phdr, as far as the loader reads it
pub record Phdr : Type 0 where
  pub type : ℕ
  pub offset : ℕ
  pub vaddr : ℕ
  pub filesz : ℕ
  pub memsz : ℕ
  pub flags : ℕ

abbrev pub half_at : (ℕ → ℕ) → ℕ → ℕ
half_at bytes o = bytes o + 256 * bytes (o + 1)

-- The headers in the bytes that were read.
abbrev pub ehdr_of : (ℕ → ℕ) → Ehdr
ehdr_of b = record {
  ident = b;
  type = half_at b 16;
  machine = half_at b 18;
  version = word_at b 20;
  entry = word_at b 24;
  phoff = word_at b 28;
  phentsize = half_at b 42;
  phnum = half_at b 44;
}

abbrev pub phdr_of : (ℕ → ℕ) → Phdr
phdr_of b = record {
  type = word_at b 0;
  offset = word_at b 4;
  vaddr = word_at b 8;
  filesz = word_at b 16;
  memsz = word_at b 20;
  flags = word_at b 24;
}

-- The checks of the executable header in load.
abbrev pub ident_matches : (ℕ → ℕ) → Bool
ident_matches b =
    b 0 == 0x7f && b 1 == 69 && b 2 == 76 && b 3 == 70 && b 4 == 1 && b 5 == 1 && b 6 == 1

abbrev pub valid_ehdr : Ehdr → Bool
valid_ehdr h =
    ident_matches h.ident
    && h.type == 2
    && h.machine == 3
    && h.version == 1
    && h.phentsize == 32
    && leb h.phnum 1024

-- validate_segment (phdr, file), with the length of the file
unfoldable pub validate_segment : Phdr → ℕ → Bool
validate_segment p length =
    let end = (p.vaddr + p.memsz) % 2 ^ 32 in
    pg_ofs p.offset == pg_ofs p.vaddr
    && leb p.offset length
    && leb p.filesz p.memsz
    && not (p.memsz == 0)
    && is_user_vaddr p.vaddr
    && is_user_vaddr end
    && leb p.vaddr end
    && leb pg_size p.vaddr

-- ROUND_UP (x, PGSIZE)
abbrev pub round_up : ℕ → ℕ
round_up x = (x + pg_size - 1) % 2 ^ 32 / pg_size * pg_size

-- The arguments of load_segment.
pub record Segment : Type 0 where
  pub ofs : ℕ
  pub upage : ℕ
  pub read_bytes : ℕ
  pub zero_bytes : ℕ
  pub writable : Bool

-- What load makes of a program header: the arguments of its call of load_segment.
unfoldable pub segment_of : Phdr → Segment
segment_of p =
    let page_offset = pg_ofs p.vaddr in
    let read_bytes = if ltb 0 p.filesz then (page_offset + p.filesz) % 2 ^ 32 else 0 in
    record {
      ofs = p.offset - pg_ofs p.offset;
      upage = p.vaddr - pg_ofs p.vaddr;
      read_bytes = read_bytes;
      zero_bytes = (round_up ((page_offset + p.memsz) % 2 ^ 32) + 2 ^ 32 - read_bytes) % 2 ^ 32;
      writable = p.flags / 2 % 2 == 1;
    }

-- The thread that loads a program: its page directory and file, with the memory and the file system.
pub record Process : Type 0 where
  pub pagedir : ℕ
  pub file_cur : ℕ
  pub memory : Memory
  pub files : Files

abbrev pub set_memory : Memory → Process → Process
set_memory m s = record s { memory = m }

module _ (ram_pages init_page_dir : ℕ) (room : Bool) where
  -- install_page (upage, kpage, writable)
  unfoldable pub install_page : ℕ → ℕ → Bool → Process → Option (Bool × Process)
  install_page upage kpage writable s =
      let set = (do
        (b, m) ← pagedir_set_page ram_pages init_page_dir s.pagedir upage kpage writable s.memory
        some (b, set_memory m s)) in
      pagedir_get_page s.pagedir upage s.memory >>= λ page.
      if page == 0 then set else some (false, s)

  -- free the page and return false
  abbrev pub give_up : ℕ → Process → Option (Bool × Process)
  give_up page s = do m ← palloc_free_page page s.memory; some (false, set_memory m s)

  -- One round of the loop of load_segment, which fills the page at `upage`: whether it was installed.
  unfoldable pub load_page : ℕ → ℕ → ℕ → Bool → Process → Option (Bool × Process)
  load_page file upage page_read_bytes writable s =
      let page_zero_bytes = pg_size - page_read_bytes in
      do
        (knpage, m1) ← palloc_get_page true false false s.memory
        let fill = (do
          (buffer, bytes_read, files) ←
              file_read room file (λ a. m1.bytes (knpage + a)) page_read_bytes s.files
          let m2 = record m1 { bytes = memcpy m1.bytes knpage buffer 0 page_read_bytes }
          let s2 : Process = record s { memory = m2; files = files }
          let m3 = record m2 {
            bytes = memcpy m2.bytes (knpage + page_read_bytes) (λ a. 0) 0 page_zero_bytes;
          }
          let install = (do
            (b, s3) ← install_page upage knpage writable (set_memory m3 s2)
            if b then some (true, s3) else give_up knpage s3)
          if bytes_read == page_read_bytes then install else give_up knpage s2)
        if knpage == 0 then some (false, set_memory m1 s) else fill

  -- The loop of load_segment, with `n` rounds left at most.
  unfoldable pub load_pages : ℕ → ℕ → Segment → Process → Option (Bool × Process)
  load_pages zero file g s = if g.read_bytes == 0 && g.zero_bytes == 0 then some (true, s) else none
  load_pages (suc n) file g s =
      let page_read_bytes = if ltb g.read_bytes pg_size then g.read_bytes else pg_size in
      let g' : Segment = record g {
        upage = (g.upage + pg_size) % 2 ^ 32;
        read_bytes = g.read_bytes - page_read_bytes;
        zero_bytes = (g.zero_bytes + 2 ^ 32 - (pg_size - page_read_bytes)) % 2 ^ 32;
      } in
      let rest = λ (s' : Process). load_pages n file g' s' in
      let round = load_page file g.upage page_read_bytes g.writable s >>= λ r.
      if r.0 then rest r.1 else some (false, r.1) in
      if g.read_bytes == 0 && g.zero_bytes == 0 then some (true, s) else round

  -- load_segment (file, ofs, upage, read_bytes, zero_bytes, writable): it maps one page in a round, so as
  -- many rounds as the segment has pages are enough.
  unfoldable pub load_segment : ℕ → Segment → Process → Option (Bool × Process)
  load_segment file g s = do
    assert ((g.read_bytes + g.zero_bytes) % 2 ^ 32 % pg_size == 0)
    assert (pg_ofs g.upage == 0)
    assert (g.ofs % pg_size == 0)
    files ← file_seek file g.ofs s.files
    load_pages ((g.read_bytes + g.zero_bytes) / pg_size) file g (record s { files = files })

  -- setup_stack (esp), with the stack pointer where it returns true
  unfoldable pub setup_stack : Process → Option (Bool × ℕ × Process)
  setup_stack s = do
    (kpage, m1) ← palloc_get_page true true false s.memory
    let install = (do
      (b, s2) ← install_page (phys_base - pg_size) kpage true (set_memory m1 s)
      (b', s3) ← if b then some (true, s2) else give_up kpage s2
      some (b', if b' then phys_base else 0, s3))
    if kpage == 0 then some (false, 0, set_memory m1 s) else install

  -- One program header in load: whether the loop goes on.
  unfoldable pub load_phdr : ℕ → Phdr → Process → Option (Bool × Process)
  load_phdr file p s =
      let segment = (do
        length ← file_length file s.files
        if validate_segment p length
            then load_segment file (segment_of p) s
            else some (false, s)) in
      if p.type == 1
      then segment
      else if p.type == 2 || p.type == 3 || p.type == 5
      then some (false, s)
      else some (true, s)

  -- The loop over the program headers in load, with `n` headers left.
  unfoldable pub load_phdrs : ℕ → ℕ → ℕ → Process → Option (Bool × Process)
  load_phdrs zero file file_ofset s = some (true, s)
  load_phdrs (suc n) file file_ofset s =
      let rest = λ (s' : Process). load_phdrs n file (file_ofset + 32) s' in
      let read = (do
        files1 ← file_seek file file_ofset s.files
        (bytes, bytes_read, files2) ← file_read room file (λ a. 0) 32 files1
        let s2 = record s { files = files2 }
        let load_it =
            load_phdr file (phdr_of bytes) s2 >>= λ r. if r.0 then rest r.1 else some (false, r.1)
        if bytes_read == 32 then load_it else some (false, s2)) in
      do
        length ← file_length file s.files
        if leb (2 ^ 31) file_ofset || ltb length file_ofset then some (false, s) else read

  -- `done` in load: with success, the entry point and the stack.
  unfoldable pub load_done : ℕ → Bool → ℕ → Stack → Process → Option (Bool × ℕ × Stack × Process)
  load_done file success eip stack s = do
    files ← file_deny_write file s.files
    some (success, eip, stack, record s { files = files; file_cur = file })

  -- load behind its call of filesys_open: `n` bounds the number of arguments. The stack is given apart from
  -- the memory, and starts as the page of zeros that setup_stack maps.
  unfoldable pub load_file :
      (ℕ → Bool) → Bool → Bool → ℕ → ℕ → List ℕ → Process → Option (Bool × ℕ × Stack × Process)
  load_file args_room made junk n file argv_list s =
      let nothing : Stack = record { esp = 0; bytes = λ a. 0 } in
      do
        (bytes, bytes_read, files) ← file_read room file (λ a. 0) 52 s.files
        let s1 = record s { files = files }
        let h = ehdr_of bytes
        let arguments = λ (esp : ℕ) (s' : Process).
            construct_esp args_room made junk n argv_list (record { esp = esp; bytes = λ a. 0 })
            >>= λ r. load_done file r.0 h.entry r.1 s'
        let segments = (do
          (loaded, s2) ← load_phdrs h.phnum file h.phoff s1
          (b, esp, s3) ← if loaded then setup_stack s2 else some (false, 0, s2)
          if b then arguments esp s3 else load_done file false 0 nothing s3)
        if bytes_read == 52 && valid_ehdr h then segments else load_done file false 0 nothing s1

  -- load (argv_list, eip, esp), where filesys_open returns `file`: NULL where it cannot open it.
  unfoldable pub load :
      (ℕ → Bool) → Bool → Bool → ℕ → ℕ → List ℕ → Process → Option (Bool × ℕ × Stack × Process)
  unfolding load_file load_done
  load args_room made junk n file argv_list s =
      let nothing : Stack = record { esp = 0; bytes = λ a. 0 } in
      do
        (pd, m) ← pagedir_create init_page_dir s.memory
        let s1 = record s { pagedir = pd; memory = m }
        if pd == 0 || file == 0
            then load_done 0 false 0 nothing s1
            else load_file args_room made junk n file argv_list s1
