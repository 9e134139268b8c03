-- ===== src/Paging/Directory.antt =====
-- Page directories whose page tables are pages of the kernel pool, all of them in use and apart.
use pintos_project.Base.{
  ℕ, ◌+◌, ◌*◌, ◌%◌, ◌≤◌, ◌<◌, ◌≡◌, refl, ap, ◌∙◌, ◌≢◌, ◌⊎◌, true, false, arith, if◌then◌else◌,
  if_true,
}
use pintos_project.Bitmap.Bits.{bit_at}
use pintos_project.Bitmap.Ranges.{is_within}
use pintos_project.Palloc.{Memory, pg_size, phys_base, set_used_map}
use pintos_project.Palloc.Pages.{IsMemory, HasGot}
use pintos_project.Paging.{load32, store32, has_flag, pte_p, pte_addr}
use pintos_project.Paging.Words.{load32-memset, load32-memset_ne}

-- A page of the kernel pool that is in use.
pub record InUse (p : ℕ) (m : Memory) : Type 0 where
  pub idx : ℕ
  pub address : p ≡ m.kernel_pool.base + pg_size * idx
  pub inside : idx < m.kernel_pool.used_map.bit_cnt
  pub used : bit_at m.kernel_pool.used_map idx ≡ true

abbrev pub entry : ℕ → ℕ → Memory → ℕ
entry pd i m = load32 m (pd + 4 * i)

abbrev pub table : ℕ → ℕ
table e = pte_addr e + phys_base

-- The entry of a page table of the directory `pd`.
pub record IsTable (pd e : ℕ) (m : Memory) : Type 0 where
  pub present : has_flag pte_p e ≡ true
  pub low : pte_addr e < phys_base
  pub in_use : InUse (table e) m
  pub other : table e ≢ pd

pub record IsDirectory (pd : ℕ) (m : Memory) : Type 0 where
  pub placed : IsMemory m
  pub above : phys_base ≤ m.kernel_pool.base
  pub itself : InUse pd m
  pub entries : (i : ℕ) → i < 768 → (entry pd i m ≡ 0) ⊎ IsTable pd (entry pd i m) m
  pub apart :
      (i j : ℕ)
      → i < 768
      → j < 768
      → i ≢ j
      → entry pd i m ≢ 0
      → entry pd j m ≢ 0
      → table (entry pd i m) ≢ table (entry pd j m)

-- A page in use is aligned, and its words are not those of another.
pub InUse-aligned : (p : ℕ) (m : Memory) → IsMemory m → InUse p m → p % pg_size ≡ 0
InUse-aligned p m v u = omega (arith, v.kernel.aligned, u.address)

pub words_apart :
    (p q j k : ℕ) (m : Memory)
    → InUse p m
    → InUse q m
    → p ≢ q
    → j < 1024
    → k < 1024
    → p + 4 * j ≢ q + 4 * k
words_apart p q j k m u w ne hj hk e = ne (omega (arith, u.address, w.address, hj, hk, e))

-- A fresh page: `m1` is the memory after palloc_get_page with PAL_ZERO has returned `pt`.
module _ (i pt : ℕ) (m m1 : Memory) (v : IsMemory m) (g : HasGot false true 1 i m pt m1) where
  fresh_map : m1.kernel_pool.used_map ≡ g.map
  fresh_map = ap (λ x. x.kernel_pool.used_map) g.memory

  pub fresh_base : m1.kernel_pool.base ≡ m.kernel_pool.base
  fresh_base = ap (λ x. x.kernel_pool.base) g.memory

  fresh_cnt : m1.kernel_pool.used_map.bit_cnt ≡ m.kernel_pool.used_map.bit_cnt
  fresh_cnt = ap (λ x. x.bit_cnt) fresh_map ∙ g.bits.size

  fresh_bit :
      (j : ℕ)
      → bit_at m1.kernel_pool.used_map j
        ≡ (if is_within i 1 j then true else bit_at m.kernel_pool.used_map j)
  fresh_bit j = ap (λ x. bit_at x j) fresh_map ∙ g.bits.bits j

  pub fresh-IsMemory : IsMemory m1
  fresh-IsMemory = record {
    kernel = record {
      aligned = rw fresh_base v.kernel.aligned;
      not_null = rw fresh_base v.kernel.not_null;
      fits = rw (fresh_base, fresh_cnt) v.kernel.fits;
    };
    user = rw g.memory v.user;
    apart = omega (arith, fresh_base, fresh_cnt, v.apart, ap (λ x. x.user_pool.base) g.memory);
  }

  pub fresh-InUse : InUse pt m1
  fresh-InUse = record {
    idx = i;
    address = omega (arith, fresh_base, g.address);
    inside = omega (arith, fresh_cnt, g.inside);
    used = fresh_bit i ∙ if_true (is_within i 1 i) true _ (ground arith);
  }

  pub old-InUse : (p : ℕ) → InUse p m → InUse p m1
  old-InUse p u = record {
    idx = u.idx;
    address = omega (arith, fresh_base, u.address);
    inside = omega (arith, fresh_cnt, u.inside);
    used = fresh_bit u.idx ∙ ground (arith, u.used);
  }

  pub fresh_ne : (p : ℕ) → InUse p m → p ≢ pt
  fresh_ne p u e =
      let same : u.idx ≡ i = omega (arith, u.address, g.address, e) in
      let free : bit_at m.kernel_pool.used_map i ≡ false = g.free i (ground arith) in
      absurd (cc (same, free, u.used))

  pub fresh_word : (k : ℕ) → k < 1024 → load32 m1 (pt + 4 * k) ≡ 0
  fresh_word k h = rw g.memory (
      load32-memset (set_used_map false g.map m) pt (pg_size * 1) (pt + 4 * k) (omega arith)
        (omega (arith, h)))

  pub old_word : (p k : ℕ) → InUse p m → k < 1024 → load32 m1 (p + 4 * k) ≡ load32 m (p + 4 * k)
  unfolding load32
  old_word p k u h =
      let ne = fresh_ne p u in
      let off : (p + 4 * k + 4 ≤ pt) ⊎ (pt + pg_size * 1 ≤ p + 4 * k) =
        omega (arith, u.address, g.address, ne, h) in
      rw g.memory (load32-memset_ne (set_used_map false g.map m) pt 0 (pg_size * 1) (p + 4 * k) off)

-- A word that is stored leaves the pools as they are.
pub store-InUse : (a v p : ℕ) (m : Memory) → InUse p m → InUse p (store32 a v m)
unfolding store32
store-InUse a v p m u = record {
  idx = u.idx;
  address = u.address;
  inside = u.inside;
  used = u.used;
}

pub store-IsMemory : (a v : ℕ) (m : Memory) → IsMemory m → IsMemory (store32 a v m)
unfolding store32
store-IsMemory a v m x = record { kernel = x.kernel; user = x.user; apart = x.apart }

pub store_base : (a v : ℕ) (m : Memory) → (store32 a v m).kernel_pool.base ≡ m.kernel_pool.base
unfolding store32
store_base a v m = refl
