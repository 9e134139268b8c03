-- ===== src/Malloc/Pages.antt =====
-- The kernel pool behind a page that is given back.
use pintos_project.Base.{ℕ, ◌+◌, ◌*◌, ◌≡◌, ◌≢◌, ap, ◌∙◌, false, arith, if_false}
use pintos_project.Bitmap.Bits.{bit_at}
use pintos_project.Bitmap.Ranges.{is_within}
use pintos_project.Palloc.{Memory, pg_size}
use pintos_project.Palloc.Pages.{IsMemory}
use pintos_project.Palloc.Release.{HasFreed}
use pintos_project.Paging.Directory.{InUse}

-- A page that is given back.
module _ (p i : ℕ) (m m1 : Memory) (v : IsMemory m) (at : p ≡ m.kernel_pool.base + pg_size * i)
    (g : HasFreed false 1 i m m1) where
  freed_map : m1.kernel_pool.used_map ≡ g.map
  freed_map = ap (λ x. x.kernel_pool.used_map) g.memory

  freed_base : m1.kernel_pool.base ≡ m.kernel_pool.base
  freed_base = ap (λ x. x.kernel_pool.base) g.memory

  freed_cnt : m1.kernel_pool.used_map.bit_cnt ≡ m.kernel_pool.used_map.bit_cnt
  freed_cnt = ap (λ x. x.bit_cnt) freed_map ∙ g.bits.size

  pub freed-IsMemory : IsMemory m1
  freed-IsMemory = record {
    kernel = record {
      aligned = rw freed_base v.kernel.aligned;
      not_null = rw freed_base v.kernel.not_null;
      fits = rw (freed_base, freed_cnt) v.kernel.fits;
    };
    user = rw g.memory v.user;
    apart = omega (arith, freed_base, freed_cnt, v.apart, ap (λ x. x.user_pool.base) g.memory);
  }

  pub freed-InUse : (q : ℕ) → q ≢ p → InUse q m → InUse q m1
  freed-InUse q ne u =
      let apart : u.idx ≢ i = λ e. ne (omega (arith, u.address, at, e)) in
      record {
        idx = u.idx;
        address = omega (arith, freed_base, u.address);
        inside = omega (arith, freed_cnt, u.inside);
        used =
            ap (λ x. bit_at x u.idx) freed_map
            ∙ g.bits.bits u.idx
            ∙ if_false (is_within i 1 u.idx) false _ (ground (arith, apart))
            ∙ u.used;
      }
