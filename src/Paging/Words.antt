-- ===== src/Paging/Words.antt =====
-- Words of the memory, stored and loaded at addresses that are a multiple of 4.
use pintos_project.Base.{ℕ, ◌+◌, ◌%◌, ◌^◌, ◌≤◌, ◌<◌, ◌≡◌, ◌≢◌, ◌⊎◌, arith}
use pintos_project.Palloc.{Memory, memset}
use pintos_project.Paging.{load32, store32}

pub load32-store32 : (m : Memory) (a v : ℕ) → v < 2 ^ 32 → load32 (store32 a v m) a ≡ v
unfolding load32 store32
load32-store32 m a v h = ground (arith, h)

-- A larger number is stored without its higher bits.
pub load32-store32_mod : (m : Memory) (a v : ℕ) → load32 (store32 a v m) a ≡ v % 2 ^ 32
unfolding load32 store32
load32-store32_mod m a v = ground arith

abbrev pub IsBytes : Memory → Type 0
IsBytes m = (a : ℕ) → m.bytes a < 256

pub load32_small : (m : Memory) (a : ℕ) → IsBytes m → load32 m a < 2 ^ 32
unfolding load32
load32_small m a h = omega (arith, h a, h (a + 1), h (a + 2), h (a + 3))

pub load32-store32_ne :
    (m : Memory) (a b v : ℕ) → a % 4 ≡ 0 → b % 4 ≡ 0 → a ≢ b → load32 (store32 a v m) b ≡ load32 m b
unfolding load32 store32
load32-store32_ne m a b v ha hb ne = ground (arith, ha, hb, ne)

pub load32-memset :
    (m : Memory) (start size a : ℕ)
    → start ≤ a
    → a + 4 ≤ start + size
    → load32 (memset start 0 size m) a ≡ 0
unfolding load32
load32-memset m start size a lo hi = ground (arith, lo, hi)

pub load32-memset_ne :
    (m : Memory) (start v size a : ℕ)
    → (a + 4 ≤ start) ⊎ (start + size ≤ a)
    → load32 (memset start v size m) a ≡ load32 m a
unfolding load32
load32-memset_ne m start v size a h = ground (arith, h)
