-- ===== src/Threads/Life/Frames.antt =====
-- The words that thread_create lays on the stack of a new thread.
use pintos_project.Base.{ℕ, ◌+◌, ◌-◌, ◌%◌, ◌^◌, ◌≤◌, ◌<◌, ◌≡◌, ap, ◌∙◌, ◌⊎◌, inl, inr, arith}
use pintos_project.Palloc.{Memory}
use pintos_project.Paging.{load32, store32}
use pintos_project.Paging.Words.{load32-store32_mod}
use pintos_project.Threads.Life.{push_frames}

-- The stack of a new thread, from the end of its page down: the frame of kernel_thread with a return
-- address 0, the function and its argument; that of switch_entry, which returns to kernel_thread; and
-- that of switch_threads, which returns to switch_entry with ebp 0. The other words are kept.
pub record HasFrames (kernel_thread switch_entry t function aux : ℕ) (m m' : Memory) : Type 0 where
  pub aux_word : load32 m' (t + 4092) ≡ aux % 2 ^ 32
  pub function_word : load32 m' (t + 4088) ≡ function % 2 ^ 32
  pub no_return : load32 m' (t + 4084) ≡ 0
  pub entry_return : load32 m' (t + 4080) ≡ kernel_thread % 2 ^ 32
  pub switch_return : load32 m' (t + 4068) ≡ switch_entry % 2 ^ 32
  pub ebp : load32 m' (t + 4060) ≡ 0
  pub kept : (a : ℕ) → (a < t + 4060) ⊎ (t + 4096 ≤ a) → m'.bytes a ≡ m.bytes a

-- A word that a store does not touch.
load32-store32_apart :
    (m : Memory) (a b v : ℕ) → (b + 4 ≤ a) ⊎ (a + 4 ≤ b) → load32 (store32 a v m) b ≡ load32 m b
unfolding load32 store32
load32-store32_apart m a b v h = ground (arith, h)

byte-store32_apart :
    (m : Memory) (a b v : ℕ) → (b < a) ⊎ (a + 4 ≤ b) → (store32 a v m).bytes b ≡ m.bytes b
unfolding store32
byte-store32_apart m a b v h = ground (arith, h)

-- The words behind one store more.
below : {w : ℕ} (m : Memory) (a b v : ℕ) → b + 4 ≤ a → load32 m b ≡ w → load32 (store32 a v m) b ≡ w
below {w} m a b v h e = load32-store32_apart m a b v (inl h) ∙ e

above : {w b : ℕ} (m : Memory) (a v : ℕ) → a + 4 ≤ b → load32 m b ≡ w → load32 (store32 a v m) b ≡ w
above {w} {b} m a v h e = load32-store32_apart m a b v (inr h) ∙ e

module _ (kernel_thread switch_entry t function aux : ℕ) (m : Memory) where
  s0 : Memory
  s0 = store32 (t + 4096 - 12) 0 m

  s1 : Memory
  s1 = store32 (t + 4096 - 12 + 4) function s0

  s2 : Memory
  s2 = store32 (t + 4096 - 12 + 8) aux s1

  s3 : Memory
  s3 = store32 (t + 4096 - 12 - 4) kernel_thread s2

  s4 : Memory
  s4 = store32 (t + 4096 - 12 - 4 - 28 + 16) switch_entry s3

  s5 : Memory
  s5 = store32 (t + 4096 - 12 - 4 - 28 + 8) 0 s4

  at_place : {a b w : ℕ} → a ≡ b → load32 s5 b ≡ w → load32 s5 a ≡ w
  at_place p e = ap (load32 s5) p ∙ e

  -- What is above the frames of switch_entry and switch_threads stays behind the last three stores.
  behind : {b w : ℕ} → t + 4084 ≤ b → load32 s2 b ≡ w → load32 s5 b ≡ w
  unfolding s5 s4 s3
  behind h e = above s4 (t + 4096 - 12 - 4 - 28 + 8) 0 (omega (arith, h)) (
      above s3 (t + 4096 - 12 - 4 - 28 + 16) switch_entry (omega (arith, h))
        (above s2 (t + 4096 - 12 - 4) kernel_thread (omega (arith, h)) e))

  pushed-HasFrames : HasFrames kernel_thread switch_entry t function aux m s5
  unfolding s5 s4 s3 s2 s1 s0
  pushed-HasFrames = record {
    aux_word =
        at_place (omega arith)
          (behind (omega arith) (load32-store32_mod s1 (t + 4096 - 12 + 8) aux));
    function_word = at_place (omega arith) (
        behind (omega arith) (
          below s1 (t + 4096 - 12 + 8) _ aux (omega arith)
            (load32-store32_mod s0 (t + 4096 - 12 + 4) function)));
    no_return = at_place (omega arith) (
        behind (omega arith) (
          below s1 (t + 4096 - 12 + 8) _ aux (omega arith) (
            below s0 (t + 4096 - 12 + 4) _ function (omega arith)
              (load32-store32_mod m (t + 4096 - 12) 0))));
    entry_return = at_place (omega arith) (
        above s4 (t + 4096 - 12 - 4 - 28 + 8) 0 (omega arith) (
          above s3 (t + 4096 - 12 - 4 - 28 + 16) switch_entry (omega arith)
            (load32-store32_mod s2 (t + 4096 - 12 - 4) kernel_thread)));
    switch_return = at_place (omega arith) (
        above s4 (t + 4096 - 12 - 4 - 28 + 8) 0 (omega arith)
          (load32-store32_mod s3 (t + 4096 - 12 - 4 - 28 + 16) switch_entry));
    ebp = at_place (omega arith) (load32-store32_mod s4 (t + 4096 - 12 - 4 - 28 + 8) 0);
    kept = λ a out.
        byte-store32_apart s4 (t + 4096 - 12 - 4 - 28 + 8) a 0 (omega (arith, out))
        ∙ byte-store32_apart s3 (t + 4096 - 12 - 4 - 28 + 16) a switch_entry (omega (arith, out))
        ∙ byte-store32_apart s2 (t + 4096 - 12 - 4) a kernel_thread (omega (arith, out))
        ∙ byte-store32_apart s1 (t + 4096 - 12 + 8) a aux (omega (arith, out))
        ∙ byte-store32_apart s0 (t + 4096 - 12 + 4) a function (omega (arith, out))
        ∙ byte-store32_apart m (t + 4096 - 12) a 0 (omega (arith, out));
  }

pub push_frames-HasFrames :
    (kernel_thread switch_entry t function aux : ℕ) (m : Memory)
    → HasFrames kernel_thread switch_entry t function aux m
        (push_frames kernel_thread switch_entry t function aux m)
unfolding push_frames s5 s4 s3 s2 s1 s0
push_frames-HasFrames kernel_thread switch_entry t function aux m =
    pushed-HasFrames kernel_thread switch_entry t function aux m
