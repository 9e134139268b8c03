-- ===== src/Threads/Tests/Creation.antt =====
-- A thread that is created in the sample kernel, with a kernel pool of 10 free pages, and the end of the
-- running thread.
use pintos_project.Base.{◌≡◌, refl, false, true, some, [], arith}
use pintos_project.Palloc.{Memory}
use pintos_project.Threads.Kernel.{Kernel}
use pintos_project.Threads.Life.{Life, thread_die}
use pintos_project.Threads.Life.Death.{HasDied, thread_die_lem}
use pintos_project.Threads.Tests.Sample.{kernel_at, kernel_at-IsValid}

abbrev free_pages : Memory
free_pages = record {
  kernel_pool = record { used_map = record { bit_cnt = 10; bits = λ i j. false }; base = 0x10000 };
  user_pool = record { used_map = record { bit_cnt = 20; bits = λ i j. false }; base = 0x20000 };
  bytes = λ a. 0;
}

abbrev life : Life
life = record {
  sync = record {
    kernel = kernel_at true;
    semas = λ a. record { value = 1; waiters = [] };
    holders = λ l. 0;
    conds = λ c. [];
  };
  memory = free_pages;
  next_tid = 6;
  max_tid = 5;
}

thread_die_example :
    (k' : Kernel) × (thread_die (kernel_at false) ≡ some k') × HasDied (kernel_at false) k'
thread_die_example =
    thread_die_lem (kernel_at false) (kernel_at-IsValid false) refl (omega arith) (omega arith)
