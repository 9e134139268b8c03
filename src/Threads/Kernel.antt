-- ===== src/Threads/Kernel.antt =====
-- The state of threads/thread.c and the functions that queue, choose and switch threads.
-- A thread is the address of its `struct thread`, 0 is NULL; `threads` is the store of structs, and
-- `ready` the 64 queues of `ready_list`, as the addresses that each links, front first. A `struct
-- thread` with an intact `magic` is assumed behind every address but 0. An ASSERT that fails is
-- `none`. What stands behind `schedule ()` in a function runs when its thread is switched to again,
-- so a function here ends where it calls `schedule`.
pub mod Invariant
pub mod Switch
pub mod Calls
pub mod Priorities
pub mod Quiet
use Prim.Native.String.{String}
use pintos_project.Base.{
  ℕ, zero, suc, ◌+◌, ◌≡◌, refl, Bool, true, false, not, ◌&&◌, ◌||◌, Option, none, some, List, [],
  ◌∷◌, ◌++◌, ◌==◌, ltb, leb, if◌then◌else◌, update, erase, ◌>>=◌, ◌>>◌, assert,
}
use pintos_project.Base.Int.{ℤ}
use pintos_project.Threads.FixedPoint.{pri_max}

-- enum thread_status
pub data Status : Type 0 where
  running ready blocked dying : Status

abbrev pub is_running : Status → Bool
is_running running = true
is_running _ = false

abbrev pub is_ready : Status → Bool
is_ready ready = true
is_ready _ = false

abbrev pub is_blocked : Status → Bool
is_blocked blocked = true
is_blocked _ = false

abbrev pub is_dying : Status → Bool
is_dying dying = true
is_dying _ = false

-- struct thread, as far as the scheduler reads it. Priorities are array indices, so a number; `user`
-- is `pagedir != NULL`.
pub record Thread : Type 0 where
  pub tid : ℕ
  pub status : Status
  pub name : String
  pub priority : ℕ
  pub recent_unused : ℕ
  pub nice : ℤ
  pub recent_cpu : ℤ
  pub user : Bool

-- The file's static variables, the interrupt state, and `freed`, the pages that
-- thread_schedule_tail gave back to palloc, last first.
pub record Kernel : Type 0 where
  pub threads : ℕ → Thread
  pub ready : ℕ → List ℕ
  pub all : List ℕ
  pub current : ℕ
  pub idle : ℕ
  pub initial : ℕ
  pub intr_on : Bool
  pub in_external : Bool
  pub yield_on_return : Bool
  pub thread_ticks : ℕ
  pub ticks : ℕ
  pub load_avg : ℤ
  pub mlfqs : Bool
  pub aging : Bool
  pub idle_ticks : ℕ
  pub kernel_ticks : ℕ
  pub user_ticks : ℕ
  pub freed : List ℕ

abbrev pub set_status : Kernel → ℕ → Status → Kernel
set_status k t s = record k { threads = update k.threads t (record (k.threads t) { status = s }) }

abbrev pub set_priority_of : Kernel → ℕ → ℕ → Kernel
set_priority_of k t p = record k {
  threads = update k.threads t (record (k.threads t) { priority = p });
}

-- list_push_back (&ready_list[p], &t->elem)
abbrev pub push_ready : Kernel → ℕ → ℕ → Kernel
push_ready k p t = record k { ready = update k.ready p (k.ready p ++ t ∷ []) }

-- list_remove (&t->elem), for an element of some ready queue: it needs no queue to be named.
abbrev pub unlink : Kernel → ℕ → Kernel
unlink k t = record k { ready = λ p. erase t (k.ready p) }

abbrev pub is_empty : List ℕ → Bool
is_empty [] = true
is_empty (x ∷ xs) = false

-- thread_top_priority: the loop, from level `i` down.
unfoldable pub top_from : (ℕ → List ℕ) → ℕ → ℕ
top_from q zero = 0
top_from q (suc i) = if not (is_empty (q (suc i))) then suc i else top_from q i

unfoldable pub thread_top_priority : Kernel → ℕ
thread_top_priority k = top_from k.ready pri_max

-- next_thread_to_run: the loop, from level `i` down, with the queues that the pop leaves.
unfoldable pub next_from : ℕ → (ℕ → List ℕ) → ℕ → ℕ × (ℕ → List ℕ)
next_from idle q zero = elim (q 0) [ [] ↦ (idle, q) | t ∷ ts ↦ (t, update q 0 ts) ]
next_from idle q (suc i) =
    let rest = next_from idle q i in
    elim (q (suc i)) [ [] ↦ rest | t ∷ ts ↦ (t, update q (suc i) ts) ]

unfoldable pub next_thread_to_run : Kernel → ℕ × (ℕ → List ℕ)
next_thread_to_run k = next_from k.idle k.ready pri_max

-- thread_schedule_tail (prev), run by the new thread; activating its page tables is not modelled.
unfoldable pub thread_schedule_tail : ℕ → Kernel → Kernel
thread_schedule_tail prev k =
    let k' = record (set_status k k.current running) { thread_ticks = 0 } in
    if not (prev == 0) && is_dying (k'.threads prev).status && not (prev == k.initial)
    then record k' { freed = prev ∷ k'.freed }
    else k'

-- schedule ()
unfoldable pub schedule : Kernel → Option Kernel
schedule k = do
  let cur = k.current
  let chosen = next_thread_to_run k
  assert (not k.intr_on)
  assert (not (is_running (k.threads cur).status))
  assert (not (chosen.0 == 0))
  some (
      thread_schedule_tail (if cur == chosen.0 then 0 else cur)
        (record k { ready = chosen.1; current = chosen.0 }))

-- The interrupt flag, as intr_disable clears it.
abbrev pub with_level : Bool → Kernel → Kernel
with_level level k = record k { intr_on = level }

-- intr_set_level (level): intr_enable may not be called in an external interrupt.
unfoldable pub intr_set_level : Bool → Kernel → Option Kernel
intr_set_level level k = assert (not (level && k.in_external)) >> some (with_level level k)

pub set_level_outside :
    (level : Bool) (k : Kernel)
    → k.in_external ≡ false
    → intr_set_level level k ≡ some (with_level level k)
unfolding intr_set_level
set_level_outside true k e = rw e refl
set_level_outside false k e = refl

-- intr_yield_on_return ()
abbrev pub intr_yield_on_return : Kernel → Option Kernel
intr_yield_on_return k = assert k.in_external >> some (record k { yield_on_return = true })

-- The assertion of thread_current () that the thread has status `running`.
abbrev pub is_current_running : Kernel → Bool
is_current_running k = is_running (k.threads k.current).status

-- thread_block ()
unfoldable pub thread_block : Kernel → Option Kernel
thread_block k = do
  assert (not k.in_external)
  assert (not k.intr_on)
  assert (is_current_running k)
  schedule (set_status k k.current blocked)

-- What thread_yield does up to its `schedule ()`: the idle thread is not queued.
unfoldable pub requeue : Kernel → Kernel
requeue k =
    let off = with_level false k in
    let cur = k.current in
    let queued =
      if cur == k.idle then off else record (push_ready off (k.threads cur).priority cur) {
        threads = update k.threads cur (record (k.threads cur) { recent_unused = k.ticks });
      } in
    set_status queued cur ready

-- thread_yield (), as far as its `schedule ()`
unfoldable pub thread_yield : Kernel → Option Kernel
unfolding requeue
thread_yield k = do assert (is_current_running k); assert (not k.in_external); schedule (requeue k)

-- What thread_unblock (t) does with interrupts off.
unfoldable pub make_ready : ℕ → Kernel → Kernel
make_ready t k = set_status (push_ready k (k.threads t).priority t) t ready

-- thread_unblock (t)
unfoldable pub thread_unblock : ℕ → Kernel → Option Kernel
thread_unblock t k = do
  assert (not (t == 0))
  assert (is_blocked (k.threads t).status)
  let top_pri = thread_top_priority k
  let k' = make_ready t k
  if ltb top_pri (k.threads t).priority && k.intr_on then thread_yield k' else some k'

-- thread_set_priority (new_priority)
unfoldable pub thread_set_priority : ℕ → Kernel → Option Kernel
thread_set_priority new_priority k = do
  assert (is_current_running k)
  let k' = set_priority_of k k.current new_priority
  if ltb new_priority (thread_top_priority k') && k.intr_on then thread_yield k' else some k'
