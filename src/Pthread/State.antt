-- ===== src/Pthread/State.antt =====
-- tmp2/my_pthread.c: the state of the library, the queue spinlock and the timer.
-- A `thread_info_t*` is a number, and `info` what it points to. The virtual memory `vm` is changed by
-- the calls of virt.c only, which are the fields of a `Memory`.
pub mod Spin
use osdesignasst.Prelude.{
  ℕ, zero, suc, ◌+◌, ◌%◌, ◌^◌, Bool, true, false, Option, none, some, List, ◌==◌, if◌then◌else◌,
  Outcome, ok, fault, hang,
}

-- Where a thread goes on when it is switched to: at the start of `thread_stub`, or behind the
-- `swapcontext` of the function that it was switched away in.
pub data Context : Type 0 where
  at_stub after_swap : Context

-- The fields of `thread_info_t` that the scheduler uses. The page table belongs to virt.c, and the
-- heap fields to my_malloc.c.
pub record ThreadInfo : Type 0 where
  pub context : Context
  pub mu : ℕ
  pub tid : ℕ

-- `mutex_t`
pub record Mutex : Type 0 where
  pub used : Bool
  pub count : ℕ

abbrev pub max_mutex_num : ℕ
max_mutex_num = 32

-- `count += 1` on an `unsigned int`
abbrev pub bump : ℕ → ℕ
bump n = (n + 1) % 2 ^ 32

-- The globals. `timer` is the period of the armed timer in microseconds, 0 when it is stopped.
pub record Pthread (Vm : Type 0) : Type 0 where
  pub current : Option ℕ
  pub ready : List ℕ
  pub wait : List ℕ
  pub info : ℕ → ThreadInfo
  pub mutexes : List Mutex
  pub queue_spinlock : ℕ
  pub timer : ℕ
  pub threads_cnt : ℕ
  pub pthread_init : Bool
  pub vm : Vm

-- What virt.c does for a thread: `mm_store_virtual_pages_back` and `mm_switch_virtual_pages` with it
-- as `CURRENT`, and `free_thread_pages`.
pub record Memory (Vm : Type 0) : Type 0 where
  pub store_back : ℕ → Vm → Vm
  pub switch_in : ℕ → Vm → Vm
  pub free_pages : ℕ → Vm → Vm

-- A return value of 0 or -1.
pub data Status : Type 0 where
  success failure : Status

-- A write to the `thread_info_t` at `t`.
abbrev pub write : (ℕ → ThreadInfo) → ℕ → ThreadInfo → ℕ → ThreadInfo
write f t v u = if t == u then v else f u

-- The loop `while (0 != g_queue_spinlock) {}` for so many rounds: it ends if the lock is free. No
-- other code runs meanwhile, since the timer is stopped.
unfoldable pub spin : (rounds : ℕ) → (lock : ℕ) → Outcome (Unit {0})
spin zero lock = fault hang
spin (suc n) lock = let rest = spin n lock in if 0 == lock then ok tt else rest

module _ {Vm : Type 0} where
  unfoldable pub stop_timer : Pthread Vm → Pthread Vm
  stop_timer s = record s { timer = 0 }

  unfoldable pub start_timer : Pthread Vm → Pthread Vm
  start_timer s = record s { timer = 25000 }

  unfoldable pub locked_by : Pthread Vm → Outcome (Unit {0}) → Outcome (Pthread Vm)
  locked_by s (fault e) = fault e
  locked_by s (ok _) = ok (start_timer (record s { queue_spinlock = 1 }))

  -- One round of the loop decides, as `spin_rounds` proves.
  unfoldable pub acquire_queue_spinlock : Pthread Vm → Outcome (Pthread Vm)
  unfolding spin stop_timer start_timer locked_by
  acquire_queue_spinlock s = locked_by (stop_timer s) (spin 1 s.queue_spinlock)

  unfoldable pub release_queue_spinlock : Pthread Vm → Pthread Vm
  release_queue_spinlock s = record s { queue_spinlock = 0 }
