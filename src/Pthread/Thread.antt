-- ===== src/Pthread/Thread.antt =====
-- tmp2/my_pthread.c: the life of a thread. The library's `malloc` of a `thread_info_t`, its context
-- and its stack is one argument, the new pointer or `none`.
pub mod Exit
pub mod Create
use osdesignasst.Prelude.{
  ℕ, ◌+◌, Bool, true, false, not, Option, none, some, List, ◌∷◌, [], ◌++◌, leb, ◌==◌, if◌then◌else◌,
  Outcome, ok, fault, panic, out_of_bounds, segv, ◌>>=◌, get_elem?, set,
}
use osdesignasst.Pthread.State.{
  at_stub, after_swap, ThreadInfo, Mutex, max_mutex_num, Pthread, Memory, Status, success, failure,
  write, acquire_queue_spinlock, release_queue_spinlock, start_timer,
}
use osdesignasst.Pthread.Sched.{schedule, release_all_thread}
use osdesignasst.Pthread.Mutex.{alloc_mutex, free_mutex, with_mutex, take_or_wait}

-- A thread that `memset` has cleared and `makecontext` has set to start at `thread_stub`.
abbrev pub new_info : ℕ → ThreadInfo
new_info tid = record { context = at_stub; mu = 0; tid = tid }

module _ {Vm : Type 0} where
  abbrev pub init_current : (left : ThreadInfo) → Pthread Vm → Option ℕ → Outcome (Pthread Vm)
  init_current left s none = fault panic
  init_current left s (some main) = ok (record s {
    current = some main;
    info = write s.info main (record left { context = after_swap });
  })

  -- `my_pthread_init`. `main` is the main thread's `malloc`, which is not cleared: `left` is what the
  -- fields hold that are never set. `mm_init` and `shinit` start virt.c and shm.c; they may
  -- end the process.
  unfoldable pub my_pthread_init :
      (main : Option ℕ)
      → (left : ThreadInfo) → (mm_init : Vm → Outcome Vm) → Pthread Vm
      → Outcome (Pthread Vm)
  unfolding start_timer
  my_pthread_init main left mm_init s = do
    s₁ ← init_current left (start_timer (record s { pthread_init = true })) main
    vm ← mm_init s₁.vm
    ok (record s₁ { vm = vm })

  -- With no free mutex the id is -1, which is 4294967295 as the `uint` that indexes `g_mutex_table`.
  abbrev pub create_with : ℕ → Pthread Vm → Option ℕ × List Mutex → Outcome (ℕ × Pthread Vm)
  create_with ti s (none, table) = fault out_of_bounds
  create_with ti s (some tid, table) = do
    let s₁ = record s {
      info = write s.info ti (new_info tid);
      mutexes = set table tid (record { used = true; count = 1 });
    }
    s₂ ← acquire_queue_spinlock s₁
    ok (tid, release_queue_spinlock (record s₂ { ready = s₂.ready ++ ti ∷ [] }))

  abbrev pub create_thread : Option ℕ → Pthread Vm → Outcome (ℕ × Pthread Vm)
  create_thread none s = fault panic
  create_thread (some ti) s =
      create_with ti (record s { threads_cnt = s.threads_cnt + 1 }) (alloc_mutex s.mutexes)

  abbrev pub ensure_started :
      (Pthread Vm → Outcome (Pthread Vm)) → Pthread Vm → Outcome (Pthread Vm)
  ensure_started start s = if s.pthread_init then ok s else start s

  -- `my_pthread_create`; `start` is `my_pthread_init`. The id goes to `*thread`, and the return value
  -- is always 0. `attr` is not read, and what the thread will run is in its context.
  unfoldable pub my_pthread_create :
      (start : Pthread Vm → Outcome (Pthread Vm))
      → (ti : Option ℕ) → Pthread Vm
      → Outcome (ℕ × Pthread Vm)
  unfolding acquire_queue_spinlock release_queue_spinlock alloc_mutex
  my_pthread_create start ti s = do s₁ ← ensure_started start s; create_thread ti s₁

  module _ (memory : Memory Vm) where
    unfoldable pub my_pthread_yield : Pthread Vm → Outcome (Status × Pthread Vm)
    my_pthread_yield s = do s₁ ← schedule memory s; ok (success, s₁)

    abbrev pub exit_current : Option ℕ → Pthread Vm → Outcome (Pthread Vm)
    exit_current none s = fault segv
    exit_current (some t) s = do
      s₁ ← release_all_thread (s.info t).tid s
      s₂ ← free_mutex (s.info t).tid s₁
      schedule memory (record s₂ { current = none; vm = memory.free_pages t s₂.vm })

    -- `my_pthread_exit`. The freed `thread_info_t` is not read again.
    unfoldable pub my_pthread_exit : Pthread Vm → Outcome (Pthread Vm)
    my_pthread_exit s = exit_current s.current s

    -- `thread_stub`: the thread's function, whatever it does, and then the same as `my_pthread_exit`.
    unfoldable pub thread_stub :
        (function : Pthread Vm → Outcome (Pthread Vm)) → Pthread Vm → Outcome (Pthread Vm)
    thread_stub function s = do s₁ ← function s; exit_current s₁.current s₁

    abbrev pub join_at : (thread : ℕ) → Pthread Vm → Option Mutex → Outcome (Status × Pthread Vm)
    join_at thread s none = fault out_of_bounds
    join_at thread s (some m) =
        if not m.used
        then ok (failure, s)
        else if leb max_mutex_num thread
        then ok (failure, s)
        else take_or_wait memory thread m s

    unfoldable pub my_pthread_join : (thread : ℕ) → Pthread Vm → Outcome (Status × Pthread Vm)
    unfolding take_or_wait
    my_pthread_join thread s = join_at thread s (get_elem? s.mutexes thread)

  -- The system call for `my_malloc`; it reads through `CURRENT`.
  abbrev pub tid_of : Pthread Vm → Option ℕ → Outcome ℕ
  tid_of s none = fault segv
  tid_of s (some t) = ok (s.info t).tid

  unfoldable pub get_tid : Pthread Vm → Outcome ℕ
  get_tid s = tid_of s s.current
