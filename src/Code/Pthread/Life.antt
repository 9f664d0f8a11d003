-- ===== src/Code/Pthread/Life.antt =====
-- code/my_pthread.c: the life of a thread. The `malloc` of a `thread_info_t`, its context and its stack
-- is one argument, the new pointer or `none`; it is not cleared, and `left` is what it holds.
use osdesignasst.Prelude.{
  ℕ, ◌+◌, true, Option, none, some, List, ◌∷◌, [], ◌++◌, if◌then◌else◌, Outcome, ok, fault, panic,
  out_of_bounds, segv, ◌>>=◌, get_elem?, set,
}
use osdesignasst.Pthread.State.{Mutex, Status, success}
use osdesignasst.Code.Malloc.{reclaim_current_heap}
use osdesignasst.Code.Pthread.{ThreadInfo, Threads, write, schedule, release_all_thread}
use osdesignasst.Code.Pthread.Mutexes.{alloc_mutex, free_mutex, guarded, take_or_wait}

module _ {Page : Type 0} where
  abbrev pub init_current : (left : ThreadInfo) → Threads Page → Option ℕ → Outcome (Threads Page)
  init_current left s none = fault panic
  init_current left s (some main) =
      ok (record s { current = some main; info = write s.info main left })

  -- `my_pthread_init`, with the `malloc` of the main thread's `thread_info_t`.
  unfoldable pub my_pthread_init :
      (main : Option ℕ) → (left : ThreadInfo) → Threads Page → Outcome (Threads Page)
  my_pthread_init main left s = init_current left (record s { timer = 25000 }) main

  -- With no free mutex the id is -1, which is 4294967295 as the `uint` that indexes `g_mutex_table`.
  abbrev pub create_with :
      (ti : ℕ)
      → (left : ThreadInfo) → Threads Page
      → Option ℕ × List Mutex
      → Outcome (ℕ × Threads Page)
  create_with ti left s (none, table) = fault out_of_bounds
  create_with ti left s (some tid, table) = ok (
    tid,
    record s {
      info = write s.info ti (record left { tid = tid });
      mutexes = set table tid (record { used = true; count = 1 });
    },
  )

  -- The thread is in the ready queue before it has its id.
  abbrev pub create_thread :
      Option ℕ → (left : ThreadInfo) → Threads Page → Outcome (ℕ × Threads Page)
  create_thread none left s = fault panic
  create_thread (some ti) left s =
      create_with ti left (record s { threads_cnt = s.threads_cnt + 1; ready = s.ready ++ ti ∷ [] })
        (alloc_mutex s.mutexes)

  abbrev pub ensure_started :
      (start : Threads Page → Outcome (Threads Page)) → Threads Page → Outcome (Threads Page)
  ensure_started start s =
      if s.pthread_init then ok s else do s₁ ← start s; ok (record s₁ { pthread_init = true })

  -- `my_pthread_create`; `start` is `my_pthread_init`. The id goes to `*thread`; the return value is 0.
  unfoldable pub my_pthread_create :
      (start : Threads Page → Outcome (Threads Page))
      → (ti : Option ℕ) (left : ThreadInfo) → Threads Page
      → Outcome (ℕ × Threads Page)
  unfolding alloc_mutex
  my_pthread_create start ti left s = do s₁ ← ensure_started start s; create_thread ti left s₁

  unfoldable pub my_pthread_yield : Threads Page → Status × Threads Page
  unfolding schedule
  my_pthread_yield s = (success, schedule s)

  -- The end that `my_pthread_exit` and `thread_stub` share. `reclaim_current_heap` reads the id of the
  -- `thread_info_t` after it was freed: `freed_tid` is what is there then.
  abbrev pub exit_current :
      (zeros : Page) (freed_tid : ℕ) → Option ℕ → Threads Page → Outcome (Threads Page)
  exit_current zeros freed_tid none s = fault segv
  exit_current zeros freed_tid (some t) s = do
    s₁ ← free_mutex (s.info t).tid (release_all_thread (s.info t).tid s)
    pool ← reclaim_current_heap zeros freed_tid s₁.pool
    ok (schedule (record s₁ { current = none; pool = pool }))

  unfoldable pub my_pthread_exit :
      (zeros : Page) (freed_tid : ℕ) → Threads Page → Outcome (Threads Page)
  unfolding release_all_thread free_mutex schedule
  my_pthread_exit zeros freed_tid s = exit_current zeros freed_tid s.current s

  -- `thread_stub`: the thread's function, whatever it does, and the end.
  unfoldable pub thread_stub :
      (function : Threads Page → Outcome (Threads Page))
      → (zeros : Page) (freed_tid : ℕ) → Threads Page
      → Outcome (Threads Page)
  thread_stub function zeros freed_tid s = do
    s₁ ← function s
    exit_current zeros freed_tid s₁.current s₁

  abbrev pub join_at :
      (thread : ℕ) → Threads Page → Option Mutex → Outcome (Option Status × Threads Page)
  join_at thread s none = fault out_of_bounds
  join_at thread s (some m) =
      guarded thread s m (take_or_wait (some success) (some success) thread m s)

  unfoldable pub my_pthread_join :
      (thread : ℕ) → Threads Page → Outcome (Option Status × Threads Page)
  unfolding take_or_wait
  my_pthread_join thread s = join_at thread s (get_elem? s.mutexes thread)
