-- ===== src/Code/Pthread.antt =====
-- code/my_pthread.c: the earlier thread library. It has the queues, the mutex table and the calls of
-- tmp2/my_pthread.c, without the queue spinlock, the stops of the timer and the paged memory; a thread's
-- heap is a page of Code.Malloc. `mutex_t` and its table are the same, so their types are Pthread's.
pub mod Mutexes
pub mod Life
pub mod Refine
pub mod Conserve
mod Tests
use osdesignasst.Prelude.{
  ℕ, Bool, Option, none, some, List, [], ◌∷◌, ◌++◌, ◌==◌, if◌then◌else◌, Outcome, ok, fault, segv,
}
use osdesignasst.Pthread.State.{Mutex}
use osdesignasst.Code.Malloc.{Pool}

-- The fields of `thread_info_t` that the library reads. Nothing is done at the end of a switch, so where
-- a thread was switched away does not matter.
pub record ThreadInfo : Type 0 where
  pub mu : ℕ
  pub tid : ℕ

-- The globals, the period of the timer in microseconds, and the heaps of the threads.
pub record Threads (Page : Type 0) : Type 0 where
  pub current : Option ℕ
  pub ready : List ℕ
  pub wait : List ℕ
  pub info : ℕ → ThreadInfo
  pub mutexes : List Mutex
  pub threads_cnt : ℕ
  pub pthread_init : Bool
  pub timer : ℕ
  pub pool : Pool Page

-- A write to the `thread_info_t` at `t`.
abbrev pub write : (ℕ → ThreadInfo) → ℕ → ThreadInfo → ℕ → ThreadInfo
write f t v u = if t == u then v else f u

-- `STAILQ_FOREACH` over the wait queue up to the first thread that waits for `mu`: the queue without it,
-- and the thread.
unfoldable pub take_waiting : (ℕ → ThreadInfo) → (mu : ℕ) → List ℕ → List ℕ × Option ℕ
take_waiting info mu [] = ([], none)
take_waiting info mu (t ∷ rest) =
    let (left, found) = take_waiting info mu rest in
    if mu == (info t).mu then (rest, some t) else (t ∷ left, found)

-- `STAILQ_INSERT_TAIL` of the thread, if one was found.
abbrev pub insert_tail : List ℕ → Option ℕ → List ℕ
insert_tail q none = q
insert_tail q (some t) = q ++ t ∷ []

module _ {Page : Type 0} where
  abbrev pub schedule_from : List ℕ → Option ℕ → Threads Page → Threads Page
  schedule_from [] current s = s
  schedule_from (t ∷ rest) none s = record s { current = some t; ready = rest }
  schedule_from (t ∷ rest) (some tmp) s = record s { current = some t; ready = rest ++ tmp ∷ [] }

  -- `schedule`, to where the thread switched to runs on.
  unfoldable pub schedule : Threads Page → Threads Page
  schedule s = schedule_from s.ready s.current s

  abbrev pub wait_from : List ℕ → Option ℕ → Threads Page → Outcome (Threads Page)
  wait_from [] current s = ok s
  wait_from (t ∷ rest) none s = fault segv
  wait_from (t ∷ rest) (some tmp) s =
      ok (record s { current = some t; ready = rest; wait = s.wait ++ tmp ∷ [] })

  -- With no other thread to run the current one goes on.
  unfoldable pub schedule_swap_current_to_wait : Threads Page → Outcome (Threads Page)
  schedule_swap_current_to_wait s = wait_from s.ready s.current s

  unfoldable pub timer_handler : Threads Page → Threads Page
  unfolding schedule
  timer_handler s = schedule s

  abbrev pub with_taken : Threads Page → List ℕ × Option ℕ → Threads Page
  with_taken s (wait, found) = record s { wait = wait; ready = insert_tail s.ready found }

  unfoldable pub release_thread : (mu : ℕ) → Threads Page → Threads Page
  unfolding take_waiting
  release_thread mu s = with_taken s (take_waiting s.info mu s.wait)

  -- The loop has no `break`. It goes on at the link of the thread in hand, and once that thread is the
  -- tail of the ready queue its link is `NULL`; so it ends where `release_thread` does.
  unfoldable pub release_all_thread : (mu : ℕ) → Threads Page → Threads Page
  unfolding take_waiting
  release_all_thread mu s = with_taken s (take_waiting s.info mu s.wait)
