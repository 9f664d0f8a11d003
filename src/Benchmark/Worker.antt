-- ===== src/Benchmark/Worker.antt =====
-- Benchmark/*.c: the workers, step by step, over the thread library of code/. The lines
-- `pthread_mutex_lock(&mutex); sum += x; pthread_mutex_unlock(&mutex);` are four steps of a thread: the
-- call, the load of `sum`, the store, and the call. The timer may tick between any two of these steps, not inside a call.
use osdesignasst.Prelude.{
  ℕ, ◌+◌, ◌%◌, ◌^◌, Option, none, some, List, [], ◌∷◌, Outcome, ok, ◌>>=◌, get_elem?, set,
}
use osdesignasst.Code.Pthread.{Threads, timer_handler}
use osdesignasst.Code.Pthread.Mutexes.{my_pthread_mutex_lock, my_pthread_mutex_unlock}
use osdesignasst.Code.Pthread.Life.{my_pthread_join, exit_current}

-- Where a worker is in its loop: before the call of lock, behind it, with `sum` in a register, and behind
-- the store.
pub data Phase : Type 0 where
  before entered : Phase
  loaded : ℕ → Phase
  stored : Phase

-- A worker: its place, and the numbers that it has not added yet, that of this round first. Those that it
-- starts with are the share that its `n = *arg` stands for.
pub record Local : Type 0 where
  pub phase : Phase
  pub left : List ℕ

-- The library, the workers, whose `thread_info_t` are at 0, 1, and so on, and the global. An `int` is a
-- bit pattern of 32 bits.
pub record System (Page : Type 0) : Type 0 where
  pub lib : Threads Page
  pub locals : List Local
  pub sum : ℕ

-- What happens next: the timer, a step of the thread that runs if it is a worker, or a call of
-- `pthread_join` by it if it is not.
pub data Event : Type 0 where
  tick go : Event
  main_join : ℕ → Event

abbrev pub int_add : ℕ → ℕ → ℕ
int_add a b = (a + b) % 2 ^ 32

abbrev pub put : {Page : Type 0} → System Page → ℕ → Phase → List ℕ → System Page
put s c phase left = record s { locals = set s.locals c (record { phase = phase; left = left }) }

module _ {Page : Type 0} (zeros : Page) (freed_tid : ℕ → ℕ) (mutex : ℕ) where
  -- A step of worker `c`. The values of the calls are not looked at. `freed_tid c` is what the freed memory of
  -- `c` holds as the id when its heap is cleared. At the end of its loop the worker
  -- returns to `thread_stub`.
  abbrev pub work : System Page → ℕ → Phase → List ℕ → Outcome (System Page)
  work s c before [] = do
    lib ← exit_current zeros (freed_tid c) (some c) s.lib
    ok (record s { lib = lib })
  work s c before (x ∷ xs) = do
    r ← my_pthread_mutex_lock mutex s.lib
    ok (put (record s { lib = r.1 }) c entered (x ∷ xs))
  work s c entered left = ok (put s c (loaded s.sum) left)
  work s c (loaded v) [] = ok (put s c stored [])
  work s c (loaded v) (x ∷ xs) = ok (put (record s { sum = int_add v x }) c stored (x ∷ xs))
  work s c stored [] = do
    r ← my_pthread_mutex_unlock mutex s.lib
    ok (put (record s { lib = r.1 }) c before [])
  work s c stored (x ∷ xs) = do
    r ← my_pthread_mutex_unlock mutex s.lib
    ok (put (record s { lib = r.1 }) c before xs)

  abbrev pub go_on : System Page → ℕ → Option Local → Outcome (System Page)
  go_on s c none = ok s
  go_on s c (some l) = work s c l.phase l.left

  abbrev pub go_current : System Page → Option ℕ → Outcome (System Page)
  go_current s none = ok s
  go_current s (some c) = go_on s c (get_elem? s.locals c)

  abbrev pub join_unless : System Page → ℕ → Option Local → Outcome (System Page)
  join_unless s t (some l) = ok s
  join_unless s t none = do r ← my_pthread_join t s.lib; ok (record s { lib = r.1 })

  abbrev pub join_current : System Page → ℕ → Option ℕ → Outcome (System Page)
  join_current s t none = ok s
  join_current s t (some c) = join_unless s t (get_elem? s.locals c)

  unfoldable pub step : Event → System Page → Outcome (System Page)
  unfolding timer_handler my_pthread_mutex_lock my_pthread_mutex_unlock my_pthread_join
  step tick s = ok (record s { lib = timer_handler s.lib })
  step go s = go_current s s.lib.current
  step (main_join t) s = join_current s t s.lib.current

  unfoldable pub run : List Event → System Page → Outcome (System Page)
  unfolding step
  run [] s = ok s
  run (e ∷ es) s = do s₁ ← step e s; run es s₁
