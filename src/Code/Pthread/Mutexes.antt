-- ===== src/Code/Pthread/Mutexes.antt =====
-- code/my_pthread.c: the mutex table and the calls on mutexes.
use osdesignasst.Prelude.{
  ℕ, ◌+◌, ◌-◌, ◌==◌, true, false, Option, none, some, List, [], ◌∷◌, leb, not, if◌then◌else◌,
  Outcome, ok, fault, panic, out_of_bounds, segv, ◌>>=◌, get_elem?, set,
}
use osdesignasst.Pthread.State.{Mutex, max_mutex_num, bump, Status, success, failure}
use osdesignasst.Code.Pthread.{Threads, write, schedule_swap_current_to_wait, release_thread}

-- The loop of `alloc_mutex` over the slots from `i` on. `none` is -1.
unfoldable pub alloc_from : (i : ℕ) → List Mutex → Option ℕ × List Mutex
alloc_from i [] = (none, [])
alloc_from i (m ∷ rest) =
    let (found, rest') = alloc_from (i + 1) rest in
    if not m.used then (some i, record { used = true; count = 0 } ∷ rest) else (found, m ∷ rest')

-- The loop starts behind slot 0.
abbrev pub behind_main : Mutex → Option ℕ × List Mutex → Option ℕ × List Mutex
behind_main main (found, rest) = (found, main ∷ rest)

unfoldable pub alloc_mutex : List Mutex → Option ℕ × List Mutex
unfolding alloc_from
alloc_mutex [] = (none, [])
alloc_mutex (main ∷ rest) = behind_main main (alloc_from 1 rest)

module _ {Page : Type 0} where
  abbrev pub with_mutex : Threads Page → ℕ → Mutex → Threads Page
  with_mutex s mu m = record s { mutexes = set s.mutexes mu m }

  abbrev pub free_at : (mu : ℕ) → Threads Page → Option Mutex → Outcome (Threads Page)
  free_at mu s none = fault out_of_bounds
  free_at mu s (some m) = ok (with_mutex s mu (record { used = false; count = 0 }))

  unfoldable pub free_mutex : (mu : ℕ) → Threads Page → Outcome (Threads Page)
  free_mutex mu s = free_at mu s (get_elem? s.mutexes mu)

  abbrev pub init_with : Threads Page → Option ℕ × List Mutex → Outcome (ℕ × Threads Page)
  init_with s (none, table) = fault panic
  init_with s (some i, table) = ok (i, record s { mutexes = table })

  -- The handle goes to `*mutex`; the return value is always 0.
  unfoldable pub my_pthread_mutex_init : Threads Page → Outcome (ℕ × Threads Page)
  unfolding alloc_mutex
  my_pthread_mutex_init s = init_with s (alloc_mutex s.mutexes)

  -- `CURRENT->mu = mu`, and the wait for the mutex.
  abbrev pub wait_for : (mu : ℕ) → Option ℕ → Threads Page → Outcome (Threads Page)
  wait_for mu none s = fault segv
  wait_for mu (some t) s =
      schedule_swap_current_to_wait
        (record s { info = write s.info t (record (s.info t) { mu = mu }) })

  -- What `my_pthread_mutex_lock` and `my_pthread_join` do with a mutex in use. The answer is `free` if
  -- the mutex is free, and `waited` where the thread runs again.
  unfoldable pub take_or_wait :
      (free waited : Option Status) (mu : ℕ)
      → Mutex
      → Threads Page
      → Outcome (Option Status × Threads Page)
  take_or_wait free waited mu m s =
      let counted = with_mutex s mu (record m { count = bump m.count }) in
      if 0 == m.count
      then ok (free, counted)
      else do s₁ ← wait_for mu counted.current counted; ok (waited, s₁)

  abbrev pub guarded :
      (mu : ℕ)
      → Threads Page
      → Mutex
      → Outcome (Option Status × Threads Page)
      → Outcome (Option Status × Threads Page)
  guarded mu s m body =
      if not m.used
      then ok (some failure, s)
      else if leb max_mutex_num mu
      then ok (some failure, s)
      else body

  abbrev pub lock_at :
      (mu : ℕ) → Threads Page → Option Mutex → Outcome (Option Status × Threads Page)
  lock_at mu s none = fault out_of_bounds
  lock_at mu s (some m) = guarded mu s m (take_or_wait (some success) none mu m s)

  -- `my_pthread_mutex_lock`. After a wait there is no `return`: the answer is `none`, any value.
  unfoldable pub my_pthread_mutex_lock :
      (mu : ℕ) → Threads Page → Outcome (Option Status × Threads Page)
  unfolding take_or_wait
  my_pthread_mutex_lock mu s = lock_at mu s (get_elem? s.mutexes mu)

  abbrev pub unlock_at :
      (mu : ℕ) → Threads Page → Option Mutex → Outcome (Option Status × Threads Page)
  unlock_at mu s none = fault out_of_bounds
  unlock_at mu s (some m) =
      let counted = with_mutex s mu (record m { count = m.count - 1 }) in
      guarded mu s m (
        if 0 == m.count
        then ok (some failure, s)
        else if 1 == m.count
        then ok (some success, counted)
        else ok (some success, release_thread mu counted))

  unfoldable pub my_pthread_mutex_unlock :
      (mu : ℕ) → Threads Page → Outcome (Option Status × Threads Page)
  my_pthread_mutex_unlock mu s = unlock_at mu s (get_elem? s.mutexes mu)

  abbrev pub destroy_at :
      (mu : ℕ) → Threads Page → Option Mutex → Outcome (Option Status × Threads Page)
  destroy_at mu s none = fault out_of_bounds
  destroy_at mu s (some m) =
      guarded mu s m (ok (some success, with_mutex s mu (record { used = false; count = 0 })))

  unfoldable pub my_pthread_mutex_destroy :
      (mu : ℕ) → Threads Page → Outcome (Option Status × Threads Page)
  my_pthread_mutex_destroy mu s = destroy_at mu s (get_elem? s.mutexes mu)
