-- ===== src/Pthread/Mutex.antt =====
-- tmp2/my_pthread.c: the mutex table and the calls on mutexes. A handle is an index of the table.
-- `g_mutex_table[mu]` is read before `mu` is compared with MAX_MUTEX_NUM, so a handle out of range is
-- an access out of bounds.
pub mod Table
pub mod Waiters
pub mod Unlock
pub mod Fit
use osdesignasst.Prelude.{
  ℕ, suc, ◌-◌, Bool, true, false, Option, none, some, List, [], ◌∷◌, ◌==◌, leb, not, if◌then◌else◌,
  Outcome, ok, fault, panic, out_of_bounds, segv, ◌>>=◌, get_elem?, set, find_index?,
}
use osdesignasst.Pthread.State.{
  ThreadInfo, Mutex, max_mutex_num, bump, Pthread, Memory, Status, success, failure, write,
}
use osdesignasst.Pthread.Sched.{schedule_swap_current_to_wait, release_thread}

abbrev pub is_unused : Mutex → Bool
is_unused m = not m.used

abbrev pub allocated : Mutex
allocated = record { used = true; count = 0 }

-- The loop of `alloc_mutex`, which starts at 1: slot 0 is the main thread's. `none` is -1.
abbrev pub first_unused : List Mutex → Option ℕ
first_unused [] = none
first_unused (main ∷ rest) = elim (find_index? is_unused rest) [
  | none ↦ none
  | some i ↦ some (suc i)
]

abbrev pub alloc_at : List Mutex → Option ℕ → Option ℕ × List Mutex
alloc_at table none = (none, table)
alloc_at table (some i) = (some i, set table i allocated)

unfoldable pub alloc_mutex : List Mutex → Option ℕ × List Mutex
alloc_mutex table = alloc_at table (first_unused table)

module _ {Vm : Type 0} where
  abbrev pub with_mutex : Pthread Vm → ℕ → Mutex → Pthread Vm
  with_mutex s mu m = record s { mutexes = set s.mutexes mu m }

  abbrev pub free_mutex_at : ℕ → Pthread Vm → Option Mutex → Outcome (Pthread Vm)
  free_mutex_at mu s none = fault out_of_bounds
  free_mutex_at mu s (some m) = ok (with_mutex s mu (record { used = false; count = 0 }))

  unfoldable pub free_mutex : (mu : ℕ) → Pthread Vm → Outcome (Pthread Vm)
  free_mutex mu s = free_mutex_at mu s (get_elem? s.mutexes mu)

  abbrev pub init_with : Pthread Vm → Option ℕ × List Mutex → Outcome (ℕ × Pthread Vm)
  init_with s (none, table) = fault panic
  init_with s (some i, table) = ok (i, record s { mutexes = table })

  -- The handle goes to `*mutex`; the return value is always 0.
  unfoldable pub my_pthread_mutex_init : Pthread Vm → Outcome (ℕ × Pthread Vm)
  unfolding alloc_mutex
  my_pthread_mutex_init s = init_with s (alloc_mutex s.mutexes)

  -- `CURRENT->mu = mu`
  abbrev pub set_mu : ℕ → Option ℕ → Pthread Vm → Outcome (Pthread Vm)
  set_mu mu none s = fault segv
  set_mu mu (some t) s = ok (record s { info = write s.info t (record (s.info t) { mu = mu }) })

  -- The end that `my_pthread_mutex_lock` and `my_pthread_join` share: a free mutex is taken, and a
  -- held one waited for. The status is what the caller gets when it runs again.
  unfoldable pub take_or_wait :
      Memory Vm → (mu : ℕ) → Mutex → Pthread Vm → Outcome (Status × Pthread Vm)
  take_or_wait memory mu m s =
      let counted = with_mutex s mu (record m { count = bump m.count }) in
      if 0 == m.count then ok (success, counted) else do
        s₁ ← set_mu mu counted.current counted
        s₂ ← schedule_swap_current_to_wait memory s₁
        ok (success, s₂)

  abbrev pub lock_at :
      Memory Vm → (mu : ℕ) → Pthread Vm → Option Mutex → Outcome (Status × Pthread Vm)
  lock_at memory mu s none = fault out_of_bounds
  lock_at memory mu s (some m) =
      if not m.used
      then ok (failure, s)
      else if leb max_mutex_num mu
      then ok (failure, s)
      else take_or_wait memory mu m s

  unfoldable pub my_pthread_mutex_lock :
      Memory Vm → (mu : ℕ) → Pthread Vm → Outcome (Status × Pthread Vm)
  unfolding take_or_wait
  my_pthread_mutex_lock memory mu s = lock_at memory mu s (get_elem? s.mutexes mu)

  abbrev pub unlock_at : (mu : ℕ) → Pthread Vm → Option Mutex → Outcome (Status × Pthread Vm)
  unlock_at mu s none = fault out_of_bounds
  unlock_at mu s (some m) =
      if not m.used
      then ok (failure, s)
      else if leb max_mutex_num mu
      then ok (failure, s)
      else if 0 == m.count
      then ok (failure, s)
      else let counted = with_mutex s mu (record m { count = m.count - 1 }) in
        if 1 == m.count
        then ok (success, counted)
        else do s₁ ← release_thread mu counted; ok (success, s₁)

  unfoldable pub my_pthread_mutex_unlock : (mu : ℕ) → Pthread Vm → Outcome (Status × Pthread Vm)
  my_pthread_mutex_unlock mu s = unlock_at mu s (get_elem? s.mutexes mu)

  abbrev pub destroy_at : (mu : ℕ) → Pthread Vm → Option Mutex → Outcome (Status × Pthread Vm)
  destroy_at mu s none = fault out_of_bounds
  destroy_at mu s (some m) =
      if not m.used
      then ok (failure, s)
      else if leb max_mutex_num mu
      then ok (failure, s)
      else ok (success, with_mutex s mu (record { used = false; count = 0 }))

  unfoldable pub my_pthread_mutex_destroy : (mu : ℕ) → Pthread Vm → Outcome (Status × Pthread Vm)
  my_pthread_mutex_destroy mu s = destroy_at mu s (get_elem? s.mutexes mu)
