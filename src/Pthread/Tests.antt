-- ===== src/Pthread/Tests.antt =====
-- Runs of the thread library, and the theorems at them. Thread 100 runs; 101 and 102 are ready.
use osdesignasst.Prelude.{
  ℕ, ◌-◌, ◌+◌, ◌≡◌, ◌<◌, refl, true, false, some, List, [], ◌∷◌, ◌++◌, ok, fault, hang, replicate,
  get_elem?, get_elem?-set_cases, inl, inr, set, Returns, arith,
}
use osdesignasst.Pthread.State.{
  acquire_queue_spinlock, after_swap, ThreadInfo, Mutex, Pthread, Memory, success, spin, Memory,
}
use osdesignasst.Pthread.State.Spin.{spin_rounds}
use osdesignasst.Pthread.Sched.{timer_handler, release_all, release_first}
use osdesignasst.Pthread.Sched.Switch.{Looks, acquire-timer_handler}
use osdesignasst.Pthread.Sched.Rotation.{ticks, ticks-reach}
use osdesignasst.Pthread.Sched.Release.{waiting, release_all-eq-release_first}
use osdesignasst.Pthread.Mutex.{alloc_mutex, my_pthread_mutex_lock, my_pthread_mutex_unlock}
use osdesignasst.Pthread.Mutex.Table.{IsLeastUnused}
use osdesignasst.Pthread.Mutex.Waiters.{IsHandle}
use osdesignasst.Pthread.Mutex.Unlock.{unlock_hands_over}
use osdesignasst.Pthread.Mutex.Fit.{WaitersFit, lock-WaitersFit, unlock-WaitersFit}
use osdesignasst.Pthread.Thread.{my_pthread_create, my_pthread_exit}
use osdesignasst.Pthread.Thread.Exit.{exit_wakes_one}
use osdesignasst.Pthread.Thread.Create.{my_pthread_create_lem}

-- The memory is a log of the calls: 1000 + t for a store, 2000 + t for a switch, 3000 + t for a free.
abbrev log : Memory (List ℕ)
log = record {
  store_back = λ t vm. vm ++ (1000 + t) ∷ [];
  switch_in = λ t vm. vm ++ (2000 + t) ∷ [];
  free_pages = λ t vm. vm ++ (3000 + t) ∷ [];
}

abbrev unused : Mutex
unused = record { used = false; count = 0 }

abbrev held : ℕ → Mutex
held n = record { used = true; count = n }

-- Thread 100 + k has id k, and waits for mutex 5 when it waits.
abbrev ids : ℕ → ThreadInfo
ids t = record { context = after_swap; mu = 5; tid = t - 100 }

-- Handles 1 and 2 are threads, and 5 is a mutex.
abbrev table : ℕ → List Mutex
table n = held 1 ∷ held 1 ∷ held 1 ∷ unused ∷ unused ∷ held n ∷ replicate 26 unused

abbrev state : (rs ws : List ℕ) → (n : ℕ) → Pthread (List ℕ)
state rs ws n = record {
  current = some 100;
  ready = rs;
  wait = ws;
  info = ids;
  mutexes = table n;
  queue_spinlock = 0;
  timer = 25000;
  threads_cnt = 3;
  pthread_init = true;
  vm = [];
}

looks : (rs ws : List ℕ) (n : ℕ) → Looks (state rs ws n) (some 100) rs ws
looks rs ws n = record { current = refl; ready = refl; wait = refl; unlocked = refl }

handle : (rs ws : List ℕ) (n : ℕ) → IsHandle (state rs ws n) 5 (held n)
handle rs ws n = record { at = refl; used = refl; in_range = omega arith }

two_ticks :
    Returns (ticks log 2 (state (101 ∷ 102 ∷ []) [] 0)) (λ s. s.vm ≡ 1100 ∷ 2101 ∷ 1101 ∷ 2102 ∷ [])
unfolding ticks timer_handler
two_ticks = (_, refl, refl)

ticks-reach_example :
    Returns
      (ticks log 2 (state (101 ∷ 102 ∷ []) [] 0))
      (λ s. Looks s (some 102) (100 ∷ 101 ∷ []) [])
ticks-reach_example = ticks-reach log (101 ∷ []) [] (state (101 ∷ 102 ∷ []) [] 0) (looks _ _ 0)

acquire-timer_handler_example :
    Returns
      (acquire_queue_spinlock (state (101 ∷ []) [] 0))
      (λ a. (0 < a.timer) × (timer_handler log a ≡ fault hang))
acquire-timer_handler_example = acquire-timer_handler log (state (101 ∷ []) [] 0) refl refl

spin_rounds_example : spin 8 1 ≡ spin 1 1
spin_rounds_example = spin_rounds 7 1

-- 101 and 102 both wait for mutex 5.
release_all-eq-release_first_example :
    release_all ids 5 [] (101 ∷ 102 ∷ []) [] ≡ release_first ids 5 [] (101 ∷ 102 ∷ []) []
release_all-eq-release_first_example = release_all-eq-release_first ids 5 [] (101 ∷ 102 ∷ []) []

release_all_run : release_all ids 5 [] (101 ∷ 102 ∷ []) [] ≡ (102 ∷ [], 101 ∷ [])
unfolding release_all
release_all_run = refl

unlock_hands_over_example : Returns (my_pthread_mutex_unlock 5 (state [] (101 ∷ 102 ∷ []) 3)) (λ r.
    (r.0 ≡ success)
    × (r.1.wait ≡ 102 ∷ [])
    × (r.1.ready ≡ 101 ∷ [])
    × (r.1.current ≡ some 100)
    × (get_elem? r.1.mutexes 5 ≡ some (held 2)))
unlock_hands_over_example =
    unlock_hands_over 5 (held 3) (state [] (101 ∷ 102 ∷ []) 3) [] (102 ∷ []) 101 (handle _ _ 3)
      (omega arith) refl refl refl refl

fit : (rs : List ℕ) → WaitersFit (state rs (101 ∷ []) 2)
fit rs k m at = elim (get_elem?-set_cases (table 0) 5 k (held 2) at) [
  | inl (e, now) ↦ ground arith
  | inr (ne, before) ↦ ground arith
]

unlock-WaitersFit_example :
    Returns (my_pthread_mutex_unlock 5 (state (102 ∷ []) (101 ∷ []) 2)) (λ r. WaitersFit r.1)
unlock-WaitersFit_example =
    unlock-WaitersFit log 5 (held 2) (state (102 ∷ []) (101 ∷ []) 2) (handle _ _ 2) refl
      (fit (102 ∷ []))

lock-WaitersFit_example :
    Returns (my_pthread_mutex_lock log 5 (state (102 ∷ []) (101 ∷ []) 2)) (λ r. WaitersFit r.1)
lock-WaitersFit_example =
    lock-WaitersFit log 5 (held 2) (state (102 ∷ []) (101 ∷ []) 2) (handle _ _ 2) (looks _ _ 2) refl
      (omega arith) (fit (102 ∷ []))

-- 101 and 102 wait for thread 100, whose id is 0 here.
abbrev joined : Pthread (List ℕ)
joined = record (state (103 ∷ []) (101 ∷ 102 ∷ []) 0) {
  info = λ t. record { context = after_swap; mu = 0; tid = t - 100 };
}

exit_wakes_one_example : Returns (my_pthread_exit log joined) (λ s.
    Looks s (some 103) (101 ∷ []) (102 ∷ [])
    × (waiting s.info 0 s.wait ≡ 1)
    × (get_elem? s.mutexes 0 ≡ some unused))
exit_wakes_one_example =
    exit_wakes_one log joined 100 (held 1) [] (102 ∷ []) 101 103 (101 ∷ []) refl refl refl refl refl
      refl refl

alloc_run : alloc_mutex (table 0) ≡ (some 3, set (table 0) 3 (held 0))
unfolding alloc_mutex
alloc_run = refl

my_pthread_create_lem_example :
    Returns (my_pthread_create (λ s. ok s) (some 103) (state [] [] 0)) (λ r.
      (r.0 ≡ 3)
      × IsLeastUnused (table 0) 3
      × (get_elem? r.1.mutexes 3 ≡ some (held 1))
      × (r.1.ready ≡ 103 ∷ [])
      × ((r.1.info 103).tid ≡ 3)
      × (r.1.current ≡ some 100)
      × (r.1.wait ≡ [])
      × (r.1.queue_spinlock ≡ 0))
my_pthread_create_lem_example =
    my_pthread_create_lem (λ s. ok s) 103 (state [] [] 0) 3 (set (table 0) 3 (held 0)) refl refl
      alloc_run
