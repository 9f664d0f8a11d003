-- ===== src/Code/Pthread/Tests.antt =====
-- Runs of the earlier thread library beside the newer one. Thread 100 runs; 101 and 102 are ready.
use osdesignasst.Prelude.{
  ℕ, ◌-◌, ◌+◌, ◌≡◌, refl, true, false, some, List, [], ◌∷◌, ok, replicate, Returns, none,
}
use osdesignasst.Pthread.State.{after_swap, Mutex, Pthread, Memory, success, failure}
use osdesignasst.Pthread.Thread as Thread
use osdesignasst.Malloc.{cleared}
use osdesignasst.Code.Malloc.{Pool, reclaim_current_heap}
use osdesignasst.Code.Pthread.{
  ThreadInfo, Threads, schedule_swap_current_to_wait, timer_handler, release_thread,
}
use osdesignasst.Code.Pthread.Life as Life
use osdesignasst.Code.Pthread.Mutexes
use osdesignasst.Code.Pthread.Refine.{Sim, Agree}
use osdesignasst.Code.Pthread.Refine.Runs.{
  Call, lock, unlock, join, mutex_init, yield, tick, create, handle, status, nothing, start, run,
  run_before, SameRun, run-Sim,
}
use osdesignasst.Code.Pthread.Conserve.{Each, places, created}
use osdesignasst.Code.Pthread.Conserve.Newer.{run-places}
use osdesignasst.Code.Pthread.Refine.Exit.{my_pthread_exit-Sim}

abbrev still : Memory ℕ
still = record { store_back = λ t vm. vm; switch_in = λ t vm. vm; free_pages = λ t vm. vm }

abbrev in_use : ℕ → Mutex
in_use n = record { used = true; count = n }

-- Slot 0 is the main thread's, and 1 and 2 are the ids of 101 and 102.
abbrev table : List Mutex
table = in_use 1 ∷ in_use 1 ∷ in_use 1 ∷ replicate 29 (record { used = false; count = 0 })

abbrev newer : Pthread ℕ
newer = record {
  current = some 100;
  ready = 101 ∷ 102 ∷ [];
  wait = [];
  info = λ t. record { context = after_swap; mu = 0; tid = t - 100 };
  mutexes = table;
  queue_spinlock = 0;
  timer = 25000;
  threads_cnt = 3;
  pthread_init = true;
  vm = 0;
}

abbrev pool : Pool (List ℕ)
pool = record {
  malloc_init = true;
  pages = some 4096;
  metadata = replicate 2 cleared;
  heap = (7 ∷ []) ∷ (8 ∷ []) ∷ [];
}

abbrev older : Threads (List ℕ)
older = record {
  current = some 100;
  ready = 101 ∷ 102 ∷ [];
  wait = [];
  info = λ t. record { mu = 0; tid = t - 100 };
  mutexes = table;
  threads_cnt = 3;
  pthread_init = true;
  timer = 25000;
  pool = pool;
}

alike : Sim newer older
alike = record {
  looks = record { current = refl; ready = refl; wait = refl; unlocked = refl };
  mutexes = refl;
  mus = λ t. refl;
  tids = λ t. refl;
  cnt = refl;
  init = refl;
}

-- Thread 100 takes mutex 3; 101 waits for it, and then 102 and 100 run; 100 wakes 101, and joins 102.
abbrev program : List Call
program =
    mutex_init
    ∷ lock 3
    ∷ yield
    ∷ lock 3
    ∷ tick
    ∷ create (some 103)
    ∷ unlock 3
    ∷ unlock 5
    ∷ join 2
    ∷ []

abbrev left_over : ThreadInfo
left_over = record { mu = 9; tid = 9 }

-- What the program gets from code/my_pthread.c; the second lock returns no value.
program_replies :
    Returns (run_before (Life.my_pthread_init (some 99) left_over) program older) (λ r.
      r.0
      ≡ handle 3
        ∷ status (some success)
        ∷ status (some success)
        ∷ status none
        ∷ nothing
        ∷ handle 4
        ∷ status (some success)
        ∷ status (some failure)
        ∷ status (some success)
        ∷ [])
unfolding run_before Mutexes.my_pthread_mutex_lock Mutexes.my_pthread_mutex_init
    Life.my_pthread_yield schedule_swap_current_to_wait Life.my_pthread_create timer_handler
    Mutexes.my_pthread_mutex_unlock release_thread Life.my_pthread_join
program_replies = (_, refl, refl)

run-Sim_example :
    Agree SameRun
      (run still (start (λ vm. ok vm) (some 99) left_over) program newer)
      (run_before (Life.my_pthread_init (some 99) left_over) program older)
run-Sim_example =
    run-Sim (λ vm. ok vm) (λ vm. (vm, refl)) (some 99) left_over still program newer older alike

abbrev page_cleared : Pool (List ℕ)
page_cleared = record pool { metadata = replicate 2 cleared; heap = [] ∷ (8 ∷ []) ∷ [] }

clears : reclaim_current_heap [] 0 pool ≡ ok page_cleared
unfolding reclaim_current_heap
clears = refl

my_pthread_exit-Sim_example :
    Agree Sim (Thread.my_pthread_exit still newer) (Life.my_pthread_exit [] 0 older)
my_pthread_exit-Sim_example = my_pthread_exit-Sim still [] 0 page_cleared newer older alike clears

run-places_example : Each (run still (start (λ vm. ok vm) (some 99) left_over) program newer) (λ r.
    places 103 r.1.current r.1.ready r.1.wait
    ≡ places 103 newer.current newer.ready newer.wait + created 103 program)
run-places_example = run-places still (λ vm. vm) (some 99) left_over 103 program newer refl refl
