-- ===== src/Benchmark/Tests.antt =====
-- Runs of the benchmarks' workers, and instances of what is proved of them.
use mathlib.Core.Option.{some-injective}
use osdesignasst.Prelude.{
  ℕ, ◌+◌, ◌%◌, ◌^◌, ◌≤◌, ◌≡◌, ◌⊎◌, refl, true, false, none, some, List, [], ◌∷◌, Outcome, ok, fault,
  out_of_bounds, segv, sym, ◌>>=◌, Returns, replicate, count, get_elem?, zero, suc, arith,
}
use osdesignasst.Malloc.{cleared}
use osdesignasst.Code.Malloc.{Pool}
use osdesignasst.Code.Pthread.{ThreadInfo, Threads}
use osdesignasst.Code.Pthread.Mutexes.{my_pthread_mutex_init}
use osdesignasst.Code.Pthread.Conserve.{places}
use osdesignasst.Benchmark.Worker.{
  Local, loaded, entered, System, Event, tick, go, main_join, run, step,
}
use osdesignasst.Benchmark.Lock.{HasPage, WaitsFor, pending, total, sum_of}
use osdesignasst.Benchmark.Lock.Runs.{AllFit}
use osdesignasst.Benchmark.Start.{IsStart, IsDone, system, run_exclusive, run_done}
use osdesignasst.Benchmark.Wakes.{Ends, step_holds}
use osdesignasst.Benchmark.Start.Full.{RunsOut, main_start_full}
use osdesignasst.Benchmark.Start.Create.{IsFresh, main_start, main_start-IsStart}
use osdesignasst.Benchmark.Shares.{shares, shares_from, strided}
use osdesignasst.Benchmark.Vector.{product, vector_multiply, vector_multiply_lem}
use osdesignasst.Benchmark.Vector as Vector
use osdesignasst.Benchmark.Parallel as Parallel
use osdesignasst.Benchmark.External as External
use osdesignasst.Benchmark.External.{external_calculate, external_calculate_lem}

abbrev pool : Pool (List ℕ)
pool = record {
  malloc_init = true;
  pages = some 4096;
  metadata = replicate 2 cleared;
  heap = (7 ∷ []) ∷ (8 ∷ []) ∷ [];
}

abbrev process : Threads (List ℕ)
process = record {
  current = none;
  ready = [];
  wait = [];
  info = λ t. record { mu = 0; tid = 0 };
  mutexes = replicate 32 (record { used = false; count = 0 });
  threads_cnt = 0;
  pthread_init = false;
  timer = 0;
  pool = pool;
}

abbrev left : ThreadInfo
left = record { mu = 9; tid = 9 }

-- The allocator before its first call.
abbrev empty_pool : Pool ℕ
empty_pool = record { malloc_init = false; pages = none; metadata = []; heap = [] }

-- The freed memory of each thread holds the id 1.
abbrev freed : ℕ → ℕ
freed t = 1

has_page : HasPage freed pool
has_page = record {
  address = 4096;
  mapped = refl;
  metadata = λ t. omega arith;
  heap = λ t. omega arith;
  apart = λ t e. cc;
}

process-IsFresh : IsFresh freed process
process-IsFresh = record {
  nobody = refl;
  ready = refl;
  wait = refl;
  mutexes = refl;
  started = refl;
  page = has_page;
}

-- The main thread waits for worker 0; that is interrupted behind its lock, and worker 1 has to wait.
abbrev events : List Event
events =
    main_join 2
    ∷ go
    ∷ go
    ∷ tick
    ∷ go
    ∷ tick
    ∷ go
    ∷ go
    ∷ tick
    ∷ go
    ∷ go
    ∷ go
    ∷ go
    ∷ go
    ∷ go
    ∷ go
    ∷ go
    ∷ go
    ∷ []

-- The sum and the rest of the workers behind some events.
abbrev sum_after : List Event → Outcome ℕ
unfolding run step main_start
sum_after es = do
  r ← main_start 2 left process
  s ← run (replicate 3 0) freed r.0 es (system ((3 ∷ 5 ∷ []) ∷ (7 ∷ []) ∷ []) r.1)
  ok s.sum

sum_after-events : sum_after events ≡ ok 15
unfolding sum_after osdesignasst.Code.Pthread.schedule_swap_current_to_wait
    osdesignasst.Code.Pthread.release_thread osdesignasst.Code.Pthread.Mutexes.free_mutex
    osdesignasst.Code.Pthread.release_all_thread osdesignasst.Code.Malloc.reclaim_current_heap
sum_after-events = refl

-- The timer, worker 0 up to its store, the timer, and the main thread's join of worker 0.
abbrev some_events : List Event
some_events = tick ∷ go ∷ go ∷ go ∷ tick ∷ tick ∷ main_join 2 ∷ []

some_events-AllFit : AllFit 1 some_events
some_events-AllFit = (tt, (tt, (tt, (tt, (tt, (tt, ((λ e. cc, omega arith), tt)))))))

main_start_full_example :
    Returns (my_pthread_mutex_init process) (λ r. RunsOut 31 freed left r.1)
    × (main_start 31 left process ≡ fault out_of_bounds)
main_start_full_example =
    main_start_full 31 freed left process process-IsFresh (omega arith) (omega arith)

vector_multiply_lem_example : Returns (main_start 2 left process) (λ r.
    IsStart r.0 freed (vector_multiply (λ i. i) (λ i. i) 2) r.1
    × Returns
        (run
          (replicate 3 0)
          freed
          r.0
          some_events
          (system (vector_multiply (λ i. i) (λ i. i) 2) r.1))
        (λ after.
          (get_elem? after.lib.pool.heap 0 ≡ get_elem? r.1.pool.heap 0)
          × ((after.sum + total pending after.locals) % 2 ^ 32 ≡ Vector.verify (λ i. i) (λ i. i))))
vector_multiply_lem_example =
    vector_multiply_lem (λ i. i) (λ i. i) (replicate 3 0) freed 2 left process some_events
      process-IsFresh (omega arith) (omega arith) some_events-AllFit

external_calculate_lem_example : Returns (main_start 2 left process) (λ r.
    IsStart r.0 freed (external_calculate (λ k p. k + p) 2 External.itr) r.1
    × Returns
        (run
          (replicate 3 0)
          freed
          r.0
          some_events
          (system (external_calculate (λ k p. k + p) 2 External.itr) r.1))
        (λ after.
          (get_elem? after.lib.pool.heap 0 ≡ get_elem? r.1.pool.heap 0)
          × ((after.sum + total pending after.locals) % 2 ^ 32
              ≡ External.verify (λ k p. k + p) External.itr)))
external_calculate_lem_example =
    external_calculate_lem (λ k p. k + p) (replicate 3 0) freed 2 left process some_events
      process-IsFresh (omega arith) (omega arith) some_events-AllFit

-- The library behind the creation of two workers.
abbrev created : Threads (List ℕ)
created = record process {
  current = some 2;
  ready = 0 ∷ 1 ∷ [];
  info = λ t. record { mu = 0; tid = t + 2 };
  mutexes =
      record { used = false; count = 0 }
      ∷ record { used = true; count = 0 }
      ∷ record { used = true; count = 1 }
      ∷ record { used = true; count = 1 }
      ∷ replicate 28 (record { used = false; count = 0 });
  threads_cnt = 3;
  pthread_init = true;
}

created-once : (t : ℕ) → places t created.current created.ready created.wait ≤ 1
created-once t = ground arith

abbrev numbers : List (List ℕ)
numbers = (3 ∷ 5 ∷ []) ∷ (7 ∷ []) ∷ []

created-IsStart : IsStart 1 freed numbers created
created-IsStart = record {
  in_table = omega arith;
  few = omega arith;
  size = refl;
  page = has_page;
  once = created-once;
  entry = refl;
  running = refl;
  ready = refl;
  own = λ t k lt lt' e. omega arith;
  nobody = refl;
  tids = λ t lt. (omega arith, omega arith);
}

main_start-IsStart_example :
    Returns (main_start 2 left process) (λ r. (r.0 ≡ 1) × IsStart 1 freed numbers r.1)
main_start-IsStart_example =
    main_start-IsStart 2 freed left process process-IsFresh numbers refl (omega arith) (omega arith)

-- What a run gets to.
abbrev result_or : System (List ℕ) → Outcome (System (List ℕ)) → System (List ℕ)
result_or d (ok s) = s
result_or d (fault e) = d

unfoldable reached : List Event → System (List ℕ)
unfolding run step
reached es =
    result_or (system numbers created) (run (replicate 3 0) freed 1 es (system numbers created))

-- Worker 0 is interrupted behind its lock, and worker 1 calls lock.
abbrev two_lock : List Event
two_lock = main_join 2 ∷ go ∷ go ∷ tick ∷ go ∷ []

run_exclusive_example :
    (◌≡◌ {A = ℕ} 0 1) ⊎ (WaitsFor 1 (reached two_lock).lib 0 ⊎ WaitsFor 1 (reached two_lock).lib 1)
unfolding reached run step osdesignasst.Code.Pthread.schedule_swap_current_to_wait
    osdesignasst.Code.Pthread.release_thread osdesignasst.Code.Pthread.Mutexes.free_mutex
    osdesignasst.Code.Pthread.release_all_thread osdesignasst.Code.Malloc.reclaim_current_heap
run_exclusive_example =
    run_exclusive (replicate 3 0) 1 freed numbers created two_lock (reached two_lock) 0 1
      (record { phase = loaded 0; left = 3 ∷ 5 ∷ [] }) (record { phase = entered; left = 7 ∷ [] })
      created-IsStart ((λ e. cc, omega arith), (tt, (tt, (tt, (tt, tt))))) refl refl refl refl refl

all-IsDone : (t : ℕ) (l : Local) → get_elem? (reached events).locals t ≡ some l → IsDone l
unfolding reached run step osdesignasst.Code.Pthread.schedule_swap_current_to_wait
    osdesignasst.Code.Pthread.release_thread osdesignasst.Code.Pthread.Mutexes.free_mutex
    osdesignasst.Code.Pthread.release_all_thread osdesignasst.Code.Malloc.reclaim_current_heap
all-IsDone zero l at = sym (some-injective _ _ at)
all-IsDone (suc zero) l at = sym (some-injective _ _ at)
all-IsDone (suc (suc t)) l at = cc

events-AllFit : AllFit 1 events
events-AllFit = (
  (λ e. cc, omega arith),
  (
    tt,
    (
      tt,
      (tt, (tt, (tt, (tt, (tt, (tt, (tt, (tt, (tt, (tt, (tt, (tt, (tt, (tt, (tt, tt))))))))))))))),
    ),
  ),
)

run_done_example : (reached events).sum ≡ 15
unfolding reached run step osdesignasst.Code.Pthread.schedule_swap_current_to_wait
    osdesignasst.Code.Pthread.release_thread osdesignasst.Code.Pthread.Mutexes.free_mutex
    osdesignasst.Code.Pthread.release_all_thread osdesignasst.Code.Malloc.reclaim_current_heap
run_done_example =
    run_done (replicate 3 0) 1 freed numbers created events (reached events) created-IsStart
      events-AllFit refl all-IsDone

abbrev row_order : List ℕ
row_order = 1 ∷ 0 ∷ 3 ∷ 2 ∷ []

row_order_lem :
    (j : ℕ) → count (Parallel.is_row j) row_order ≡ total (count (Parallel.is_row j)) (shares 2 4)
unfolding strided shares_from
row_order_lem j = omega arith

parallel_calculate_lem_example :
    total sum_of (Parallel.parallel_calculate (λ j i. j + i) 2 3 4 row_order) % 2 ^ 32
    ≡ Parallel.verify (λ j i. j + i) 3 4
parallel_calculate_lem_example =
    Parallel.parallel_calculate_lem (λ j i. j + i) 2 3 4 row_order (omega arith) row_order_lem

main_rows-segv_example : Parallel.main_rows 0 (some 4096) empty_pool ≡ fault segv
main_rows-segv_example = Parallel.main_rows-segv 0 (some 4096) empty_pool

-- The main thread, 2, waits for the id 2, that of worker 0, which calls lock.
abbrev one_join : List Event
one_join = main_join 2 ∷ []

step_holds_example :
    WaitsFor 2 (reached (main_join 2 ∷ go ∷ [])).lib 2 ⊎ Ends 2 go (reached one_join)
unfolding reached run step osdesignasst.Code.Pthread.schedule_swap_current_to_wait
    osdesignasst.Code.Pthread.release_thread osdesignasst.Code.Pthread.Mutexes.free_mutex
    osdesignasst.Code.Pthread.release_all_thread osdesignasst.Code.Malloc.reclaim_current_heap
step_holds_example =
    step_holds (replicate 3 0) 1 freed numbers created one_join (reached one_join)
      (reached (main_join 2 ∷ go ∷ [])) go 2 2 created-IsStart ((λ e. cc, omega arith), tt) refl
      (λ e. cc) (omega arith, refl) refl
