-- ===== src/Benchmark/Vector.antt =====
-- Benchmark/vectorMultiply.c. The entries of the vectors are functions of the index, and an `int` that
-- overflows wraps around.
use osdesignasst.Prelude.{
  get_elem?, ℕ, ◌+◌, ◌*◌, ◌%◌, ◌^◌, ◌<◌, ◌≤◌, ◌≡◌, ◌∙◌, Option, none, some, List, map, Returns,
}
use osdesignasst.Code.Pthread.{ThreadInfo, Threads}
use osdesignasst.Benchmark.Worker.{Event, run}
use osdesignasst.Benchmark.Lock.{pending, total}
use osdesignasst.Benchmark.Lock.Runs.{AllFit}
use osdesignasst.Benchmark.Start.{IsStart, system}
use osdesignasst.Benchmark.Start.Create.{IsFresh, main_start}
use osdesignasst.Benchmark.Start.Main.{main_run}
use osdesignasst.Benchmark.Shares.{shares, length-works, verify_from, shares-eq-verify_from}

abbrev pub vector_size : ℕ
vector_size = 3000000

-- `main` without an argument takes two threads; else what `atoi` makes of the argument.
abbrev pub thread_num_of : Option ℕ → ℕ
thread_num_of none = 2
thread_num_of (some n) = n

module _ (r s : ℕ → ℕ) where
  -- `r[i] * s[i]`
  abbrev pub product : ℕ → ℕ
  product i = r i * s i % 2 ^ 32

  -- What the workers of `vector_multiply` add.
  abbrev pub vector_multiply : (thread_num : ℕ) → List (List ℕ)
  vector_multiply thread_num = map (map product) (shares thread_num vector_size)

  unfoldable pub verify : ℕ
  unfolding verify_from
  verify = verify_from product vector_size 0 0

  -- With 1 to 30 threads, from the start of the process and with no tick before the first join: `main` creates
  -- the workers and gets there with all of them in the ready queue. Then, with ticks between the steps, none
  -- inside a call, whatever ids other than the mutex the main thread joins, and if the ends of the threads clear
  -- pages of the pool of other ids than 0: the run goes on, and after it the page of id 0, in which `main` has
  -- the number of each worker, is as it was, and `res` and what the workers have still to add make what
  -- `verify` computes.
  pub vector_multiply_lem :
      {Page : Type 0} (zeros : Page) (freed_tid : ℕ → ℕ) (thread_num : ℕ) (left : ThreadInfo)
      (u : Threads Page) (es : List Event)
      → IsFresh freed_tid u
      → 0 < thread_num
      → thread_num ≤ 30
      → AllFit 1 es
      → Returns (main_start thread_num left u) (λ r.
        IsStart r.0 freed_tid (vector_multiply thread_num) r.1
        × Returns (run zeros freed_tid r.0 es (system (vector_multiply thread_num) r.1)) (λ after.
          (get_elem? after.lib.pool.heap 0 ≡ get_elem? r.1.pool.heap 0)
          × ((after.sum + total pending after.locals) % 2 ^ 32 ≡ verify)))
  unfolding verify
  vector_multiply_lem zeros freed_tid thread_num left u es new pos few fits =
      let work = vector_multiply thread_num in
      let (r, begins, (start, (after, goes, (kept, adds)))) =
        main_run zeros freed_tid thread_num left work u es new
          (length-works product thread_num vector_size) pos few fits in
      (
        r,
        begins,
        (
          start,
          (after, goes, (kept, adds ∙ shares-eq-verify_from product thread_num vector_size pos)),
        ),
      )
