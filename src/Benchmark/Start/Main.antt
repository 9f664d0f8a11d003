-- ===== src/Benchmark/Start/Main.antt =====
-- Benchmark/*.c: `main` and a run of the workers behind it.
use osdesignasst.Prelude.{
  IfOk, refl, get_elem?, Outcome, ℕ, ◌+◌, ◌%◌, ◌^◌, ◌≤◌, ◌<◌, ◌≡◌, subst, sym, List, Returns,
  length,
}
use osdesignasst.Code.Pthread.{ThreadInfo, Threads}
use osdesignasst.Benchmark.Worker.{System, Event, run}
use osdesignasst.Benchmark.Lock.{pending, total, sum_of}
use osdesignasst.Benchmark.Lock.Runs.{AllFit}
use osdesignasst.Benchmark.Pages.{run-Keeps}
use osdesignasst.Benchmark.Start.{IsStart, system, run_lem}
use osdesignasst.Benchmark.Start.Create.{IsFresh, main_start, main_start-IsStart}

module _ {Page : Type 0} (zeros : Page) (freed_tid : ℕ → ℕ) (thread_num : ℕ) (left : ThreadInfo)
    (shares : List (List ℕ)) where
  -- From the start of the process, `main` creates the workers and gets to its first join, and from there
  -- every run goes on; after it the page of id 0 is as it was, and the global and what is still to be added make the sum of all numbers.
  pub main_run :
      (u : Threads Page) (es : List Event)
      → IsFresh freed_tid u
      → length shares ≡ thread_num
      → 0 < thread_num
      → thread_num ≤ 30
      → AllFit 1 es
      → Returns (main_start thread_num left u) (λ r.
        IsStart r.0 freed_tid shares r.1
        × Returns (run zeros freed_tid r.0 es (system shares r.1)) (λ s.
          (get_elem? s.lib.pool.heap 0 ≡ get_elem? r.1.pool.heap 0)
          × ((s.sum + total pending s.locals) % 2 ^ 32 ≡ total sum_of shares % 2 ^ 32)))
  main_run u es new size pos few fits =
      let (r, begins, (handle, start)) =
        main_start-IsStart thread_num freed_tid left u new shares size pos few in
      let (s, goes, adds) = run_lem zeros 1 freed_tid shares r.1 es start fits in
      let kept : get_elem? s.lib.pool.heap 0 ≡ get_elem? r.1.pool.heap 0 =
        subst
          (λ (o : Outcome (System Page)).
            IfOk o (λ a. get_elem? a.lib.pool.heap 0 ≡ get_elem? r.1.pool.heap 0))
          goes
          (run-Keeps zeros 1 freed_tid (get_elem? r.1.pool.heap 0) start.page.apart es
            (system shares r.1) refl) in
      (
        r,
        begins,
        subst
            (λ (k : ℕ).
              IsStart k freed_tid shares r.1
              × Returns (run zeros freed_tid k es (system shares r.1)) (λ s.
                (get_elem? s.lib.pool.heap 0 ≡ get_elem? r.1.pool.heap 0)
                × ((s.sum + total pending s.locals) % 2 ^ 32 ≡ total sum_of shares % 2 ^ 32)))
            (sym handle) (start, (s, goes, (kept, adds))),
      )
