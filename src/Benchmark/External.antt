-- ===== src/Benchmark/External.antt =====
-- Benchmark/externalCal.c. The numbers in the files of ./record are a parameter: `file k p` is the one
-- that the call of `fscanf` after `p` others stores. All files open, and hold enough numbers.
use osdesignasst.Prelude.{
  get_elem?, ℕ, zero, suc, ◌+◌, ◌*◌, ◌%◌, ◌/◌, ◌^◌, ◌≤◌, ◌<◌, ◌≡◌, refl, ap, ◌∙◌, List, [], ◌∷◌,
  ◌++◌, map, length, Returns, arith,
}
use osdesignasst.Code.Pthread.{ThreadInfo, Threads}
use osdesignasst.Benchmark.Worker.{Event, run, int_add}
use osdesignasst.Benchmark.Lock.{pending, total, sum_of}
use osdesignasst.Benchmark.Lock.Runs.{AllFit}
use osdesignasst.Benchmark.Start.{IsStart, system}
use osdesignasst.Benchmark.Start.Create.{IsFresh, main_start}
use osdesignasst.Benchmark.Start.Main.{main_run}
use osdesignasst.Benchmark.Shares.{shares, sum_up, partition_lem, length-shares_from}

abbrev pub record_num : ℕ
record_num = 10

-- `RECORD_SIZE / 16`
abbrev pub itr : ℕ
itr = 4194304 / 16

module _ (file : ℕ → ℕ → ℕ) where
  -- The two inner loops on record `k`, with the number that each `fscanf` puts at `mem[k * 4 + j]`: `n`
  -- rounds from `i` on, of four each.
  unfoldable pub read_loop : (k n i : ℕ) → List ℕ
  read_loop k zero i = []
  read_loop k (suc n) i =
      file k (i * 4 + 0)
      ∷ file k (i * 4 + 1)
      ∷ file k (i * 4 + 2)
      ∷ file k (i * 4 + 3)
      ∷ read_loop k n (i + 1)

  -- The loop over the records of a worker.
  unfoldable pub read_records : (rounds : ℕ) → List ℕ → List ℕ
  unfolding read_loop
  read_records rounds [] = []
  read_records rounds (k ∷ ks) = read_loop k rounds 0 ++ read_records rounds ks

  abbrev pub external_calculate : (thread_num rounds : ℕ) → List (List ℕ)
  external_calculate thread_num rounds = map (read_records rounds) (shares thread_num record_num)

  -- The same loops in `verify`.
  unfoldable pub verify_loop : (k n i sum : ℕ) → ℕ
  verify_loop k zero i sum = sum
  verify_loop k (suc n) i sum = verify_loop k n (i + 1) (
      int_add
        (int_add (int_add (int_add sum (file k (i * 4 + 0))) (file k (i * 4 + 1)))
          (file k (i * 4 + 2)))
        (file k (i * 4 + 3)))

  unfoldable pub verify_records : (rounds n k sum : ℕ) → ℕ
  unfolding verify_loop
  verify_records rounds zero k sum = sum
  verify_records rounds (suc n) k sum = verify_records rounds n (k + 1) (verify_loop k rounds 0 sum)

  unfoldable pub verify : (rounds : ℕ) → ℕ
  unfolding verify_records
  verify rounds = verify_records rounds record_num 0 0

  -- The sum of the numbers in record `k`.
  abbrev weight : (rounds : ℕ) → ℕ → ℕ
  weight rounds k = sum_of (read_loop k rounds 0)

  verify_loop-eq :
      (k n i sum : ℕ)
      → sum < 2 ^ 32
      → verify_loop k n i sum ≡ (sum + sum_of (read_loop k n i)) % 2 ^ 32
  unfolding verify_loop read_loop
  verify_loop-eq k zero i sum small = omega arith
  verify_loop-eq k (suc n) i sum small = verify_loop-eq k n (i + 1) _ (omega arith) ∙ omega arith

  verify_records-eq :
      (rounds n k sum : ℕ)
      → sum < 2 ^ 32
      → verify_records rounds n k sum ≡ (sum + sum_up (weight rounds) n k) % 2 ^ 32
  unfolding verify_records
  verify_records-eq rounds zero k sum small = omega arith
  verify_records-eq rounds (suc n) k sum small =
      let e = verify_loop-eq k rounds 0 sum small in
      verify_records-eq rounds n (k + 1) (verify_loop k rounds 0 sum) (omega arith) ∙ omega arith

  sum-append : (xs ys : List ℕ) → sum_of (xs ++ ys) ≡ sum_of xs + sum_of ys
  sum-append [] ys = omega arith
  sum-append (x ∷ xs) ys = omega (arith, sum-append xs ys)

  sum-read_records :
      (rounds : ℕ) (ks : List ℕ) → sum_of (read_records rounds ks) ≡ total (weight rounds) ks
  unfolding read_records
  sum-read_records rounds [] = refl
  sum-read_records rounds (k ∷ ks) = omega (
    arith,
    sum-append (read_loop k rounds 0) (read_records rounds ks),
    sum-read_records rounds ks,
  )

  sum-works :
      (rounds : ℕ) (kss : List (List ℕ))
      → total sum_of (map (read_records rounds) kss) ≡ total (total (weight rounds)) kss
  sum-works rounds [] = refl
  sum-works rounds (ks ∷ kss) = omega (arith, sum-read_records rounds ks, sum-works rounds kss)

  external-eq-verify :
      (thread_num rounds : ℕ)
      → 0 < thread_num
      → total sum_of (external_calculate thread_num rounds) % 2 ^ 32 ≡ verify rounds
  unfolding verify
  external-eq-verify thread_num rounds pos =
      let all =
        sum-works rounds (shares thread_num record_num)
        ∙ partition_lem thread_num record_num (weight rounds) pos in
      omega (arith, all, verify_records-eq rounds record_num 0 0)

  length-work :
      (rounds : ℕ) (kss : List (List ℕ)) → length (map (read_records rounds) kss) ≡ length kss
  length-work rounds [] = refl
  length-work rounds (ks ∷ kss) = ap suc (length-work rounds kss)

  pub external_calculate_lem :
      {Page : Type 0} (zeros : Page) (freed_tid : ℕ → ℕ) (thread_num : ℕ) (left : ThreadInfo)
      (u : Threads Page) (es : List Event)
      → IsFresh freed_tid u
      → 0 < thread_num
      → thread_num ≤ 30
      → AllFit 1 es
      → Returns (main_start thread_num left u) (λ r.
        IsStart r.0 freed_tid (external_calculate thread_num itr) r.1
        × Returns
            (run zeros freed_tid r.0 es (system (external_calculate thread_num itr) r.1))
            (λ after.
              (get_elem? after.lib.pool.heap 0 ≡ get_elem? r.1.pool.heap 0)
              × ((after.sum + total pending after.locals) % 2 ^ 32 ≡ verify itr)))
  external_calculate_lem zeros freed_tid thread_num left u es new pos few fits =
      let work = external_calculate thread_num itr in
      let (r, begins, (start, (after, goes, (kept, adds)))) =
        main_run zeros freed_tid thread_num left work u es new
          (length-work itr (shares thread_num record_num)
            ∙ length-shares_from thread_num record_num thread_num 0)
          pos few fits in
      (r, begins, (start, (after, goes, (kept, adds ∙ external-eq-verify thread_num itr pos))))
