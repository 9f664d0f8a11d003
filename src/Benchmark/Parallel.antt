-- ===== src/Benchmark/Parallel.antt =====
-- Benchmark/parallelCal.c: the rows, and the sums of their entries times the column, which the workers
-- compute each for its share before they add them up. `a j i` is the entry `a[j][i]`.
use osdesignasst.Prelude.{
  ℕ, zero, suc, ◌+◌, ◌*◌, ◌%◌, ◌^◌, ◌≤◌, ◌<◌, ◌≡◌, ◌≢◌, refl, sym, ap, ◌∙◌, subst, inl, inr, Bool,
  Option, none, some, List, [], ◌∷◌, map, ◌==◌, if◌then◌else◌, eq_or_ne, count, ones, Outcome, ok,
  fault, segv, ◌>>=◌, Returns, replicate, arith,
}
use osdesignasst.Malloc.{Metadata}
use osdesignasst.Code.Malloc.{Pool, my_malloc, malloc_on, malloc_page, ensure_init}
use osdesignasst.Benchmark.Worker.{int_add}
use osdesignasst.Benchmark.Lock.{total, sum_of}
use osdesignasst.Benchmark.Shares.{
  sum_up, shares, partition_lem, verify_from, shares-eq-verify_from,
}

abbrev pub c_size : ℕ
c_size = 100000

abbrev pub r_size : ℕ
r_size = 10000

-- Whether it is row `j`.
abbrev pub is_row : ℕ → ℕ → Bool
is_row j k = j == k

module _ (a : ℕ → ℕ → ℕ) where
  -- The loop over the columns, `n` of them from `i` on, with `pSum[j]` as it grows.
  unfoldable pub row_from : (j n i p : ℕ) → ℕ
  row_from j zero i p = p
  row_from j (suc n) i p = row_from j n (i + 1) (int_add p (a j i * i))

  -- What it leaves in `pSum`.
  unfoldable pub fill_row : (columns : ℕ) → (ℕ → ℕ) → (j : ℕ) → ℕ → ℕ
  unfolding row_from
  fill_row columns p_sum j k = if j == k then row_from j columns 0 (p_sum j) else p_sum k

  -- The bodies of the loop over the rows, in the order of the list.
  unfoldable pub fill_rows : (columns : ℕ) → List ℕ → (ℕ → ℕ) → ℕ → ℕ
  unfolding fill_row
  fill_rows columns [] p_sum = p_sum
  fill_rows columns (j ∷ js) p_sum = fill_rows columns js (fill_row columns p_sum j)

  fill_row-other :
      (columns : ℕ) (p_sum : ℕ → ℕ) (k j : ℕ) → k ≢ j → fill_row columns p_sum k j ≡ p_sum j
  unfolding fill_row
  fill_row-other columns p_sum k j ne = ground arith

  fill_row_self :
      (columns : ℕ) (p_sum : ℕ → ℕ) (k j : ℕ)
      → k ≡ j
      → fill_row columns p_sum k j ≡ row_from j columns 0 (p_sum j)
  unfolding fill_row
  fill_row_self columns p_sum k j same =
      subst (λ (i : ℕ). fill_row columns p_sum i j ≡ row_from j columns 0 (p_sum j)) (sym same)
        (grind arith)

  fill_rows-other :
      (columns : ℕ) (js : List ℕ) (p_sum : ℕ → ℕ) (j : ℕ)
      → count (is_row j) js ≡ 0
      → fill_rows columns js p_sum j ≡ p_sum j
  unfolding fill_rows
  fill_rows-other columns [] p_sum j e = refl
  fill_rows-other columns (k ∷ js) p_sum j e =
      fill_rows-other columns js (fill_row columns p_sum k) j (ground arith)
      ∙ fill_row-other columns p_sum k j (ground arith)

  -- A row that is filled once, by whichever thread and when, has its sum in `pSum`.
  fill_rows-once :
      (columns : ℕ) (js : List ℕ) (p_sum : ℕ → ℕ) (j : ℕ)
      → count (is_row j) js ≡ 1
      → fill_rows columns js p_sum j ≡ row_from j columns 0 (p_sum j)
  unfolding fill_rows fill_row
  fill_rows-once columns [] p_sum j e = cc
  fill_rows-once columns (k ∷ js) p_sum j e = elim (eq_or_ne k j) [
    | inl same ↦
        fill_rows-other columns js (fill_row columns p_sum k) j (ground arith)
        ∙ fill_row_self columns p_sum k j same
    | inr far ↦
        fill_rows-once columns js (fill_row columns p_sum k) j (ground arith)
        ∙ ap (row_from j columns 0) (ground arith)
  ]

-- The rows from `i` on, `n` of them.
abbrev pub rows_from : (n i : ℕ) → List ℕ
rows_from zero i = []
rows_from (suc n) i = i ∷ rows_from n (i + 1)

count-rows_before : (n i j : ℕ) → j < i → count (is_row j) (rows_from n i) ≡ 0
count-rows_before zero i j lt = refl
count-rows_before (suc n) i j lt = ground (arith, count-rows_before n (i + 1) j (omega arith))

count-rows_from : (n i j : ℕ) → i ≤ j → j < i + n → count (is_row j) (rows_from n i) ≡ 1
count-rows_from zero i j le lt = omega arith
count-rows_from (suc n) i j le lt = elim (eq_or_ne j i) [
  | inl same ↦ ground (arith, count-rows_before n (i + 1) j (omega arith))
  | inr far ↦ ground (arith, count-rows_from n (i + 1) j (omega arith) (omega arith))
]

verify_from-alike :
    (f g : ℕ → ℕ) (n i sum : ℕ)
    → ((j : ℕ) → i ≤ j → j < i + n → f j ≡ g j)
    → verify_from f n i sum ≡ verify_from g n i sum
unfolding verify_from
verify_from-alike f g zero i sum same = refl
verify_from-alike f g (suc n) i sum same =
    verify_from-alike f g n (i + 1) (int_add sum (f i))
      (λ j le lt. same j (omega arith) (omega arith))
    ∙ ap (λ (x : ℕ). verify_from g n (i + 1) (int_add sum x)) (same i (omega arith) (omega arith))

-- Each row is in the first loop of one worker.
sum_up-rows : (n i j : ℕ) → sum_up (ones (is_row j)) n i ≡ count (is_row j) (rows_from n i)
sum_up-rows zero i j = refl
sum_up-rows (suc n) i j = ap (λ (m : ℕ). ones (is_row j) i + m) (sum_up-rows n (i + 1) j)

total-ones : (p : ℕ → Bool) (xs : List ℕ) → count p xs ≡ total (ones p) xs
total-ones p [] = refl
total-ones p (x ∷ xs) = ap (λ (n : ℕ). ones p x + n) (total-ones p xs)

totals-ones :
    (p : ℕ → Bool) (xss : List (List ℕ)) → total (count p) xss ≡ total (total (ones p)) xss
totals-ones p [] = refl
totals-ones p (xs ∷ xss) = omega (arith, total-ones p xs, totals-ones p xss)

shares_once :
    (thread_num rows j : ℕ)
    → 0 < thread_num
    → j < rows
    → total (count (is_row j)) (shares thread_num rows) ≡ 1
shares_once thread_num rows j pos lt =
    totals-ones (is_row j) (shares thread_num rows)
    ∙ partition_lem thread_num rows (ones (is_row j)) pos
    ∙ sum_up-rows rows 0 j
    ∙ count-rows_from rows 0 j (omega arith) (omega arith)

module _ (a : ℕ → ℕ → ℕ) where
  -- What the workers add, with the `pSum` that their first loops leave: `js` are the rows of these loops, in
  -- the order in which they are filled.
  abbrev pub parallel_calculate : (thread_num columns rows : ℕ) → (js : List ℕ) → List (List ℕ)
  parallel_calculate thread_num columns rows js =
      map (map (fill_rows a columns js (λ j. 0))) (shares thread_num rows)

  unfoldable pub verify : (columns rows : ℕ) → ℕ
  unfolding fill_rows verify_from
  verify columns rows = verify_from (fill_rows a columns (rows_from rows 0) (λ j. 0)) rows 0 0

  -- With at least one thread: if the rows are filled in any order of those that the first loops of the
  -- workers go over, the numbers that the workers add in their second loops make what `verify` computes.
  pub parallel_calculate_lem :
      (thread_num columns rows : ℕ) (js : List ℕ)
      → 0 < thread_num
      → ((j : ℕ) → count (is_row j) js ≡ total (count (is_row j)) (shares thread_num rows))
      → total sum_of (parallel_calculate thread_num columns rows js) % 2 ^ 32 ≡ verify columns rows
  unfolding verify
  parallel_calculate_lem thread_num columns rows js pos order =
      let once : (j : ℕ) → j < rows → count (is_row j) js ≡ 1 =
        λ j lt. order j ∙ shares_once thread_num rows j pos lt in
      shares-eq-verify_from (fill_rows a columns js (λ j. 0)) thread_num rows pos
      ∙ verify_from-alike _ _ rows 0 0 (λ j le lt.
        fill_rows-once a columns js (λ j. 0) j (once j (omega arith))
        ∙ sym (
            fill_rows-once a columns (rows_from rows 0) (λ j. 0) j
              (count-rows_from rows 0 j le lt)))

-- `a[i] = (int*)malloc(C_SIZE*sizeof(int))`, and the next rows. The main thread is not yet known to the
-- library.
module _ {Page : Type 0} (zeros : Page) (mapped : Option ℕ) where
  unfoldable pub allocate_rows : (n : ℕ) → Pool Page → Outcome (List (Option ℕ) × Pool Page)
  unfolding my_malloc
  allocate_rows zero p = ok ([], p)
  allocate_rows (suc n) p = do
    r ← my_malloc zeros mapped (c_size * 4) none p
    rest ← allocate_rows n r.1
    ok (r.0 ∷ rest.0, rest.1)

  -- `a[i][j] = j` for all of them.
  abbrev pub write_rows : List (Option ℕ) → Outcome (Unit {0})
  write_rows [] = ok tt
  write_rows (none ∷ rows) = fault segv
  write_rows (some row ∷ rows) = write_rows rows

  unfoldable pub main_rows : Pool Page → Outcome (Unit {0})
  unfolding allocate_rows
  main_rows p = do r ← allocate_rows r_size p; write_rows r.0

  my_malloc-row :
      (p : Pool Page) → Returns (my_malloc zeros mapped (c_size * 4) none p) (λ r. r.0 ≡ none)
  unfolding my_malloc malloc_page
  my_malloc-row p = row_on (ensure_init zeros mapped p) _ _
    where
      row_on :
          (q : Pool Page) (pages : Option ℕ) (m : Option Metadata)
          → Returns (malloc_on (c_size * 4) 0 q pages m) (λ r. r.0 ≡ none)
      row_on q none m = ((none, q), refl, refl)
      row_on q (some pages) none = ((none, q), refl, refl)
      row_on q (some pages) (some m) = (_, refl, refl)

  allocate_rows-none :
      (n : ℕ) (p : Pool Page) → Returns (allocate_rows n p) (λ r. r.0 ≡ replicate n none)
  unfolding allocate_rows
  allocate_rows-none zero p = (([], p), refl, refl)
  allocate_rows-none (suc n) p =
      let (r, one, missing) = my_malloc-row p in
      let (rest, others, nones) = allocate_rows-none n r.1 in
      (
        (r.0 ∷ rest.0, rest.1),
        ap
              (λ m. m >>= λ (q : Option ℕ × Pool Page).
                allocate_rows n q.1 >>= λ (w : List (Option ℕ) × Pool Page). ok (q.0 ∷ w.0, w.1))
              one
            ∙ ap (λ m. m >>= λ (w : List (Option ℕ) × Pool Page). ok (r.0 ∷ w.0, w.1)) others,
        rw (missing, nones) refl,
      )

  pub main_rows-segv : (p : Pool Page) → main_rows p ≡ fault segv
  unfolding main_rows
  main_rows-segv p =
      let (r, runs, nones) = allocate_rows-none r_size p in
      let some_row : r_size ≡ suc 9999 = omega arith in
      ap (λ m. m >>= λ (q : List (Option ℕ) × Pool Page). write_rows q.0) runs
      ∙ ap write_rows nones
      ∙ ap (λ (n : ℕ). write_rows (replicate n none)) some_row
