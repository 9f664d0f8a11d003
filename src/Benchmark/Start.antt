-- ===== src/Benchmark/Start.antt =====
-- Benchmark/*.c: the state in which `main` has created the workers and waits for none of them yet, and
-- what holds at the end of every run from there.
pub mod Table
pub mod Create
pub mod Full
pub mod Main
use mathlib.Core.Option.{some-injective}
use osdesignasst.Prelude.{
  ℕ, ◌+◌, ◌%◌, ◌^◌, ◌≤◌, ◌<◌, ◌≡◌, ◌≢◌, ◌⊎◌, refl, sym, ap, ◌∙◌, subst, inl, inr, eq_or_ne, true,
  false, Option, none, some, List, [], ◌∷◌, Bool-cases, ◌==◌, get_elem?, get_elem?-lt, length,
  count, zero, suc, Outcome, ok, Returns, arith,
}
use osdesignasst.Pthread.State.{max_mutex_num}
use osdesignasst.Code.Pthread.{Threads}
use osdesignasst.Code.Pthread.Conserve.{is_it, places}
use osdesignasst.Benchmark.Start.Table.{up_to}
use osdesignasst.Benchmark.Worker.{
  Phase, before, entered, loaded, stored, Local, System, Event, run,
}
use osdesignasst.Benchmark.Lock.{
  HasPage, WaitsFor, Outside, Inside, Inv, is_inside, is_within, pending, total, sum_of,
}
use osdesignasst.Benchmark.Lock.Runs.{AllFit, GoesOn, run-Inv}

-- The workers with the numbers that each is to add.
abbrev pub fresh : List (List ℕ) → List Local
fresh [] = []
fresh (xs ∷ shares) = record { phase = before; left = xs } ∷ fresh shares

fresh-before :
    (shares : List (List ℕ)) (t : ℕ) (l : Local)
    → get_elem? (fresh shares) t ≡ some l
    → l.phase ≡ before
fresh-before [] t l at = cc
fresh-before (xs ∷ shares) zero l at = cc
fresh-before (xs ∷ shares) (suc t) l at = fresh-before shares t l at

length-fresh : (shares : List (List ℕ)) → length (fresh shares) ≡ length shares
length-fresh [] = refl
length-fresh (xs ∷ shares) = ap suc (length-fresh shares)

nobody_inside : (shares : List (List ℕ)) → count is_inside (fresh shares) ≡ 0
nobody_inside [] = refl
nobody_inside (xs ∷ shares) = omega (arith, nobody_inside shares)

total-pending-fresh : (shares : List (List ℕ)) → total pending (fresh shares) ≡ total sum_of shares
total-pending-fresh [] = refl
total-pending-fresh (xs ∷ shares) = ap (λ (n : ℕ). sum_of xs + n) (total-pending-fresh shares)

-- No worker has run yet: the main thread runs, all workers are ready, in order, nobody waits, the mutex is
-- free, each thread is in one place, each worker has an id of the table of its own that is not the mutex, and
-- the pages that the ends of the threads clear are in the pool, and not that of id 0.
pub record IsStart {Page : Type 0} (mutex : ℕ) (freed_tid : ℕ → ℕ) (shares : List (List ℕ))
    (u : Threads Page) : Type 0 where
  pub in_table : mutex < max_mutex_num
  pub few : length shares + 1 < 2 ^ 32
  pub size : length u.mutexes ≡ max_mutex_num
  pub page : HasPage freed_tid u.pool
  pub once : (t : ℕ) → places t u.current u.ready u.wait ≤ 1
  pub entry : get_elem? u.mutexes mutex ≡ some (record { used = true; count = 0 })
  pub running : u.current ≡ some (length shares)
  pub ready : u.ready ≡ up_to (length shares)
  pub nobody : u.wait ≡ []
  pub own :
      (t k : ℕ) → t < length shares → k < length shares → (u.info t).tid ≡ (u.info k).tid → t ≡ k
  pub tids :
      (t : ℕ) → t < length shares → ((u.info t).tid ≢ mutex) × ((u.info t).tid < max_mutex_num)

-- The system at the start.
abbrev pub system : {Page : Type 0} → (shares : List (List ℕ)) → Threads Page → System Page
system shares u = record { lib = u; locals = fresh shares; sum = 0 }

-- A worker has added its numbers and left the mutex.
abbrev pub IsDone : Local → Type 0
IsDone l = l ≡ record { phase = before; left = [] }

abbrev pub AllDone : List Local → Type 0
AllDone ls = (t : ℕ) (l : Local) → get_elem? ls t ≡ some l → IsDone l

nothing_pending : (ls : List Local) → AllDone ls → total pending ls ≡ 0
nothing_pending [] done = refl
nothing_pending (l ∷ ls) done =
    omega (arith, ap pending (done 0 l refl), nothing_pending ls (λ t k at. done (suc t) k at))

-- A worker that is not the owner waits, if it is between its calls.
within-Outside :
    {Page : Type 0} (mutex : ℕ) (u : Threads Page) (t : ℕ) (p : Phase)
    → is_within p ≡ true
    → Outside mutex u t p
    → WaitsFor mutex u t
within-Outside mutex u t before i q = absurd (cc)
within-Outside mutex u t entered i q = q
within-Outside mutex u t (loaded v) i q = absurd q
within-Outside mutex u t stored i q = absurd q

module _ {Page : Type 0} (mutex : ℕ) (freed_tid : ℕ → ℕ) (all : ℕ) (s : System Page) where
  owner_or_waits :
      (o : Option ℕ) (t : ℕ) (l : Local)
      → Inv mutex freed_tid all o s
      → get_elem? s.locals t ≡ some l
      → is_inside l ≡ true
      → (o ≡ some t) ⊎ WaitsFor mutex s.lib t
  owner_or_waits none t l v at i =
      inr (within-Outside mutex s.lib t l.phase i (v.outside t l at (λ e. cc)))
  owner_or_waits (some h) t l v at i = elim (eq_or_ne h t) [
    | inl same ↦ inl (ap some same)
    | inr far ↦ inr (
        within-Outside mutex s.lib t l.phase i (v.outside t l at (λ e. far (some-injective h t e))))
  ]

  exclusive :
      {o : Option ℕ} (t k : ℕ) (l m : Local)
      → Inv mutex freed_tid all o s
      → get_elem? s.locals t ≡ some l
      → get_elem? s.locals k ≡ some m
      → is_inside l ≡ true
      → is_inside m ≡ true
      → (t ≡ k) ⊎ (WaitsFor mutex s.lib t ⊎ WaitsFor mutex s.lib k)
  exclusive {o} t k l m v at at' i i' = elim (owner_or_waits o t l v at i) [
    | inr waits ↦ inr (inl waits)
    | inl owns ↦ elim (owner_or_waits o k m v at' i') [
      | inr waits ↦ inr (inr waits)
      | inl owns' ↦ inl (some-injective t k (sym owns ∙ owns'))
    ]
  ]

module _ {Page : Type 0} (zeros : Page) (mutex : ℕ) (freed_tid : ℕ → ℕ)
    (shares : List (List ℕ)) where
  nobody_waits :
      (u : Threads Page) (t : ℕ) → IsStart mutex freed_tid shares u → WaitsFor mutex u t → ⊥
  nobody_waits u t v w = let e = ap (count (is_it t)) v.nobody in let l = w.0 in omega arith

  start-Inv :
      (u : Threads Page)
      → IsStart mutex freed_tid shares u
      → Inv mutex freed_tid (total sum_of shares) none (system shares u)
  start-Inv u v = record {
    in_table = v.in_table;
    few = omega (arith, v.few, length-fresh shares);
    size = v.size;
    page = v.page;
    once = v.once;
    entry =
        v.entry
        ∙ ap (λ (n : ℕ). some (record { used = true; count = n })) (sym (nobody_inside shares));
    counted =
        omega (arith, nobody_inside shares, ap (count (λ t. mutex == (u.info t).mu)) v.nobody);
    place = ap (count (λ t. mutex == (u.info t).mu)) v.nobody;
    tids =
        λ t l at. v.tids t (omega (arith, get_elem?-lt (fresh shares) t at, length-fresh shares));
    waiters = λ t w. absurd (nobody_waits u t v w);
    outside = λ t l at ne. subst (Outside mutex u t) (sym (fresh-before shares t l at)) tt;
    inside = λ h e. cc;
    word = omega arith;
    adds = ap (λ (n : ℕ). n % 2 ^ 32) (omega (arith, total-pending-fresh shares));
  }

  -- The state behind the run of any events.
  pub goes_on :
      (u : Threads Page) (es : List Event)
      → IsStart mutex freed_tid shares u
      → AllFit mutex es
      → GoesOn zeros mutex freed_tid
          (total sum_of shares)
          (run zeros freed_tid mutex es (system shares u))
  goes_on u es v fits =
      run-Inv zeros mutex freed_tid (total sum_of shares) es (system shares u) fits (start-Inv u v)

  -- From a start, with ticks between the steps, none inside a call, and whatever ids other than the mutex the main thread
  -- joins, the
  -- run goes on, and the global and what the workers have still to add make the sum of all numbers.
  pub run_lem :
      (u : Threads Page) (es : List Event)
      → IsStart mutex freed_tid shares u
      → AllFit mutex es
      → Returns
          (run zeros freed_tid mutex es (system shares u))
          (λ s. (s.sum + total pending s.locals) % 2 ^ 32 ≡ total sum_of shares % 2 ^ 32)
  run_lem u es v fits = let (s, runs, (q, w)) = goes_on u es v fits in (s, runs, w.adds)

  -- In a state that a run from a start gets to, with ticks between the steps and none inside a call, whatever
  -- ids other than the mutex the main thread joins, and if the ends of the threads clear pages of the pool of
  -- other ids than 0: if two workers are both behind their lock and before their
  -- unlock, they are the same, or one of them still waits in the lock.
  pub run_exclusive :
      (u : Threads Page) (es : List Event) (s : System Page) (t k : ℕ) (l m : Local)
      → IsStart mutex freed_tid shares u
      → AllFit mutex es
      → run zeros freed_tid mutex es (system shares u) ≡ ok s
      → get_elem? s.locals t ≡ some l
      → get_elem? s.locals k ≡ some m
      → is_inside l ≡ true
      → is_inside m ≡ true
      → (t ≡ k) ⊎ (WaitsFor mutex s.lib t ⊎ WaitsFor mutex s.lib k)
  run_exclusive u es s t k l m v fits gets at at' i i' =
      let (s', runs, (q, w)) = goes_on u es v fits in
      let same : s' ≡ s = cc in
      exclusive mutex freed_tid (total sum_of shares) s t k l m
        (subst (Inv mutex freed_tid (total sum_of shares) q) same w) at at' i i'

  -- In a state that a run from a start gets to, with ticks between the steps and none inside a call, and if the
  -- ends of the threads clear pages of the pool of other ids than 0: if all workers are done, the global is the sum of all
  -- numbers, as an `int` has it.
  pub run_done :
      (u : Threads Page) (es : List Event) (s : System Page)
      → IsStart mutex freed_tid shares u
      → AllFit mutex es
      → run zeros freed_tid mutex es (system shares u) ≡ ok s
      → AllDone s.locals
      → s.sum ≡ total sum_of shares % 2 ^ 32
  run_done u es s v fits gets done =
      let (s', runs, (q, w)) = goes_on u es v fits in
      let same : s' ≡ s = cc in
      let w' = subst (Inv mutex freed_tid (total sum_of shares) q) same w in
      omega (arith, w'.word, w'.adds, nothing_pending s.locals done)
