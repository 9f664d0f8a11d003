-- ===== src/Benchmark/Lock.antt =====
-- Benchmark/*.c: who holds the mutex, and what is left to add. The invariant of every run.
pub mod Queues
pub mod Quiet
pub mod Join
pub mod End
pub mod Enter
pub mod Owner
pub mod Leave
pub mod Runs
use osdesignasst.Prelude.{
  ℕ, ◌+◌, ◌%◌, ◌^◌, ◌≤◌, ◌<◌, ◌≡◌, ◌≢◌, Bool, true, false, Option, none, some, List, [], ◌∷◌, ◌==◌,
  get_elem?, length, count,
}
use osdesignasst.Pthread.State.{Mutex, max_mutex_num}
use osdesignasst.Code.Malloc.{Pool}
use osdesignasst.Code.Pthread.{ThreadInfo, Threads}
use osdesignasst.Code.Pthread.Conserve.{is_it, running, places}
use osdesignasst.Benchmark.Worker.{Phase, before, entered, loaded, stored, Local, System}

-- The sum of what `w` makes of the entries.
abbrev pub total {ℓ} : {A : Type ℓ} → (A → ℕ) → List A → ℕ
total w [] = 0
total w (x ∷ xs) = w x + total w xs

abbrev pub sum_of : List ℕ → ℕ
sum_of = total (λ (x : ℕ). x)

-- What a worker has still to add: behind the store the number of this round is in the global.
abbrev pub rest_of : Phase → List ℕ → ℕ
rest_of stored [] = 0
rest_of stored (x ∷ xs) = sum_of xs
rest_of _ left = sum_of left

abbrev pub pending : Local → ℕ
pending l = rest_of l.phase l.left

abbrev pub is_within : Phase → Bool
is_within before = false
is_within _ = true

-- Between the call of lock and that of unlock.
abbrev pub is_inside : Local → Bool
is_inside l = is_within l.phase

-- How often the thread runs or is ready.
abbrev pub near : {Page : Type 0} → ℕ → Threads Page → ℕ
near t u = running t u.current + count (is_it t) u.ready

-- The pages that `reclaim_current_heap` clears at the ends of the threads: `freed_tid t` is the id that is
-- read from the freed memory of thread `t`. It is not 0, the id of the page in which `main` has put the
-- number of each worker.
pub record HasPage {Page : Type 0} (freed_tid : ℕ → ℕ) (p : Pool Page) : Type 0 where
  pub address : ℕ
  pub mapped : p.pages ≡ some address
  pub metadata : (t : ℕ) → freed_tid t < length p.metadata
  pub heap : (t : ℕ) → freed_tid t < length p.heap
  pub apart : (t : ℕ) → freed_tid t ≢ 0

abbrev pub holders : Option ℕ → ℕ
holders none = 0
holders (some h) = 1

module _ (mutex : ℕ) where
  abbrev pub waiting : (ℕ → ThreadInfo) → List ℕ → ℕ
  waiting info ws = count (λ t. mutex == (info t).mu) ws

  abbrev pub WaitsFor : {Page : Type 0} → Threads Page → ℕ → Type 0
  WaitsFor u t = (0 < count (is_it t) u.wait) × ((u.info t).mu ≡ mutex)

  -- The owner is not in the wait queue, and in one other place.
  abbrev pub Place : {Page : Type 0} → Threads Page → Option ℕ → Type 0
  Place u none = waiting u.info u.wait ≡ 0
  Place u (some h) = (count (is_it h) u.wait ≡ 0) × (near h u ≡ 1)

  -- The owner is between the two calls; a value that it has loaded is still that of the global.
  abbrev pub Inside : (sum : ℕ) → Phase → List ℕ → Type 0
  Inside sum before left = ⊥
  Inside sum entered [] = ⊥
  Inside sum entered (x ∷ xs) = Unit {0}
  Inside sum (loaded v) [] = ⊥
  Inside sum (loaded v) (x ∷ xs) = v ≡ sum
  Inside sum stored [] = ⊥
  Inside sum stored (x ∷ xs) = Unit {0}

  -- Another worker is outside, or it has called lock and waits.
  abbrev pub Outside : {Page : Type 0} → Threads Page → ℕ → Phase → Type 0
  Outside u t before = Unit {0}
  Outside u t entered = WaitsFor u t
  Outside u t (loaded v) = ⊥
  Outside u t stored = ⊥

  -- The state `s` with `owner` as the holder of the mutex, if there is one.
  pub record Inv {Page : Type 0} (freed_tid : ℕ → ℕ) (all : ℕ) (owner : Option ℕ) (s : System Page)
      : Type 0 where
    pub in_table : mutex < max_mutex_num
    pub few : length s.locals + 1 < 2 ^ 32
    pub size : length s.lib.mutexes ≡ max_mutex_num
    pub page : HasPage freed_tid s.lib.pool
    pub once : (t : ℕ) → places t s.lib.current s.lib.ready s.lib.wait ≤ 1
    pub entry :
        get_elem? s.lib.mutexes mutex
        ≡ some (record { used = true; count = count is_inside s.locals })
    pub counted : count is_inside s.locals ≡ holders owner + waiting s.lib.info s.lib.wait
    pub place : Place s.lib owner
    pub tids :
        (t : ℕ) (l : Local)
        → get_elem? s.locals t ≡ some l
        → ((s.lib.info t).tid ≢ mutex) × ((s.lib.info t).tid < max_mutex_num)
    pub waiters :
        (t : ℕ)
        → WaitsFor s.lib t
        → (x : ℕ) × (xs : List ℕ) × (get_elem? s.locals t
            ≡ some (record { phase = entered; left = x ∷ xs }))
    pub outside :
        (t : ℕ) (l : Local)
        → get_elem? s.locals t ≡ some l
        → owner ≢ some t
        → Outside s.lib t l.phase
    pub inside :
        (h : ℕ)
        → owner ≡ some h
        → (l : Local) × (get_elem? s.locals h ≡ some l) × Inside s.sum l.phase l.left
    pub word : s.sum < 2 ^ 32
    pub adds : (s.sum + total pending s.locals) % 2 ^ 32 ≡ all % 2 ^ 32
