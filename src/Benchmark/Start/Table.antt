-- ===== src/Benchmark/Start/Table.antt =====
-- Benchmark/*.c: the table of mutexes, and the ready queue, while `main` creates the workers.
use osdesignasst.Prelude.{
  ℕ, zero, suc, ◌+◌, ◌≤◌, ◌≡◌, refl, ap, true, false, none, some, List, [], ◌∷◌, ◌++◌, eq_or_ne,
  inl, inr, replicate, set, count, count-append, arith,
}
use osdesignasst.Pthread.State.{Mutex}
use osdesignasst.Code.Pthread.Mutexes.{behind_main, alloc_from, alloc_mutex}
use osdesignasst.Code.Pthread.Conserve.{is_it}

abbrev pub unused : Mutex
unused = record { used = false; count = 0 }

abbrev pub held : Mutex
held = record { used = true; count = 1 }

-- The table with the mutex at 1 and the ids of `k` threads behind it.
abbrev pub table : (k m : ℕ) → List Mutex
table k m = unused ∷ record { used = true; count = 0 } ∷ (replicate k held ++ replicate m unused)

-- The next free entry.
alloc_from-held :
    (i k m : ℕ)
    → alloc_from i (replicate k held ++ replicate (suc m) unused)
      ≡ (some (i + k), replicate k held ++ record { used = true; count = 0 } ∷ replicate m unused)
unfolding alloc_from
alloc_from-held i zero m =
    ap (λ (n : ℕ). (some n, record { used = true; count = 0 } ∷ replicate m unused)) (omega arith)
alloc_from-held i (suc k) m = rw (alloc_from-held (i + 1) k m) (
    ap
      (λ (n : ℕ). (
        some n,
        held ∷ (replicate k held ++ record { used = true; count = 0 } ∷ replicate m unused),
      ))
      (omega arith))

pub set-held :
    (k m : ℕ)
    → set (replicate k held ++ record { used = true; count = 0 } ∷ replicate m unused) k held
      ≡ replicate (suc k) held ++ replicate m unused
set-held zero m = refl
set-held (suc k) m = ap (λ t. held ∷ t) (set-held k m)

-- The table in which the next entry is taken.
abbrev pub allocated : (k m : ℕ) → List Mutex
allocated k m =
    unused
    ∷ record { used = true; count = 0 }
    ∷ (replicate k held ++ record { used = true; count = 0 } ∷ replicate m unused)

pub alloc_mutex-table : (k m : ℕ) → alloc_mutex (table k (suc m)) ≡ (some (2 + k), allocated k m)
unfolding alloc_mutex alloc_from
alloc_mutex-table k m =
    ap (λ r. behind_main unused (r.0, record { used = true; count = 0 } ∷ r.1))
      (alloc_from-held 2 k m)

-- The workers from 0 on, `k` of them.
abbrev pub up_to : ℕ → List ℕ
up_to zero = []
up_to (suc k) = up_to k ++ k ∷ []

pub none_above : (t k : ℕ) → k ≤ t → count (is_it t) (up_to k) ≡ 0
none_above t zero le = refl
none_above t (suc k) le =
    let a = count-append (is_it t) (up_to k) (k ∷ []) in ground (arith, none_above t k)

pub count-up_to : (t k : ℕ) → count (is_it t) (up_to k) ≤ 1
count-up_to t zero = omega arith
count-up_to t (suc k) =
    let a = count-append (is_it t) (up_to k) (k ∷ []) in
    elim (eq_or_ne t k) [
      | inl same ↦ ground (arith, none_above t k)
      | inr far ↦ ground (arith, count-up_to t k)
    ]

alloc_from-none : (i k : ℕ) → (alloc_from i (replicate k held ++ [])).0 ≡ none
unfolding alloc_from
alloc_from-none i zero = refl
alloc_from-none i (suc k) = alloc_from-none (i + 1) k

-- Without a free entry there is no id.
pub alloc_mutex-none : (k : ℕ) → (alloc_mutex (table k 0)).0 ≡ none
unfolding alloc_mutex alloc_from
alloc_mutex-none k = alloc_from-none 2 k
