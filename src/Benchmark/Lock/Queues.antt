-- ===== src/Benchmark/Lock/Queues.antt =====
-- What the calls of code/my_pthread.c do to the queues.
use osdesignasst.Prelude.{
  ℕ, zero, suc, ◌+◌, ◌<◌, ◌≡◌, refl, inl, inr, Bool, Option, none, some, List, [], ◌∷◌, ◌==◌, count,
  count-append, ones, get_elem?, set, Bool-cases, arith,
}
use osdesignasst.Code.Pthread.{
  ThreadInfo, Threads, write, take_waiting, insert_tail, schedule_from, schedule,
}
use osdesignasst.Code.Pthread.Conserve.{is_it, running}
use osdesignasst.Benchmark.Lock.{near, waiting, total}

abbrev pub ones_of {ℓ} : {A : Type ℓ} → (A → Bool) → Option A → ℕ
ones_of p none = 0
ones_of p (some a) = ones p a

module _ (info : ℕ → ThreadInfo) (mu : ℕ) where
  -- The loop takes one thread out, if it finds one.
  pub count-take_waiting :
      (p : ℕ → Bool) (ws : List ℕ)
      → count p (take_waiting info mu ws).0 + ones_of p (take_waiting info mu ws).1 ≡ count p ws
  unfolding take_waiting
  count-take_waiting p [] = refl
  count-take_waiting p (w ∷ ws) = ground (arith, count-take_waiting p ws)

  pub take_waiting-some :
      (ws : List ℕ) {w : ℕ} → (take_waiting info mu ws).1 ≡ some w → (info w).mu ≡ mu
  unfolding take_waiting
  take_waiting-some [] h = cc
  take_waiting-some (x ∷ ws) h = elim (Bool-cases (mu == (info x).mu)) [
    | inl hit ↦ ground arith
    | inr miss ↦ take_waiting-some ws (ground arith)
  ]

  pub take_waiting-found :
      (ws : List ℕ) → 0 < waiting mu info ws → (w : ℕ) × ((take_waiting info mu ws).1 ≡ some w)
  unfolding take_waiting
  take_waiting-found [] h = absurd (omega arith)
  take_waiting-found (x ∷ ws) h = elim (Bool-cases (mu == (info x).mu)) [
    | inl hit ↦ (x, ground arith)
    | inr miss ↦ let (w, e) = take_waiting-found ws (ground arith) in (w, ground arith)
  ]

  -- A queue without `c` does not see what is written to `c`.
  pub waiting-write :
      (c : ℕ) (v : ThreadInfo) (ws : List ℕ)
      → count (is_it c) ws ≡ 0
      → waiting mu (write info c v) ws ≡ waiting mu info ws
  waiting-write c v [] h = refl
  waiting-write c v (w ∷ ws) h = ground (arith, waiting-write c v ws)

  -- A thread that waits is counted.
  pub waiting-pos :
      (t : ℕ) (ws : List ℕ) → 0 < count (is_it t) ws → (info t).mu ≡ mu → 0 < waiting mu info ws
  waiting-pos t [] h e = absurd (omega arith)
  waiting-pos t (w ∷ ws) h e = elim (Bool-cases (t == w)) [
    | inl hit ↦ ground arith
    | inr miss ↦ ground (arith, waiting-pos t ws)
  ]

pub count-insert_tail :
    (p : ℕ → Bool) (q : List ℕ) (o : Option ℕ) → count p (insert_tail q o) ≡ count p q + ones_of p o
count-insert_tail p q none = omega arith
count-insert_tail p q (some x) = omega (arith, count-append p q (x ∷ []))

-- The states differ in who runs and who is ready only, and each thread is there as often.
pub record Turned {Page : Type 0} (u u' : Threads Page) : Type 0 where
  pub wait : u'.wait ≡ u.wait
  pub info : u'.info ≡ u.info
  pub mutexes : u'.mutexes ≡ u.mutexes
  pub pool : u'.pool ≡ u.pool
  pub near_eq : (t : ℕ) → near t u' ≡ near t u

module _ {Page : Type 0} where
  schedule_from-Turned :
      (q : List ℕ) (c : Option ℕ) (u : Threads Page)
      → ((t : ℕ) → running t c + count (is_it t) q ≡ near t u)
      → Turned u (schedule_from q c u)
  schedule_from-Turned [] c u h = record {
    wait = refl;
    info = refl;
    mutexes = refl;
    pool = refl;
    near_eq = λ t. refl;
  }
  schedule_from-Turned (x ∷ rest) none u h = record {
    wait = refl;
    info = refl;
    mutexes = refl;
    pool = refl;
    near_eq = λ t. omega (arith, h t);
  }
  schedule_from-Turned (x ∷ rest) (some tmp) u h = record {
    wait = refl;
    info = refl;
    mutexes = refl;
    pool = refl;
    near_eq = λ t. omega (arith, h t, count-append (is_it t) rest (tmp ∷ []));
  }

  pub schedule-Turned : (u : Threads Page) → Turned u (schedule u)
  unfolding schedule
  schedule-Turned u = schedule_from-Turned u.ready u.current u (λ t. refl)

module _ {ℓ} {A : Type ℓ} (w : A → ℕ) where
  pub total-set :
      (xs : List A) (i : ℕ) {a : A} (v : A)
      → get_elem? xs i ≡ some a
      → total w (set xs i v) + w a ≡ total w xs + w v
  total-set [] i v h = cc
  total-set (x ∷ xs) zero {a} v h = ground arith
  total-set (x ∷ xs) (suc i) {a} v h = omega (arith, total-set xs i v h)
