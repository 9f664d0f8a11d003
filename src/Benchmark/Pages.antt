-- ===== src/Benchmark/Pages.antt =====
-- Benchmark/*.c: the page of id 0, in which `main` has put the number of each worker, over a run.
use osdesignasst.Prelude.{
  IfOk, bind-IfOk, ℕ, ◌≡◌, ◌≢◌, ◌∙◌, inl, inr, not, ◌&&◌, length, Option, none, some, List, [], ◌∷◌,
  ◌==◌, leb, ltb, Outcome, ok, fault, ◌>>=◌, get_elem?, get_elem?-set_ne, set, Bool-cases,
}
use osdesignasst.Code.Malloc.{Pool, reclaim_current_heap, reclaim_on}
use osdesignasst.Pthread.State.{Mutex, Status, success, max_mutex_num}
use osdesignasst.Code.Pthread.{
  Threads, take_waiting, with_taken, release_thread, release_all_thread, wait_from, schedule,
  schedule_swap_current_to_wait, timer_handler,
}
use osdesignasst.Code.Pthread.Mutexes
use osdesignasst.Code.Pthread.Mutexes.{my_pthread_mutex_lock, my_pthread_mutex_unlock}
use osdesignasst.Code.Pthread.Life as Life
use osdesignasst.Code.Pthread.Life.{my_pthread_join, exit_current}
use osdesignasst.Benchmark.Worker.{
  before, entered, loaded, stored, Phase, Local, System, Event, tick, go, main_join, step, run,
  work, go_on, go_current, join_unless, join_current,
}
use osdesignasst.Benchmark.Lock.Queues.{schedule-Turned}

module _ {Page : Type 0} (x : Option Page) where
  abbrev pub Keeps : Threads Page → Type 0
  Keeps u = get_elem? u.pool.heap 0 ≡ x

  abbrev Answers : Option Status × Threads Page → Type 0
  Answers r = Keeps r.1

  wait_from-Keeps :
      (q : List ℕ) (o : Option ℕ) (u : Threads Page) → Keeps u → IfOk (wait_from q o u) Keeps
  wait_from-Keeps [] o u v = v
  wait_from-Keeps (y ∷ rest) none u v = tt
  wait_from-Keeps (y ∷ rest) (some tmp) u v = v

  wait_for-Keeps :
      (mu : ℕ) (o : Option ℕ) (u : Threads Page) → Keeps u → IfOk (Mutexes.wait_for mu o u) Keeps
  unfolding schedule_swap_current_to_wait
  wait_for-Keeps mu none u v = tt
  wait_for-Keeps mu (some t) u v = wait_from-Keeps u.ready u.current _ v

  take_or_wait-Keeps :
      (free waited : Option Status) (mu : ℕ) (m : Mutex) (u : Threads Page)
      → Keeps u
      → IfOk (Mutexes.take_or_wait free waited mu m u) Answers
  unfolding Mutexes.take_or_wait
  take_or_wait-Keeps free waited mu m u v = elim (Bool-cases (0 == m.count)) [
    | inl e ↦ rw e v
    | inr e ↦
        rw e
          (bind-IfOk Answers _ (λ u₁. ok (waited, u₁)) (wait_for-Keeps mu u.current _ v) (λ a k. k))
  ]

  guarded-Keeps :
      (mu : ℕ) (m : Mutex) (u : Threads Page) (body : Outcome (Option Status × Threads Page))
      → Keeps u
      → IfOk body Answers
      → IfOk (Mutexes.guarded mu u m body) Answers
  guarded-Keeps mu m u body v k = elim (Bool-cases (not m.used)) [
    | inl e ↦ rw e v
    | inr e ↦ elim (Bool-cases (leb max_mutex_num mu)) [ inl f ↦ rw (e, f) v | inr f ↦ rw (e, f) k ]
  ]

  lock_at-Keeps :
      (mu : ℕ) (u : Threads Page) (o : Option Mutex)
      → Keeps u
      → IfOk (Mutexes.lock_at mu u o) Answers
  lock_at-Keeps mu u none v = tt
  lock_at-Keeps mu u (some m) v =
      guarded-Keeps mu m u _ v (take_or_wait-Keeps (some success) none mu m u v)

  join_at-Keeps :
      (mu : ℕ) (u : Threads Page) (o : Option Mutex) → Keeps u → IfOk (Life.join_at mu u o) Answers
  join_at-Keeps mu u none v = tt
  join_at-Keeps mu u (some m) v =
      guarded-Keeps mu m u _ v (take_or_wait-Keeps (some success) (some success) mu m u v)

  unlock_at-Keeps :
      (mu : ℕ) (u : Threads Page) (o : Option Mutex)
      → Keeps u
      → IfOk (Mutexes.unlock_at mu u o) Answers
  unfolding release_thread
  unlock_at-Keeps mu u none v = tt
  unlock_at-Keeps mu u (some m) v = guarded-Keeps mu m u _ v (elim (Bool-cases (0 == m.count)) [
    | inl free ↦ rw free v
    | inr held ↦ elim (Bool-cases (1 == m.count)) [
      | inl one ↦ rw (held, one) v
      | inr more ↦ rw (held, more) v
    ]
  ])

  schedule-Keeps : (u : Threads Page) → Keeps u → Keeps (schedule u)
  schedule-Keeps u v = let r = schedule-Turned u in rw r.pool v

  -- The page of another id is cleared.
  reclaim_on-Keeps :
      (zeros : Page) (id : ℕ) (p : Pool Page) (o : Option ℕ)
      → id ≢ 0
      → get_elem? p.heap 0 ≡ x
      → IfOk (reclaim_on zeros id p o) (λ q. get_elem? q.heap 0 ≡ x)
  reclaim_on-Keeps zeros id p none ne v = tt
  reclaim_on-Keeps zeros id p (some pages) ne v =
      elim (Bool-cases (ltb id (length p.metadata) && ltb id (length p.heap))) [
        | inl e ↦ rw e (get_elem?-set_ne p.heap zeros ne ∙ v)
        | inr e ↦ rw e tt
      ]

  exit_current-Keeps :
      (zeros : Page) (id c : ℕ) (u : Threads Page)
      → id ≢ 0
      → Keeps u
      → IfOk (exit_current zeros id (some c) u) Keeps
  unfolding release_all_thread Mutexes.free_mutex reclaim_current_heap
  exit_current-Keeps zeros id c u ne v =
      bind-IfOk Keeps _ _ (free_at-Keeps (get_elem? u.mutexes (u.info c).tid)) (λ u₁ w.
        bind-IfOk Keeps (reclaim_on zeros id u₁.pool u₁.pool.pages) _
          (reclaim_on-Keeps zeros id u₁.pool u₁.pool.pages ne w)
          (λ pool k. schedule-Keeps (record u₁ { current = none; pool = pool }) k))
    where
      free_at-Keeps :
          (m : Option Mutex)
          → IfOk
              (Mutexes.free_at
                (u.info c).tid
                (with_taken u (take_waiting u.info (u.info c).tid u.wait))
                m)
              Keeps
      free_at-Keeps none = tt
      free_at-Keeps (some m) = v

module _ {Page : Type 0} (zeros : Page) (mutex : ℕ) (freed_tid : ℕ → ℕ) (x : Option Page)
    (apart : (t : ℕ) → freed_tid t ≢ 0) where
  module _ (s : System Page) (v : Keeps x s.lib) where
    abbrev Still : Outcome (System Page) → Type 0
    Still next = IfOk next (λ s'. Keeps x s'.lib)

    answered-Still :
        (call : Outcome (Option Status × Threads Page)) (ls : List Local)
        → IfOk call (Answers x)
        → Still (call >>= λ r. ok (record s { lib = r.1; locals = ls }))
    answered-Still (ok r) ls k = k
    answered-Still (fault e) ls k = tt

    ended-Still :
        (call : Outcome (Threads Page))
        → IfOk call (Keeps x)
        → Still (call >>= λ lib. ok (record s { lib = lib }))
    ended-Still (ok u) k = k
    ended-Still (fault e) k = tt

    unlocked-Still :
        (ls : List Local)
        → Still
            (my_pthread_mutex_unlock mutex s.lib >>= λ r. ok (record s { lib = r.1; locals = ls }))
    unfolding my_pthread_mutex_unlock
    unlocked-Still ls =
        answered-Still (my_pthread_mutex_unlock mutex s.lib) ls
          (unlock_at-Keeps x mutex s.lib (get_elem? s.lib.mutexes mutex) v)

    work-Still : (c : ℕ) (p : Phase) (left : List ℕ) → Still (work zeros freed_tid mutex s c p left)
    unfolding my_pthread_mutex_lock
    work-Still c before [] =
        ended-Still _ (exit_current-Keeps x zeros (freed_tid c) c s.lib (apart c) v)
    work-Still c before (n ∷ ns) =
        answered-Still (my_pthread_mutex_lock mutex s.lib)
          (set s.locals c (record { phase = entered; left = n ∷ ns }))
          (lock_at-Keeps x mutex s.lib (get_elem? s.lib.mutexes mutex) v)
    work-Still c entered left = v
    work-Still c (loaded w) [] = v
    work-Still c (loaded w) (n ∷ ns) = v
    work-Still c stored [] = unlocked-Still (set s.locals c (record { phase = before; left = [] }))
    work-Still c stored (n ∷ ns) =
        unlocked-Still (set s.locals c (record { phase = before; left = ns }))

    go_on-Still : (c : ℕ) (l : Option Local) → Still (go_on zeros freed_tid mutex s c l)
    go_on-Still c none = v
    go_on-Still c (some l) = work-Still c l.phase l.left

    go_current-Still : (o : Option ℕ) → Still (go_current zeros freed_tid mutex s o)
    go_current-Still none = v
    go_current-Still (some c) = go_on-Still c (get_elem? s.locals c)

    join_unless-Still : (t : ℕ) (l : Option Local) → Still (join_unless zeros freed_tid mutex s t l)
    unfolding my_pthread_join
    join_unless-Still t (some l) = v
    join_unless-Still t none =
        answered-Still (my_pthread_join t s.lib) s.locals
          (join_at-Keeps x t s.lib (get_elem? s.lib.mutexes t) v)

    join-Still : (t : ℕ) (o : Option ℕ) → Still (join_current zeros freed_tid mutex s t o)
    join-Still t none = v
    join-Still t (some c) = join_unless-Still t (get_elem? s.locals c)

    step-Still : (e : Event) → Still (step zeros freed_tid mutex e s)
    unfolding step timer_handler
    step-Still tick = schedule-Keeps x s.lib v
    step-Still go = go_current-Still s.lib.current
    step-Still (main_join t) = join-Still t s.lib.current

  -- Whatever happens, the page of id 0 is as it was.
  pub run-Keeps :
      (es : List Event) (s : System Page)
      → Keeps x s.lib
      → IfOk (run zeros freed_tid mutex es s) (λ s'. Keeps x s'.lib)
  unfolding run
  run-Keeps [] s v = v
  run-Keeps (e ∷ es) s v =
      bind-IfOk (λ (s' : System Page). Keeps x s'.lib) (step zeros freed_tid mutex e s)
        (λ s₁. run zeros freed_tid mutex es s₁) (step-Still s v e) (λ s₁ w. run-Keeps es s₁ w)
