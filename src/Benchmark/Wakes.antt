-- ===== src/Benchmark/Wakes.antt =====
-- Benchmark/*.c: the main thread waits in `pthread_join` until the worker has ended.
use osdesignasst.Prelude.{
  IfOk, bind-IfOk, any-IfOk, ℕ, ◌-◌, ◌≤◌, ◌≡◌, ◌≢◌, ◌⊎◌, refl, sym, ap, ◌∙◌, subst, inl, inr, not,
  Option, none, some, List, [], ◌∷◌, ◌==◌, leb, Outcome, ok, fault, ◌>>=◌, get_elem?, set,
  count-append, Bool-cases, Option-cases, eq_or_ne, arith,
}
use osdesignasst.Pthread.State.{Mutex, Status, success, max_mutex_num}
use osdesignasst.Code.Pthread.{
  Threads, take_waiting, with_taken, release_thread, release_all_thread, wait_from, schedule,
  schedule_swap_current_to_wait, timer_handler,
}
use osdesignasst.Code.Pthread.Mutexes
use osdesignasst.Code.Pthread.Mutexes.{my_pthread_mutex_lock, my_pthread_mutex_unlock}
use osdesignasst.Code.Malloc.{reclaim_current_heap}
use osdesignasst.Code.Pthread.Life as Life
use osdesignasst.Code.Pthread.Life.{my_pthread_join, exit_current}
use osdesignasst.Code.Pthread.Conserve.{is_it, running, places}
use osdesignasst.Benchmark.Worker.{
  before, entered, loaded, stored, Phase, Local, System, Event, tick, go, main_join, step, run,
  work, go_on, go_current, join_unless, join_current,
}
use osdesignasst.Benchmark.Lock.{WaitsFor}
use osdesignasst.Benchmark.Lock.Runs.{AllFit}
use osdesignasst.Benchmark.Start.{IsStart, system, goes_on}
use osdesignasst.Benchmark.Lock.Queues.{
  ones_of, count-take_waiting, take_waiting-some, schedule-Turned,
}

module _ {Page : Type 0} (m id : ℕ) where
  abbrev Waits : Threads Page → Type 0
  Waits u = WaitsFor id u m

  abbrev AnswersWaits : Option Status × Threads Page → Type 0
  AnswersWaits r = Waits r.1

  wait_from-Waits :
      (q : List ℕ) (o : Option ℕ) (u : Threads Page) → Waits u → IfOk (wait_from q o u) Waits
  wait_from-Waits [] o u v = v
  wait_from-Waits (x ∷ rest) none u v = tt
  wait_from-Waits (x ∷ rest) (some tmp) u v =
      (let l = v.0 in omega (arith, l, count-append (is_it m) u.wait (tmp ∷ [])), v.1)

  wait_for-Waits :
      (mu : ℕ) (o : Option ℕ) (u : Threads Page)
      → o ≢ some m
      → Waits u
      → IfOk (Mutexes.wait_for mu o u) Waits
  unfolding schedule_swap_current_to_wait
  wait_for-Waits mu none u far v = tt
  wait_for-Waits mu (some t) u far v =
      let ne : t ≢ m = λ same. far (ap some same) in
      wait_from-Waits u.ready u.current _ (v.0, let e = v.1 in ground arith)

  take_or_wait-Waits :
      (free waited : Option Status) (mu : ℕ) (x : Mutex) (u : Threads Page)
      → u.current ≢ some m
      → Waits u
      → IfOk (Mutexes.take_or_wait free waited mu x u) AnswersWaits
  unfolding Mutexes.take_or_wait
  take_or_wait-Waits free waited mu x u far v = elim (Bool-cases (0 == x.count)) [
    | inl e ↦ rw e v
    | inr e ↦ rw e (
        bind-IfOk AnswersWaits _ (λ u₁. ok (waited, u₁)) (wait_for-Waits mu u.current _ far v)
          (λ a k. k))
  ]

  guarded-Waits :
      (mu : ℕ) (x : Mutex) (u : Threads Page) (body : Outcome (Option Status × Threads Page))
      → Waits u
      → IfOk body AnswersWaits
      → IfOk (Mutexes.guarded mu u x body) AnswersWaits
  guarded-Waits mu x u body v k = elim (Bool-cases (not x.used)) [
    | inl e ↦ rw e v
    | inr e ↦ elim (Bool-cases (leb max_mutex_num mu)) [ inl f ↦ rw (e, f) v | inr f ↦ rw (e, f) k ]
  ]

  -- `release_thread` of another id.
  with_taken-Waits :
      (mu : ℕ) (u : Threads Page)
      → mu ≢ id
      → Waits u
      → Waits (with_taken u (take_waiting u.info mu u.wait))
  with_taken-Waits mu u ne v = elim (Option-cases (take_waiting u.info mu u.wait).1) [
    | inl e ↦ (
      let l = v.0 in
          let n = count-take_waiting u.info mu (is_it m) u.wait in
          let z = ap (ones_of (is_it m)) e in omega arith,
      v.1,
    )
    | inr (w, e) ↦ (
      let l = v.0 in
          let n = count-take_waiting u.info mu (is_it m) u.wait in
          let z = ap (ones_of (is_it m)) e in
          let its = take_waiting-some u.info mu u.wait e in
          let mine = v.1 in
          let far : m ≢ w = λ same. ne (sym its ∙ ap (λ t. (u.info t).mu) (sym same) ∙ mine) in
          ground arith,
      v.1,
    )
  ]

  lock_at-Waits :
      (mu : ℕ) (u : Threads Page) (o : Option Mutex)
      → u.current ≢ some m
      → Waits u
      → IfOk (Mutexes.lock_at mu u o) AnswersWaits
  lock_at-Waits mu u none far v = tt
  lock_at-Waits mu u (some x) far v =
      guarded-Waits mu x u _ v (take_or_wait-Waits (some success) none mu x u far v)

  join_at-Waits :
      (mu : ℕ) (u : Threads Page) (o : Option Mutex)
      → u.current ≢ some m
      → Waits u
      → IfOk (Life.join_at mu u o) AnswersWaits
  join_at-Waits mu u none far v = tt
  join_at-Waits mu u (some x) far v =
      guarded-Waits mu x u _ v (take_or_wait-Waits (some success) (some success) mu x u far v)

  unlock_at-Waits :
      (mu : ℕ) (u : Threads Page) (o : Option Mutex)
      → mu ≢ id
      → Waits u
      → IfOk (Mutexes.unlock_at mu u o) AnswersWaits
  unfolding release_thread
  unlock_at-Waits mu u none ne v = tt
  unlock_at-Waits mu u (some x) ne v = guarded-Waits mu x u _ v (elim (Bool-cases (0 == x.count)) [
    | inl free ↦ rw free v
    | inr held ↦ elim (Bool-cases (1 == x.count)) [
      | inl one ↦ rw (held, one) v
      | inr more ↦
          rw (held, more)
            (with_taken-Waits mu (Mutexes.with_mutex u mu (record x { count = x.count - 1 })) ne v)
    ]
  ])

  schedule-Waits : (u : Threads Page) → Waits u → Waits (schedule u)
  schedule-Waits u v = let r = schedule-Turned u in rw (r.wait, r.info) v

  -- The end of a thread with another id.
  exit_current-Waits :
      (zeros : Page) (freed_tid c : ℕ) (u : Threads Page)
      → (u.info c).tid ≢ id
      → Waits u
      → IfOk (exit_current zeros freed_tid (some c) u) Waits
  unfolding release_all_thread Mutexes.free_mutex
  exit_current-Waits zeros freed_tid c u ne v =
      bind-IfOk Waits _ _ (free_at-Waits (get_elem? u.mutexes (u.info c).tid)) (λ u₁ w.
        bind-IfOk Waits (reclaim_current_heap zeros freed_tid u₁.pool) _ (any-IfOk _)
          (λ pool k. schedule-Waits (record u₁ { current = none; pool = pool }) w))
    where
      free_at-Waits :
          (x : Option Mutex)
          → IfOk
              (Mutexes.free_at
                (u.info c).tid
                (with_taken u (take_waiting u.info (u.info c).tid u.wait))
                x)
              Waits
      free_at-Waits none = tt
      free_at-Waits (some x) = with_taken-Waits (u.info c).tid u ne v

-- The step is one of the thread that runs, the worker with the id, at its end.
abbrev pub Ends : {Page : Type 0} → (id : ℕ) → Event → System Page → Type 0
Ends id e s =
    (e ≡ go)
    × (c : ℕ) × (s.lib.current ≡ some c)
    × ((s.lib.info c).tid ≡ id)
    × (get_elem? s.locals c ≡ some (record { phase = before; left = [] }))

module _ {Page : Type 0} (zeros : Page) (mutex : ℕ) (freed_tid : ℕ → ℕ) (m id : ℕ) (ne : mutex ≢ id)
    (s : System Page) (far : s.lib.current ≢ some m) (v : WaitsFor id s.lib m) where
  abbrev Still : Outcome (System Page) → Type 0
  Still next = IfOk next (λ s'. WaitsFor id s'.lib m)

  answered-Still :
      (call : Outcome (Option Status × Threads Page)) (ls : List Local)
      → IfOk call (AnswersWaits m id)
      → Still (call >>= λ r. ok (record s { lib = r.1; locals = ls }))
  answered-Still (ok r) ls k = k
  answered-Still (fault e) ls k = tt

  ended-Still :
      (call : Outcome (Threads Page))
      → IfOk call (Waits m id)
      → Still (call >>= λ lib. ok (record s { lib = lib }))
  ended-Still (ok u) k = k
  ended-Still (fault e) k = tt

  work-Still :
      (c : ℕ) (p : Phase) (left : List ℕ)
      → s.lib.current ≡ some c
      → get_elem? s.locals c ≡ some (record { phase = p; left = left })
      → Still (work zeros freed_tid mutex s c p left) ⊎ Ends id go s
  unfolding my_pthread_mutex_lock my_pthread_mutex_unlock
  work-Still c before [] now at = elim (eq_or_ne (s.lib.info c).tid id) [
    | inl same ↦ inr (refl, c, now, same, at)
    | inr other ↦ inl (ended-Still _ (exit_current-Waits m id zeros (freed_tid c) c s.lib other v))
  ]
  work-Still c before (x ∷ xs) now at = inl (
      answered-Still (my_pthread_mutex_lock mutex s.lib)
        (set s.locals c (record { phase = entered; left = x ∷ xs }))
        (lock_at-Waits m id mutex s.lib (get_elem? s.lib.mutexes mutex) far v))
  work-Still c entered left now at = inl v
  work-Still c (loaded w) [] now at = inl v
  work-Still c (loaded w) (x ∷ xs) now at = inl v
  work-Still c stored [] now at = inl (
      answered-Still (my_pthread_mutex_unlock mutex s.lib)
        (set s.locals c (record { phase = before; left = [] }))
        (unlock_at-Waits m id mutex s.lib (get_elem? s.lib.mutexes mutex) ne v))
  work-Still c stored (x ∷ xs) now at = inl (
      answered-Still (my_pthread_mutex_unlock mutex s.lib)
        (set s.locals c (record { phase = before; left = xs }))
        (unlock_at-Waits m id mutex s.lib (get_elem? s.lib.mutexes mutex) ne v))

  go_on-Still :
      (c : ℕ) (l : Option Local)
      → s.lib.current ≡ some c
      → get_elem? s.locals c ≡ l
      → Still (go_on zeros freed_tid mutex s c l) ⊎ Ends id go s
  go_on-Still c none now at = inl v
  go_on-Still c (some l) now at = work-Still c l.phase l.left now at

  go_current-Still :
      (o : Option ℕ)
      → s.lib.current ≡ o
      → Still (go_current zeros freed_tid mutex s o) ⊎ Ends id go s
  go_current-Still none now = inl v
  go_current-Still (some c) now = go_on-Still c (get_elem? s.locals c) now refl

  join_unless-Still : (t : ℕ) (l : Option Local) → Still (join_unless zeros freed_tid mutex s t l)
  unfolding my_pthread_join
  join_unless-Still t (some l) = v
  join_unless-Still t none =
      answered-Still (my_pthread_join t s.lib) s.locals
        (join_at-Waits m id t s.lib (get_elem? s.lib.mutexes t) far v)

  join-Still : (t : ℕ) (o : Option ℕ) → Still (join_current zeros freed_tid mutex s t o)
  join-Still t none = v
  join-Still t (some c) = join_unless-Still t (get_elem? s.locals c)

  step-Still : (e : Event) → Still (step zeros freed_tid mutex e s) ⊎ Ends id e s
  unfolding step timer_handler
  step-Still tick = inl (schedule-Waits m id s.lib v)
  step-Still go = go_current-Still s.lib.current refl
  step-Still (main_join t) = inl (join-Still t s.lib.current)

-- In a state that a run from a start gets to, with ticks between the steps and none inside a call, if the ends of
-- the threads clear pages of the pool of other ids than 0, and with a thread that waits for an id other than the mutex: after any step it waits still, or the step is one of the
-- worker with that id, which ends and has added all its numbers.
pub step_holds :
    {Page : Type 0} (zeros : Page) (mutex : ℕ) (freed_tid : ℕ → ℕ) (shares : List (List ℕ))
    (u : Threads Page) (es : List Event) (s s' : System Page) (e : Event) (m id : ℕ)
    → IsStart mutex freed_tid shares u
    → AllFit mutex es
    → run zeros freed_tid mutex es (system shares u) ≡ ok s
    → mutex ≢ id
    → WaitsFor id s.lib m
    → step zeros freed_tid mutex e s ≡ ok s'
    → WaitsFor id s'.lib m ⊎ Ends id e s
step_holds zeros mutex freed_tid shares u es s s' e m id v fits gets ne waits next =
    let (s₁, runs, (q, inv)) = goes_on zeros mutex freed_tid shares u es v fits in
    let same : s₁ ≡ s = cc in
    let once : places m s.lib.current s.lib.ready s.lib.wait ≤ 1 =
      subst (λ (x : System _). places m x.lib.current x.lib.ready x.lib.wait ≤ 1) same
        (inv.once m) in
    let far : s.lib.current ≢ some m =
      λ now. (let l = waits.0 in let o = ap (running m) now in ground arith) in
    elim (step-Still zeros mutex freed_tid m id ne s far waits e) [
      | inl still ↦ inl (subst (λ x. IfOk x (λ (a : System _). WaitsFor id a.lib m)) next still)
      | inr ends ↦ inr ends
    ]
