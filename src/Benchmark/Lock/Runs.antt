-- ===== src/Benchmark/Lock/Runs.antt =====
-- Runs of the workers, with the timer ticking whenever it does.
use osdesignasst.Prelude.{
  ℕ, ◌<◌, ◌≡◌, ◌≢◌, refl, ap, ◌∙◌, Option, none, some, List, [], ◌∷◌, Outcome, ok, ◌>>=◌, Returns,
  get_elem?,
}
use osdesignasst.Pthread.State.{max_mutex_num}
use osdesignasst.Code.Pthread.{timer_handler}
use osdesignasst.Benchmark.Worker.{
  Phase, before, entered, loaded, stored, Local, System, Event, tick, go, main_join, work, go_on,
  go_current, join_unless, join_current, step, run, put,
}
use osdesignasst.Benchmark.Lock.{Inv}
use osdesignasst.Benchmark.Lock.Quiet.{tick-Inv, Inside-at}
use osdesignasst.Benchmark.Lock.Join.{join-Inv}
use osdesignasst.Benchmark.Lock.End.{end-Inv}
use osdesignasst.Benchmark.Lock.Owner.{owner_runs, load-Inv, store-Inv}
use osdesignasst.Benchmark.Lock.Enter.{lock-Inv}
use osdesignasst.Benchmark.Lock.Leave.{unlock-Inv}

-- The main thread joins ids of the table that are not the mutex.
abbrev pub Fits : (mutex : ℕ) → Event → Type 0
Fits mutex (main_join t) = (t ≢ mutex) × (t < max_mutex_num)
Fits mutex tick = Unit {0}
Fits mutex go = Unit {0}

abbrev pub AllFit : (mutex : ℕ) → List Event → Type 0
AllFit mutex [] = Unit {0}
AllFit mutex (e ∷ es) = Fits mutex e × AllFit mutex es

module _ {Page : Type 0} (zeros : Page) (mutex : ℕ) (freed_tid : ℕ → ℕ) (all : ℕ) where
  -- The run goes on, with some owner of the mutex.
  abbrev pub GoesOn : Outcome (System Page) → Type 0
  GoesOn next = Returns next (λ s. (q : Option ℕ) × Inv mutex freed_tid all q s)

  module _ {o : Option ℕ} (s : System Page) (v : Inv mutex freed_tid all o s) where
    work-Inv :
        (c : ℕ) (p : Phase) (left : List ℕ)
        → s.lib.current ≡ some c
        → get_elem? s.locals c ≡ some (record { phase = p; left = left })
        → GoesOn (work zeros freed_tid mutex s c p left)
    work-Inv c before [] now at =
        let (u, ends, w) = end-Inv zeros mutex freed_tid s v c now at in
        (record s { lib = u }, ap (λ m. m >>= λ lib. ok (record s { lib = lib })) ends, (o, w))
    work-Inv c before (x ∷ xs) now at =
        let (r, calls, (q, w)) = lock-Inv mutex freed_tid s v c x xs now at in
        (
          put (record s { lib = r.1 }) c entered (x ∷ xs),
          ap (λ m. m >>= λ a. ok (put (record s { lib = a.1 }) c entered (x ∷ xs))) calls,
          (q, w),
        )
    work-Inv c entered left now at =
        (put s c (loaded s.sum) left, refl, (o, load-Inv mutex freed_tid s v c now left at))
    work-Inv c (loaded w) [] now at =
        absurd (Inside-at mutex freed_tid _ v (owner_runs mutex freed_tid s v c now _ at refl) at)
    work-Inv c (loaded w) (x ∷ xs) now at =
        (_, refl, (o, store-Inv mutex freed_tid s v c now w x xs at))
    work-Inv c stored [] now at =
        absurd (Inside-at mutex freed_tid _ v (owner_runs mutex freed_tid s v c now _ at refl) at)
    work-Inv c stored (x ∷ xs) now at =
        let (r, calls, (q, w)) = unlock-Inv mutex freed_tid s v c x xs now at in
        (
          put (record s { lib = r.1 }) c before xs,
          ap (λ m. m >>= λ a. ok (put (record s { lib = a.1 }) c before xs)) calls,
          (q, w),
        )

    go_on-Inv :
        (c : ℕ) (k : Option Local)
        → s.lib.current ≡ some c
        → get_elem? s.locals c ≡ k
        → GoesOn (go_on zeros freed_tid mutex s c k)
    go_on-Inv c none now at = (s, refl, (o, v))
    go_on-Inv c (some l) now at = work-Inv c l.phase l.left now at

    go-Inv : (k : Option ℕ) → s.lib.current ≡ k → GoesOn (go_current zeros freed_tid mutex s k)
    go-Inv none now = (s, refl, (o, v))
    go-Inv (some c) now = go_on-Inv c (get_elem? s.locals c) now refl

    join_unless-Inv :
        (t c : ℕ) (k : Option Local)
        → Fits mutex (main_join t)
        → s.lib.current ≡ some c
        → get_elem? s.locals c ≡ k
        → GoesOn (join_unless zeros freed_tid mutex s t k)
    join_unless-Inv t c (some l) fits now at = (s, refl, (o, v))
    join_unless-Inv t c none fits now at =
        let (r, calls, w) = join-Inv mutex freed_tid s v c t now at fits.0 fits.1 in
        (record s { lib = r.1 }, ap (λ m. m >>= λ a. ok (record s { lib = a.1 })) calls, (o, w))

    join_current-Inv :
        (t : ℕ) (k : Option ℕ)
        → Fits mutex (main_join t)
        → s.lib.current ≡ k
        → GoesOn (join_current zeros freed_tid mutex s t k)
    join_current-Inv t none fits now = (s, refl, (o, v))
    join_current-Inv t (some c) fits now = join_unless-Inv t c (get_elem? s.locals c) fits now refl

    step-Inv : (e : Event) → Fits mutex e → GoesOn (step zeros freed_tid mutex e s)
    unfolding step
    step-Inv tick fits =
        (record s { lib = timer_handler s.lib }, refl, (o, tick-Inv mutex freed_tid s v))
    step-Inv go fits = go-Inv s.lib.current refl
    step-Inv (main_join t) fits = join_current-Inv t s.lib.current fits refl

  -- Every run goes on to its end, and the mutex is held by at most one worker all along.
  pub run-Inv :
      (es : List Event) {o : Option ℕ} (s : System Page)
      → AllFit mutex es
      → Inv mutex freed_tid all o s
      → GoesOn (run zeros freed_tid mutex es s)
  unfolding run
  run-Inv [] {o} s fits v = (s, refl, (o, v))
  run-Inv (e ∷ es) s fits v =
      let (s₁, one, (q, w)) = step-Inv s v e fits.0 in
      let (s₂, rest, inv) = run-Inv es s₁ fits.1 w in
      (s₂, ap (λ m. m >>= run zeros freed_tid mutex es) one ∙ rest, inv)
