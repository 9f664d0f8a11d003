-- ===== src/Benchmark/Lock/Join.antt =====
-- `pthread_join` by a thread that is no worker: the mutex is left alone.
use osdesignasst.Prelude.{
  ℕ, ◌+◌, ◌≤◌, ◌<◌, ◌≡◌, ◌≢◌, refl, ap, ◌∙◌, subst, inl, inr, not, Option, none, some, List, [],
  ◌∷◌, ◌++◌, ◌==◌, leb, Outcome, ok, ◌>>=◌, Returns, get_elem?, get_elem?-some, get_elem?-set_ne,
  set, length-set, count, count-append, Bool-cases, arith,
}
use osdesignasst.Pthread.State.{Mutex, max_mutex_num, bump, Status, success, failure}
use osdesignasst.Code.Pthread.{Threads, write, wait_from, schedule_swap_current_to_wait}
use osdesignasst.Code.Pthread.Mutexes
use osdesignasst.Code.Pthread.Life.{my_pthread_join}
use osdesignasst.Code.Pthread.Conserve.{is_it, running, places}
use osdesignasst.Benchmark.Worker.{System}
use osdesignasst.Benchmark.Lock.{WaitsFor, Place, HasPage, Inv}
use osdesignasst.Benchmark.Lock.Queues.{waiting-write}
use osdesignasst.Benchmark.Lock.Quiet.{Quiet, Quiet-Inv}

module _ {Page : Type 0} (mutex : ℕ) (freed_tid : ℕ → ℕ) where
  module _ (u : Threads Page) (c t : ℕ) (m : Mutex) (ne : t ≢ mutex)
      (once : (y : ℕ) → places y u.current u.ready u.wait ≤ 1) (page : HasPage freed_tid u.pool)
      (run : u.current ≡ some c) where
    -- The one that calls does not stand in a queue.
    caller_once :
        (y : ℕ) → running y (some c) + count (is_it y) u.ready + count (is_it y) u.wait ≤ 1
    caller_once y = subst (λ o. places y o u.ready u.wait ≤ 1) run (once y)

    caller_not_queued : count (is_it c) u.wait ≡ 0
    caller_not_queued = let o = caller_once c in ground arith

    entry_kept : get_elem? (set u.mutexes t m) mutex ≡ get_elem? u.mutexes mutex
    entry_kept = get_elem?-set_ne u.mutexes m ne

    counted-Quiet : Quiet mutex freed_tid u (Mutexes.with_mutex u t m)
    counted-Quiet = record {
      size = length-set u.mutexes t m;
      page = page;
      once = once;
      entry = entry_kept;
      waiting_eq = refl;
      waits = λ y w. w;
      waits_still = λ y w. w;
      tids = λ y. refl;
    }

    -- `CURRENT->mu` is written.
    abbrev noted : Threads Page
    noted =
        let v = Mutexes.with_mutex u t m in
        record v { info = write v.info c (record (v.info c) { mu = t }) }

    noted-WaitsFor : (y : ℕ) → WaitsFor mutex noted y → WaitsFor mutex u y
    noted-WaitsFor y w =
        (w.0, let q = caller_not_queued in let l = w.0 in let e = w.1 in ground arith)

    WaitsFor-noted : (y : ℕ) → WaitsFor mutex u y → WaitsFor mutex noted y
    WaitsFor-noted y w =
        (w.0, let q = caller_not_queued in let l = w.0 in let e = w.1 in ground arith)

    noted-Quiet : Quiet mutex freed_tid u noted
    noted-Quiet = record {
      size = length-set u.mutexes t m;
      page = page;
      once = once;
      entry = entry_kept;
      waiting_eq =
          waiting-write u.info mutex c (record (u.info c) { mu = t }) u.wait caller_not_queued;
      waits = noted-WaitsFor;
      waits_still = WaitsFor-noted;
      tids = λ y. ground arith;
    }

    module _ (x : ℕ) (rest : List ℕ) (ready : u.ready ≡ x ∷ rest) where
      abbrev waits_now : Threads Page
      waits_now = record noted { current = some x; ready = rest; wait = u.wait ++ c ∷ [] }

      there :
          (y : ℕ) → count (is_it y) (u.wait ++ c ∷ []) ≡ count (is_it y) u.wait + running y (some c)
      there y = omega (arith, count-append (is_it y) u.wait (c ∷ []))

      swapped-Quiet : Quiet mutex freed_tid u waits_now
      swapped-Quiet = record {
        size = length-set u.mutexes t m;
        page = page;
        once = λ y. omega (arith, caller_once y, ap (count (is_it y)) ready, there y);
        entry = entry_kept;
        waiting_eq =
            let w =
              waiting-write u.info mutex c (record (u.info c) { mu = t }) u.wait
                caller_not_queued in
            let a = count-append (λ y. mutex == (noted.info y).mu) u.wait (c ∷ []) in ground arith;
        waits =
            λ y w. let n = there y in let l = w.0 in let e = w.1 in (ground arith, ground arith);
        waits_still = λ y w.
            let n = there y in
            let q = caller_not_queued in let l = w.0 in let e = w.1 in (ground arith, ground arith);
        tids = λ y. ground arith;
      }

      swapped-Place : (h : ℕ) → h ≢ c → Place mutex u (some h) → Place mutex waits_now (some h)
      swapped-Place h far p =
          let n = there h in
          let r = ap (count (is_it h)) ready in
          let w = p.0 in
          let k = subst (λ o. running h o + count (is_it h) u.ready ≡ 1) run p.1 in
          (ground arith, ground arith)

  module _ {all : ℕ} {o : Option ℕ} (s : System Page) (v : Inv mutex freed_tid all o s) (c t : ℕ)
      (run : s.lib.current ≡ some c) (no_worker : get_elem? s.locals c ≡ none)
      (ne : t ≢ mutex) where
    owner_far : (h : ℕ) → o ≡ some h → h ≢ c
    owner_far h e same = let (l, at, _) = v.inside h e in cc

    waited-Inv :
        (m : Mutex) (ready : List ℕ)
        → s.lib.ready ≡ ready
        → Returns
            (wait_from ready (some c) (noted s.lib c t m ne v.once v.page run))
            (λ u. Inv mutex freed_tid all o (record s { lib = u }))
    waited-Inv m [] e = (
      _,
      refl,
      Quiet-Inv mutex freed_tid s _ v (noted-Quiet s.lib c t m ne v.once v.page run) (λ h own p. p),
    )
    waited-Inv m (x ∷ rest) e = (
      _,
      refl,
      Quiet-Inv mutex freed_tid s _ v (swapped-Quiet s.lib c t m ne v.once v.page run x rest e)
          (λ h own p.
            swapped-Place s.lib c t m ne v.once v.page run x rest e h (owner_far h own) p),
    )

    abbrev Joined : Outcome (Option Status × Threads Page) → Type 0
    Joined call = Returns call (λ r. Inv mutex freed_tid all o (record s { lib = r.1 }))

    waited-Joined :
        (m : Mutex)
        → Joined (
            Mutexes.wait_for t s.lib.current (Mutexes.with_mutex s.lib t m) >>= λ u.
            ok (some success, u))
    unfolding schedule_swap_current_to_wait
    waited-Joined m =
        let after = noted s.lib c t m ne v.once v.page run in
        let (u, runs, inv) = waited-Inv m s.lib.ready refl in
        let called : wait_from s.lib.ready s.lib.current after ≡ ok u =
          ap (λ q. wait_from s.lib.ready q after) run ∙ runs in
        let whole : Mutexes.wait_for t s.lib.current (Mutexes.with_mutex s.lib t m) ≡ ok u =
          ap (λ q. Mutexes.wait_for t q (Mutexes.with_mutex s.lib t m)) run ∙ called in
        ((some success, u), ap (λ q. q >>= λ w. ok (some success, w)) whole, inv)

    taken-Joined :
        (m : Mutex) → Joined (Mutexes.take_or_wait (some success) (some success) t m s.lib)
    unfolding Mutexes.take_or_wait
    taken-Joined m = elim (Bool-cases (0 == m.count)) [
      | inl free ↦ (
        (some success, _),
        rw free,
        Quiet-Inv mutex freed_tid s _ v
            (counted-Quiet s.lib c t (record m { count = bump m.count }) ne v.once v.page run)
            (λ h own p. p),
      )
      | inr held ↦
          let (r, runs, inv) = waited-Joined (record m { count = bump m.count }) in
          (r, rw held runs, inv)
    ]

    -- `pthread_join` of an id that is not the mutex returns, and the mutex is as before.
    pub join-Inv : t < max_mutex_num → Joined (my_pthread_join t s.lib)
    unfolding my_pthread_join
    join-Inv lt =
        let (m, at) = get_elem?-some s.lib.mutexes t (omega (arith, v.size)) in
        elim (Bool-cases (not m.used)) [
          | inl unused ↦ ((some failure, s.lib), rw (at, unused), v)
          | inr used ↦ elim (Bool-cases (leb max_mutex_num t)) [
            | inl out ↦ ((some failure, s.lib), rw (at, used, out), v)
            | inr inside ↦
                let (r, runs, inv) = taken-Joined m in (r, rw (at, used, inside) runs, inv)
          ]
        ]
