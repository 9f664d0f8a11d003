-- ===== src/Benchmark/Lock/Enter.antt =====
-- `pthread_mutex_lock` by a worker: it owns the mutex then, or stands in the wait queue.
use mathlib.Core.Option.{some-injective}
use osdesignasst.Prelude.{
  ℕ, ◌+◌, ◌%◌, ◌^◌, ◌<◌, ◌≡◌, ◌≢◌, refl, sym, ap, ◌∙◌, subst, inl, inr, true, false, Option, none,
  some, List, [], ◌∷◌, ◌++◌, ◌==◌, leb, Outcome, ok, ◌>>=◌, Returns, get_elem?, get_elem?-lt,
  get_elem?-set_ne, get_elem?-set_self, get_elem?-set_cases, set, length, length-set, count,
  count-append, count-set, count-le-length, eq_or_ne, arith,
}
use osdesignasst.Pthread.State.{max_mutex_num, bump, Status, success}
use osdesignasst.Code.Pthread.{Threads, write, wait_from, schedule_swap_current_to_wait}
use osdesignasst.Code.Pthread.Mutexes
use osdesignasst.Code.Pthread.Mutexes.{my_pthread_mutex_lock}
use osdesignasst.Code.Pthread.Conserve.{is_it, running}
use osdesignasst.Benchmark.Worker.{before, entered, loaded, stored, Phase, Local, System, put}
use osdesignasst.Benchmark.Lock.{
  near, waiting, WaitsFor, Place, Outside, Inside, Inv, is_inside, pending, total, holders,
}
use osdesignasst.Benchmark.Lock.Queues.{waiting-write, total-set}
use osdesignasst.Benchmark.Lock.Quiet.{Inside-at}
use osdesignasst.Benchmark.Lock.Owner.{caller_once, caller_alone, tids-set, waiters-set}

module _ {Page : Type 0} (mutex : ℕ) (freed_tid : ℕ → ℕ) {all : ℕ} {o : Option ℕ} (s : System Page)
    (v : Inv mutex freed_tid all o s) (c x : ℕ) (xs : List ℕ) (run : s.lib.current ≡ some c)
    (at_call : get_elem? s.locals c ≡ some (record { phase = before; left = x ∷ xs })) where
  abbrev entering : Local
  entering = record { phase = entered; left = x ∷ xs }

  abbrev locals_now : List Local
  locals_now = set s.locals c entering

  abbrev noted : Threads Page
  noted =
      let u =
        Mutexes.with_mutex s.lib mutex
          (record { used = true; count = bump (count is_inside s.locals) }) in
      u

  one_more : count is_inside locals_now ≡ count is_inside s.locals + 1
  one_more = omega (arith, count-set is_inside s.locals c entering at_call)

  bumped : bump (count is_inside s.locals) ≡ count is_inside locals_now
  bumped = omega (arith, one_more, v.few, count-le-length is_inside s.locals)

  entry_now :
      get_elem? noted.mutexes mutex
      ≡ some (record { used = true; count = count is_inside locals_now })
  entry_now =
      get_elem?-set_self s.lib.mutexes mutex _ (omega (arith, v.in_table, v.size))
      ∙ ap (λ (n : ℕ). some (record { used = true; count = n })) bumped

  adds_now : (s.sum + total pending locals_now) % 2 ^ 32 ≡ all % 2 ^ 32
  adds_now =
      let e : total pending locals_now ≡ total pending s.locals =
        omega (arith, total-set pending s.locals c entering at_call) in
      ap (λ (n : ℕ). (s.sum + n) % 2 ^ 32) e ∙ v.adds

  few_now : length locals_now + 1 < 2 ^ 32
  few_now = omega (arith, v.few, length-set s.locals c entering)

  tids_now :
      (t : ℕ) (l : Local)
      → get_elem? locals_now t ≡ some l
      → ((s.lib.info t).tid ≢ mutex) × ((s.lib.info t).tid < max_mutex_num)
  tids_now t l at =
      let old = tids-set mutex freed_tid s v c run _ entering at_call t l at in v.tids t old.0 old.1

  waiters_now :
      (t : ℕ)
      → WaitsFor mutex s.lib t
      → (y : ℕ) × (ys : List ℕ) × (get_elem? locals_now t
          ≡ some (record { phase = entered; left = y ∷ ys }))
  waiters_now = waiters-set mutex freed_tid s v c run _ entering at_call

  caller_in : (l : Local) × (get_elem? locals_now c ≡ some l) × Inside mutex s.sum l.phase l.left
  caller_in =
      (entering, get_elem?-set_self s.locals c entering (get_elem?-lt s.locals c at_call), tt)

  -- The mutex was free.
  taken-Inv :
      o ≡ none
      → Inv mutex freed_tid all (some c) (put (record s { lib = noted }) c entered (x ∷ xs))
  taken-Inv free = record {
    in_table = v.in_table;
    few = few_now;
    size = length-set s.lib.mutexes mutex _ ∙ v.size;
    page = v.page;
    once = v.once;
    entry = entry_now;
    counted = omega (arith, one_more, v.counted, ap holders free);
    place = (
      (caller_alone mutex freed_tid s v c run).1,
      ap (λ q. running c q + count (is_it c) s.lib.ready) run
          ∙ (let q = (caller_alone mutex freed_tid s v c run).0 in ground arith),
    );
    tids = tids_now;
    waiters = waiters_now;
    outside = λ t l at ne. elim (get_elem?-set_cases s.locals c t entering at) [
      | inl (e, _) ↦ absurd (ne (ap some e))
      | inr (_, old) ↦ v.outside t l old (λ e. cc)
    ];
    inside = λ h e.
        subst
          (λ k. (l : Local) × (get_elem? locals_now k ≡ some l) × Inside mutex s.sum l.phase l.left)
          (some-injective c h e) caller_in;
    word = v.word;
    adds = adds_now;
  }

  -- The mutex is held: the caller waits, and the next thread runs.
  module _ (h : ℕ) (held : o ≡ some h) where
    owner_far : h ≢ c
    owner_far same = Inside-at mutex freed_tid _ v (held ∙ ap some same) at_call

    owner_place : (count (is_it h) s.lib.wait ≡ 0) × (near h s.lib ≡ 1)
    owner_place = subst (Place mutex s.lib) held v.place

    owner_ready : count (is_it h) s.lib.ready ≡ 1
    owner_ready =
        let k = subst (λ q. running h q + count (is_it h) s.lib.ready ≡ 1) run owner_place.1 in
        let f = owner_far in ground arith

    module _ (y : ℕ) (rest : List ℕ) (ready : s.lib.ready ≡ y ∷ rest) where
      abbrev waits_now : Threads Page
      waits_now = record noted {
        info = write s.lib.info c (record (s.lib.info c) { mu = mutex });
        current = some y;
        ready = rest;
        wait = s.lib.wait ++ c ∷ [];
      }

      there :
          (t : ℕ)
          → count (is_it t) (s.lib.wait ++ c ∷ []) ≡ count (is_it t) s.lib.wait + running t (some c)
      there t = omega (arith, count-append (is_it t) s.lib.wait (c ∷ []))

      one_more_waits :
          waiting mutex waits_now.info waits_now.wait ≡ waiting mutex s.lib.info s.lib.wait + 1
      one_more_waits =
          let w =
            waiting-write s.lib.info mutex c (record (s.lib.info c) { mu = mutex }) s.lib.wait
              (caller_alone mutex freed_tid s v c run).1 in
          let a = count-append (λ t. mutex == (waits_now.info t).mu) s.lib.wait (c ∷ []) in
          ground arith

      waits_still : (t : ℕ) → WaitsFor mutex s.lib t → WaitsFor mutex waits_now t
      waits_still t w = let n = there t in let l = w.0 in let e = w.1 in (omega arith, ground arith)

      caller_waits : WaitsFor mutex waits_now c
      caller_waits = let n = there c in (ground arith, ground arith)

      waited_before : (t : ℕ) → c ≢ t → WaitsFor mutex waits_now t → WaitsFor mutex s.lib t
      waited_before t ne w =
          let n = there t in let l = w.0 in let e = w.1 in (ground arith, ground arith)

      Outside-now : (t : ℕ) (p : Phase) → Outside mutex s.lib t p → Outside mutex waits_now t p
      Outside-now t before q = tt
      Outside-now t entered q = waits_still t q
      Outside-now t (loaded w) q = q
      Outside-now t stored q = q

      waited-Inv : Inv mutex freed_tid all o (put (record s { lib = waits_now }) c entered (x ∷ xs))
      waited-Inv = record {
        in_table = v.in_table;
        few = few_now;
        size = length-set s.lib.mutexes mutex _ ∙ v.size;
        page = v.page;
        once = λ t.
            omega
              (arith, caller_once mutex freed_tid s v c run t, ap (count (is_it t)) ready, there t);
        entry = entry_now;
        counted = omega (arith, one_more, v.counted, one_more_waits);
        place = subst (Place mutex waits_now) (sym held) (
          let n = there h in let p = owner_place.0 in let f = owner_far in ground arith,
          omega (arith, owner_ready, ap (count (is_it h)) ready),
        );
        tids = λ t l at. (let k = tids_now t l at in (ground arith, ground arith));
        waiters = λ t w. elim (eq_or_ne c t) [
          | inl same ↦ (
            x,
            xs,
            subst (λ k. get_elem? locals_now k ≡ some entering) same
                (get_elem?-set_self s.locals c entering (get_elem?-lt s.locals c at_call)),
          )
          | inr ne ↦ waiters_now t (waited_before t ne w)
        ];
        outside = λ t l at ne. elim (get_elem?-set_cases s.locals c t entering at) [
          | inl (e, f) ↦
              subst (λ (k : Local). Outside mutex waits_now t k.phase) (sym f)
                (subst (WaitsFor mutex waits_now) e caller_waits)
          | inr (_, old) ↦ Outside-now t l.phase (v.outside t l old ne)
        ];
        inside = λ k e.
            let (l, at, within) = v.inside k e in
            let far : c ≢ k = λ same. owner_far (some-injective h k (sym held ∙ e) ∙ sym same) in
            (l, get_elem?-set_ne s.locals entering far ∙ at, within);
        word = v.word;
        adds = adds_now;
      }

  -- The call returns, and the invariant holds with the owner `q` after it.
  abbrev Locked : Outcome (Option Status × Threads Page) → Type 0
  Locked call = Returns call (λ r.
      (q : Option ℕ) × Inv mutex freed_tid all q (put (record s { lib = r.1 }) c entered (x ∷ xs)))

  nonempty :
      (h : ℕ)
      → o ≡ some h
      → (q : List ℕ) → s.lib.ready ≡ q
      → (y : ℕ) × (rest : List ℕ) × (s.lib.ready ≡ y ∷ rest)
  nonempty h held [] e = absurd (omega (arith, owner_ready h held, ap (count (is_it h)) e))
  nonempty h held (y ∷ rest) e = (y, rest, e)

  held-Locked :
      (h : ℕ)
      → o ≡ some h
      → Locked (Mutexes.wait_for mutex s.lib.current noted >>= λ u. ok (none, u))
  unfolding schedule_swap_current_to_wait
  held-Locked h held =
      let (y, rest, ready) = nonempty h held s.lib.ready refl in
      (
        (none, waits_now h held y rest ready),
        ap (λ q. Mutexes.wait_for mutex q noted >>= λ u. ok (none, u)) run
            ∙ ap
                (λ q.
                  wait_from s.lib.ready q (record noted {
                    info = write s.lib.info c (record (s.lib.info c) { mu = mutex });
                  })
                  >>= λ u. ok (none, u))
                run
            ∙ ap
                (λ q.
                  wait_from q (some c) (record noted {
                    info = write s.lib.info c (record (s.lib.info c) { mu = mutex });
                  })
                  >>= λ u. ok (none, u))
                ready,
        (o, waited-Inv h held y rest ready),
      )

  take_or_wait-Locked :
      (q : Option ℕ)
      → o ≡ q
      → Locked (
          Mutexes.take_or_wait
            (some success)
            none
            mutex
            (record { used = true; count = count is_inside s.locals })
            s.lib)
  unfolding Mutexes.take_or_wait
  take_or_wait-Locked none free =
      let idle : count is_inside s.locals ≡ 0 =
        omega (arith, v.counted, ap holders free, subst (Place mutex s.lib) free v.place) in
      let test : (0 == count is_inside s.locals) ≡ true = ground arith in
      ((some success, noted), rw test, (some c, taken-Inv free))
  take_or_wait-Locked (some h) held =
      let busy : 0 < count is_inside s.locals = omega (arith, v.counted, ap holders held) in
      let test : (0 == count is_inside s.locals) ≡ false = ground arith in
      let (r, runs, inv) = held-Locked h held in (r, rw test runs, inv)

  -- `pthread_mutex_lock` of the mutex returns; the caller owns the mutex then, or it waits.
  pub lock-Inv : Locked (my_pthread_mutex_lock mutex s.lib)
  unfolding my_pthread_mutex_lock
  lock-Inv =
      let inside : leb max_mutex_num mutex ≡ false = let lt = v.in_table in ground arith in
      let (r, runs, inv) = take_or_wait-Locked o refl in (r, rw (v.entry, inside) runs, inv)
