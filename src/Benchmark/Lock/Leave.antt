-- ===== src/Benchmark/Lock/Leave.antt =====
-- `pthread_mutex_unlock` by its owner: the mutex is free then, or the thread that has waited longest owns
-- it.
use mathlib.Core.Option.{some-injective}
use osdesignasst.Prelude.{
  ℕ, ◌+◌, ◌-◌, ◌%◌, ◌^◌, ◌<◌, ◌≡◌, ◌≢◌, refl, sym, ap, ◌∙◌, subst, inl, inr, Bool, true, false,
  Option, none, some, List, ◌∷◌, ◌==◌, leb, Outcome, Returns, get_elem?, get_elem?-set_self,
  get_elem?-set_cases, set, length-set, count, count-set, ones, Bool-cases, arith,
}
use osdesignasst.Pthread.State.{max_mutex_num, Status, success}
use osdesignasst.Code.Pthread.{Threads, take_waiting, with_taken, release_thread}
use osdesignasst.Code.Pthread.Mutexes
use osdesignasst.Code.Pthread.Mutexes.{my_pthread_mutex_unlock}
use osdesignasst.Code.Pthread.Conserve.{is_it}
use osdesignasst.Benchmark.Worker.{before, entered, loaded, stored, Phase, Local, System, put}
use osdesignasst.Benchmark.Lock.{
  waiting, WaitsFor, Outside, Inside, Inv, is_inside, pending, total, holders,
}
use osdesignasst.Benchmark.Lock.Queues.{
  ones_of, count-take_waiting, take_waiting-some, take_waiting-found, count-insert_tail, total-set,
}
use osdesignasst.Benchmark.Lock.Owner.{owner_runs, tids-set, waiters-set}

module _ {Page : Type 0} (mutex : ℕ) (freed_tid : ℕ → ℕ) {all : ℕ} {o : Option ℕ} (s : System Page)
    (v : Inv mutex freed_tid all o s) (c x : ℕ) (xs : List ℕ) (run : s.lib.current ≡ some c)
    (at_call : get_elem? s.locals c ≡ some (record { phase = stored; left = x ∷ xs })) where
  abbrev leaving : Local
  leaving = record { phase = before; left = xs }

  abbrev locals_now : List Local
  locals_now = set s.locals c leaving

  abbrev counted : Threads Page
  counted =
      Mutexes.with_mutex s.lib mutex (record { used = true; count = count is_inside s.locals - 1 })

  owns : o ≡ some c
  owns =
      owner_runs mutex freed_tid s v c run (record { phase = stored; left = x ∷ xs }) at_call refl

  number : count is_inside s.locals ≡ 1 + waiting mutex s.lib.info s.lib.wait
  number = v.counted ∙ ap (λ q. holders q + waiting mutex s.lib.info s.lib.wait) owns

  one_less : count is_inside locals_now + 1 ≡ count is_inside s.locals
  one_less = omega (arith, count-set is_inside s.locals c leaving at_call)

  entry_now :
      get_elem? counted.mutexes mutex
      ≡ some (record { used = true; count = count is_inside locals_now })
  entry_now =
      let e : count is_inside s.locals - 1 ≡ count is_inside locals_now = omega (arith, one_less) in
      get_elem?-set_self s.lib.mutexes mutex _ (omega (arith, v.in_table, v.size))
      ∙ ap (λ (n : ℕ). some (record { used = true; count = n })) e

  adds_now : (s.sum + total pending locals_now) % 2 ^ 32 ≡ all % 2 ^ 32
  adds_now =
      let e : total pending locals_now ≡ total pending s.locals =
        omega (arith, total-set pending s.locals c leaving at_call) in
      ap (λ (n : ℕ). (s.sum + n) % 2 ^ 32) e ∙ v.adds

  tids_now :
      (t : ℕ) (k : Local)
      → get_elem? locals_now t ≡ some k
      → ((s.lib.info t).tid ≢ mutex) × ((s.lib.info t).tid < max_mutex_num)
  tids_now t k e =
      let old = tids-set mutex freed_tid s v c run _ leaving at_call t k e in v.tids t old.0 old.1

  -- Each worker but the caller waits, or is outside.
  Outside-still :
      (t : ℕ) (k : Local) → get_elem? locals_now t ≡ some k → Outside mutex s.lib t k.phase
  Outside-still t k e = elim (get_elem?-set_cases s.locals c t leaving e) [
    | inl (_, f) ↦ subst (λ (j : Local). Outside mutex s.lib t j.phase) (sym f) tt
    | inr (far, old) ↦ v.outside t k old (λ q. far (some-injective c t (sym owns ∙ q)))
  ]

  freed-Inv :
      waiting mutex s.lib.info s.lib.wait ≡ 0
      → Inv mutex freed_tid all none (put (record s { lib = counted }) c before xs)
  freed-Inv nobody = record {
    in_table = v.in_table;
    few = omega (arith, v.few, length-set s.locals c leaving);
    size = length-set s.lib.mutexes mutex _ ∙ v.size;
    page = v.page;
    once = v.once;
    entry = entry_now;
    counted = omega (arith, one_less, number);
    place = nobody;
    tids = tids_now;
    waiters = waiters-set mutex freed_tid s v c run _ leaving at_call;
    outside = λ t k e ne. Outside-still t k e;
    inside = λ h e. cc;
    word = v.word;
    adds = adds_now;
  }

  abbrev taken : List ℕ × Option ℕ
  taken = take_waiting s.lib.info mutex s.lib.wait

  abbrev handed : Threads Page
  handed = with_taken counted taken

  -- The first thread that waits gets the mutex.
  module _ (w : ℕ) (found : taken.1 ≡ some w) where
    was_there : (p : ℕ → Bool) → count p taken.0 + ones p w ≡ count p s.lib.wait
    was_there p =
        ap (λ q. count p taken.0 + ones_of p q) (sym found)
        ∙ count-take_waiting s.lib.info mutex p s.lib.wait

    now_ready :
        (t : ℕ) → count (is_it t) handed.ready ≡ count (is_it t) s.lib.ready + ones (is_it t) w
    now_ready t =
        count-insert_tail (is_it t) s.lib.ready taken.1
        ∙ ap (λ q. count (is_it t) s.lib.ready + ones_of (is_it t) q) found

    next_waits : WaitsFor mutex s.lib w
    next_waits = (
      let n = was_there (is_it w) in ground arith,
      take_waiting-some s.lib.info mutex s.lib.wait found,
    )

    one_less_waits : waiting mutex s.lib.info handed.wait + 1 ≡ waiting mutex s.lib.info s.lib.wait
    one_less_waits =
        let n = was_there (λ t. mutex == (s.lib.info t).mu) in let e = next_waits.1 in ground arith

    waited_before : (t : ℕ) → WaitsFor mutex handed t → WaitsFor mutex s.lib t
    waited_before t q = (let n = was_there (is_it t) in let l = q.0 in omega arith, q.1)

    waits_still : (t : ℕ) → w ≢ t → WaitsFor mutex s.lib t → WaitsFor mutex handed t
    waits_still t ne q = (let n = was_there (is_it t) in let l = q.0 in ground arith, q.1)

    Outside-now : (t : ℕ) (p : Phase) → w ≢ t → Outside mutex s.lib t p → Outside mutex handed t p
    Outside-now t before ne q = tt
    Outside-now t entered ne q = waits_still t ne q
    Outside-now t (loaded k) ne q = q
    Outside-now t stored ne q = q

    next_in : (l : Local) × (get_elem? locals_now w ≡ some l) × Inside mutex s.sum l.phase l.left
    next_in =
        let (y, ys, at) = waiters-set mutex freed_tid s v c run _ leaving at_call w next_waits in
        (record { phase = entered; left = y ∷ ys }, at, tt)

    handed-Inv : Inv mutex freed_tid all (some w) (put (record s { lib = handed }) c before xs)
    handed-Inv = record {
      in_table = v.in_table;
      few = omega (arith, v.few, length-set s.locals c leaving);
      size = length-set s.lib.mutexes mutex _ ∙ v.size;
      page = v.page;
      once = λ t. omega (arith, v.once t, was_there (is_it t), now_ready t);
      entry = entry_now;
      counted = omega (arith, one_less, number, one_less_waits);
      place =
          let n = was_there (is_it w) in
          let r = now_ready w in let k = v.once w in (ground arith, ground arith);
      tids = tids_now;
      waiters =
          λ t q. waiters-set mutex freed_tid s v c run _ leaving at_call t (waited_before t q);
      outside = λ t k e ne. Outside-now t k.phase (λ same. ne (ap some same)) (Outside-still t k e);
      inside = λ h e.
          subst
            (λ k.
              (l : Local) × (get_elem? locals_now k ≡ some l) × Inside mutex s.sum l.phase l.left)
            (some-injective w h e) next_in;
      word = v.word;
      adds = adds_now;
    }

  abbrev Unlocked : Outcome (Option Status × Threads Page) → Type 0
  Unlocked call =
      Returns call
        (λ r. (q : Option ℕ) × Inv mutex freed_tid all q (put (record s { lib = r.1 }) c before xs))

  -- `pthread_mutex_unlock` by the owner returns, and the mutex is free or handed over.
  pub unlock-Inv : Unlocked (my_pthread_mutex_unlock mutex s.lib)
  unfolding my_pthread_mutex_unlock release_thread
  unlock-Inv =
      let inside : leb max_mutex_num mutex ≡ false = let lt = v.in_table in ground arith in
      let held : (0 == count is_inside s.locals) ≡ false = let n = number in ground arith in
      elim (Bool-cases (1 == count is_inside s.locals)) [
        | inl alone ↦ (
          (some success, counted),
          rw (v.entry, inside, held, alone),
          (none, freed-Inv (let n = number in ground arith)),
        )
        | inr more ↦
            let (w, found) =
              take_waiting-found s.lib.info mutex s.lib.wait (let n = number in ground arith) in
            ((some success, handed), rw (v.entry, inside, held, more), (some w, handed-Inv w found))
      ]
