-- ===== src/Code/Pthread/Conserve/Runs.antt =====
-- No thread is lost and none is doubled: runs of code/my_pthread.c.
use osdesignasst.Prelude.{
  ℕ, ◌+◌, refl, sym, subst, true, Option, List, [], ◌∷◌, if◌then◌else◌, Outcome, ok, ◌>>=◌, arith,
}
use osdesignasst.Code.Pthread.{Threads, timer_handler}
use osdesignasst.Code.Pthread.Mutexes
use osdesignasst.Code.Pthread.Life
use osdesignasst.Code.Pthread.Refine.Calls.{no_info}
use osdesignasst.Code.Pthread.Refine.Runs.{
  Call, lock, unlock, destroy, join, mutex_init, yield, tick, create, Reply, call_before,
  run_before,
}
use osdesignasst.Code.Pthread.Conserve.{
  Each, Each-bind, running, added, created, Kept, KeptWith, schedule-Kept, lock_at-Kept,
  join_at-Kept, unlock_at-Kept, destroy_at-Kept, init_with-Kept, create_thread-Kept, answered-Kept,
  handed-Kept,
}

module _ {Page : Type 0} (t : ℕ) (begin : Threads Page → Outcome (Threads Page)) where
  create-Kept :
      {n : ℕ} (ti : Option ℕ) (u : Threads Page)
      → Kept t n u
      → Each (Life.my_pthread_create begin ti no_info u) (KeptWith t (n + running t ti))
  unfolding Life.my_pthread_create
  create-Kept {n} ti u v =
      subst
        (λ b.
          Each
            ((if b then ok u else (begin u >>= λ s₁. ok (record s₁ { pthread_init = true })))
              >>= λ s₁. Life.create_thread ti no_info s₁)
            (KeptWith t (n + running t ti)))
        (sym v.started) (create_thread-Kept t ti u v)

  call-Kept :
      {n : ℕ} (c : Call) (u : Threads Page)
      → Kept t n u
      → Each (call_before begin c u) (KeptWith t (n + added t c))
  unfolding call_before Mutexes.my_pthread_mutex_lock Mutexes.my_pthread_mutex_unlock
      Mutexes.my_pthread_mutex_destroy Life.my_pthread_join Mutexes.my_pthread_mutex_init
      Life.my_pthread_yield timer_handler
  call-Kept {n} (lock mu) u v = answered-Kept t n _ (lock_at-Kept t mu u _ v)
  call-Kept {n} (unlock mu) u v = answered-Kept t n _ (unlock_at-Kept t mu u _ v)
  call-Kept {n} (destroy mu) u v = answered-Kept t n _ (destroy_at-Kept t mu u _ v)
  call-Kept {n} (join t') u v = answered-Kept t n _ (join_at-Kept t t' u _ v)
  call-Kept {n} mutex_init u v = handed-Kept t n (n + 0) _ (omega arith) (init_with-Kept t u _ v)
  call-Kept {n} yield u v =
      let w = schedule-Kept t u v in record { there = omega (arith, w.there); started = w.started }
  call-Kept {n} tick u v =
      let w = schedule-Kept t u v in record { there = omega (arith, w.there); started = w.started }
  call-Kept {n} (create ti) u v =
      handed-Kept t (n + running t ti) (n + running t ti) _ refl (create-Kept ti u v)

  -- A program of calls on a library that is started does not hang, and if no call ends the process,
  -- each thread stands as the current one or in a queue as often as before, and once more for each
  -- `create` of it.
  pub run-Kept :
      (cs : List Call) (n : ℕ) (u : Threads Page)
      → Kept t n u
      → Each (run_before begin cs u) (KeptWith t (n + created t cs))
  unfolding run_before
  run-Kept [] n u v = record { there = omega (arith, v.there); started = v.started }
  run-Kept (c ∷ cs) n u v =
      let goal : List Reply × Threads Page → Type 0 = KeptWith t (n + (added t c + created t cs)) in
      Each-bind goal (call_before begin c u)
        (λ r. run_before begin cs r.1 >>= λ rs. ok (r.0 ∷ rs.0, rs.1)) (call-Kept c u v)
        (λ r k.
          Each-bind goal (run_before begin cs r.1) (λ rs. ok (r.0 ∷ rs.0, rs.1))
            (run-Kept cs (n + added t c) r.1 k)
            (λ rs l. record { there = omega (arith, l.there); started = l.started }))
