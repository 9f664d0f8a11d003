-- ===== src/Benchmark/Start/Full.antt =====
-- Benchmark/*.c: `main` with more threads than the library has ids.
use osdesignasst.Prelude.{
  ℕ, zero, suc, ◌+◌, ◌-◌, ◌<◌, ◌≤◌, ◌≡◌, refl, sym, ap, ◌∙◌, subst, true, none, some, List, [], ◌∷◌,
  ◌++◌, if◌then◌else◌, Outcome, ok, Returns, ◌>>=◌, arith, fault, out_of_bounds, Option,
}
use osdesignasst.Pthread.State.{Mutex}
use osdesignasst.Code.Pthread.{ThreadInfo, Threads}
use osdesignasst.Code.Pthread.Mutexes.{alloc_mutex, my_pthread_mutex_init}
use osdesignasst.Code.Pthread.Life.{my_pthread_init, my_pthread_create, create_thread, create_with}
use osdesignasst.Benchmark.Start.Table.{up_to, alloc_mutex-none}
use osdesignasst.Benchmark.Start.Create.{
  create_loop, main_start, IsFresh, Created, create-Created, create_loop-Created, with_table, begun,
  begun-Created, init_mutex, loop_begun,
}

module _ {Page : Type 0} (thread_num : ℕ) (freed_tid : ℕ → ℕ) (left : ThreadInfo) where
  abbrev pub begin : Threads Page → Outcome (Threads Page)
  begin = my_pthread_init (some thread_num) left

  no_id :
      (k : ℕ) (u : Threads Page) (r : Option ℕ × List Mutex)
      → r.0 ≡ none
      → create_with k left u r ≡ fault out_of_bounds
  no_id k u (none, after) e = refl
  no_id k u (some tid, after) e = cc

  -- Without a free id the next thread cannot be created.
  create_full :
      (k : ℕ) (u : Threads Page)
      → Created thread_num freed_tid k 0 u
      → my_pthread_create begin (some k) left u ≡ fault out_of_bounds
  unfolding my_pthread_create
  create_full k u v =
      ap
        (λ b.
          (if b then ok u else (begin u >>= λ s₁. ok (record s₁ { pthread_init = true }))) >>= λ s₁.
          create_thread (some k) left s₁)
        v.started
      ∙ no_id k (record u { threads_cnt = u.threads_cnt + 1; ready = u.ready ++ k ∷ [] })
          (alloc_mutex u.mutexes) (ap (λ t. (alloc_mutex t).0) v.mutexes ∙ alloc_mutex-none k)

  create_loop_full :
      (n m k : ℕ) (u : Threads Page)
      → m < n
      → Created thread_num freed_tid k m u
      → create_loop thread_num left n k u ≡ fault out_of_bounds
  unfolding create_loop
  create_loop_full zero m k u lt v = absurd (omega arith)
  create_loop_full (suc n) zero k u lt v =
      ap (λ (o : Outcome (ℕ × Threads Page)). o >>= λ q. create_loop thread_num left n (k + 1) q.1)
        (create_full k u v)
  create_loop_full (suc n) (suc m) k u lt v =
      let (r, one, w) = create-Created thread_num freed_tid begin left k m u v in
      let w' : Created thread_num freed_tid (k + 1) m r.1 =
        subst (λ (i : ℕ). Created thread_num freed_tid i m r.1) (omega arith) w in
      ap (λ (o : Outcome (ℕ × Threads Page)). o >>= λ q. create_loop thread_num left n (k + 1) q.1)
        one
      ∙ create_loop_full n m (k + 1) r.1 (omega arith) w'

  -- The loop of `main` up to the id that it does not get: 30 threads, and the next one.
  abbrev pub RunsOut : Threads Page → Type 0
  RunsOut u =
      Returns (create_loop thread_num left 30 0 u) (λ w.
        (w.ready ≡ up_to 30) × (my_pthread_create begin (some 30) left w ≡ fault out_of_bounds))

  pub main_start_full :
      (u : Threads Page)
      → IsFresh freed_tid u
      → 30 < thread_num
      → thread_num ≤ 128
      → Returns (my_pthread_mutex_init u) (λ r. RunsOut r.1)
        × (main_start thread_num left u ≡ fault out_of_bounds)
  unfolding main_start
  main_start_full u v many few =
      let e : thread_num ≡ suc (thread_num - 1) = omega arith in
      let first = begun thread_num freed_tid left u v in
      let fresh = begun-Created thread_num freed_tid left u v in
      let (w, runs, full) =
        create_loop-Created thread_num freed_tid left 30 0 0 30 30 first refl refl fresh in
      let whole =
        ap (λ (n : ℕ). create_loop thread_num left n 0 (with_table thread_num freed_tid left u v)) e
        ∙ loop_begun thread_num freed_tid left u v (thread_num - 1)
        ∙ ap (λ (n : ℕ). create_loop thread_num left n 0 first) (sym e)
        ∙ create_loop_full thread_num 30 0 first many fresh in
      (
        (
          (1, with_table thread_num freed_tid left u v),
          init_mutex thread_num freed_tid left u v,
          (
            w,
            loop_begun thread_num freed_tid left u v 29 ∙ runs,
            (full.ready, create_full 30 w full),
          ),
        ),
        ap
              (λ (m : Outcome (ℕ × Threads Page)). m >>= λ (r : ℕ × Threads Page).
                create_loop thread_num left thread_num 0 r.1 >>= λ (u₁ : Threads Page).
                ok (r.0, u₁))
              (init_mutex thread_num freed_tid left u v)
            ∙ ap (λ (m : Outcome (Threads Page)). m >>= λ (u₁ : Threads Page). ok (1, u₁)) whole,
      )
