-- ===== src/Benchmark/Start/Create.antt =====
-- Benchmark/*.c: `main` up to its first `pthread_join`: `pthread_mutex_init`, and the loop of
-- `pthread_create`, with no tick of the timer in them. `main` has its counters and handles, which it gets
-- from the page of id 0, up to 128 threads. `malloc` gives worker `i` the `thread_info_t` at `i`, and the main thread one behind.
use osdesignasst.Prelude.{
  ℕ, zero, suc, ◌+◌, ◌-◌, ◌≤◌, ◌<◌, ◌≡◌, refl, sym, ap, ◌∙◌, subst, true, false, none, some, List,
  [], ◌∷◌, ◌++◌, if◌then◌else◌, Outcome, ok, ◌>>=◌, Returns, replicate, get_elem?, set, length,
  length-append, length-replicate, count, arith,
}
use osdesignasst.Pthread.State.{max_mutex_num}
use osdesignasst.Code.Pthread.{ThreadInfo, Threads, write}
use osdesignasst.Code.Pthread.Mutexes.{alloc_mutex, my_pthread_mutex_init}
use osdesignasst.Code.Pthread.Life.{my_pthread_init, my_pthread_create, create_thread, create_with}
use osdesignasst.Code.Pthread.Conserve.{is_it, running}
use osdesignasst.Benchmark.Lock.{HasPage}
use osdesignasst.Benchmark.Start.{IsStart}
use osdesignasst.Benchmark.Start.Table.{
  unused, held, table, allocated, set-held, alloc_mutex-table, up_to, none_above, count-up_to,
}

module _ {Page : Type 0} (thread_num : ℕ) (left : ThreadInfo) where
  -- The loop over the threads, `n` rounds from worker `i` on. `left` is what a fresh `thread_info_t` holds.
  unfoldable pub create_loop : (n i : ℕ) → Threads Page → Outcome (Threads Page)
  unfolding my_pthread_create my_pthread_init
  create_loop zero i u = ok u
  create_loop (suc n) i u = do
    r ← my_pthread_create (my_pthread_init (some thread_num) left) (some i) left u
    create_loop n (i + 1) r.1

  -- The handle of the mutex, and the library behind the loop.
  unfoldable pub main_start : Threads Page → Outcome (ℕ × Threads Page)
  unfolding my_pthread_mutex_init create_loop
  main_start u = do r ← my_pthread_mutex_init u; u₁ ← create_loop thread_num 0 r.1; ok (r.0, u₁)

-- The process at its start, with its heap; the pages that the ends of the threads will clear are in it, and
-- not that of id 0.
pub record IsFresh {Page : Type 0} (freed_tid : ℕ → ℕ) (u : Threads Page) : Type 0 where
  pub nobody : u.current ≡ none
  pub ready : u.ready ≡ []
  pub wait : u.wait ≡ []
  pub mutexes : u.mutexes ≡ replicate max_mutex_num (record { used = false; count = 0 })
  pub started : u.pthread_init ≡ false
  pub page : HasPage freed_tid u.pool

module _ {Page : Type 0} (thread_num : ℕ) (freed_tid : ℕ → ℕ) where
  -- The library after `k` rounds of the loop, with `m` free entries left.
  pub record Created (k m : ℕ) (u : Threads Page) : Type 0 where
    pub total : k + m ≡ 30
    pub main : u.current ≡ some thread_num
    pub ready : u.ready ≡ up_to k
    pub wait : u.wait ≡ []
    pub mutexes : u.mutexes ≡ table k m
    pub started : u.pthread_init ≡ true
    pub page : HasPage freed_tid u.pool
    pub tids : (t : ℕ) → t < k → (u.info t).tid ≡ 2 + t

  Created-IsStart :
      (shares : List (List ℕ)) (u : Threads Page)
      → length shares ≡ thread_num
      → thread_num ≤ 30
      → Created thread_num (30 - thread_num) u
      → IsStart 1 freed_tid shares u
  Created-IsStart shares u len few v = record {
    in_table = omega arith;
    few = omega arith;
    size =
        ap length v.mutexes
        ∙ omega (
          arith,
          length-append (replicate thread_num held) (replicate (30 - thread_num) unused),
          length-replicate thread_num held,
          length-replicate (30 - thread_num) unused,
        );
    page = v.page;
    running = v.main ∙ ap some (sym len);
    ready = v.ready ∙ ap up_to (sym len);
    once = λ t.
        let r = ap (running t) v.main in
        let q = ap (count (is_it t)) v.ready in
        let w = ap (count (is_it t)) v.wait in
        let small = count-up_to t thread_num in let above = none_above t thread_num in ground arith;
    entry = ap (λ m. get_elem? m 1) v.mutexes;
    nobody = v.wait;
    own = λ t k lt lt' e.
        (let i = v.tids t (omega arith) in let j = v.tids k (omega arith) in omega arith);
    tids = λ t lt. let e = v.tids t (omega arith) in (omega arith, omega arith);
  }

  create_thread-Created :
      (left : ThreadInfo) (k m : ℕ) (u : Threads Page)
      → Created k (suc m) u
      → Returns (create_thread (some k) left u) (λ r. Created (suc k) m r.1)
  create_thread-Created left k m u v =
      let next = record u { threads_cnt = u.threads_cnt + 1; ready = u.ready ++ k ∷ [] } in
      let index : 2 + k ≡ suc (suc k) = omega arith in
      let at : set (allocated k m) (2 + k) held ≡ table (suc k) m =
        ap (λ (i : ℕ). set (allocated k m) i held) index
        ∙ ap (λ t. unused ∷ record { used = true; count = 0 } ∷ t) (set-held k m) in
      (
        (
          2 + k,
          record next {
            info = write u.info k (record left { tid = 2 + k });
            mutexes = set (allocated k m) (2 + k) held;
          },
        ),
        ap (create_with k left next) (ap alloc_mutex v.mutexes ∙ alloc_mutex-table k m),
        record {
          total = omega (arith, v.total);
          main = v.main;
          ready = ap (λ q. q ++ k ∷ []) v.ready;
          wait = v.wait;
          mutexes = at;
          started = v.started;
          page = v.page;
          tids = λ t lt. let old = v.tids t in ground (arith, old);
        },
      )

  -- A round of the loop, once the library is started.
  pub create-Created :
      (begin : Threads Page → Outcome (Threads Page)) (left : ThreadInfo) (k m : ℕ)
      (u : Threads Page)
      → Created k (suc m) u
      → Returns (my_pthread_create begin (some k) left u) (λ r. Created (suc k) m r.1)
  unfolding my_pthread_create
  create-Created begin left k m u v =
      let (r, runs, w) = create_thread-Created left k m u v in
      (
        r,
        ap
              (λ b.
                (if b then ok u else (begin u >>= λ s₁. ok (record s₁ { pthread_init = true })))
                >>= λ s₁. create_thread (some k) left s₁)
              v.started
            ∙ runs,
        w,
      )

  pub create_loop-Created :
      (left : ThreadInfo) (n k m j l : ℕ) (u : Threads Page)
      → j ≡ k + n
      → l ≡ n + m
      → Created k l u
      → Returns (create_loop thread_num left n k u) (Created j m)
  unfolding create_loop
  create_loop-Created left zero k m j l u ej el v = (
    u,
    refl,
    subst (λ (i : ℕ). Created i m u) (omega arith)
        (subst (λ (i : ℕ). Created k i u) (omega arith) v),
  )
  create_loop-Created left (suc n) k m j l u ej el v =
      let (r, one, w) =
        create-Created (my_pthread_init (some thread_num) left) left k (n + m) u
          (subst (λ (i : ℕ). Created k i u) (omega arith) v) in
      let w' : Created (k + 1) (n + m) r.1 =
        subst (λ (i : ℕ). Created i (n + m) r.1) (omega arith) w in
      let (u', rest, last) =
        create_loop-Created left n (k + 1) m j (n + m) r.1 (omega arith) refl w' in
      (u', ap (λ o. o >>= λ q. create_loop thread_num left n (k + 1) q.1) one ∙ rest, last)

  module _ (left : ThreadInfo) (u : Threads Page) (v : IsFresh freed_tid u) where
    abbrev pub with_table : Threads Page
    with_table = record u { mutexes = table 0 30 }

    -- `my_pthread_init`, in the first call of `pthread_create`.
    abbrev pub begun : Threads Page
    begun = record with_table {
      timer = 25000;
      current = some thread_num;
      info = write u.info thread_num left;
      pthread_init = true;
    }

    pub begun-Created : Created 0 30 begun
    begun-Created = record {
      total = refl;
      main = refl;
      ready = v.ready;
      wait = v.wait;
      mutexes = refl;
      started = refl;
      page = v.page;
      tids = λ t lt. absurd (omega arith);
    }

    pub init_mutex : my_pthread_mutex_init u ≡ ok (1, with_table)
    unfolding my_pthread_mutex_init alloc_mutex
    init_mutex = rw v.mutexes refl

    first_call :
        my_pthread_create (my_pthread_init (some thread_num) left) (some 0) left with_table
        ≡ my_pthread_create (my_pthread_init (some thread_num) left) (some 0) left begun
    unfolding my_pthread_create my_pthread_init
    first_call =
        ap
          (λ b.
            (if b
              then ok with_table
              else (my_pthread_init (some thread_num) left with_table >>= λ s₁.
                  ok (record s₁ { pthread_init = true })))
            >>= λ s₁. create_thread (some 0) left s₁)
          v.started

    pub loop_begun :
        (n : ℕ)
        → create_loop thread_num left (suc n) 0 with_table
          ≡ create_loop thread_num left (suc n) 0 begun
    unfolding create_loop
    loop_begun n =
        ap
          (λ (o : Outcome (ℕ × Threads Page)).
            o >>= λ (q : ℕ × Threads Page). create_loop thread_num left n 1 q.1)
          first_call

    -- With 1 to 30 threads `main` gets to its first join.
    main_start-Created :
        0 < thread_num
        → thread_num ≤ 30
        → Returns
            (main_start thread_num left u)
            (λ r. (r.0 ≡ 1) × Created thread_num (30 - thread_num) r.1)
    unfolding main_start
    main_start-Created pos few =
        let e : thread_num ≡ suc (thread_num - 1) = omega arith in
        let (u', runs, w) =
          create_loop-Created left thread_num 0 (30 - thread_num) thread_num 30 begun (omega arith)
            (omega arith) begun-Created in
        let whole =
          ap (λ (n : ℕ). create_loop thread_num left n 0 with_table) e
          ∙ loop_begun (thread_num - 1)
          ∙ ap (λ (n : ℕ). create_loop thread_num left n 0 begun) (sym e)
          ∙ runs in
        (
          (1, u'),
          ap
                (λ (m : Outcome (ℕ × Threads Page)). m >>= λ (r : ℕ × Threads Page).
                  create_loop thread_num left thread_num 0 r.1 >>= λ (u₁ : Threads Page).
                  ok (r.0, u₁))
                init_mutex
              ∙ ap (λ (m : Outcome (Threads Page)). m >>= λ (u₁ : Threads Page). ok (1, u₁)) whole,
          (refl, w),
        )

    pub main_start-IsStart :
        (shares : List (List ℕ))
        → length shares ≡ thread_num
        → 0 < thread_num
        → thread_num ≤ 30
        → Returns (main_start thread_num left u) (λ r. (r.0 ≡ 1) × IsStart 1 freed_tid shares r.1)
    main_start-IsStart shares size pos few =
        let (r, runs, (handle, w)) = main_start-Created pos few in
        (r, runs, (handle, Created-IsStart shares r.1 size few w))
