-- ===== src/Code/Pthread/Refine/Runs.antt =====
-- Programs against the two libraries: a list of calls, each made by the thread that runs then, and
-- the replies that they get.
use osdesignasst.Prelude.{
  ℕ, ◌+◌, ◌≡◌, ◌⊎◌, refl, inl, inr, sym, ap, ◌∙◌, subst, Bool, true, false, none, some, Option,
  List, [], ◌∷◌, ◌++◌, if◌then◌else◌, Outcome, ok, panic, ◌>>=◌, get_elem?, arith,
}
use osdesignasst.Pthread.State.{Pthread, Memory, Mutex, Status, success, after_swap}
use osdesignasst.Pthread.State
use osdesignasst.Pthread.Mutex as Table
use osdesignasst.Pthread.Sched
use osdesignasst.Pthread.Thread
use osdesignasst.Code.Pthread as Earlier
use osdesignasst.Code.Pthread.{ThreadInfo, Threads, write}
use osdesignasst.Code.Pthread.Mutexes
use osdesignasst.Code.Pthread.Life
use osdesignasst.Code.Pthread.Refine.{Sim, Agree, both, faults, Agree-bind, schedule-Sim}
use osdesignasst.Code.Pthread.Refine.Calls.{
  SameAnswer, alloc_mutex-eq, lock_at-Sim, join_at-Sim, unlock_at-Sim, destroy_at-Sim, SameId,
  init_with-Sim, create_with-Sim, no_info,
}

-- The calls of the library, with the memory that `malloc` gives a new thread, and a tick of the timer.
pub data Call : Type 0 where
  lock unlock destroy join : ℕ → Call
  mutex_init yield tick : Call
  create : Option ℕ → Call

-- What the caller gets. `status none` is the value of a function that ends without `return`.
pub data Reply : Type 0 where
  status : Option Status → Reply
  handle : ℕ → Reply
  nothing : Reply

module _ {Vm : Type 0} where
  abbrev pub answered : Status × Pthread Vm → Outcome (Reply × Pthread Vm)
  answered (a, s) = ok (status (some a), s)

  abbrev pub handed : ℕ × Pthread Vm → Outcome (Reply × Pthread Vm)
  handed (h, s) = ok (handle h, s)

  -- A call of tmp2/my_pthread.c; `start` is its `my_pthread_init`.
  unfoldable pub call :
      Memory Vm
      → (start : Pthread Vm → Outcome (Pthread Vm)) → Call
      → Pthread Vm
      → Outcome (Reply × Pthread Vm)
  call memory start (lock mu) s = Table.my_pthread_mutex_lock memory mu s >>= answered
  call memory start (unlock mu) s = Table.my_pthread_mutex_unlock mu s >>= answered
  call memory start (destroy mu) s = Table.my_pthread_mutex_destroy mu s >>= answered
  call memory start (join t) s = Thread.my_pthread_join memory t s >>= answered
  call memory start mutex_init s = Table.my_pthread_mutex_init s >>= handed
  call memory start yield s = Thread.my_pthread_yield memory s >>= answered
  call memory start tick s = Sched.timer_handler memory s >>= λ s₁. ok (nothing, s₁)
  call memory start (create ti) s = Thread.my_pthread_create start ti s >>= handed

  unfoldable pub run :
      Memory Vm
      → (start : Pthread Vm → Outcome (Pthread Vm)) → List Call
      → Pthread Vm
      → Outcome (List Reply × Pthread Vm)
  unfolding call
  run memory start [] s = ok ([], s)
  run memory start (c ∷ cs) s = do
    r ← call memory start c s
    rs ← run memory start cs r.1
    ok (r.0 ∷ rs.0, rs.1)

module _ {Page : Type 0} where
  abbrev pub answered_before : Option Status × Threads Page → Outcome (Reply × Threads Page)
  answered_before (a, u) = ok (status a, u)

  abbrev pub handed_before : ℕ × Threads Page → Outcome (Reply × Threads Page)
  handed_before (h, u) = ok (handle h, u)

  -- The same call of code/my_pthread.c. The `thread_info_t` of a new thread is cleared, as in tmp2/.
  unfoldable pub call_before :
      (start : Threads Page → Outcome (Threads Page))
      → Call
      → Threads Page
      → Outcome (Reply × Threads Page)
  call_before start (lock mu) u = Mutexes.my_pthread_mutex_lock mu u >>= answered_before
  call_before start (unlock mu) u = Mutexes.my_pthread_mutex_unlock mu u >>= answered_before
  call_before start (destroy mu) u = Mutexes.my_pthread_mutex_destroy mu u >>= answered_before
  call_before start (join t) u = Life.my_pthread_join t u >>= answered_before
  call_before start mutex_init u = Mutexes.my_pthread_mutex_init u >>= handed_before
  call_before start yield u = let r = Life.my_pthread_yield u in answered_before (some r.0, r.1)
  call_before start tick u = ok (nothing, Earlier.timer_handler u)
  call_before start (create ti) u = Life.my_pthread_create start ti no_info u >>= handed_before

  unfoldable pub run_before :
      (start : Threads Page → Outcome (Threads Page))
      → List Call
      → Threads Page
      → Outcome (List Reply × Threads Page)
  unfolding call_before
  run_before start [] u = ok ([], u)
  run_before start (c ∷ cs) u = do
    r ← call_before start c u
    rs ← run_before start cs r.1
    ok (r.0 ∷ rs.0, rs.1)

-- A reply of code/ is that of tmp2/, or is not set.
abbrev pub Matches : Reply → Reply → Type 0
Matches r q = (q ≡ status none) ⊎ (q ≡ r)

pub data AllMatch : List Reply → List Reply → Type 0 where
  done : AllMatch [] []
  next :
      {r q : Reply} {rs qs : List Reply} → Matches r q → AllMatch rs qs → AllMatch (r ∷ rs) (q ∷ qs)

pub record SameReply {Vm Page : Type 0} (a : Reply × Pthread Vm) (b : Reply × Threads Page)
    : Type 0 where
  pub reply : Matches a.0 b.0
  pub sim : Sim a.1 b.1

pub record SameRun {Vm Page : Type 0} (a : List Reply × Pthread Vm) (b : List Reply × Threads Page)
    : Type 0 where
  pub replies : AllMatch a.0 b.0
  pub sim : Sim a.1 b.1

module _ {Vm Page : Type 0} where
  answered-Sim :
      {p : Outcome (Status × Pthread Vm)} {q : Outcome (Option Status × Threads Page)}
      → Agree SameAnswer p q
      → Agree SameReply (p >>= answered) (q >>= answered_before)
  answered-Sim r =
      Agree-bind answered answered_before r (λ a b x. both (record { reply = same x; sim = x.sim }))
    where
      same :
          {a : Status × Pthread Vm} {b : Option Status × Threads Page}
          → SameAnswer a b
          → Matches (status (some a.0)) (status b.0)
      same x = elim x.answer [ inl e ↦ inl (ap status e) | inr e ↦ inr (ap status e) ]

  handed-Sim :
      {p : Outcome (ℕ × Pthread Vm)} {q : Outcome (ℕ × Threads Page)}
      → Agree SameId p q
      → Agree SameReply (p >>= handed) (q >>= handed_before)
  handed-Sim r =
      Agree-bind handed handed_before r
        (λ a b x. both (record { reply = inr (ap handle x.id); sim = x.sim }))

module _ {Vm Page : Type 0} (memory : Memory Vm) (s : Pthread Vm) (u : Threads Page)
    (sim : Sim s u) where
  -- Both read the entry of the table first.
  at_entry :
      {A B : Type 0} (R : A → B → Type 0) (mu : ℕ) (f : Option Mutex → Outcome A)
      (g : Option Mutex → Outcome B)
      → ((o : Option Mutex) → Agree R (f o) (g o))
      → Agree R (f (get_elem? s.mutexes mu)) (g (get_elem? u.mutexes mu))
  at_entry R mu f g k =
      subst (λ t. Agree R (f (get_elem? t mu)) (g (get_elem? u.mutexes mu))) (sym sim.mutexes)
        (k (get_elem? u.mutexes mu))

  lock-Sim :
      (mu : ℕ)
      → Agree SameAnswer
          (Table.my_pthread_mutex_lock memory mu s)
          (Mutexes.my_pthread_mutex_lock mu u)
  unfolding Table.my_pthread_mutex_lock Mutexes.my_pthread_mutex_lock
  lock-Sim mu =
      at_entry SameAnswer mu (Table.lock_at memory mu s) (Mutexes.lock_at mu u)
        (λ o. lock_at-Sim memory s u mu o sim)

  join-Sim :
      (t : ℕ) → Agree SameAnswer (Thread.my_pthread_join memory t s) (Life.my_pthread_join t u)
  unfolding Thread.my_pthread_join Life.my_pthread_join
  join-Sim t =
      at_entry SameAnswer t (Thread.join_at memory t s) (Life.join_at t u)
        (λ o. join_at-Sim memory s u t o sim)

  unlock-Sim :
      (mu : ℕ)
      → Agree SameAnswer (Table.my_pthread_mutex_unlock mu s) (Mutexes.my_pthread_mutex_unlock mu u)
  unfolding Table.my_pthread_mutex_unlock Mutexes.my_pthread_mutex_unlock
  unlock-Sim mu =
      at_entry SameAnswer mu (Table.unlock_at mu s) (Mutexes.unlock_at mu u)
        (λ o. unlock_at-Sim memory s u mu o sim)

  destroy-Sim :
      (mu : ℕ)
      → Agree SameAnswer
          (Table.my_pthread_mutex_destroy mu s)
          (Mutexes.my_pthread_mutex_destroy mu u)
  unfolding Table.my_pthread_mutex_destroy Mutexes.my_pthread_mutex_destroy
  destroy-Sim mu =
      at_entry SameAnswer mu (Table.destroy_at mu s) (Mutexes.destroy_at mu u)
        (λ o. destroy_at-Sim memory s u mu o sim)

  alloc_mutex-Sim : Mutexes.alloc_mutex u.mutexes ≡ Table.alloc_mutex s.mutexes
  alloc_mutex-Sim = alloc_mutex-eq u.mutexes ∙ ap Table.alloc_mutex (sym sim.mutexes)

  mutex_init-Sim : Agree SameId (Table.my_pthread_mutex_init s) (Mutexes.my_pthread_mutex_init u)
  unfolding Table.my_pthread_mutex_init Mutexes.my_pthread_mutex_init
  mutex_init-Sim =
      subst
        (λ r.
          Agree SameId (Table.init_with s (Table.alloc_mutex s.mutexes)) (Mutexes.init_with u r))
        (sym alloc_mutex-Sim) (init_with-Sim memory s u (Table.alloc_mutex s.mutexes) sim)

  create_thread-Sim :
      (ti : Option ℕ) → Agree SameId (Thread.create_thread ti s) (Life.create_thread ti no_info u)
  create_thread-Sim none = faults panic
  create_thread-Sim (some ti) =
      subst
        (λ r. Agree SameId (Thread.create_thread (some ti) s) (
          Life.create_with ti no_info
            (record u { threads_cnt = u.threads_cnt + 1; ready = u.ready ++ ti ∷ [] }) r))
        (sym alloc_mutex-Sim) (create_with-Sim memory ti s u (Table.alloc_mutex s.mutexes) sim)

  yield-Sim :
      Agree SameReply
        (Thread.my_pthread_yield memory s >>= answered)
        (ok (some success, Earlier.schedule u) >>= answered_before)
  unfolding Thread.my_pthread_yield
  yield-Sim = answered-Sim (
      Agree-bind (λ s₁. ok (success, s₁)) (λ v. ok (some success, v)) (schedule-Sim memory s u sim)
        (λ a b r. both (record { answer = inr refl; sim = r })))

  tick-Sim :
      Agree SameReply
        (Sched.timer_handler memory s >>= λ s₁. ok (nothing, s₁))
        (ok (nothing, Earlier.timer_handler u))
  unfolding Sched.timer_handler Earlier.timer_handler
  tick-Sim =
      Agree-bind (λ s₁. ok (nothing, s₁)) (λ v. ok (nothing, v)) (schedule-Sim memory s u sim)
        (λ a b r. both (record { reply = inr refl; sim = r }))

-- `my_pthread_init` of tmp2/, where `malloc` leaves in the `thread_info_t` of the main thread what it
-- leaves there for code/.
abbrev pub start :
    {Vm : Type 0}
    → (mm_init : Vm → Outcome Vm) (main : Option ℕ) (left : ThreadInfo) → Pthread Vm
    → Outcome (Pthread Vm)
start mm_init main left s =
    Thread.my_pthread_init main (record { context = after_swap; mu = left.mu; tid = left.tid })
      mm_init s

module _ {Vm Page : Type 0} (mm_init : Vm → Outcome Vm)
    (begins : (vm : Vm) → (vm' : Vm) × (mm_init vm ≡ ok vm')) (main : Option ℕ)
    (left : ThreadInfo) where
  start-Sim :
      (s : Pthread Vm) (u : Threads Page)
      → Sim s u
      → Agree Sim
          (start mm_init main left s)
          (Life.my_pthread_init main left u >>= λ v. ok (record v { pthread_init = true }))
  unfolding Thread.my_pthread_init Life.my_pthread_init State.start_timer
  start-Sim s u sim = on main
    where
      named : ℕ → Pthread Vm
      named c = record s {
        pthread_init = true;
        timer = 25000;
        current = some c;
        info = State.write s.info c (record { context = after_swap; mu = left.mu; tid = left.tid });
      }

      earlier : ℕ → Threads Page
      earlier c = record u { timer = 25000; current = some c; info = Earlier.write u.info c left }

      named-Sim :
          (c : ℕ) (vm : Vm)
          → Agree Sim
              (ok (record (named c) { vm = vm }))
              (ok (record (earlier c) { pthread_init = true }))
      named-Sim c vm = both (record {
        looks = record {
          current = refl;
          ready = sim.looks.ready;
          wait = sim.looks.wait;
          unlocked = sim.looks.unlocked;
        };
        mutexes = sim.mutexes;
        mus = λ t. ground (arith, sim.mus t);
        tids = λ t. ground (arith, sim.tids t);
        cnt = sim.cnt;
        init = refl;
      })

      on :
          (o : Option ℕ)
          → Agree Sim
              (start mm_init o left s)
              (Life.my_pthread_init o left u >>= λ v. ok (record v { pthread_init = true }))
      on none = faults panic
      on (some c) =
          let (vm, e) = begins s.vm in
          subst
            (λ (m : Outcome Vm).
              Agree Sim (m >>= λ vm. ok (record (named c) { vm = vm }))
                (ok (record (earlier c) { pthread_init = true })))
            (sym e) (named-Sim c vm)

  started-Sim :
      (s : Pthread Vm) (u : Threads Page)
      → Sim s u
      → Agree Sim
          (Thread.ensure_started (start mm_init main left) s)
          (Life.ensure_started (Life.my_pthread_init main left) u)
  started-Sim s u sim =
      subst
        (λ b.
          Agree Sim (if b then ok s else start mm_init main left s)
            (Life.ensure_started (Life.my_pthread_init main left) u))
        (sym sim.init) (branch u.pthread_init)
    where
      branch :
          (b : Bool)
          → Agree Sim (if b then ok s else start mm_init main left s) (
              if b
              then ok u
              else do v ← Life.my_pthread_init main left u; ok (record v { pthread_init = true }))
      branch true = both sim
      branch false = start-Sim s u sim

  module _ (memory : Memory Vm) where
    create-Sim :
        (s : Pthread Vm) (u : Threads Page) (ti : Option ℕ)
        → Sim s u
        → Agree SameId
            (Thread.my_pthread_create (start mm_init main left) ti s)
            (Life.my_pthread_create (Life.my_pthread_init main left) ti no_info u)
    unfolding Thread.my_pthread_create Life.my_pthread_create
    create-Sim s u ti sim =
        Agree-bind (λ s₁. Thread.create_thread ti s₁) (λ u₁. Life.create_thread ti no_info u₁)
          (started-Sim s u sim) (λ a b r. create_thread-Sim memory a b r ti)

    -- One call.
    call-Sim :
        (c : Call) (s : Pthread Vm) (u : Threads Page)
        → Sim s u
        → Agree SameReply
            (call memory (start mm_init main left) c s)
            (call_before (Life.my_pthread_init main left) c u)
    unfolding call call_before Life.my_pthread_yield
    call-Sim (lock mu) s u sim = answered-Sim (lock-Sim memory s u sim mu)
    call-Sim (unlock mu) s u sim = answered-Sim (unlock-Sim memory s u sim mu)
    call-Sim (destroy mu) s u sim = answered-Sim (destroy-Sim memory s u sim mu)
    call-Sim (join t) s u sim = answered-Sim (join-Sim memory s u sim t)
    call-Sim mutex_init s u sim = handed-Sim (mutex_init-Sim memory s u sim)
    call-Sim yield s u sim = yield-Sim memory s u sim
    call-Sim tick s u sim = tick-Sim memory s u sim
    call-Sim (create ti) s u sim = handed-Sim (create-Sim s u ti sim)

    -- A program of locks, unlocks, inits and destroys of mutexes, yields, ticks, joins and creates, run
    -- from related states, ends in tmp2/ as it does in code/: with the same fault, or with the same
    -- replies, except where code/ has none, in related states. `malloc` gives both the same memory, and
    -- cleared memory for a new thread, which tmp2/ clears itself, and `mm_init` of tmp2/ does not end the
    -- process.
    pub run-Sim :
        (cs : List Call) (s : Pthread Vm) (u : Threads Page)
        → Sim s u
        → Agree SameRun
            (run memory (start mm_init main left) cs s)
            (run_before (Life.my_pthread_init main left) cs u)
    unfolding run run_before
    run-Sim [] s u sim = both (record { replies = done; sim = sim })
    run-Sim (c ∷ cs) s u sim =
        Agree-bind
          (λ r. run memory (start mm_init main left) cs r.1 >>= λ rs. ok (r.0 ∷ rs.0, rs.1))
          (λ q. run_before (Life.my_pthread_init main left) cs q.1 >>= λ qs. ok (q.0 ∷ qs.0, qs.1))
          (call-Sim c s u sim)
          (λ r q one.
            Agree-bind (λ rs. ok (r.0 ∷ rs.0, rs.1)) (λ qs. ok (q.0 ∷ qs.0, qs.1))
              (run-Sim cs r.1 q.1 one.sim)
              (λ rs qs rest.
                both (record { replies = next one.reply rest.replies; sim = rest.sim })))
