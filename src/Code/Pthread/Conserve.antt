-- ===== src/Code/Pthread/Conserve.antt =====
-- No thread is lost and none is doubled: how often a thread stands as the current one and in the two
-- queues, over the calls of code/my_pthread.c.
pub mod Runs
pub mod Newer
use osdesignasst.Prelude.{
  ℕ, ◌+◌, ◌-◌, ◌≡◌, refl, sym, subst, Bool, true, false, Option, none, some, List, [], ◌∷◌, ◌++◌,
  ◌==◌, leb, not, if◌then◌else◌, Outcome, Fault, ok, fault, hang, ◌>>=◌, ◌≢◌, count, count-append,
  ones, Bool-cases, inl, inr, get_elem?, set, arith,
}
use osdesignasst.Pthread.State.{Mutex, Status, success, failure, max_mutex_num}
use osdesignasst.Code.Pthread.{
  ThreadInfo, Threads, write, take_waiting, insert_tail, schedule_from, schedule, wait_from,
  schedule_swap_current_to_wait, timer_handler, with_taken, release_thread,
}
use osdesignasst.Code.Pthread.Mutexes
use osdesignasst.Code.Pthread.Life
use osdesignasst.Code.Pthread.Refine.Calls.{no_info}
use osdesignasst.Code.Pthread.Refine.Runs.{
  Call, lock, unlock, destroy, join, mutex_init, yield, tick, create, Reply, status, handle,
  nothing, call_before, run_before, answered_before, handed_before,
}

-- The run does not hang, and if it ends well, its value meets `P`.
abbrev pub Each : {A : Type 0} → Outcome A → (A → Type 0) → Type 0
Each (ok a) P = P a
Each (fault e) P = e ≢ hang

pub Each-bind :
    {A B : Type 0} {P : A → Type 0} (Q : B → Type 0) (m : Outcome A) (f : A → Outcome B)
    → Each m P
    → ((a : A) → P a → Each (f a) Q)
    → Each (m >>= f) Q
Each-bind Q (ok a) f h k = k a h
Each-bind Q (fault e) f h k = h

module _ (t : ℕ) where
  abbrev pub is_it : ℕ → Bool
  is_it u = t == u

  abbrev pub running : Option ℕ → ℕ
  running none = 0
  running (some c) = ones is_it c

  -- How often the thread `t` is there.
  abbrev pub places : Option ℕ → List ℕ → List ℕ → ℕ
  places current ready wait = running current + count is_it ready + count is_it wait

  -- A thread is added by each `create` that gets memory for it.
  abbrev pub added : Call → ℕ
  added (create ti) = running ti
  added _ = 0

  abbrev pub created : List Call → ℕ
  created [] = 0
  created (c ∷ cs) = added c + created cs

  count-take_waiting :
      (info : ℕ → ThreadInfo) (mu : ℕ) (ws : List ℕ)
      → count is_it (take_waiting info mu ws).0 + running (take_waiting info mu ws).1
        ≡ count is_it ws
  unfolding take_waiting
  count-take_waiting info mu [] = refl
  count-take_waiting info mu (w ∷ ws) = ground (arith, count-take_waiting info mu ws)

  count-insert_tail :
      (q : List ℕ) (o : Option ℕ) → count is_it (insert_tail q o) ≡ count is_it q + running o
  count-insert_tail q none = omega arith
  count-insert_tail q (some x) = omega (arith, count-append is_it q (x ∷ []))

  module _ {Page : Type 0} where
    pub record Kept (n : ℕ) (u : Threads Page) : Type 0 where
      pub there : places u.current u.ready u.wait ≡ n
      pub started : u.pthread_init ≡ true

    schedule_from-Kept :
        {n : ℕ} (q : List ℕ) (c : Option ℕ) (u : Threads Page)
        → Kept n u
        → places c q u.wait ≡ n
        → Kept n (schedule_from q c u)
    schedule_from-Kept [] c u v h = v
    schedule_from-Kept (x ∷ rest) none u v h = record {
      there = omega (arith, h);
      started = v.started;
    }
    schedule_from-Kept (x ∷ rest) (some tmp) u v h = record {
      there = omega (arith, h, count-append is_it rest (tmp ∷ []));
      started = v.started;
    }

    pub schedule-Kept : {n : ℕ} (u : Threads Page) → Kept n u → Kept n (schedule u)
    unfolding schedule
    schedule-Kept u v = schedule_from-Kept u.ready u.current u v v.there

    wait_from-Kept :
        {n : ℕ} (q : List ℕ) (c : Option ℕ) (u : Threads Page)
        → Kept n u
        → places c q u.wait ≡ n
        → Each (wait_from q c u) (Kept n)
    wait_from-Kept [] c u v h = v
    wait_from-Kept (x ∷ rest) none u v h = λ e. cc
    wait_from-Kept (x ∷ rest) (some tmp) u v h = record {
      there = omega (arith, h, count-append is_it u.wait (tmp ∷ []));
      started = v.started;
    }

    wait_for-Kept :
        {n : ℕ} (mu : ℕ) (o : Option ℕ) (u : Threads Page)
        → Kept n u
        → Each (Mutexes.wait_for mu o u) (Kept n)
    unfolding schedule_swap_current_to_wait
    wait_for-Kept mu none u v = λ e. cc
    wait_for-Kept mu (some c) u v =
        wait_from-Kept u.ready u.current _ (record { there = v.there; started = v.started }) v.there

    release_thread-Kept :
        {n : ℕ} (mu : ℕ) (u : Threads Page) → Kept n u → Kept n (release_thread mu u)
    unfolding release_thread
    release_thread-Kept mu u v = record {
      there = omega (
        arith,
        v.there,
        count-take_waiting u.info mu u.wait,
        count-insert_tail u.ready (take_waiting u.info mu u.wait).1,
      );
      started = v.started;
    }

    -- The value is an answer with a state.
    abbrev pub KeptWith : {A : Type 0} → ℕ → A × Threads Page → Type 0
    KeptWith n r = Kept n r.1

    take_or_wait-Kept :
        {n : ℕ} (free waited : Option Status) (mu : ℕ) (m : Mutex) (u : Threads Page)
        → Kept n u
        → Each (Mutexes.take_or_wait free waited mu m u) (KeptWith n)
    unfolding Mutexes.take_or_wait
    take_or_wait-Kept {n} free waited mu m u v = elim (Bool-cases (0 == m.count)) [
      | inl clear ↦ rw clear (record { there = v.there; started = v.started })
      | inr held ↦ rw held (
          Each-bind (KeptWith n) _ (λ u₁. ok (waited, u₁))
            (wait_for-Kept mu u.current _ (record { there = v.there; started = v.started }))
            (λ a k. k))
    ]

    guarded-Kept :
        {n : ℕ} (mu : ℕ) (u : Threads Page) (m : Mutex)
        (body : Outcome (Option Status × Threads Page))
        → Kept n u
        → Each body (KeptWith n)
        → Each (Mutexes.guarded mu u m body) (KeptWith n)
    guarded-Kept mu u m body v k = elim (Bool-cases (not m.used)) [
      | inl unused ↦ rw unused v
      | inr used ↦ elim (Bool-cases (leb max_mutex_num mu)) [
        | inl out ↦ rw (used, out) v
        | inr inside ↦ rw (used, inside) k
      ]
    ]

    pub lock_at-Kept :
        {n : ℕ} (mu : ℕ) (u : Threads Page) (o : Option Mutex)
        → Kept n u
        → Each (Mutexes.lock_at mu u o) (KeptWith n)
    lock_at-Kept mu u none v = λ e. cc
    lock_at-Kept mu u (some m) v =
        guarded-Kept mu u m _ v (take_or_wait-Kept (some success) none mu m u v)

    pub join_at-Kept :
        {n : ℕ} (mu : ℕ) (u : Threads Page) (o : Option Mutex)
        → Kept n u
        → Each (Life.join_at mu u o) (KeptWith n)
    join_at-Kept mu u none v = λ e. cc
    join_at-Kept mu u (some m) v =
        guarded-Kept mu u m _ v (take_or_wait-Kept (some success) (some success) mu m u v)

    pub unlock_at-Kept :
        {n : ℕ} (mu : ℕ) (u : Threads Page) (o : Option Mutex)
        → Kept n u
        → Each (Mutexes.unlock_at mu u o) (KeptWith n)
    unlock_at-Kept mu u none v = λ e. cc
    unlock_at-Kept {n} mu u (some m) v = guarded-Kept mu u m _ v (elim (Bool-cases (0 == m.count)) [
      | inl clear ↦ rw clear v
      | inr held ↦ elim (Bool-cases (1 == m.count)) [
        | inl one ↦ rw (held, one) counted
        | inr more ↦ rw (held, more) (release_thread-Kept mu _ counted)
      ]
    ])
      where
        counted : Kept n (Mutexes.with_mutex u mu (record m { count = m.count - 1 }))
        counted = record { there = v.there; started = v.started }

    pub destroy_at-Kept :
        {n : ℕ} (mu : ℕ) (u : Threads Page) (o : Option Mutex)
        → Kept n u
        → Each (Mutexes.destroy_at mu u o) (KeptWith n)
    destroy_at-Kept mu u none v = λ e. cc
    destroy_at-Kept mu u (some m) v =
        guarded-Kept mu u m _ v (record { there = v.there; started = v.started })

    pub init_with-Kept :
        {n : ℕ} (u : Threads Page) (r : Option ℕ × List Mutex)
        → Kept n u
        → Each (Mutexes.init_with u r) (KeptWith n)
    init_with-Kept u (none, table) v = λ e. cc
    init_with-Kept u (some i, table) v = record { there = v.there; started = v.started }

    create_with-Kept :
        {n : ℕ} (ti : ℕ) (u : Threads Page) (r : Option ℕ × List Mutex)
        → Kept n u
        → Each
            (Life.create_with ti no_info
              (record u { threads_cnt = u.threads_cnt + 1; ready = u.ready ++ ti ∷ [] })
              r)
            (KeptWith (n + ones is_it ti))
    create_with-Kept ti u (none, table) v = λ e. cc
    create_with-Kept ti u (some i, table) v = record {
      there = omega (arith, v.there, count-append is_it u.ready (ti ∷ []));
      started = v.started;
    }

    pub create_thread-Kept :
        {n : ℕ} (ti : Option ℕ) (u : Threads Page)
        → Kept n u
        → Each (Life.create_thread ti no_info u) (KeptWith (n + running ti))
    create_thread-Kept none u v = λ e. cc
    create_thread-Kept (some ti) u v = create_with-Kept ti u (Mutexes.alloc_mutex u.mutexes) v

    pub answered-Kept :
        (n : ℕ) (m : Outcome (Option Status × Threads Page))
        → Each m (KeptWith n)
        → Each (m >>= answered_before) (KeptWith (n + 0))
    answered-Kept n m k =
        Each-bind (KeptWith (n + 0)) m answered_before k
          (λ a v. record { there = omega (arith, v.there); started = v.started })

    pub handed-Kept :
        (n l : ℕ) (m : Outcome (ℕ × Threads Page))
        → n ≡ l
        → Each m (KeptWith n)
        → Each (m >>= handed_before) (KeptWith l)
    handed-Kept n l m e k =
        Each-bind (KeptWith l) m handed_before k
          (λ a v. record { there = omega (arith, v.there, e); started = v.started })
