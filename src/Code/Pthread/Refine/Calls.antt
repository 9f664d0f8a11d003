-- ===== src/Code/Pthread/Refine/Calls.antt =====
-- tmp2/my_pthread.c does what code/my_pthread.c does: the calls on mutexes and threads.
use osdesignasst.Prelude.{
  ℕ, suc, ◌-◌, ◌+◌, ◌≡◌, ◌⊎◌, refl, inl, inr, sym, ap, ◌∙◌, subst, true, false, none, some, Option,
  List, [], ◌∷◌, ◌++◌, ◌==◌, leb, not, if◌then◌else◌, Outcome, ok, segv, out_of_bounds, panic,
  ◌>>=◌, Bool-cases, set, find_index?, later, arith,
}
use osdesignasst.Pthread.State.{
  Pthread, Memory, Mutex, Status, success, failure, max_mutex_num, bump, at_stub, after_swap,
}
use osdesignasst.Pthread.State
use osdesignasst.Pthread.State.Spin.{acquire-free}
use osdesignasst.Pthread.Mutex as Table
use osdesignasst.Pthread.Sched
use osdesignasst.Pthread.Thread
use osdesignasst.Code.Pthread.{ThreadInfo, Threads, write}
use osdesignasst.Code.Pthread.Mutexes
use osdesignasst.Code.Pthread.Life
use osdesignasst.Code.Pthread.Refine.{
  Sim, Agree, both, faults, Agree-bind, swap_to_wait-Sim, release_thread-Sim,
}

-- The answer of code/ is that of tmp2/, or none was given; and the states are related.
pub record SameAnswer {Vm Page : Type 0} (a : Status × Pthread Vm)
    (b : Option Status × Threads Page) : Type 0 where
  pub answer : (b.0 ≡ none) ⊎ (b.0 ≡ some a.0)
  pub sim : Sim a.1 b.1

abbrev found_from : (i : ℕ) → List Mutex → Option ℕ → Option ℕ × List Mutex
found_from i table none = (none, table)
found_from i table (some k) = (some (i + k), set table k Table.allocated)

found_from-later :
    (i : ℕ) (m : Mutex) (rest : List Mutex) (o : Option ℕ)
    → found_from i (m ∷ rest) (later o) ≡ (let r = found_from (i + 1) rest o in (r.0, m ∷ r.1))
found_from-later i m rest none = refl
found_from-later i m rest (some k) =
    ap (λ (n : ℕ). (some n, m ∷ set rest k Table.allocated)) (omega arith)

alloc_from-eq :
    (i : ℕ) (table : List Mutex)
    → Mutexes.alloc_from i table ≡ found_from i table (find_index? Table.is_unused table)
unfolding Mutexes.alloc_from
alloc_from-eq i [] = refl
alloc_from-eq i (m ∷ rest) = elim (Bool-cases (not m.used)) [
  | inl free ↦ rw free (ap (λ (n : ℕ). (some n, Table.allocated ∷ rest)) (omega arith))
  | inr taken ↦ rw taken (
      ap (λ (r : Option ℕ × List Mutex). (r.0, m ∷ r.1)) (alloc_from-eq (i + 1) rest)
      ∙ sym (found_from-later i m rest (find_index? Table.is_unused rest)))
]

-- The two ways to write `alloc_mutex` give the same handle and table.
pub alloc_mutex-eq : (table : List Mutex) → Mutexes.alloc_mutex table ≡ Table.alloc_mutex table
unfolding Mutexes.alloc_mutex Table.alloc_mutex
alloc_mutex-eq [] = refl
alloc_mutex-eq (main ∷ rest) =
    ap (Mutexes.behind_main main) (alloc_from-eq 1 rest) ∙ same (find_index? Table.is_unused rest)
  where
    same :
        (o : Option ℕ)
        → Mutexes.behind_main main (found_from 1 rest o)
          ≡ Table.alloc_at (main ∷ rest) (elim o [ none ↦ none | some i ↦ some (suc i) ])
    same none = refl
    same (some k) = ap (λ (n : ℕ). (some n, main ∷ set rest k Table.allocated)) (omega arith)

module _ {Vm Page : Type 0} (s : Pthread Vm) (u : Threads Page) (sim : Sim s u) where
  pub with_mutex-Sim :
      (mu : ℕ) (m : Mutex) → Sim (Table.with_mutex s mu m) (Mutexes.with_mutex u mu m)
  with_mutex-Sim mu m = record {
    looks = record {
      current = sim.looks.current;
      ready = sim.looks.ready;
      wait = sim.looks.wait;
      unlocked = sim.looks.unlocked;
    };
    mutexes = ap (λ t. set t mu m) sim.mutexes;
    mus = sim.mus;
    tids = sim.tids;
    cnt = sim.cnt;
    init = sim.init;
  }

  abbrev marked : (mu c : ℕ) → Pthread Vm
  marked mu c = record s { info = State.write s.info c (record (s.info c) { mu = mu }) }

  marked-Sim :
      (mu c : ℕ)
      → Sim (marked mu c) (record u { info = write u.info c (record (u.info c) { mu = mu }) })
  marked-Sim mu c = record {
    looks = record {
      current = sim.looks.current;
      ready = sim.looks.ready;
      wait = sim.looks.wait;
      unlocked = sim.looks.unlocked;
    };
    mutexes = sim.mutexes;
    mus = λ t. ground (arith, sim.mus t);
    tids = λ t. ground (arith, sim.tids t, sim.tids c);
    cnt = sim.cnt;
    init = sim.init;
  }

-- A call with an id that it answers with.
pub record SameId {Vm Page : Type 0} (a : ℕ × Pthread Vm) (b : ℕ × Threads Page) : Type 0 where
  pub id : b.0 ≡ a.0
  pub sim : Sim a.1 b.1

-- A `thread_info_t` that is cleared, as tmp2/ has it.
abbrev pub no_info : ThreadInfo
no_info = record { mu = 0; tid = 0 }

module _ {Vm Page : Type 0} (memory : Memory Vm) where
  wait-Sim :
      (s : Pthread Vm) (u : Threads Page) (mu : ℕ) (o : Option ℕ) (waited : Option Status)
      → Sim s u
      → (waited ≡ none) ⊎ (waited ≡ some success)
      → Agree SameAnswer
          (Table.set_mu mu o s >>= λ s₁.
            Sched.schedule_swap_current_to_wait memory s₁ >>= λ s₂. ok (success, s₂))
          (Mutexes.wait_for mu o u >>= λ u₁. ok (waited, u₁))
  wait-Sim s u mu none waited sim a = faults segv
  wait-Sim s u mu (some c) waited sim a =
      Agree-bind (λ s₂. ok (success, s₂)) (λ u₁. ok (waited, u₁))
        (swap_to_wait-Sim memory _ _ (marked-Sim s u sim mu c))
        (λ s₂ u₁ r. both (record { answer = a; sim = r }))

  take_or_wait-Sim :
      (s : Pthread Vm) (u : Threads Page) (mu : ℕ) (m : Mutex) (waited : Option Status)
      → Sim s u
      → (waited ≡ none) ⊎ (waited ≡ some success)
      → Agree SameAnswer
          (Table.take_or_wait memory mu m s)
          (Mutexes.take_or_wait (some success) waited mu m u)
  unfolding Table.take_or_wait Mutexes.take_or_wait
  take_or_wait-Sim s u mu m waited sim a =
      let counted = with_mutex-Sim s u sim mu (record m { count = bump m.count }) in
      elim (Bool-cases (0 == m.count)) [
        | inl free ↦ rw free (both (record { answer = inr refl; sim = counted }))
        | inr held ↦ rw held (
            subst
              (λ o.
                Agree SameAnswer
                  (Table.set_mu mu o (Table.with_mutex s mu (record m { count = bump m.count }))
                    >>= λ s₁.
                        Sched.schedule_swap_current_to_wait memory s₁ >>= λ s₂. ok (success, s₂))
                  (Mutexes.wait_for mu u.current
                      (Mutexes.with_mutex u mu (record m { count = bump m.count }))
                    >>= λ u₁. ok (waited, u₁)))
              (sym sim.looks.current) (wait-Sim _ _ mu u.current waited counted a))
      ]

  pub guarded-Sim :
      (s : Pthread Vm) (u : Threads Page) (mu : ℕ) (m : Mutex) (p : Outcome (Status × Pthread Vm))
      (q : Outcome (Option Status × Threads Page))
      → Sim s u
      → Agree SameAnswer p q
      → Agree SameAnswer
          (if not m.used
            then ok (failure, s)
            else if leb max_mutex_num mu
            then ok (failure, s)
            else p)
          (Mutexes.guarded mu u m q)
  guarded-Sim s u mu m p q sim r = elim (Bool-cases (not m.used)) [
    | inl unused ↦ rw unused (both (record { answer = inr refl; sim = sim }))
    | inr used ↦ elim (Bool-cases (leb max_mutex_num mu)) [
      | inl out ↦ rw (used, out) (both (record { answer = inr refl; sim = sim }))
      | inr inside ↦ rw (used, inside) r
    ]
  ]

  pub lock_at-Sim :
      (s : Pthread Vm) (u : Threads Page) (mu : ℕ) (o : Option Mutex)
      → Sim s u
      → Agree SameAnswer (Table.lock_at memory mu s o) (Mutexes.lock_at mu u o)
  lock_at-Sim s u mu none sim = faults out_of_bounds
  lock_at-Sim s u mu (some m) sim =
      guarded-Sim s u mu m _ _ sim (take_or_wait-Sim s u mu m none sim (inl refl))

  pub join_at-Sim :
      (s : Pthread Vm) (u : Threads Page) (t : ℕ) (o : Option Mutex)
      → Sim s u
      → Agree SameAnswer (Thread.join_at memory t s o) (Life.join_at t u o)
  join_at-Sim s u t none sim = faults out_of_bounds
  join_at-Sim s u t (some m) sim =
      guarded-Sim s u t m _ _ sim (take_or_wait-Sim s u t m (some success) sim (inr refl))

  pub unlock_at-Sim :
      (s : Pthread Vm) (u : Threads Page) (mu : ℕ) (o : Option Mutex)
      → Sim s u
      → Agree SameAnswer (Table.unlock_at mu s o) (Mutexes.unlock_at mu u o)
  unlock_at-Sim s u mu none sim = faults out_of_bounds
  unlock_at-Sim s u mu (some m) sim =
      guarded-Sim s u mu m _ _ sim (elim (Bool-cases (0 == m.count)) [
        | inl free ↦ rw free (both (record { answer = inr refl; sim = sim }))
        | inr held ↦ elim (Bool-cases (1 == m.count)) [
          | inl one ↦ rw (held, one) (both (record { answer = inr refl; sim = counted m }))
          | inr more ↦
              rw (held, more)
                (Agree-bind (λ s₁. ok (success, s₁)) (λ u₁. ok (some success, u₁))
                  (release_thread-Sim mu _ _ (counted m))
                  (λ s₁ u₁ r. both (record { answer = inr refl; sim = r })))
        ]
      ])
    where
      counted :
          (m : Mutex)
          → Sim
              (Table.with_mutex s mu (record m { count = m.count - 1 }))
              (Mutexes.with_mutex u mu (record m { count = m.count - 1 }))
      counted m = with_mutex-Sim s u sim mu (record m { count = m.count - 1 })

  pub destroy_at-Sim :
      (s : Pthread Vm) (u : Threads Page) (mu : ℕ) (o : Option Mutex)
      → Sim s u
      → Agree SameAnswer (Table.destroy_at mu s o) (Mutexes.destroy_at mu u o)
  destroy_at-Sim s u mu none sim = faults out_of_bounds
  destroy_at-Sim s u mu (some m) sim = guarded-Sim s u mu m _ _ sim (
      both (record {
        answer = inr refl;
        sim = with_mutex-Sim s u sim mu (record { used = false; count = 0 });
      }))

  pub init_with-Sim :
      (s : Pthread Vm) (u : Threads Page) (r : Option ℕ × List Mutex)
      → Sim s u
      → Agree SameId (Table.init_with s r) (Mutexes.init_with u r)
  init_with-Sim s u (none, table) sim = faults panic
  init_with-Sim s u (some i, table) sim = both (record {
    id = refl;
    sim = record {
      looks = record {
        current = sim.looks.current;
        ready = sim.looks.ready;
        wait = sim.looks.wait;
        unlocked = sim.looks.unlocked;
      };
      mutexes = refl;
      mus = sim.mus;
      tids = sim.tids;
      cnt = sim.cnt;
      init = sim.init;
    };
  })

  pub create_with-Sim :
      (ti : ℕ) (s : Pthread Vm) (u : Threads Page) (r : Option ℕ × List Mutex)
      → Sim s u
      → Agree SameId (Thread.create_with ti (record s { threads_cnt = s.threads_cnt + 1 }) r) (
          Life.create_with ti no_info
            (record u { threads_cnt = u.threads_cnt + 1; ready = u.ready ++ ti ∷ [] })
            r)
  unfolding State.release_queue_spinlock
  create_with-Sim ti s u (none, table) sim = faults out_of_bounds
  create_with-Sim ti s u (some tid, table) sim =
      rw
        (acquire-free
          (record s {
            threads_cnt = s.threads_cnt + 1;
            info = State.write s.info ti (Thread.new_info tid);
            mutexes = set table tid (record { used = true; count = 1 });
          })
          sim.looks.unlocked)
        (both (record {
          id = refl;
          sim = record {
            looks = record {
              current = sim.looks.current;
              ready = ap (λ q. q ++ ti ∷ []) sim.looks.ready;
              wait = sim.looks.wait;
              unlocked = refl;
            };
            mutexes = refl;
            mus = λ t. ground (arith, sim.mus t);
            tids = λ t. ground (arith, sim.tids t);
            cnt = ap (λ (n : ℕ). n + 1) sim.cnt;
            init = sim.init;
          };
        }))
