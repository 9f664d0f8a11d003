-- ===== src/Code/Pthread/Refine.antt =====
-- tmp2/my_pthread.c does what code/my_pthread.c does, while the queue spinlock is free: the scheduler.
pub mod Calls
pub mod Runs
pub mod Exit
use osdesignasst.Prelude.{
  ℕ, ◌≡◌, ◌⊎◌, refl, inl, inr, sym, ap, ◌∙◌, subst, Bool, true, false, none, some, Option, List, [],
  ◌∷◌, ◌++◌, ◌==◌, if◌then◌else◌, Outcome, Fault, ok, fault, segv, ◌>>=◌, Option-cases, Bool-cases,
  arith,
}
use mathlib.Core.List.{append-nil, append_assoc}
use osdesignasst.Pthread.State.{Pthread, Memory, release_queue_spinlock}
use osdesignasst.Pthread.State.Spin.{acquire-free}
use osdesignasst.Pthread.Sched
use osdesignasst.Pthread.Sched.Switch.{
  Looks, SameTables, switched, switched-Looks, switched-SameTables, schedule-switch, schedule-next,
  schedule-idle, swap_to_wait-switch, swap_to_wait-idle, swap_to_wait_nobody,
}
use osdesignasst.Pthread.Sched.Release.{released, release_thread-eq, release_all_thread-eq}
use osdesignasst.Pthread.State
use osdesignasst.Code.Pthread.{
  ThreadInfo, Threads, take_waiting, insert_tail, schedule_from, schedule, wait_from,
  schedule_swap_current_to_wait, with_taken, release_thread, release_all_thread,
}

-- A state of tmp2/ with the spinlock free, and a state of code/ with the same threads and mutexes.
pub record Sim {Vm Page : Type 0} (s : Pthread Vm) (u : Threads Page) : Type 0 where
  pub looks : Looks s u.current u.ready u.wait
  pub mutexes : s.mutexes ≡ u.mutexes
  pub mus : (t : ℕ) → (s.info t).mu ≡ (u.info t).mu
  pub tids : (t : ℕ) → (s.info t).tid ≡ (u.info t).tid
  pub cnt : s.threads_cnt ≡ u.threads_cnt
  pub init : s.pthread_init ≡ u.pthread_init

-- Both runs end with the same fault, or with values that are related.
pub data Agree {A B : Type 0} (R : A → B → Type 0) : Outcome A → Outcome B → Type 0 where
  both : {a : A} {b : B} → R a b → Agree R (ok a) (ok b)
  faults : (e : Fault) → Agree R (fault e) (fault e)

-- The step of a chain.
pub Agree-bind :
    {A B C D : Type 0} {R : A → B → Type 0} {S : C → D → Type 0} {m : Outcome A} {n : Outcome B}
    (f : A → Outcome C) (g : B → Outcome D)
    → Agree R m n
    → ((a : A) (b : B) → R a b → Agree S (f a) (g b))
    → Agree S (m >>= f) (n >>= g)
Agree-bind f g (both r) k = k _ _ r
Agree-bind f g (faults e) k = faults e

Agree-ok :
    {A B : Type 0} {R : A → B → Type 0} {m : Outcome A} {n : Outcome B} {a : A} {b : B}
    → m ≡ ok a
    → n ≡ ok b
    → R a b
    → Agree R m n
Agree-ok {R} e f r = rw (e, f) (both r)

Agree-fault :
    {A B : Type 0} {R : A → B → Type 0} {m : Outcome A} {n : Outcome B} (e : Fault)
    → m ≡ fault e
    → n ≡ fault e
    → Agree R m n
Agree-fault e p q = rw (p, q) (faults e)

List-cases : {A : Type 0} (xs : List A) → (xs ≡ []) ⊎ ((x : A) × (rest : List A) × (xs ≡ x ∷ rest))
List-cases [] = inl refl
List-cases (x ∷ xs) = inr (x, xs, refl)

module _ {Vm Page : Type 0} (memory : Memory Vm) (s : Pthread Vm) (u : Threads Page)
    (sim : Sim s u) where
  Looks-at : {c : Option ℕ} {rs : List ℕ} → u.current ≡ c → u.ready ≡ rs → Looks s c rs u.wait
  Looks-at e f = record {
    current = sim.looks.current ∙ e;
    ready = sim.looks.ready ∙ f;
    wait = sim.looks.wait;
    unlocked = sim.looks.unlocked;
  }

  -- A move of threads keeps the two in step.
  pub moved-Sim :
      {s' : Pthread Vm} (c : Option ℕ) (rs ws : List ℕ)
      → SameTables s s'
      → Looks s' c rs ws
      → Sim s' (record u { current = c; ready = rs; wait = ws })
  moved-Sim c rs ws same l = record {
    looks = l;
    mutexes = same.mutexes ∙ sim.mutexes;
    mus = λ t. same.mus t ∙ sim.mus t;
    tids = λ t. same.tids t ∙ sim.tids t;
    cnt = same.cnt ∙ sim.cnt;
    init = same.init ∙ sim.init;
  }

  -- `schedule` of tmp2/ returns, and the threads stand as after `schedule` of code/.
  pub schedule-Sim : Agree Sim (Sched.schedule memory s) (ok (schedule u))
  unfolding schedule
  schedule-Sim = elim (List-cases u.ready) [
    | inl idle ↦
        Agree-ok (schedule-idle memory s (sim.looks.ready ∙ idle))
          (ap (λ q. ok (schedule_from q u.current u)) idle) sim
    | inr (t, rs, e) ↦ elim (Option-cases u.current) [
      | inl gone ↦
          let (s', runs, (l, same)) = schedule-next memory s (Looks-at gone e) in
          Agree-ok runs (next t rs none gone e) (moved-Sim (some t) rs u.wait same l)
      | inr (c, runs) ↦
          Agree-ok (schedule-switch memory s (Looks-at runs e)) (next t rs (some c) runs e) (
            moved-Sim (some t) (rs ++ c ∷ []) u.wait
              (switched-SameTables memory c t (rs ++ c ∷ []) u.wait s)
              (switched-Looks memory c t (rs ++ c ∷ []) u.wait s))
    ]
  ]
    where
      next :
          (t : ℕ) (rs : List ℕ) (c : Option ℕ)
          → u.current ≡ c
          → u.ready ≡ t ∷ rs
          → ok (schedule u) ≡ ok (schedule_from (t ∷ rs) c u)
      next t rs c p q =
          ap (λ o. ok (schedule_from u.ready o u)) p ∙ ap (λ k. ok (schedule_from k c u)) q

  -- And so for the switch to the wait queue.
  pub swap_to_wait-Sim :
      Agree Sim (Sched.schedule_swap_current_to_wait memory s) (schedule_swap_current_to_wait u)
  unfolding schedule_swap_current_to_wait
  swap_to_wait-Sim = elim (List-cases u.ready) [
    | inl idle ↦
        Agree-ok (swap_to_wait-idle memory s (sim.looks.ready ∙ idle))
          (ap (λ q. wait_from q u.current u) idle) sim
    | inr (t, rs, e) ↦ elim (Option-cases u.current) [
      | inl gone ↦ Agree-fault segv (swap_to_wait-gone t rs gone e) (next t rs none gone e)
      | inr (c, runs) ↦
          Agree-ok (swap_to_wait-switch memory s (Looks-at runs e)) (next t rs (some c) runs e) (
            moved-Sim (some t) rs (u.wait ++ c ∷ [])
              (switched-SameTables memory c t rs (u.wait ++ c ∷ []) s)
              (switched-Looks memory c t rs (u.wait ++ c ∷ []) s))
    ]
  ]
    where
      next :
          (t : ℕ) (rs : List ℕ) (c : Option ℕ)
          → u.current ≡ c
          → u.ready ≡ t ∷ rs
          → schedule_swap_current_to_wait u ≡ wait_from (t ∷ rs) c u
      next t rs c p q = ap (λ o. wait_from u.ready o u) p ∙ ap (λ k. wait_from k c u) q

      swap_to_wait-gone :
          (t : ℕ) (rs : List ℕ)
          → u.current ≡ none
          → u.ready ≡ t ∷ rs
          → Sched.schedule_swap_current_to_wait memory s ≡ fault segv
      swap_to_wait-gone t rs p q =
          swap_to_wait_nobody memory s (sim.looks.ready ∙ q) (sim.looks.current ∙ p)

module _ (f : ℕ → State.ThreadInfo) (g : ℕ → ThreadInfo) (mu : ℕ)
    (same : (t : ℕ) → (f t).mu ≡ (g t).mu) where
  -- The loop with the part gone by as an accumulator takes the same thread.
  take_waiting-eq :
      (passed rest ready : List ℕ)
      → Sched.release_first f mu passed rest ready
        ≡ (passed ++ (take_waiting g mu rest).0, insert_tail ready (take_waiting g mu rest).1)
  unfolding take_waiting Sched.release_first
  take_waiting-eq passed [] ready = rw append-nil
  take_waiting-eq passed (t ∷ rest) ready = elim (Bool-cases (mu == (g t).mu)) [
    | inl hit ↦ rw (same t, hit) refl
    | inr miss ↦
        rw (same t, miss)
          (take_waiting-eq (passed ++ t ∷ []) rest ready
            ∙ ap (λ q. (q, insert_tail ready (take_waiting g mu rest).1))
                (append_assoc passed (t ∷ []) (take_waiting g mu rest).0))
  ]

module _ {Vm Page : Type 0} (mu : ℕ) (s : Pthread Vm) (u : Threads Page) (sim : Sim s u) where
  pub released-Sim : Sim (released mu s) (with_taken u (take_waiting u.info mu u.wait))
  released-Sim =
      let queues = release_first-queues in
      record {
        looks = record {
          current = sim.looks.current;
          ready = ap (λ q. q.1) queues;
          wait = ap (λ q. q.0) queues;
          unlocked = refl;
        };
        mutexes = sim.mutexes;
        mus = sim.mus;
        tids = sim.tids;
        cnt = sim.cnt;
        init = sim.init;
      }
    where
      release_first-queues : Sched.release_first s.info mu [] s.wait s.ready ≡ (
        (take_waiting u.info mu u.wait).0,
        insert_tail u.ready (take_waiting u.info mu u.wait).1,
      )
      release_first-queues =
          rw (sim.looks.wait, sim.looks.ready)
            (take_waiting-eq s.info u.info mu sim.mus [] u.wait u.ready)

  pub release_thread-Sim : Agree Sim (Sched.release_thread mu s) (ok (release_thread mu u))
  unfolding release_thread
  release_thread-Sim = Agree-ok (release_thread-eq mu s sim.looks.unlocked) refl released-Sim

  pub release_all_thread-Sim :
      Agree Sim (Sched.release_all_thread mu s) (ok (release_all_thread mu u))
  unfolding release_all_thread
  release_all_thread-Sim =
      Agree-ok (release_all_thread-eq mu s sim.looks.unlocked) refl released-Sim
