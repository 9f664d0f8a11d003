-- ===== src/Code/Pthread/Conserve/Newer.antt =====
-- No thread is lost and none is doubled in tmp2/my_pthread.c: by the relation of the two libraries.
use osdesignasst.Prelude.{ℕ, ◌+◌, ◌≡◌, refl, true, none, Option, List, [], Outcome, ok}
use osdesignasst.Pthread.State.{Pthread, Memory}
use osdesignasst.Code.Pthread.{ThreadInfo, Threads}
use osdesignasst.Code.Pthread.Life
use osdesignasst.Code.Pthread.Refine.{Sim, Agree, both, faults}
use osdesignasst.Code.Pthread.Refine.Runs.{Call, run, start, run-Sim}
use osdesignasst.Code.Pthread.Conserve.{Each, places, created, Kept}
use osdesignasst.Code.Pthread.Conserve.Runs.{run-Kept}

Agree-Each :
    {A B : Type 0} {R : A → B → Type 0} (P : A → Type 0) (Q : B → Type 0) {p : Outcome A}
    {q : Outcome B}
    → Agree R p q
    → Each q Q
    → ((a : A) (b : B) → R a b → Q b → P a)
    → Each p P
Agree-Each P Q (both r) k f = f _ _ r k
Agree-Each P Q (faults e) k f = k

module _ {Vm : Type 0} where
  -- The state of code/ with the same threads and mutexes, and no heap.
  abbrev seen : Pthread Vm → Threads (Unit {0})
  seen s = record {
    current = s.current;
    ready = s.ready;
    wait = s.wait;
    info = λ t. record { mu = (s.info t).mu; tid = (s.info t).tid };
    mutexes = s.mutexes;
    threads_cnt = s.threads_cnt;
    pthread_init = s.pthread_init;
    timer = 25000;
    pool = record { malloc_init = true; pages = none; metadata = []; heap = [] };
  }

  seen-Sim : (s : Pthread Vm) → s.queue_spinlock ≡ 0 → Sim s (seen s)
  seen-Sim s free = record {
    looks = record { current = refl; ready = refl; wait = refl; unlocked = free };
    mutexes = refl;
    mus = λ t. refl;
    tids = λ t. refl;
    cnt = refl;
    init = refl;
  }

  -- With the library started and the queue spinlock free, no program of locks, unlocks, inits and destroys
  -- of mutexes, yields, ticks, joins and creates hangs, and if no call of it ends the process, a thread
  -- stands as the current one or in a queue as often as before, and once more for each `create` of it.
  pub run-places :
      (memory : Memory Vm) (mm_init : Vm → Vm) (main : Option ℕ) (left : ThreadInfo) (t : ℕ)
      (cs : List Call) (s : Pthread Vm)
      → s.queue_spinlock ≡ 0
      → s.pthread_init ≡ true
      → Each (run memory (start (λ vm. ok (mm_init vm)) main left) cs s) (λ r.
        places t r.1.current r.1.ready r.1.wait ≡ places t s.current s.ready s.wait + created t cs)
  run-places memory mm_init main left t cs s free started =
      let before = places t s.current s.ready s.wait in
      Agree-Each _ (λ q. Kept t (before + created t cs) q.1)
        (run-Sim (λ vm. ok (mm_init vm)) (λ vm. (mm_init vm, refl)) main left memory cs s (seen s)
          (seen-Sim s free))
        (run-Kept t (Life.my_pthread_init main left) cs before (seen s)
          (record { there = refl; started = started }))
        (λ a b r k. rw (r.sim.looks.current, r.sim.looks.ready, r.sim.looks.wait) k.there)
