-- ===== src/Pthread/Thread/Exit.antt =====
-- The end of a thread: who is woken by it, and who is not.
use osdesignasst.Prelude.{
  ℕ, ◌-◌, ◌≡◌, refl, sym, ap, ◌∙◌, false, some, none, List, [], ◌∷◌, ◌++◌, get_elem?, get_elem?-lt,
  get_elem?-set_self, set, Returns,
}
use osdesignasst.Pthread.State.{Mutex, Pthread, Memory}
use osdesignasst.Pthread.Sched.{release_first, schedule}
use osdesignasst.Pthread.Sched.Release.{
  waiting, release_first-some, released, release_all_thread-eq, waiting-release_self, waiting-mus,
}
use osdesignasst.Pthread.Sched.Switch.{Looks, schedule-next}
use osdesignasst.Pthread.Mutex.{free_mutex}
use osdesignasst.Pthread.Thread.{my_pthread_exit, exit_current}

module _ {Vm : Type 0} (memory : Memory Vm) (s : Pthread Vm) (c : ℕ) where
  abbrev pub own : ℕ
  own = (s.info c).tid

  -- The state in which `schedule` picks the next thread, after the release and the frees.
  abbrev pub gone : Pthread Vm
  gone =
      let r = released own s in
      record r {
        mutexes = set r.mutexes own (record { used = false; count = 0 });
        current = none;
        vm = memory.free_pages c r.vm;
      }

  pub my_pthread_exit-eq :
      (m : Mutex)
      → s.current ≡ some c
      → s.queue_spinlock ≡ 0
      → get_elem? s.mutexes own ≡ some m
      → my_pthread_exit memory s ≡ schedule memory gone
  unfolding my_pthread_exit free_mutex
  my_pthread_exit-eq m run free at =
      ap (λ o. exit_current memory o s) run ∙ rw (release_all_thread-eq own s free, at)

  -- With threads waiting for the one that ends, the first of them alone is woken, at the end of the
  -- ready queue. The others go on waiting for the id, which is free for a new thread or mutex, and
  -- has count 0.
  pub exit_wakes_one :
      (m : Mutex) (front back : List ℕ) (t u : ℕ) (rs : List ℕ)
      → s.current ≡ some c
      → s.queue_spinlock ≡ 0
      → get_elem? s.mutexes own ≡ some m
      → s.wait ≡ front ++ t ∷ back
      → waiting s.info own front ≡ 0
      → (s.info t).mu ≡ own
      → s.ready ++ t ∷ [] ≡ u ∷ rs
      → Returns (my_pthread_exit memory s) (λ s'.
        Looks s' (some u) rs (front ++ back)
        × (waiting s'.info own s'.wait ≡ waiting s.info own s.wait - 1)
        × (get_elem? s'.mutexes own ≡ some (record { used = false; count = 0 })))
  exit_wakes_one m front back t u rs run free at split none_before waits head =
      let moved =
        ap (λ q. release_first s.info own [] q s.ready) split
        ∙ release_first-some s.info own front back t [] s.ready none_before waits in
      let looks : Looks gone none (u ∷ rs) (front ++ back) = record {
        current = refl;
        ready = ap (λ q. q.1) moved ∙ head;
        wait = ap (λ q. q.0) moved;
        unlocked = refl;
      } in
      let (s', runs, (l, same)) = schedule-next memory gone looks in
      (
        s',
        my_pthread_exit-eq m run free at ∙ runs,
        (
          l,
          ap (waiting s'.info own) (l.wait ∙ sym (ap (λ q. q.0) moved))
              ∙ waiting-mus s'.info s.info own gone.wait same.mus
              ∙ waiting-release_self s.info own s.wait s.ready,
          ap (λ q. get_elem? q own) same.mutexes
              ∙ get_elem?-set_self s.mutexes own _ (get_elem?-lt s.mutexes own at),
        ),
      )
