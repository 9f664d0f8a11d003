-- ===== src/Pthread/Thread/Create.antt =====
-- The start of a thread.
use osdesignasst.Prelude.{
  ℕ, ◌+◌, ◌≡◌, refl, true, some, List, [], ◌∷◌, ◌++◌, Outcome, ok, get_elem?, get_elem?-lt,
  get_elem?-set_self, set, Returns, arith,
}
use osdesignasst.Pthread.State.{Mutex, Pthread, release_queue_spinlock, write}
use osdesignasst.Pthread.State.Spin.{acquire-free}
use osdesignasst.Pthread.Mutex.{alloc_mutex}
use osdesignasst.Pthread.Mutex.Table.{IsLeastUnused, alloc_mutex-some}
use osdesignasst.Pthread.Thread.{my_pthread_create, new_info}

module _ {Vm : Type 0} (start : Pthread Vm → Outcome (Pthread Vm)) (ti : ℕ) (s : Pthread Vm) where
  -- The state after the creation of `ti` with id `tid`.
  abbrev pub created : ℕ → List Mutex → Pthread Vm
  created tid table = record s {
    ready = s.ready ++ ti ∷ [];
    info = write s.info ti (new_info tid);
    mutexes = set table tid (record { used = true; count = 1 });
    queue_spinlock = 0;
    timer = 25000;
    threads_cnt = s.threads_cnt + 1;
  }

  my_pthread_create-eq :
      (tid : ℕ) (table : List Mutex)
      → s.pthread_init ≡ true
      → s.queue_spinlock ≡ 0
      → alloc_mutex s.mutexes ≡ (some tid, table)
      → my_pthread_create start (some ti) s ≡ ok (tid, created tid table)
  unfolding my_pthread_create release_queue_spinlock
  my_pthread_create-eq tid table started free found = ground (
    arith,
    found,
    acquire-free
        (record s {
          info = write s.info ti (new_info tid);
          mutexes = set table tid (record { used = true; count = 1 });
          threads_cnt = s.threads_cnt + 1;
        })
        free,
  )

  -- Once the library runs and a handle is unused, the new thread gets the least one as its id, with
  -- count 1, and goes to the end of the ready queue; the running thread and the wait queue stay.
  pub my_pthread_create_lem :
      (tid : ℕ) (table : List Mutex)
      → s.pthread_init ≡ true
      → s.queue_spinlock ≡ 0
      → alloc_mutex s.mutexes ≡ (some tid, table)
      → Returns (my_pthread_create start (some ti) s) (λ r.
        (r.0 ≡ tid)
        × IsLeastUnused s.mutexes tid
        × (get_elem? r.1.mutexes tid ≡ some (record { used = true; count = 1 }))
        × (r.1.ready ≡ s.ready ++ ti ∷ [])
        × ((r.1.info ti).tid ≡ tid)
        × (r.1.current ≡ s.current)
        × (r.1.wait ≡ s.wait)
        × (r.1.queue_spinlock ≡ 0))
  my_pthread_create_lem tid table started free found =
      let (least, now, others) = alloc_mutex-some s.mutexes found in
      (
        (tid, created tid table),
        my_pthread_create-eq tid table started free found,
        (
          refl,
          least,
          get_elem?-set_self table tid _ (get_elem?-lt table tid now),
          refl,
          ground arith,
          refl,
          refl,
          refl,
        ),
      )
