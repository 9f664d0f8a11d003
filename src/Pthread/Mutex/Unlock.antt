-- ===== src/Pthread/Mutex/Unlock.antt =====
-- `my_pthread_mutex_unlock`: each branch, and who gets the mutex next.
use osdesignasst.Prelude.{
  ℕ, ◌-◌, ◌<◌, ◌≡◌, refl, ap, ◌∙◌, true, ok, some, List, [], ◌∷◌, ◌++◌, get_elem?, set,
  set-set_back, get_elem?-set_self, get_elem?-lt, arith, Returns,
}
use osdesignasst.Pthread.State.{Mutex, Pthread, Memory, success, failure}
use osdesignasst.Pthread.Sched.{release_first}
use osdesignasst.Pthread.Sched.Release.{waiting, release_first-some, released, release_thread-eq}
use osdesignasst.Pthread.Mutex.{my_pthread_mutex_lock, my_pthread_mutex_unlock}
use osdesignasst.Pthread.Mutex.Waiters.{IsHandle, counted, lock_free}

module _ {Vm : Type 0} (mu : ℕ) (m : Mutex) (s : Pthread Vm) where
  -- A mutex that nobody holds cannot be released.
  pub unlock_idle : IsHandle s mu m → m.count ≡ 0 → my_pthread_mutex_unlock mu s ≡ ok (failure, s)
  unfolding my_pthread_mutex_unlock
  unlock_idle h e = ground (arith, h.at, h.used, h.in_range)

  -- With no waiting thread counted the mutex becomes free, and nothing else changes.
  pub unlock_last :
      IsHandle s mu m → m.count ≡ 1 → my_pthread_mutex_unlock mu s ≡ ok (success, counted s mu m 0)
  unfolding my_pthread_mutex_unlock
  unlock_last h e = ground (arith, h.at, h.used, h.in_range)

  -- Otherwise a thread is released from the wait queue.
  pub unlock_shared :
      IsHandle s mu m
      → 1 < m.count
      → s.queue_spinlock ≡ 0
      → my_pthread_mutex_unlock mu s ≡ ok (success, released mu (counted s mu m (m.count - 1)))
  unfolding my_pthread_mutex_unlock
  unlock_shared h many free =
      ground
        (arith, h.at, h.used, h.in_range, release_thread-eq mu (counted s mu m (m.count - 1)) free)

  -- The thread that has waited longest for the mutex goes to the end of the ready queue; no other
  -- thread moves, and the mutex stays held.
  pub unlock_hands_over :
      (front back : List ℕ) (t : ℕ)
      → IsHandle s mu m
      → 1 < m.count
      → s.queue_spinlock ≡ 0
      → s.wait ≡ front ++ t ∷ back
      → waiting s.info mu front ≡ 0
      → (s.info t).mu ≡ mu
      → Returns (my_pthread_mutex_unlock mu s) (λ r.
        (r.0 ≡ success)
        × (r.1.wait ≡ front ++ back)
        × (r.1.ready ≡ s.ready ++ t ∷ [])
        × (r.1.current ≡ s.current)
        × (get_elem? r.1.mutexes mu ≡ some (record { used = true; count = m.count - 1 })))
  unlock_hands_over front back t h many free e none_before waits =
      let moved =
        ap (λ q. release_first s.info mu [] q s.ready) e
        ∙ release_first-some s.info mu front back t [] s.ready none_before waits in
      (
        _,
        unlock_shared h many free,
        (
          refl,
          ap (λ q. q.0) moved,
          ap (λ q. q.1) moved,
          refl,
          get_elem?-set_self s.mutexes mu _ (get_elem?-lt s.mutexes mu h.at)
              ∙ ground (arith, h.used),
        ),
      )

-- Locking a free mutex and unlocking it again restores the state.
pub unlock-lock :
    {Vm : Type 0} (memory : Memory Vm) (mu : ℕ) (m : Mutex) (s : Pthread Vm)
    → IsHandle s mu m
    → m.count ≡ 0
    → (s' : Pthread Vm) × (my_pthread_mutex_lock memory mu s ≡ ok (success, s'))
      × (my_pthread_mutex_unlock mu s' ≡ ok (success, s))
unlock-lock memory mu m s h e = (
  counted s mu m 1,
  lock_free memory mu m s h e,
  unlock_last mu (record m { count = 1 }) (counted s mu m 1) held refl
      ∙ ap (λ table. ok (success, record s { mutexes = table })) restored,
)
  where
    held : IsHandle (counted s mu m 1) mu (record m { count = 1 })
    held = record {
      at = get_elem?-set_self s.mutexes mu _ (get_elem?-lt s.mutexes mu h.at);
      used = h.used;
      in_range = h.in_range;
    }

    restored :
        set (set s.mutexes mu (record m { count = 1 })) mu (record m { count = 0 }) ≡ s.mutexes
    restored = set-set_back s.mutexes mu (record m { count = 1 }) (h.at ∙ ground arith)
