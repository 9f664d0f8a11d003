-- ===== src/Pthread/Mutex/Waiters.antt =====
-- Locking and unlocking: who waits, who is woken, and how the count of a mutex bounds its waiters.
use osdesignasst.Prelude.{
  ℕ, ◌<◌, ◌≡◌, ◌≢◌, refl, ◌∙◌, true, ok, some, List, [], ◌∷◌, ◌++◌, Returns, get_elem?, set, arith,
}
use osdesignasst.Pthread.State.{Mutex, max_mutex_num, bump, Pthread, Memory, success, write}
use osdesignasst.Pthread.Sched.{schedule_swap_current_to_wait}
use osdesignasst.Pthread.Sched.Switch.{
  Looks, switched, switched-Looks, switched-SameTables, swap_to_wait-switch,
}
use osdesignasst.Pthread.Mutex.{with_mutex, take_or_wait, my_pthread_mutex_lock}

-- A mutex in use, at a handle in range.
pub record IsHandle {Vm : Type 0} (s : Pthread Vm) (mu : ℕ) (m : Mutex) : Type 0 where
  pub at : get_elem? s.mutexes mu ≡ some m
  pub used : m.used ≡ true
  pub in_range : mu < max_mutex_num

abbrev pub counted : {Vm : Type 0} → Pthread Vm → ℕ → Mutex → ℕ → Pthread Vm
counted s mu m n = with_mutex s mu (record m { count = n })

module _ {Vm : Type 0} (memory : Memory Vm) (mu : ℕ) (m : Mutex) (s : Pthread Vm) where
  pub lock-take_or_wait :
      IsHandle s mu m → my_pthread_mutex_lock memory mu s ≡ take_or_wait memory mu m s
  unfolding my_pthread_mutex_lock
  lock-take_or_wait h = ground (arith, h.at, h.used, h.in_range)

  -- A free mutex is taken at once, and nothing but its count changes.
  pub lock_free :
      IsHandle s mu m
      → m.count ≡ 0
      → my_pthread_mutex_lock memory mu s ≡ ok (success, counted s mu m 1)
  unfolding take_or_wait
  lock_free h e = lock-take_or_wait h ∙ ground arith

  -- What a thread that has to wait leaves behind.
  pub record Blocked (c t : ℕ) (rs ws : List ℕ) (s' : Pthread Vm) : Type 0 where
    pub looks : Looks s' (some t) rs (ws ++ c ∷ [])
    pub mutexes : s'.mutexes ≡ set s.mutexes mu (record m { count = bump m.count })
    pub waits : (s'.info c).mu ≡ mu
    pub others : (u : ℕ) → c ≢ u → (s'.info u).mu ≡ (s.info u).mu

  -- The state in which the switch away from `c` is made.
  abbrev pub marked : ℕ → Pthread Vm
  marked c =
      let n = counted s mu m (bump m.count) in
      record n { info = write n.info c (record (n.info c) { mu = mu }) }

  take_or_wait-marked :
      {c : ℕ} {s' : Pthread Vm}
      → s.current ≡ some c
      → m.count ≢ 0
      → schedule_swap_current_to_wait memory (marked c) ≡ ok s'
      → take_or_wait memory mu m s ≡ ok (success, s')
  unfolding take_or_wait
  take_or_wait-marked {c} run held e = ground (arith, e)

  -- On a held mutex, with a thread `t` ready, the caller goes to the end of the wait queue, and `t`
  -- runs.
  pub take_or_wait-Blocked :
      {c t : ℕ} {rs ws : List ℕ}
      → Looks s (some c) (t ∷ rs) ws
      → m.count ≢ 0
      → Returns (take_or_wait memory mu m s) (λ r. (r.0 ≡ success) × Blocked c t rs ws r.1)
  take_or_wait-Blocked {c} {t} {rs} {ws} l held =
      let looks : Looks (marked c) (some c) (t ∷ rs) ws = record {
        current = l.current;
        ready = l.ready;
        wait = l.wait;
        unlocked = l.unlocked;
      } in
      let same = switched-SameTables memory c t rs (ws ++ c ∷ []) (marked c) in
      (
        (success, switched memory c t rs (ws ++ c ∷ []) (marked c)),
        take_or_wait-marked l.current held (swap_to_wait-switch memory (marked c) looks),
        (
          refl,
          record {
            looks = switched-Looks memory c t rs (ws ++ c ∷ []) (marked c);
            mutexes = same.mutexes;
            waits = same.mus c ∙ ground arith;
            others = λ u ne. same.mus u ∙ ground arith;
          },
        ),
      )
