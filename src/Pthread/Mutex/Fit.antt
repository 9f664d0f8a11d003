-- ===== src/Pthread/Mutex/Fit.antt =====
-- The waiting threads of a mutex never outnumber what its count leaves beside the holder.
use osdesignasst.Prelude.{
  ℕ, ◌+◌, ◌-◌, ◌^◌, ◌≤◌, ◌<◌, ◌≡◌, ◌≢◌, refl, sym, ap, ◌∙◌, subst, inl, inr, some, List, [], ◌∷◌,
  ◌==◌, count, count-append, count-le-length, get_elem?, get_elem?-lt, get_elem?-set_self,
  get_elem?-set_ne, get_elem?-set_cases, arith, Returns,
}
use native.Mathlib.Decide.{ℕ_discrete}
use osdesignasst.Pthread.State.{ThreadInfo, Mutex, bump, Pthread, Memory}
use osdesignasst.Pthread.Sched.{release_first}
use osdesignasst.Pthread.Sched.Switch.{Looks}
use osdesignasst.Pthread.Sched.Release.{waiting, waiting-release_self, waiting-release_le}
use osdesignasst.Pthread.Mutex.{my_pthread_mutex_lock, my_pthread_mutex_unlock}
use osdesignasst.Pthread.Mutex.Waiters.{
  IsHandle, Blocked, lock_free, lock-take_or_wait, take_or_wait-Blocked,
}
use osdesignasst.Pthread.Mutex.Unlock.{unlock_idle, unlock_last, unlock_shared}

-- For each mutex: no waiters if it is free, and at most `count - 1` if it is held.
abbrev pub WaitersFit : {Vm : Type 0} → Pthread Vm → Type 0
WaitersFit s =
    (k : ℕ) (m : Mutex) → get_elem? s.mutexes k ≡ some m → waiting s.info k s.wait ≤ m.count - 1

-- A change of the thread `c` alone does not change who waits, if `c` is not in the queue.
pub waiting-congr :
    (f g : ℕ → ThreadInfo) (c k : ℕ) (ws : List ℕ)
    → ((u : ℕ) → c ≢ u → (f u).mu ≡ (g u).mu)
    → count (λ u. c == u) ws ≡ 0
    → waiting f k ws ≡ waiting g k ws
waiting-congr f g c k [] same out = refl
waiting-congr f g c k (w ∷ ws) same out =
    let ne : c ≢ w = λ e. ground arith in
    let here = same w ne in ground (arith, here, waiting-congr f g c k ws same)

module _ {Vm : Type 0} (memory : Memory Vm) (mu : ℕ) (m : Mutex) (s : Pthread Vm) where
  -- A caller that has to wait adds one to the count and one to the waiters.
  pub Blocked-WaitersFit :
      (c t : ℕ) (rs : List ℕ) {s' : Pthread Vm}
      → Blocked memory mu m s c t rs s.wait s'
      → get_elem? s.mutexes mu ≡ some m
      → 0 < m.count
      → m.count + 1 < 2 ^ 32
      → count (λ u. c == u) s.wait ≡ 0
      → WaitersFit s
      → WaitersFit s'
  Blocked-WaitersFit c t rs {s'} b at held small out fit k n at_k =
      let old = waiting-congr s'.info s.info c k s.wait b.others out in
      let queue : waiting s'.info k s'.wait
          ≡ waiting s'.info k s.wait + waiting s'.info k (c ∷ []) =
        ap (waiting s'.info k) b.looks.wait
        ∙ count-append (λ u. k == (s'.info u).mu) s.wait (c ∷ []) in
      let table = subst (λ q. get_elem? q k ≡ some n) b.mutexes at_k in
      elim (ℕ_discrete mu k) [
        | yes e ↦
            let now : n.count ≡ bump m.count = ground (
              arith,
              table,
              e,
              get_elem?-set_self s.mutexes mu (record m { count = bump m.count })
                  (get_elem?-lt s.mutexes mu at),
            ) in
            omega (
              arith,
              old,
              queue,
              now,
              fit k m (subst (λ j. get_elem? s.mutexes j ≡ some m) e at),
              count-le-length (λ u. k == (s'.info u).mu) (c ∷ []),
            )
        | no ne ↦
            let same =
              sym (get_elem?-set_ne s.mutexes (record m { count = bump m.count }) ne) ∙ table in
            let other : waiting s'.info k (c ∷ []) ≡ 0 = ground (arith, b.waits) in
            omega (arith, old, queue, other, fit k n same)
      ]

  -- `my_pthread_mutex_unlock` keeps the bound, on every branch.
  pub unlock-WaitersFit :
      IsHandle s mu m
      → s.queue_spinlock ≡ 0
      → WaitersFit s
      → Returns (my_pthread_mutex_unlock mu s) (λ r. WaitersFit r.1)
  unlock-WaitersFit h free fit = elim (ℕ_discrete m.count 0) [
    | yes e ↦ (_, unlock_idle mu m s h e, fit)
    | no ne ↦ elim (ℕ_discrete m.count 1) [
      | yes e ↦ (
        _,
        unlock_last mu m s h e,
        λ k n at. elim (get_elem?-set_cases s.mutexes mu k (record m { count = 0 }) at) [
          | inl (same, now) ↦ omega (
            arith,
            ap (λ (q : Mutex). q.count) now,
            fit k m (subst (λ j. get_elem? s.mutexes j ≡ some m) same h.at),
          )
          | inr (_, before) ↦ fit k n before
        ],
      )
      | no ne' ↦ (
        _,
        unlock_shared mu m s h (omega arith) free,
        λ k n at. elim (get_elem?-set_cases s.mutexes mu k (record m { count = m.count - 1 }) at) [
          | inl (same, now) ↦ omega (
            arith,
            ap (λ (q : Mutex). q.count) now,
            fit k m (subst (λ j. get_elem? s.mutexes j ≡ some m) same h.at),
            waiting-release_self s.info k s.wait s.ready,
            ap (λ j. waiting s.info k (release_first s.info j [] s.wait s.ready).0) same,
          )
          | inr (_, before) ↦
              omega (arith, fit k n before, waiting-release_le s.info mu k s.wait s.ready)
        ],
      )
    ]
  ]

  -- With the queue spinlock free and another thread ready, by a thread that is not in the wait queue, and with
  -- a count that does not wrap around: `my_pthread_mutex_lock` keeps the bound, whether the caller gets the
  -- mutex or has to wait.
  pub lock-WaitersFit :
      {c t : ℕ} {rs ws : List ℕ}
      → IsHandle s mu m
      → Looks s (some c) (t ∷ rs) ws
      → count (λ u. c == u) ws ≡ 0
      → m.count + 1 < 2 ^ 32
      → WaitersFit s
      → Returns (my_pthread_mutex_lock memory mu s) (λ r. WaitersFit r.1)
  lock-WaitersFit {c} {t} {rs} {ws} h looks out small fit = elim (ℕ_discrete m.count 0) [
    | yes e ↦ (
      _,
      lock_free memory mu m s h e,
      λ k n at. elim (get_elem?-set_cases s.mutexes mu k (record m { count = 1 }) at) [
        | inl (same, now) ↦ omega (
          arith,
          ap (λ (q : Mutex). q.count) now,
          fit k m (subst (λ j. get_elem? s.mutexes j ≡ some m) same h.at),
        )
        | inr (_, before) ↦ fit k n before
      ],
    )
    | no ne ↦
        let plain : Looks s (some c) (t ∷ rs) s.wait = record {
          current = looks.current;
          ready = looks.ready;
          wait = refl;
          unlocked = looks.unlocked;
        } in
        let (r, runs, (_, b)) = take_or_wait-Blocked memory mu m s plain ne in
        (
          r,
          lock-take_or_wait memory mu m s h ∙ runs,
          Blocked-WaitersFit c t rs b h.at (omega arith) small
              (subst (λ q. count (λ u. c == u) q ≡ 0) (sym looks.wait) out) fit,
        )
  ]
