-- ===== src/Pthread/Sched/Switch.antt =====
-- What one switch does, with the queue spinlock free.
use osdesignasst.Prelude.{
  ℕ, ◌<◌, ◌≡◌, ◌≢◌, refl, Returns, ok, fault, hang, segv, some, none, Option, List, [], ◌∷◌, ◌++◌,
  ap, ◌∙◌, arith,
}
use osdesignasst.Pthread.State.{
  Pthread, Memory, Context, at_stub, after_swap, acquire_queue_spinlock, release_queue_spinlock,
}
use osdesignasst.Pthread.State.Spin.{acquire-free, acquire-held}
use osdesignasst.Pthread.Sched.{
  resume_as, resume, store_back_for, schedule_from, swap_to_wait_from, save_context, schedule_to,
  schedule, swap_to_wait, schedule_swap_current_to_wait, timer_handler,
}

-- The current thread, the queues and the spinlock of a state: `c` runs, and the lock is free.
pub record Looks {Vm : Type 0} (s : Pthread Vm) (c : Option ℕ) (rs ws : List ℕ) : Type 0 where
  pub current : s.current ≡ c
  pub ready : s.ready ≡ rs
  pub wait : s.wait ≡ ws
  pub unlocked : s.queue_spinlock ≡ 0

-- What else a switch leaves alone.
pub record SameTables {Vm : Type 0} (s s' : Pthread Vm) : Type 0 where
  pub mutexes : s'.mutexes ≡ s.mutexes
  pub mus : (t : ℕ) → (s'.info t).mu ≡ (s.info t).mu
  pub tids : (t : ℕ) → (s'.info t).tid ≡ (s.info t).tid
  pub cnt : s'.threads_cnt ≡ s.threads_cnt
  pub init : s'.pthread_init ≡ s.pthread_init

module _ {Vm : Type 0} (memory : Memory Vm) where
  resume_as-Looks :
      (x : Context) (t : ℕ) (s : Pthread Vm) {c : Option ℕ} {rs ws : List ℕ}
      → Looks s c rs ws
      → Looks (resume_as memory x t s) c rs ws
  unfolding resume_as
  resume_as-Looks at_stub t s l = l
  resume_as-Looks after_swap t s l = record {
    current = l.current;
    ready = l.ready;
    wait = l.wait;
    unlocked = l.unlocked;
  }

  resume_as-SameTables :
      (x : Context) (t : ℕ) (s₀ s : Pthread Vm)
      → SameTables s₀ s
      → SameTables s₀ (resume_as memory x t s)
  unfolding resume_as
  resume_as-SameTables at_stub t s₀ s l = l
  resume_as-SameTables after_swap t s₀ s l = record {
    mutexes = l.mutexes;
    mus = l.mus;
    tids = l.tids;
    cnt = l.cnt;
    init = l.init;
  }

  -- The state in which `tmp` has been put away and `t` runs.
  abbrev pub switched : ℕ → ℕ → (rs ws : List ℕ) → Pthread Vm → Pthread Vm
  switched tmp t rs ws s = resume memory t (
      save_context memory tmp (record s {
        current = some t;
        ready = rs;
        wait = ws;
        queue_spinlock = 0;
        timer = 25000;
        vm = memory.store_back tmp s.vm;
      }))

  pub switched-Looks :
      (tmp t : ℕ) (rs ws : List ℕ) (s : Pthread Vm) → Looks (switched tmp t rs ws s) (some t) rs ws
  switched-Looks tmp t rs ws s =
      resume_as-Looks _ t _ (record { current = refl; ready = refl; wait = refl; unlocked = refl })

  pub switched-SameTables :
      (tmp t : ℕ) (rs ws : List ℕ) (s : Pthread Vm) → SameTables s (switched tmp t rs ws s)
  switched-SameTables tmp t rs ws s = resume_as-SameTables _ t s _ (record {
    mutexes = refl;
    mus = λ u. ground arith;
    tids = λ u. ground arith;
    cnt = refl;
    init = refl;
  })

  module _ (s : Pthread Vm) where
    schedule_to-eq :
        (c t : ℕ) (rs : List ℕ)
        → s.queue_spinlock ≡ 0
        → schedule_to memory t rs (some c) s ≡ ok (switched c t (rs ++ c ∷ []) s.wait s)
    unfolding schedule_to release_queue_spinlock
    schedule_to-eq c t rs h = rw (acquire-free (store_back_for memory c s) h)

    -- The state in which `t` has been picked.
    abbrev pub picked : ℕ → List ℕ → Pthread Vm
    picked t rs = record s { current = some t; ready = rs; queue_spinlock = 0; timer = 25000 }

    schedule_to-next :
        (t : ℕ) (rs : List ℕ)
        → s.queue_spinlock ≡ 0
        → schedule_to memory t rs none s ≡ ok (resume memory t (picked t rs))
    unfolding schedule_to release_queue_spinlock
    schedule_to-next t rs h = rw (acquire-free s h)

    swap_to_wait-eq :
        (c t : ℕ) (rs : List ℕ)
        → s.queue_spinlock ≡ 0
        → swap_to_wait memory t rs (some c) s ≡ ok (switched c t rs (s.wait ++ c ∷ []) s)
    unfolding swap_to_wait release_queue_spinlock
    swap_to_wait-eq c t rs h = rw (acquire-free (store_back_for memory c s) h)

    pub schedule-switch :
        {c t : ℕ} {rs ws : List ℕ}
        → Looks s (some c) (t ∷ rs) ws
        → schedule memory s ≡ ok (switched c t (rs ++ c ∷ []) ws s)
    unfolding schedule
    schedule-switch {c} {t} {rs} l =
        ap (λ q. schedule_from memory q s) l.ready
        ∙ ap (λ o. schedule_to memory t rs o s) l.current
        ∙ schedule_to-eq c t rs l.unlocked
        ∙ ap (λ w. ok (switched c t (rs ++ c ∷ []) w s)) l.wait

    pub swap_to_wait-switch :
        {c t : ℕ} {rs ws : List ℕ}
        → Looks s (some c) (t ∷ rs) ws
        → schedule_swap_current_to_wait memory s ≡ ok (switched c t rs (ws ++ c ∷ []) s)
    unfolding schedule_swap_current_to_wait
    swap_to_wait-switch {c} {t} {rs} l =
        ap (λ q. swap_to_wait_from memory q s) l.ready
        ∙ ap (λ o. swap_to_wait memory t rs o s) l.current
        ∙ swap_to_wait-eq c t rs l.unlocked
        ∙ ap (λ w. ok (switched c t rs (w ++ c ∷ []) s)) l.wait

    -- After an exit there is nobody to put away.
    pub schedule-next :
        {t : ℕ} {rs ws : List ℕ}
        → Looks s none (t ∷ rs) ws
        → Returns (schedule memory s) (λ s'. Looks s' (some t) rs ws × SameTables s s')
    unfolding schedule
    schedule-next {t} {rs} l = (
      _,
      ap (λ q. schedule_from memory q s) l.ready
          ∙ ap (λ o. schedule_to memory t rs o s) l.current
          ∙ schedule_to-next t rs l.unlocked,
      (
        resume_as-Looks (s.info t).context t (picked t rs)
            (record { current = refl; ready = refl; wait = l.wait; unlocked = refl }),
        resume_as-SameTables (s.info t).context t s (picked t rs)
            (record { mutexes = refl; mus = λ u. refl; tids = λ u. refl; cnt = refl; init = refl }),
      ),
    )

    -- With no other thread ready both leave the state as it is.
    pub schedule-idle : s.ready ≡ [] → schedule memory s ≡ ok s
    unfolding schedule
    schedule-idle e = ap (λ q. schedule_from memory q s) e

    pub swap_to_wait-idle : s.ready ≡ [] → schedule_swap_current_to_wait memory s ≡ ok s
    unfolding schedule_swap_current_to_wait
    swap_to_wait-idle e = ap (λ q. swap_to_wait_from memory q s) e

    -- With no current thread the wait queue cannot take it.
    pub swap_to_wait_nobody :
        {t : ℕ} {rs : List ℕ}
        → s.ready ≡ t ∷ rs
        → s.current ≡ none
        → schedule_swap_current_to_wait memory s ≡ fault segv
    unfolding schedule_swap_current_to_wait swap_to_wait
    swap_to_wait_nobody {t} {rs} e gone =
        ap (λ q. swap_to_wait_from memory q s) e ∙ ap (λ o. swap_to_wait memory t rs o s) gone

    -- A held spinlock is waited for by the handler, if a thread is ready.
    timer_handler-held :
        {t : ℕ} {rs : List ℕ}
        → s.queue_spinlock ≢ 0
        → s.ready ≡ t ∷ rs
        → timer_handler memory s ≡ fault hang
    unfolding timer_handler schedule schedule_to
    timer_handler-held {t} {rs} held e =
        ap (λ q. schedule_from memory q s) e ∙ schedule_to-held t rs s.current
      where
        schedule_to-held :
            (t : ℕ) (rs : List ℕ) (c : Option ℕ) → schedule_to memory t rs c s ≡ fault hang
        schedule_to-held t rs none = rw (acquire-held s held)
        schedule_to-held t rs (some c) = rw (acquire-held (store_back_for memory c s) held)

  pub acquire-timer_handler :
      (s : Pthread Vm) {t : ℕ} {rs : List ℕ}
      → s.queue_spinlock ≡ 0
      → s.ready ≡ t ∷ rs
      → Returns
          (acquire_queue_spinlock s)
          (λ a. (0 < a.timer) × (timer_handler memory a ≡ fault hang))
  acquire-timer_handler s free some_ready =
      let a : Pthread Vm = record s { queue_spinlock = 1; timer = 25000 } in
      (a, acquire-free s free, (omega arith, timer_handler-held a (omega arith) some_ready))
