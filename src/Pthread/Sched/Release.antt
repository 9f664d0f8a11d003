-- ===== src/Pthread/Sched/Release.antt =====
-- Which threads `release_thread` and `release_all_thread` move to the ready queue.
use mathlib.Core.List.{append_assoc, append-nil}
use native.Mathlib.Decide.{ℕ_discrete}
use osdesignasst.Prelude.{
  ℕ, ◌+◌, ◌-◌, ◌<◌, ◌≤◌, ◌≡◌, refl, ap, ◌∙◌, inl, inr, ok, List, [], ◌∷◌, ◌++◌, ◌==◌, count,
  count-append, Bool-cases, arith,
}
use osdesignasst.Pthread.State.{ThreadInfo, Pthread, release_queue_spinlock}
use osdesignasst.Pthread.State.Spin.{acquire-free}
use osdesignasst.Pthread.Sched.{release_first, release_all, release_thread, release_all_thread}

-- How many of the threads wait for `mu`.
abbrev pub waiting : (ℕ → ThreadInfo) → (mu : ℕ) → List ℕ → ℕ
waiting info mu ws = count (λ t. mu == (info t).mu) ws

pub waiting-mus :
    (f g : ℕ → ThreadInfo) (k : ℕ) (ws : List ℕ)
    → ((u : ℕ) → (f u).mu ≡ (g u).mu)
    → waiting f k ws ≡ waiting g k ws
waiting-mus f g k [] same = refl
waiting-mus f g k (w ∷ ws) same =
    let here = same w in ground (arith, here, waiting-mus f g k ws same)

module _ (info : ℕ → ThreadInfo) (mu : ℕ) where
  -- The loop that means to release all waiting threads does what the loop with the `break` does.
  pub release_all-eq-release_first :
      (passed rest ready : List ℕ)
      → release_all info mu passed rest ready ≡ release_first info mu passed rest ready
  unfolding release_all release_first
  release_all-eq-release_first passed [] ready = refl
  release_all-eq-release_first passed (t ∷ rest) ready =
      ground (arith, release_all-eq-release_first (passed ++ t ∷ []) rest ready)

  pub release_first-none :
      (passed rest ready : List ℕ)
      → waiting info mu rest ≡ 0
      → release_first info mu passed rest ready ≡ (passed ++ rest, ready)
  unfolding release_first
  release_first-none passed [] ready h = rw append-nil
  release_first-none passed (t ∷ rest) ready h =
      ground
        (arith, release_first-none (passed ++ t ∷ []) rest ready, append_assoc passed (t ∷ []) rest)

  -- The queue `rest` with its first waiting thread `t` between `front` and `back`.
  pub record First (rest : List ℕ) : Type 0 where
    pub front : List ℕ
    pub thread : ℕ
    pub back : List ℕ
    pub split : rest ≡ front ++ thread ∷ back
    pub none_before : waiting info mu front ≡ 0
    pub waits : (info thread).mu ≡ mu

  pub First-of : (rest : List ℕ) → 0 < waiting info mu rest → First rest
  First-of [] h = absurd (omega arith)
  First-of (t ∷ rest) h = elim (Bool-cases (mu == (info t).mu)) [
    | inl hit ↦ record {
      front = [];
      thread = t;
      back = rest;
      split = refl;
      none_before = refl;
      waits = ground arith;
    }
    | inr miss ↦
        let f = First-of rest (ground arith) in
        record {
          front = t ∷ f.front;
          thread = f.thread;
          back = f.back;
          split = ap (λ l. t ∷ l) f.split;
          none_before = ground (arith, f.none_before);
          waits = f.waits;
        }
  ]

  pub release_first-some :
      (front back : List ℕ) (t : ℕ) (passed ready : List ℕ)
      → waiting info mu front ≡ 0
      → (info t).mu ≡ mu
      → release_first info mu passed (front ++ t ∷ back) ready
        ≡ (passed ++ (front ++ back), ready ++ t ∷ [])
  unfolding release_first
  release_first-some [] back t passed ready h w = ground arith
  release_first-some (u ∷ front) back t passed ready h w = ground (
    arith,
    release_first-some front back t (passed ++ u ∷ []) ready,
    append_assoc passed (u ∷ []) (front ++ back),
  )

module _ {Vm : Type 0} (mu : ℕ) (s : Pthread Vm) where
  -- The state after the release of what `release_first` finds.
  abbrev pub released : Pthread Vm
  released =
      let queues = release_first s.info mu [] s.wait s.ready in
      record s { wait = queues.0; ready = queues.1; queue_spinlock = 0; timer = 25000 }

  pub release_thread-eq : s.queue_spinlock ≡ 0 → release_thread mu s ≡ ok released
  unfolding release_thread release_queue_spinlock
  release_thread-eq h = rw (acquire-free s h)

  -- `release_all_thread` is `release_thread`.
  pub release_all_thread-eq : s.queue_spinlock ≡ 0 → release_all_thread mu s ≡ ok released
  unfolding release_all_thread release_queue_spinlock
  release_all_thread-eq h =
      rw (acquire-free s h, release_all-eq-release_first s.info mu [] s.wait s.ready)

module _ (info : ℕ → ThreadInfo) where
  -- A release takes one waiting thread away, if there is one.
  pub waiting-release_self :
      (mu : ℕ) (ws ready : List ℕ)
      → waiting info mu (release_first info mu [] ws ready).0 ≡ waiting info mu ws - 1
  waiting-release_self mu ws ready = elim (ℕ_discrete (waiting info mu ws) 0) [
    | yes e ↦
        omega (arith, e, ap (λ q. waiting info mu q.0) (release_first-none info mu [] ws ready e))
    | no ne ↦
        let f = First-of info mu ws (omega arith) in
        let after =
          ap (λ q. waiting info mu (release_first info mu [] q ready).0) f.split
          ∙ ap (λ q. waiting info mu q.0)
              (release_first-some info mu f.front f.back f.thread [] ready f.none_before f.waits) in
        let before = ap (waiting info mu) f.split in
        let one : waiting info mu (f.thread ∷ f.back) ≡ 1 + waiting info mu f.back =
          ground (arith, f.waits) in
        omega (
          arith,
          after,
          before,
          one,
          count-append (λ t. mu == (info t).mu) f.front f.back,
          count-append (λ t. mu == (info t).mu) f.front (f.thread ∷ f.back),
        )
  ]

  -- A release for one mutex adds no waiter to any.
  pub waiting-release_le :
      (mu k : ℕ) (ws ready : List ℕ)
      → waiting info k (release_first info mu [] ws ready).0 ≤ waiting info k ws
  waiting-release_le mu k ws ready = elim (ℕ_discrete (waiting info mu ws) 0) [
    | yes e ↦ omega (arith, ap (λ q. waiting info k q.0) (release_first-none info mu [] ws ready e))
    | no ne ↦
        let f = First-of info mu ws (omega arith) in
        let after =
          ap (λ q. waiting info k (release_first info mu [] q ready).0) f.split
          ∙ ap (λ q. waiting info k q.0)
              (release_first-some info mu f.front f.back f.thread [] ready f.none_before f.waits) in
        let before = ap (waiting info k) f.split in
        omega (
          arith,
          after,
          before,
          count-append (λ t. k == (info t).mu) f.front f.back,
          count-append (λ t. k == (info t).mu) f.front (f.thread ∷ f.back),
        )
  ]
