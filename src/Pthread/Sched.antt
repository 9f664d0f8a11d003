-- ===== src/Pthread/Sched.antt =====
-- tmp2/my_pthread.c: the switches between threads, and the moves from the wait queue to the ready
-- queue. A function that switches gives the state in which the thread switched to runs on.
pub mod Switch
pub mod Rotation
pub mod Release
use osdesignasst.Prelude.{
  ℕ, Option, none, some, List, [], ◌∷◌, ◌++◌, ◌==◌, if◌then◌else◌, Outcome, ok, fault, segv, ◌>>=◌,
}
use osdesignasst.Pthread.State.{
  Context, at_stub, after_swap, ThreadInfo, Pthread, Memory, write, acquire_queue_spinlock,
  release_queue_spinlock,
}

module _ {Vm : Type 0} (memory : Memory Vm) where
  -- The thread switched to goes on: behind its `swapcontext` it calls `mm_switch_virtual_pages`, with
  -- itself as `CURRENT`; at the start of `thread_stub` it does not.
  unfoldable pub resume_as : Context → ℕ → Pthread Vm → Pthread Vm
  resume_as at_stub t s = s
  resume_as after_swap t s = record s { vm = memory.switch_in t s.vm }

  abbrev pub resume : ℕ → Pthread Vm → Pthread Vm
  resume t s = resume_as (s.info t).context t s

  -- `swapcontext` saves where `tmp` is.
  abbrev pub save_context : ℕ → Pthread Vm → Pthread Vm
  save_context tmp s = record s {
    info = write s.info tmp (record (s.info tmp) { context = after_swap });
  }

  abbrev pub store_back_for : ℕ → Pthread Vm → Pthread Vm
  store_back_for tmp s = record s { vm = memory.store_back tmp s.vm }

  -- `schedule` with the ready queue `t ∷ rest`. After an exit `setcontext` does not return, so that
  -- the call of `mm_switch_virtual_pages` behind it is never reached.
  unfoldable pub schedule_to : ℕ → List ℕ → Option ℕ → Pthread Vm → Outcome (Pthread Vm)
  unfolding acquire_queue_spinlock release_queue_spinlock resume_as
  schedule_to t rest none s = do
    s₁ ← acquire_queue_spinlock s
    ok (resume t (release_queue_spinlock (record s₁ { current = some t; ready = rest })))
  schedule_to t rest (some tmp) s = do
    s₁ ← acquire_queue_spinlock (store_back_for tmp s)
    let s₂ = record s₁ { current = some t; ready = rest ++ tmp ∷ [] }
    ok (resume t (save_context tmp (release_queue_spinlock s₂)))

  abbrev pub schedule_from : List ℕ → Pthread Vm → Outcome (Pthread Vm)
  schedule_from [] s = ok s
  schedule_from (t ∷ rest) s = schedule_to t rest s.current s

  unfoldable pub schedule : Pthread Vm → Outcome (Pthread Vm)
  unfolding schedule_to
  schedule s = schedule_from s.ready s

  -- `schedule_swap_current_to_wait` with the ready queue `t ∷ rest`
  unfoldable pub swap_to_wait : ℕ → List ℕ → Option ℕ → Pthread Vm → Outcome (Pthread Vm)
  unfolding acquire_queue_spinlock release_queue_spinlock resume_as
  swap_to_wait t rest none s = fault segv
  swap_to_wait t rest (some tmp) s = do
    s₁ ← acquire_queue_spinlock (store_back_for tmp s)
    let s₂ = record s₁ { current = some t; ready = rest; wait = s₁.wait ++ tmp ∷ [] }
    ok (resume t (save_context tmp (release_queue_spinlock s₂)))

  abbrev pub swap_to_wait_from : List ℕ → Pthread Vm → Outcome (Pthread Vm)
  swap_to_wait_from [] s = ok s
  swap_to_wait_from (t ∷ rest) s = swap_to_wait t rest s.current s

  -- With no other thread to run the current one goes on.
  unfoldable pub schedule_swap_current_to_wait : Pthread Vm → Outcome (Pthread Vm)
  unfolding swap_to_wait
  schedule_swap_current_to_wait s = swap_to_wait_from s.ready s

  unfoldable pub timer_handler : Pthread Vm → Outcome (Pthread Vm)
  unfolding schedule
  timer_handler s = schedule s

-- The queues: the wait queue, and the ready queue behind it.
abbrev pub Queues : Type 0
Queues = List ℕ × List ℕ

-- `STAILQ_FOREACH` over the rest of the wait queue, of which `passed` is the part gone by. The first
-- thread that waits for `mu` is taken out and put at the tail of the ready queue; there `break` ends
-- the loop.
unfoldable pub release_first : (ℕ → ThreadInfo) → (mu : ℕ) → (passed rest ready : List ℕ) → Queues
release_first info mu passed [] ready = (passed, ready)
release_first info mu passed (t ∷ rest) ready =
    if mu == (info t).mu
    then (passed ++ rest, ready ++ t ∷ [])
    else release_first info mu (passed ++ t ∷ []) rest ready

-- The same loop without the `break`. `STAILQ_FOREACH` goes on at the link of the thread in hand. Once
-- that thread is the tail of the ready queue, its link is `NULL`, so the loop goes on with no thread.
unfoldable pub release_all : (ℕ → ThreadInfo) → (mu : ℕ) → (passed rest ready : List ℕ) → Queues
release_all info mu passed [] ready = (passed, ready)
release_all info mu passed (t ∷ rest) ready =
    if mu == (info t).mu
    then (passed ++ rest, ready ++ t ∷ [])
    else release_all info mu (passed ++ t ∷ []) rest ready

module _ {Vm : Type 0} where
  abbrev pub with_queues : Pthread Vm → Queues → Pthread Vm
  with_queues s (wait, ready) = record s { wait = wait; ready = ready }

  unfoldable pub release_thread : (mu : ℕ) → Pthread Vm → Outcome (Pthread Vm)
  unfolding acquire_queue_spinlock release_queue_spinlock release_first
  release_thread mu s = do
    s₁ ← acquire_queue_spinlock s
    ok (release_queue_spinlock (with_queues s₁ (release_first s₁.info mu [] s₁.wait s₁.ready)))

  unfoldable pub release_all_thread : (mu : ℕ) → Pthread Vm → Outcome (Pthread Vm)
  unfolding acquire_queue_spinlock release_queue_spinlock release_all
  release_all_thread mu s = do
    s₁ ← acquire_queue_spinlock s
    ok (release_queue_spinlock (with_queues s₁ (release_all s₁.info mu [] s₁.wait s₁.ready)))
