-- ===== src/Code/Pthread/Refine/Exit.antt =====
-- tmp2/my_pthread.c does what code/my_pthread.c does: the end of a thread.
use osdesignasst.Prelude.{
  false, ℕ, ◌≡◌, refl, sym, subst, none, some, Option, Outcome, ok, segv, out_of_bounds, ◌>>=◌,
  get_elem?,
}
use osdesignasst.Pthread.State.{Pthread, Memory, Mutex}
use osdesignasst.Pthread.Mutex as Table
use osdesignasst.Pthread.Sched
use osdesignasst.Pthread.Sched.Release.{released, release_all_thread-eq}
use osdesignasst.Pthread.Thread
use osdesignasst.Code.Malloc.{Pool, reclaim_current_heap}
use osdesignasst.Code.Pthread.{Threads, schedule, release_all_thread}
use osdesignasst.Code.Pthread.Mutexes
use osdesignasst.Code.Pthread.Life
use osdesignasst.Code.Pthread.Refine.{Sim, Agree, faults, schedule-Sim, released-Sim}
use osdesignasst.Code.Pthread.Refine.Calls.{with_mutex-Sim}

module _ {Vm Page : Type 0} (memory : Memory Vm) (zeros : Page) (freed_tid : ℕ)
    (pool : Pool Page) where
  abbrev switched_off : ℕ → Pthread Vm → Outcome (Pthread Vm)
  switched_off t s =
      Sched.schedule memory (record s { current = none; vm = memory.free_pages t s.vm })

  -- The end behind the release: the mutex, the memory and the switch.
  ended-Sim :
      (t mu : ℕ) (s : Pthread Vm) (u : Threads Page) (o : Option Mutex)
      → Sim s u
      → reclaim_current_heap zeros freed_tid u.pool ≡ ok pool
      → Agree Sim (Table.free_mutex_at mu s o >>= switched_off t) (
          Mutexes.free_at mu u o >>= λ u₁. reclaim_current_heap zeros freed_tid u₁.pool >>= λ p.
          ok (schedule (record u₁ { current = none; pool = p })))
  ended-Sim t mu s u none sim clears = faults out_of_bounds
  ended-Sim t mu s u (some m) sim clears =
      let freed = with_mutex-Sim s u sim mu (record { used = false; count = 0 }) in
      rw clears (
        schedule-Sim memory _ _ (record {
          looks = record {
            current = refl;
            ready = sim.looks.ready;
            wait = sim.looks.wait;
            unlocked = sim.looks.unlocked;
          };
          mutexes = freed.mutexes;
          mus = sim.mus;
          tids = sim.tids;
          cnt = sim.cnt;
          init = sim.init;
        }))

  exit_current-Sim :
      (s : Pthread Vm) (u : Threads Page) (o : Option ℕ)
      → Sim s u
      → reclaim_current_heap zeros freed_tid u.pool ≡ ok pool
      → Agree Sim (Thread.exit_current memory o s) (Life.exit_current zeros freed_tid o u)
  unfolding Table.free_mutex Mutexes.free_mutex release_all_thread
  exit_current-Sim s u none sim clears = faults segv
  exit_current-Sim s u (some t) sim clears =
      let mu = (u.info t).tid in
      subst
        (λ i.
          Agree Sim
            (Sched.release_all_thread i s >>= λ s₁. Table.free_mutex i s₁ >>= switched_off t)
            (Life.exit_current zeros freed_tid (some t) u))
        (sym (sim.tids t))
        (rw (release_all_thread-eq mu s sim.looks.unlocked) (
          subst
            (λ table.
              Agree Sim
                (Table.free_mutex_at mu (released mu s) (get_elem? table mu) >>= switched_off t)
                (Life.exit_current zeros freed_tid (some t) u))
            (sym sim.mutexes)
            (ended-Sim t mu (released mu s) (release_all_thread mu u) (get_elem? u.mutexes mu)
              (released-Sim mu s u sim) clears)))

  -- my_pthread_exit ends in tmp2/ as it does in code/, if the heap of the id that code/ reads from the
  -- freed `thread_info_t` can be cleared: with the same fault, or in related states.
  pub my_pthread_exit-Sim :
      (s : Pthread Vm) (u : Threads Page)
      → Sim s u
      → reclaim_current_heap zeros freed_tid u.pool ≡ ok pool
      → Agree Sim (Thread.my_pthread_exit memory s) (Life.my_pthread_exit zeros freed_tid u)
  unfolding Thread.my_pthread_exit Life.my_pthread_exit
  my_pthread_exit-Sim s u sim clears =
      subst
        (λ o.
          Agree Sim (Thread.exit_current memory o s)
            (Life.exit_current zeros freed_tid u.current u))
        (sym sim.looks.current) (exit_current-Sim s u u.current sim clears)
