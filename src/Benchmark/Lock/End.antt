-- ===== src/Benchmark/Lock/End.antt =====
-- The end of a worker: the mutex is left alone.
use osdesignasst.Prelude.{
  ℕ, ◌+◌, ◌≤◌, ◌≡◌, ◌≢◌, refl, ap, ◌∙◌, subst, inl, inr, Bool, false, Option, none, some, List, [],
  ◌==◌, lt→ltb, if◌then◌else◌, Returns, get_elem?, get_elem?-some, get_elem?-set_ne, set,
  length-set, count, Option-cases, arith,
}
use osdesignasst.Malloc.{cleared}
use osdesignasst.Code.Malloc.{Pool, reclaim_current_heap}
use osdesignasst.Code.Pthread.{Threads, take_waiting, schedule, release_all_thread, with_taken}
use osdesignasst.Code.Pthread.Mutexes
use osdesignasst.Code.Pthread.Life.{exit_current}
use osdesignasst.Code.Pthread.Conserve.{is_it, running, places}
use osdesignasst.Benchmark.Worker.{before, System}
use osdesignasst.Benchmark.Lock.{Place, HasPage, Inv}
use osdesignasst.Benchmark.Lock.Queues.{
  ones_of, count-take_waiting, take_waiting-some, count-insert_tail, schedule-Turned,
}
use osdesignasst.Benchmark.Lock.Quiet.{Quiet, Quiet-Inv, Turned-Quiet, Turned-Place, Inside-at}

reclaim_current_heap-HasPage :
    {Page : Type 0} (zeros : Page) (freed_tid : ℕ → ℕ) (c : ℕ) (p : Pool Page)
    → HasPage freed_tid p
    → Returns (reclaim_current_heap zeros (freed_tid c) p) (HasPage freed_tid)
unfolding reclaim_current_heap
reclaim_current_heap-HasPage zeros freed_tid c p h = (
  record p {
    metadata = set p.metadata (freed_tid c) cleared;
    heap = set p.heap (freed_tid c) zeros;
  },
  rw (h.mapped, lt→ltb _ _ (h.metadata c), lt→ltb _ _ (h.heap c)),
  record {
    address = h.address;
    mapped = h.mapped;
    metadata =
        λ t. let k = h.metadata t in omega (arith, k, length-set p.metadata (freed_tid c) cleared);
    heap = λ t. let k = h.heap t in omega (arith, k, length-set p.heap (freed_tid c) zeros);
    apart = h.apart;
  },
)

module _ {Page : Type 0} (mutex : ℕ) (freed_tid : ℕ → ℕ) (u : Threads Page) (c : ℕ)
    (pool : Pool Page) (ne : (u.info c).tid ≢ mutex) (page : HasPage freed_tid pool)
    (run : u.current ≡ some c) (once : (y : ℕ) → places y u.current u.ready u.wait ≤ 1) where
  abbrev own : ℕ
  own = (u.info c).tid

  abbrev taken : List ℕ × Option ℕ
  taken = take_waiting u.info own u.wait

  -- The state in which `schedule` picks the next thread.
  abbrev gone : Threads Page
  gone =
      let r = Mutexes.with_mutex (with_taken u taken) own (record { used = false; count = 0 }) in
      record r { current = none; pool = pool }

  -- The thread that is released did not wait for the mutex.
  not_for_mutex :
      (p : ℕ → Bool) → ((w : ℕ) → (u.info w).mu ≡ own → p w ≡ false) → ones_of p taken.1 ≡ 0
  not_for_mutex p k = elim (Option-cases taken.1) [
    | inl e ↦ ap (ones_of p) e
    | inr (w, e) ↦
        ap (ones_of p) e
        ∙ (let f = k w (take_waiting-some u.info own u.wait e) in
            ap (λ (b : Bool). if b then 1 else 0) f)
  ]

  released_ready :
      (y : ℕ) → count (is_it y) gone.ready ≡ count (is_it y) u.ready + ones_of (is_it y) taken.1
  released_ready y = count-insert_tail (is_it y) u.ready taken.1

  left_wait :
      (y : ℕ) → count (is_it y) gone.wait + ones_of (is_it y) taken.1 ≡ count (is_it y) u.wait
  left_wait y = count-take_waiting u.info own (is_it y) u.wait

  stays : (y : ℕ) → (u.info y).mu ≡ mutex → ones_of (is_it y) taken.1 ≡ 0
  stays y e = not_for_mutex (is_it y) (λ w f. ground (arith, ne))

  gone-Quiet : Quiet mutex freed_tid u gone
  gone-Quiet = record {
    size = length-set u.mutexes own (record { used = false; count = 0 });
    page = page;
    once = λ y. omega (arith, once y, released_ready y, left_wait y);
    entry = get_elem?-set_ne u.mutexes (record { used = false; count = 0 }) ne;
    waiting_eq = omega (
      arith,
      count-take_waiting u.info own (λ t. mutex == (u.info t).mu) u.wait,
      not_for_mutex (λ t. mutex == (u.info t).mu) (λ w f. ground (arith, ne)),
    );
    waits = λ y w. (let l = w.0 in omega (arith, l, left_wait y), w.1);
    waits_still = λ y w. (let l = w.0 in omega (arith, l, left_wait y, stays y w.1), w.1);
    tids = λ y. refl;
  }

  gone-Place : (h : ℕ) → h ≢ c → Place mutex u (some h) → Place mutex gone (some h)
  gone-Place h far p =
      let k = subst (λ o. running h o + count (is_it h) u.ready ≡ 1) run p.1 in
      let q = p.0 in let r = released_ready h in let l = left_wait h in (omega arith, ground arith)

  gone-once : (y : ℕ) → places y gone.current gone.ready gone.wait ≤ 1
  gone-once y = omega (arith, once y, released_ready y, left_wait y)

-- A worker that has added all its numbers returns to `thread_stub`, which ends it: the mutex is as before.
pub end-Inv :
    {Page : Type 0} (zeros : Page) (mutex : ℕ) (freed_tid : ℕ → ℕ) {all : ℕ} {o : Option ℕ}
    (s : System Page) (v : Inv mutex freed_tid all o s) (c : ℕ)
    → s.lib.current ≡ some c
    → get_elem? s.locals c ≡ some (record { phase = before; left = [] })
    → Returns
        (exit_current zeros (freed_tid c) (some c) s.lib)
        (λ u. Inv mutex freed_tid all o (record s { lib = u }))
unfolding release_all_thread Mutexes.free_mutex
end-Inv zeros mutex freed_tid {o} s v c run at =
    let (ne, lt) = v.tids c _ at in
    let (m, slot) = get_elem?-some s.lib.mutexes (s.lib.info c).tid (omega (arith, v.size)) in
    let (pool, clears, page) = reclaim_current_heap-HasPage zeros freed_tid c s.lib.pool v.page in
    let left = gone mutex freed_tid s.lib c pool ne page run v.once in
    let far : (h : ℕ) → o ≡ some h → h ≢ c =
      λ h own same. Inside-at mutex freed_tid _ v (own ∙ ap some same) at in
    let w =
      Quiet-Inv mutex freed_tid s left v
        (gone-Quiet mutex freed_tid s.lib c pool ne page run v.once)
        (λ h own p. gone-Place mutex freed_tid s.lib c pool ne page run v.once h (far h own) p) in
    let r = schedule-Turned left in
    (
      schedule left,
      rw (slot, clears),
      Quiet-Inv mutex freed_tid (record s { lib = left }) (schedule left) w
          (Turned-Quiet mutex freed_tid left (schedule left) r w.once page)
          (λ h own p. Turned-Place mutex freed_tid left (schedule left) r h p),
    )
