-- ===== src/Benchmark/Lock/Quiet.antt =====
-- The steps that leave the mutex alone: a tick, a join by the main thread, and the end of a worker.
use mathlib.Core.Option.{some-injective}
use osdesignasst.Prelude.{
  ℕ, ◌≤◌, ◌<◌, ◌≡◌, refl, sym, ap, ◌∙◌, subst, Option, none, some, get_elem?, length, count, arith,
}
use osdesignasst.Code.Pthread.{Threads, schedule, timer_handler}
use osdesignasst.Code.Pthread.Conserve.{is_it, places}
use osdesignasst.Benchmark.Worker.{before, entered, loaded, stored, Phase, Local, System}
use osdesignasst.Benchmark.Lock.{waiting, WaitsFor, Place, Outside, Inside, HasPage, Inv}
use osdesignasst.Benchmark.Lock.Queues.{Turned, schedule-Turned}

module _ {Page : Type 0} (mutex : ℕ) (freed_tid : ℕ → ℕ) where
  -- What the invariant sees of the library, but for the place of the owner.
  pub record Quiet (u u' : Threads Page) : Type 0 where
    pub size : length u'.mutexes ≡ length u.mutexes
    pub page : HasPage freed_tid u'.pool
    pub once : (t : ℕ) → places t u'.current u'.ready u'.wait ≤ 1
    pub entry : get_elem? u'.mutexes mutex ≡ get_elem? u.mutexes mutex
    pub waiting_eq : waiting mutex u'.info u'.wait ≡ waiting mutex u.info u.wait
    pub waits : (t : ℕ) → WaitsFor mutex u' t → WaitsFor mutex u t
    pub waits_still : (t : ℕ) → WaitsFor mutex u t → WaitsFor mutex u' t
    pub tids : (t : ℕ) → (u'.info t).tid ≡ (u.info t).tid

  Place-Quiet :
      (u u' : Threads Page) (o : Option ℕ)
      → Quiet u u'
      → ((h : ℕ) → o ≡ some h → Place mutex u (some h) → Place mutex u' (some h))
      → Place mutex u o
      → Place mutex u' o
  Place-Quiet u u' none q k p = q.waiting_eq ∙ p
  Place-Quiet u u' (some h) q k p = k h refl p

  Outside-Quiet :
      (u u' : Threads Page) (t : ℕ) (p : Phase)
      → Quiet u u'
      → Outside mutex u t p
      → Outside mutex u' t p
  Outside-Quiet u u' t before q o = tt
  Outside-Quiet u u' t entered q o = q.waits_still t o
  Outside-Quiet u u' t (loaded v) q o = o
  Outside-Quiet u u' t stored q o = o

  pub Quiet-Inv :
      {all : ℕ} {o : Option ℕ} (s : System Page) (u' : Threads Page)
      → Inv mutex freed_tid all o s
      → Quiet s.lib u'
      → ((h : ℕ) → o ≡ some h → Place mutex s.lib (some h) → Place mutex u' (some h))
      → Inv mutex freed_tid all o (record s { lib = u' })
  Quiet-Inv {o} s u' v q k = record {
    in_table = v.in_table;
    few = v.few;
    size = q.size ∙ v.size;
    page = q.page;
    once = q.once;
    entry = q.entry ∙ v.entry;
    counted = omega (arith, v.counted, q.waiting_eq);
    place = Place-Quiet s.lib u' o q k v.place;
    tids = λ t l at. rw (q.tids t) (v.tids t l at);
    waiters = λ t w. v.waiters t (q.waits t w);
    outside = λ t l at ne. Outside-Quiet s.lib u' t l.phase q (v.outside t l at ne);
    inside = v.inside;
    word = v.word;
    adds = v.adds;
  }

  -- A turn of the threads is quiet.
  pub Turned-Quiet :
      (u u' : Threads Page)
      → Turned u u'
      → ((t : ℕ) → places t u.current u.ready u.wait ≤ 1)
      → HasPage freed_tid u.pool
      → Quiet u u'
  Turned-Quiet u u' r once page = record {
    size = ap length r.mutexes;
    page = rw r.pool page;
    once = λ t. rw r.wait (omega (arith, once t, r.near_eq t));
    entry = ap (λ m. get_elem? m mutex) r.mutexes;
    waiting_eq = rw (r.wait, r.info) refl;
    waits = λ t w.
        subst (λ ws. (0 < count (is_it t) ws) × ((u.info t).mu ≡ mutex)) r.wait
          (subst (λ f. (0 < count (is_it t) u'.wait) × ((f t).mu ≡ mutex)) r.info w);
    waits_still = λ t w. rw (r.wait, r.info) w;
    tids = λ t. rw r.info refl;
  }

  pub Turned-Place :
      (u u' : Threads Page)
      → Turned u u'
      → (h : ℕ) → Place mutex u (some h)
      → Place mutex u' (some h)
  Turned-Place u u' r h p = (rw r.wait p.0, r.near_eq h ∙ p.1)

  pub tick-Inv :
      {all : ℕ} {o : Option ℕ} (s : System Page)
      → Inv mutex freed_tid all o s
      → Inv mutex freed_tid all o (record s { lib = timer_handler s.lib })
  unfolding timer_handler
  tick-Inv s v =
      let r = schedule-Turned s.lib in
      Quiet-Inv s (schedule s.lib) v (Turned-Quiet s.lib (schedule s.lib) r v.once v.page)
        (λ h e p. Turned-Place s.lib (schedule s.lib) r h p)

  -- What the owner is known to be.
  pub Inside-at :
      {all : ℕ} {o : Option ℕ} {s : System Page} {h : ℕ} (l : Local)
      → Inv mutex freed_tid all o s
      → o ≡ some h
      → get_elem? s.locals h ≡ some l
      → Inside mutex s.sum l.phase l.left
  Inside-at {s} {h} l v own at =
      let (l', at', within) = v.inside h own in
      let e = some-injective l' l (sym at' ∙ at) in
      subst (λ (k : Local). Inside mutex s.sum k.phase k.left) e within
