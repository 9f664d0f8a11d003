-- ===== src/Benchmark/Lock/Owner.antt =====
-- The worker that runs between its two calls is the owner of the mutex. Its load and its store.
use mathlib.Core.Option.{some-injective}
use osdesignasst.Prelude.{
  ℕ, ◌+◌, ◌%◌, ◌^◌, ◌≤◌, ◌<◌, ◌≡◌, ◌≢◌, refl, sym, ap, ◌∙◌, subst, inl, inr, true, Option, some,
  List, [], ◌∷◌, get_elem?, get_elem?-lt, get_elem?-set_ne, get_elem?-set_self, get_elem?-set_cases,
  set, length-set, count, count-set, Option-cases, eq_or_ne, arith,
}
use osdesignasst.Code.Pthread.Conserve.{is_it, running, places}
use osdesignasst.Benchmark.Worker.{
  before, entered, loaded, stored, int_add, Phase, Local, System, put,
}
use osdesignasst.Benchmark.Lock.{
  WaitsFor, Outside, Inside, Inv, is_inside, is_within, pending, total,
}
use osdesignasst.Benchmark.Lock.Queues.{total-set}
use osdesignasst.Benchmark.Lock.Quiet.{Inside-at}

module _ {Page : Type 0} (mutex : ℕ) (freed_tid : ℕ → ℕ) {all : ℕ} {o : Option ℕ} (s : System Page)
    (v : Inv mutex freed_tid all o s) (c : ℕ) (run : s.lib.current ≡ some c) where
  -- The running thread is in no queue.
  pub caller_once :
      (y : ℕ) → running y (some c) + count (is_it y) s.lib.ready + count (is_it y) s.lib.wait ≤ 1
  caller_once y = subst (λ q. places y q s.lib.ready s.lib.wait ≤ 1) run (v.once y)

  pub caller_alone : (count (is_it c) s.lib.ready ≡ 0) × (count (is_it c) s.lib.wait ≡ 0)
  caller_alone = let q = caller_once c in (ground arith, ground arith)

  pub not_caller : (t : ℕ) → WaitsFor mutex s.lib t → c ≢ t
  not_caller t w e = let q = caller_alone.1 in let l = w.0 in ground arith

  not-Outside : (p : Phase) → is_within p ≡ true → Outside mutex s.lib c p → ⊥
  not-Outside before i q = cc
  not-Outside entered i q = not_caller c q refl
  not-Outside (loaded w) i q = q
  not-Outside stored i q = q

  pub owner_runs : (l : Local) → get_elem? s.locals c ≡ some l → is_inside l ≡ true → o ≡ some c
  owner_runs l at i = elim (Option-cases o) [
    | inl free ↦ absurd (not-Outside l.phase i (v.outside c l at (λ e. cc)))
    | inr (h, held) ↦ elim (eq_or_ne h c) [
      | inl same ↦ held ∙ ap some same
      | inr far ↦
          absurd (
            not-Outside l.phase i (v.outside c l at (λ e. far (some-injective h c (sym held ∙ e)))))
    ]
  ]

  -- What a step of worker `c` leaves of the others.
  module _ (l l' : Local) (at : get_elem? s.locals c ≡ some l) where
    pub tids-set :
        (t : ℕ) (k : Local)
        → get_elem? (set s.locals c l') t ≡ some k
        → (k' : Local) × (get_elem? s.locals t ≡ some k')
    tids-set t k e = elim (get_elem?-set_cases s.locals c t l' e) [
      | inl (same, _) ↦ (l, subst (λ j. get_elem? s.locals j ≡ some l) same at)
      | inr (_, old) ↦ (k, old)
    ]

    pub waiters-set :
        (t : ℕ)
        → WaitsFor mutex s.lib t
        → (y : ℕ) × (ys : List ℕ) × (get_elem? (set s.locals c l') t
            ≡ some (record { phase = entered; left = y ∷ ys }))
    waiters-set t w =
        let (y, ys, e) = v.waiters t w in (y, ys, get_elem?-set_ne s.locals l' (not_caller t w) ∙ e)

    -- The owner goes on inside.
    pub owner-Inv :
        (sum : ℕ)
        → sum < 2 ^ 32
        → is_inside l ≡ true
        → is_inside l' ≡ true
        → Inside mutex sum l'.phase l'.left
        → (sum + total pending (set s.locals c l')) % 2 ^ 32 ≡ all % 2 ^ 32
        → Inv mutex freed_tid all o (record s { locals = set s.locals c l'; sum = sum })
    owner-Inv sum small i i' within adds =
        let owns = owner_runs l at i in
        let same : count is_inside (set s.locals c l') ≡ count is_inside s.locals =
          (let n = count-set is_inside s.locals c l' at in ground arith) in
        record {
          in_table = v.in_table;
          few = omega (arith, v.few, length-set s.locals c l');
          size = v.size;
          page = v.page;
          once = v.once;
          entry = v.entry ∙ ap (λ (n : ℕ). some (record { used = true; count = n })) (sym same);
          counted = omega (arith, same, v.counted);
          place = v.place;
          tids = λ t k e. v.tids t (tids-set t k e).0 (tids-set t k e).1;
          waiters = waiters-set;
          outside = λ t k e ne. elim (get_elem?-set_cases s.locals c t l' e) [
            | inl (e', _) ↦ absurd (ne (owns ∙ ap some e'))
            | inr (_, old) ↦ v.outside t k old ne
          ];
          inside = λ h e.
              subst
                (λ k.
                  (m : Local) × (get_elem? (set s.locals c l') k ≡ some m)
                  × Inside mutex sum m.phase m.left)
                (some-injective c h (sym owns ∙ e))
                (l', get_elem?-set_self s.locals c l' (get_elem?-lt s.locals c at), within);
          word = small;
          adds = adds;
        }

  pub load-Inv :
      (left : List ℕ)
      → get_elem? s.locals c ≡ some (record { phase = entered; left = left })
      → Inv mutex freed_tid all o (put s c (loaded s.sum) left)
  load-Inv [] at = absurd (Inside-at mutex freed_tid _ v (owner_runs _ at refl) at)
  load-Inv (x ∷ xs) at =
      let l : Local = record { phase = entered; left = x ∷ xs } in
      let l' : Local = record { phase = loaded s.sum; left = x ∷ xs } in
      let e : total pending (set s.locals c l') ≡ total pending s.locals =
        omega (arith, total-set pending s.locals c l' at) in
      owner-Inv l l' at s.sum v.word refl refl refl
        (ap (λ (n : ℕ). (s.sum + n) % 2 ^ 32) e ∙ v.adds)

  pub store-Inv :
      (w x : ℕ) (xs : List ℕ)
      → get_elem? s.locals c ≡ some (record { phase = loaded w; left = x ∷ xs })
      → Inv mutex freed_tid all o (put (record s { sum = int_add w x }) c stored (x ∷ xs))
  store-Inv w x xs at =
      let l : Local = record { phase = loaded w; left = x ∷ xs } in
      let l' : Local = record { phase = stored; left = x ∷ xs } in
      let fresh : w ≡ s.sum = Inside-at mutex freed_tid _ v (owner_runs _ at refl) at in
      owner-Inv l l' at (int_add w x) (omega arith) refl refl tt
        (omega (arith, fresh, v.adds, total-set pending s.locals c l' at))
