-- ===== src/Pthread/Mutex/Table.antt =====
-- `alloc_mutex`: the least unused handle but 0, which is the main thread's.
use osdesignasst.Prelude.{
  ℕ, zero, suc, ◌<◌, ◌≡◌, ◌≢◌, subst, ◌↔◌, true, false, some, none, inl, inr, List, [], ◌∷◌, length,
  get_elem?, get_elem?-lt, get_elem?-set_self, get_elem?-set_ne, set, find_index?, find_index?-some,
  find_index?-first, find_index?-none, count, count-pos_of_find, Option-cases, arith,
}
use osdesignasst.Pthread.State.{Mutex}
use osdesignasst.Pthread.Mutex.{is_unused, allocated, first_unused, alloc_mutex}

-- What `alloc_mutex` has found: handle `i` was unused, and every smaller one but 0 is used.
pub record IsLeastUnused (table : List Mutex) (i : ℕ) : Type 0 where
  pub not_main : 0 < i
  pub in_table : i < length table
  pub was_unused : (m : Mutex) → get_elem? table i ≡ some m → m.used ≡ false
  pub least : (j : ℕ) (m : Mutex) → 0 < j → j < i → get_elem? table j ≡ some m → m.used ≡ true

first_unused-IsLeastUnused :
    (table : List Mutex) (i : ℕ) → first_unused table ≡ some i → IsLeastUnused table i
first_unused-IsLeastUnused [] i h = absurd (cc)
first_unused-IsLeastUnused (main ∷ rest) i h = elim (Option-cases (find_index? is_unused rest)) [
  | inl e ↦ absurd (ground arith)
  | inr (j, e) ↦
      let (a, at_j, unused) = find_index?-some is_unused rest j e in
      let i_eq : suc j ≡ i = ground arith in
      subst (IsLeastUnused (main ∷ rest)) i_eq (record {
        not_main = omega arith;
        in_table = omega (arith, get_elem?-lt rest j at_j);
        was_unused = λ m at. ground arith;
        least = λ k m pos lt at. below j e k m pos lt at;
      })
]
  where
    below :
        (j : ℕ)
        → find_index? is_unused rest ≡ some j
        → (k : ℕ) (m : Mutex) → 0 < k
        → k < suc j
        → get_elem? (main ∷ rest) k ≡ some m
        → m.used ≡ true
    below j e zero m pos lt at = absurd (omega arith)
    below j e (suc k) m pos lt at =
        ground (arith, find_index?-first is_unused rest j k e (omega arith) at)

alloc_mutex-eq :
    (table : List Mutex) {i : ℕ} {table' : List Mutex}
    → alloc_mutex table ≡ (some i, table')
    → (first_unused table ≡ some i) × (table' ≡ set table i allocated)
unfolding alloc_mutex
alloc_mutex-eq table h = elim (Option-cases (first_unused table)) [
  | inl e ↦ absurd (ground arith)
  | inr (j, e) ↦ (ground arith, ground arith)
]

-- A handle from `alloc_mutex` is the least unused one but 0; it is then used, with count 0, and no
-- other entry has changed.
pub alloc_mutex-some :
    (table : List Mutex) {i : ℕ} {table' : List Mutex}
    → alloc_mutex table ≡ (some i, table')
    → IsLeastUnused table i
      × (get_elem? table' i ≡ some (record { used = true; count = 0 }))
      × ((j : ℕ) → i ≢ j → get_elem? table' j ≡ get_elem? table j)
alloc_mutex-some table {i} h =
    let (found, now) = alloc_mutex-eq table h in
    let least = first_unused-IsLeastUnused table i found in
    (
      least,
      rw now (get_elem?-set_self table i allocated least.in_table),
      λ j ne. rw now (get_elem?-set_ne table allocated ne),
    )

-- It fails exactly if every entry behind the first is used.
pub alloc_mutex-none :
    (main : Mutex) (rest : List Mutex)
    → ((alloc_mutex (main ∷ rest)).0 ≡ none) ↔ (count is_unused rest ≡ 0)
unfolding alloc_mutex
alloc_mutex-none main rest = elim (Option-cases (find_index? is_unused rest)) [
  | inl e ↦ (λ _. find_index?-none is_unused rest e, λ _. ground arith)
  | inr (j, e) ↦ (
    λ h. absurd (ground arith),
    λ h. absurd (omega (arith, count-pos_of_find is_unused rest j e)),
  )
]
