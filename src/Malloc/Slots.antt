-- ===== src/Malloc/Slots.antt =====
-- One region of a trunk: its invariant, and what taking and clearing a slot does.
use osdesignasst.Prelude.{
  ◌≤◌, leb, true, ℕ, ◌∙◌, ◌+◌, ◌-◌, ◌<◌, ◌≡◌, ◌≢◌, none, some, refl, inl, inr, ◌⊎◌, arith,
  get_elem?, get_elem?-lt, get_elem?-set_self, get_elem?-set_ne, set, set-set_back, length,
  length-set, find_index?, find_index?-some, find_index?-found, count, count-set, count-pos,
  Option-cases,
}
use osdesignasst.Malloc.{Class, slots_num, Region, is_clear, is_taken, take_slot, clear_slot}

-- Each slot is clear or taken, and the count is the number of taken ones.
pub record IsCounted (c : Class) (r : Region) : Type 0 where
  pub size : length r.slots ≡ slots_num c
  pub flags : count is_clear r.slots + count is_taken r.slots ≡ slots_num c
  pub counted : r.count ≡ count is_taken r.slots

abbrev pub IsTaken : Region → ℕ → Type 0
IsTaken r i = get_elem? r.slots i ≡ some 1

abbrev pub taking : Region → ℕ → Region
taking r i = record { slots = set r.slots i 1; count = r.count + 1 }

abbrev pub clearing : Region → ℕ → Region
clearing r i = record { slots = set r.slots i 0; count = r.count - 1 }

module _ (c : Class) (r : Region) where
  -- The slot that is taken was clear, and is the only change.
  pub take_slot-some :
      (i : ℕ)
      → (take_slot c r).0 ≡ some i
      → (get_elem? r.slots i ≡ some 0)
        × (r.count < slots_num c)
        × (take_slot c r ≡ (some i, taking r i))
  unfolding take_slot
  take_slot-some i h = elim (Option-cases (find_index? is_clear r.slots)) [
    | inl e ↦ absurd (ground arith)
    | inr (j, e) ↦
        let (s, at_j, free) = find_index?-some is_clear r.slots j e in
        (ground arith, ground arith, ground arith)
  ]

  pub take_slot-none : (take_slot c r).0 ≡ none → take_slot c r ≡ (none, r)
  unfolding take_slot
  take_slot-none h = elim (Option-cases (find_index? is_clear r.slots)) [
    | inl e ↦ ground arith
    | inr (j, e) ↦ ground arith
  ]

  -- A region with room has a slot to take.
  pub take_slot_total :
      IsCounted c r → r.count < slots_num c → (i : ℕ) × ((take_slot c r).0 ≡ some i)
  unfolding take_slot
  take_slot_total v room =
      let (i, e) = find_index?-found is_clear r.slots (omega (arith, v.flags, v.counted)) in
      (i, ground arith)

  pub taking-IsCounted :
      (i : ℕ) → get_elem? r.slots i ≡ some 0 → IsCounted c r → IsCounted c (taking r i)
  taking-IsCounted i e v = ground (
    arith,
    length-set r.slots i 1,
    count-set is_clear r.slots i 1 e,
    count-set is_taken r.slots i 1 e,
  )

  pub clearing-IsCounted : (i : ℕ) → IsTaken r i → IsCounted c r → IsCounted c (clearing r i)
  clearing-IsCounted i e v = ground (
    arith,
    length-set r.slots i 0,
    count-set is_clear r.slots i 0 e,
    count-set is_taken r.slots i 0 e,
    count-pos is_taken r.slots i e refl,
  )

  -- A taken slot is cleared.
  pub clear_slot-taken : (i : ℕ) → IsCounted c r → IsTaken r i → clear_slot r i ≡ clearing r i
  unfolding clear_slot
  clear_slot-taken i v e = ground (arith, count-pos is_taken r.slots i e refl)

  -- A slot that is not taken is left as it is.
  pub clear_slot-not_taken : (i : ℕ) → ¬ IsTaken r i → clear_slot r i ≡ r
  unfolding clear_slot
  clear_slot-not_taken i e = elim (Option-cases (get_elem? r.slots i)) [
    | inl d ↦ ground arith
    | inr (s, d) ↦ ground arith
  ]

  pub IsTaken-cases : (i : ℕ) → IsTaken r i ⊎ (¬ IsTaken r i)
  IsTaken-cases i = elim (Option-cases (get_elem? r.slots i)) [
    | inl d ↦ inr (ground arith)
    | inr (s, d) ↦ ground arith
  ]

-- Clearing the slot that was just taken restores the region.
pub clear_slot-take_slot :
    (c : Class) (r : Region) (i : ℕ)
    → IsCounted c r
    → (take_slot c r).0 ≡ some i
    → clear_slot (take_slot c r).1 i ≡ r
clear_slot-take_slot c r i v h =
    let (was_clear, room, done) = take_slot-some c r i h in
    let valid = taking-IsCounted c r i was_clear v in
    let taken = get_elem?-set_self r.slots i 1 (get_elem?-lt r.slots i was_clear) in
    rw (done, clear_slot-taken c (taking r i) i valid taken)
      (ground (arith, set-set_back r.slots i 1 was_clear))

-- Taking a slot leaves every taken slot taken, and never hands one out again.
pub take_slot-keeps :
    (c : Class) (r : Region) (i j : ℕ)
    → (take_slot c r).0 ≡ some i
    → IsTaken r j
    → (i ≢ j) × IsTaken (take_slot c r).1 j
take_slot-keeps c r i j h taken =
    let (was_clear, room, done) = take_slot-some c r i h in
    let differ : i ≢ j = λ e. ground arith in
    (differ, rw done (get_elem?-set_ne r.slots 1 differ ∙ taken))

-- A slot that was taken is in range and stays so.
pub take_slot-IsTaken :
    (c : Class) (r : Region) (i : ℕ)
    → IsCounted c r
    → (take_slot c r).0 ≡ some i
    → (i < slots_num c) × IsTaken (take_slot c r).1 i
take_slot-IsTaken c r i v h =
    let (was_clear, room, done) = take_slot-some c r i h in
    let lt = get_elem?-lt r.slots i was_clear in
    (omega (arith, v.size, lt), rw done (get_elem?-set_self r.slots i 1 lt))

-- `take_slot` and `clear_slot` keep the count right.
pub take_slot-IsCounted : (c : Class) (r : Region) → IsCounted c r → IsCounted c (take_slot c r).1
take_slot-IsCounted c r v = elim (Option-cases (take_slot c r).0) [
  | inl e ↦ rw (take_slot-none c r e) v
  | inr (i, e) ↦
      let (was_clear, room, done) = take_slot-some c r i e in
      rw done (taking-IsCounted c r i was_clear v)
]

pub clear_slot-IsCounted :
    (c : Class) (r : Region) (i : ℕ) → IsCounted c r → IsCounted c (clear_slot r i)
clear_slot-IsCounted c r i v = elim (IsTaken-cases c r i) [
  | inl t ↦ rw (clear_slot-taken c r i v t) (clearing-IsCounted c r i t v)
  | inr t ↦ rw (clear_slot-not_taken c r i t) v
]

-- Clearing a second time changes nothing.
pub clear_slot-clear_slot :
    (c : Class) (r : Region) (i : ℕ)
    → IsCounted c r
    → clear_slot (clear_slot r i) i ≡ clear_slot r i
clear_slot-clear_slot c r i v = elim (IsTaken-cases c r i) [
  | inl t ↦ rw (clear_slot-taken c r i v t) (
      clear_slot-not_taken c (clearing r i) i
        (λ t'. cc (t', get_elem?-set_self r.slots i 0 (get_elem?-lt r.slots i t))))
  | inr t ↦ rw (clear_slot-not_taken c r i t) (clear_slot-not_taken c r i t)
]

-- Clearing one slot leaves the others.
pub clear_slot-keeps :
    (c : Class) (r : Region) (i j : ℕ)
    → IsCounted c r
    → i ≢ j
    → IsTaken r j
    → IsTaken (clear_slot r i) j
clear_slot-keeps c r i j v differ taken = elim (IsTaken-cases c r i) [
  | inl t ↦ rw (clear_slot-taken c r i v t) (get_elem?-set_ne r.slots 0 differ ∙ taken)
  | inr t ↦ rw (clear_slot-not_taken c r i t) taken
]

pub take_slot_full : (c : Class) (r : Region) → slots_num c ≤ r.count → take_slot c r ≡ (none, r)
unfolding take_slot
take_slot_full c r full = let test : leb (slots_num c) r.count ≡ true = ground arith in rw test refl
