-- ===== src/Malloc/Trunk/Free.antt =====
-- `_free` on one trunk: blocks are given back exactly, and nothing else changes.
use osdesignasst.Prelude.{
  ◌^◌, ℕ, ◌+◌, ◌-◌, ◌/◌, ◌≤◌, ◌<◌, ◌≡◌, ◌≢◌, ◌⊎◌, inl, inr, some, sym, ◌∙◌, ap, arith, Option-cases,
  Bool-cases, leb,
}
use osdesignasst.Limits.{page_size}
use osdesignasst.Malloc.{
  offset_of, Class, width, slots_num, start, Metadata, region, with_region, class_at, take_slot,
  clear_slot, malloc_trunk, free_class, free_trunk,
}
use osdesignasst.Malloc.Slots.{
  IsCounted, take_slot-IsTaken, clear_slot-IsCounted, clear_slot-take_slot, clear_slot-clear_slot,
  clear_slot-keeps,
}
use osdesignasst.Malloc.Classes.{
  slot_offset, width_pos, class_at-slot_offset, class_at-some, slot_offset_bound,
  region-with_region, with_region-region, with_region-with_region, with_region_all,
}
use osdesignasst.Malloc.Trunk.{IsValid, IsBlock, IsBlock-with_region, malloc_trunk-eq}

pub offset_of-add : (base offset : ℕ) → offset < 2 ^ 32 → offset_of base (base + offset) ≡ offset
unfolding offset_of
offset_of-add base offset h = omega arith

pub offset_of-below :
    (base ptr : ℕ)
    → base + page_size ≤ 2 ^ 32
    → ptr < 2 ^ 32
    → offset_of base ptr < page_size
    → ptr ≡ base + offset_of base ptr
unfolding offset_of
offset_of-below base ptr high below lt = omega arith

free_trunk-inside :
    (m : Metadata) (base ptr : ℕ)
    → offset_of base ptr < page_size
    → free_trunk m base ptr ≡ free_class m (offset_of base ptr) (class_at (offset_of base ptr))
unfolding free_trunk
free_trunk-inside m base ptr h = ground arith

-- `_free` at the offset of a slot clears that slot.
free_trunk_at :
    (m : Metadata) (base ptr : ℕ) (c : Class) (i : ℕ)
    → i < slots_num c
    → offset_of base ptr ≡ slot_offset c i
    → free_trunk m base ptr ≡ with_region c (clear_slot (region c m) i) m
free_trunk_at m base ptr c i lt e =
    let (at, back) = class_at-slot_offset c i lt in
    let bound = slot_offset_bound c i lt in
    free_trunk-inside m base ptr (omega (arith, width_pos c, e))
    ∙ ap (λ o. free_class m o (class_at o)) e
    ∙ rw (at, free_class, back)

-- And so at its address.
pub free_trunk_slot :
    (m : Metadata) (base : ℕ) (c : Class) (i : ℕ)
    → i < slots_num c
    → free_trunk m base (base + slot_offset c i) ≡ with_region c (clear_slot (region c m) i) m
free_trunk_slot m base c i lt =
    let bound = slot_offset_bound c i lt in
    free_trunk_at m base (base + slot_offset c i) c i lt
      (offset_of-add base (slot_offset c i) (omega (arith, width_pos c)))

-- `_free` clears a slot, or changes nothing.
pub free_trunk-cases :
    (m : Metadata) (base ptr : ℕ)
    → (free_trunk m base ptr ≡ m)
      ⊎ ((c : Class) × (i : ℕ) × (i < slots_num c) × (offset_of base ptr ≡ slot_offset c i))
unfolding free_trunk
free_trunk-cases m base ptr = elim (Option-cases (class_at (offset_of base ptr))) [
  | inl e ↦ inl (ground arith)
  | inr (c, e) ↦
      let (at, lt) = class_at-some (offset_of base ptr) c e in
      elim (Bool-cases (leb page_size (offset_of base ptr))) [
        | inl t ↦ inl (rw t)
        | inr t ↦ inr (c, (offset_of base ptr - start c) / width c, lt, ground arith)
      ]
]

-- `_free` keeps the counts right, whatever address it is given.
pub free_trunk-IsValid : (m : Metadata) (base ptr : ℕ) → IsValid m → IsValid (free_trunk m base ptr)
free_trunk-IsValid m base ptr v = elim (free_trunk-cases m base ptr) [
  | inl e ↦ rw e v
  | inr (c, i, lt, e) ↦
      rw (free_trunk_at m base ptr c i lt e)
        (with_region_all IsCounted c _ m (clear_slot-IsCounted c (region c m) i (v c)) (λ d _. v d))
]

-- Giving back the block that `_malloc` just returned restores the metadata.
pub free_trunk-malloc_trunk :
    (m : Metadata) (base size : ℕ) {ptr : ℕ} {m' : Metadata}
    → IsValid m
    → malloc_trunk m base size ≡ (some ptr, m')
    → free_trunk m' base ptr ≡ m
free_trunk-malloc_trunk m base size v h =
    let (c, e, i, f, at, now) = malloc_trunk-eq m base size h in
    let (lt, _) = take_slot-IsTaken c (region c m) i (v c) f in
    let at' : ptr_of h ≡ base + slot_offset c i = omega arith in
    ap (λ n. free_trunk n base (ptr_of h)) now
    ∙ ap (free_trunk (with_region c (take_slot c (region c m)).1 m) base) at'
    ∙ free_trunk_slot (with_region c (take_slot c (region c m)).1 m) base c i lt
    ∙ rw (
      region-with_region,
      clear_slot-take_slot c (region c m) i (v c) f,
      with_region-with_region,
      with_region-region,
    )
  where
    ptr_of : {ptr : ℕ} {m' : Metadata} → malloc_trunk m base size ≡ (some ptr, m') → ℕ
    ptr_of {ptr} _ = ptr

-- Freeing an address twice is the same as freeing it once.
pub free_trunk-free_trunk :
    (m : Metadata) (base ptr : ℕ)
    → IsValid m
    → free_trunk (free_trunk m base ptr) base ptr ≡ free_trunk m base ptr
free_trunk-free_trunk m base ptr v = elim (free_trunk-cases m base ptr) [
  | inl e ↦ rw (e, e)
  | inr (c, i, lt, e) ↦ rw (
    free_trunk_at m base ptr c i lt e,
    free_trunk_at (with_region c (clear_slot (region c m) i) m) base ptr c i lt e,
    region-with_region,
    with_region-with_region,
    clear_slot-clear_slot c (region c m) i (v c),
  )
]

-- Below 2 ^ 32, where the heap is, freeing one block leaves the others in use.
pub free_trunk-keeps :
    (m : Metadata) (base ptr q : ℕ) (d : Class)
    → IsValid m
    → base + page_size ≤ 2 ^ 32
    → ptr < 2 ^ 32
    → ptr ≢ q
    → IsBlock m base q d
    → IsBlock (free_trunk m base ptr) base q d
free_trunk-keeps m base ptr q d v high below differ b = elim (free_trunk-cases m base ptr) [
  | inl e ↦ rw e b
  | inr (c, i, lt, e) ↦ rw (free_trunk_at m base ptr c i lt e) (
      IsBlock-with_region m base c _ b
        (λ p t. clear_slot-keeps c (region c m) i b.slot (v c) (other c i e p) t))
]
  where
    at_same : (c : Class) (i : ℕ) → c ≡ d → i ≡ b.slot → slot_offset c i ≡ slot_offset d b.slot
    at_same c i p same = ap (λ k. slot_offset k i) p ∙ ap (slot_offset d) same

    here : offset_of base ptr < page_size → ptr ≡ base + offset_of base ptr
    here lt = offset_of-below base ptr high below lt

    other : (c : Class) (i : ℕ) → offset_of base ptr ≡ slot_offset c i → c ≡ d → i ≢ b.slot
    other c i e p same = differ (
        here
          (omega (arith, slot_offset_bound d b.slot b.in_range, width_pos d, e, at_same c i p same))
        ∙ ap (λ j. base + j) (e ∙ at_same c i p same)
        ∙ sym b.at_slot)
