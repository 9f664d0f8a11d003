-- ===== src/Malloc/Trunk.antt =====
-- `_malloc` on one trunk: blocks are big enough, lie in the page and never overlap.
pub mod Free
use osdesignasst.Prelude.{
  ◌^◌, ℕ, ◌+◌, ◌-◌, ◌*◌, ◌/◌, ◌≤◌, ◌<◌, ◌≡◌, ◌≢◌, ◌⊎◌, inl, inr, none, some, refl, sym, ◌∙◌, ap,
  arith, Option-cases, Bool-cases, subst, ltb, leb, ◌||◌,
}
use osdesignasst.Limits.{page_size}
use osdesignasst.Malloc.{
  offset_of, Class, c32, c64, c128, c512, cleared, width, slots_num, start, Region, Metadata,
  region, with_region, class_of, class_at, take_slot, clear_slot, malloc_class, malloc_trunk,
  free_class, free_trunk,
}
use osdesignasst.Malloc.Slots.{
  IsCounted, IsTaken, take_slot-none, take_slot_total, take_slot-keeps, take_slot-IsTaken,
  take_slot-IsCounted, clear_slot-IsCounted, clear_slot-take_slot, clear_slot-clear_slot,
  take_slot_full, clear_slot-keeps,
}
use osdesignasst.Malloc.Classes.{
  slot_offset, class_of-some, width_pos, class_at-slot_offset, class_at-some, slot_offset_bound,
  slot_offset_disjoint, region-with_region, with_region-region, with_region-with_region,
  with_region_all,
}

abbrev pub IsValid : Metadata → Type 0
IsValid m = (c : Class) → IsCounted c (region c m)

-- A trunk that `memset` has cleared is valid.
pub cleared-IsValid : IsValid cleared
cleared-IsValid c32 = record { size = refl; flags = refl; counted = refl }
cleared-IsValid c64 = record { size = refl; flags = refl; counted = refl }
cleared-IsValid c128 = record { size = refl; flags = refl; counted = refl }
cleared-IsValid c512 = record { size = refl; flags = refl; counted = refl }

pub cleared_room : (c : Class) → (region c cleared).count < slots_num c
cleared_room c32 = omega arith
cleared_room c64 = omega arith
cleared_room c128 = omega arith
cleared_room c512 = omega arith

-- `ptr` is the address of a taken slot.
pub record IsBlock (m : Metadata) (base : ℕ) (ptr : ℕ) (c : Class) : Type 0 where
  pub slot : ℕ
  pub at_slot : ptr ≡ base + slot_offset c slot
  pub in_range : slot < slots_num c
  pub taken : IsTaken (region c m) slot

-- A change of one region keeps a block, if it keeps the slot taken that may be the block's.
pub IsBlock-with_region :
    (m : Metadata) (base : ℕ) (c : Class) (r : Region) {q : ℕ} {d : Class} (b : IsBlock m base q d)
    → (c ≡ d → IsTaken (region c m) b.slot → IsTaken r b.slot)
    → IsBlock (with_region c r m) base q d
IsBlock-with_region m base c r {d} b keep = record {
  slot = b.slot;
  at_slot = b.at_slot;
  in_range = b.in_range;
  taken =
      with_region_all (λ k s. k ≡ d → IsTaken (region k m) b.slot → IsTaken s b.slot) c r m keep
        (λ k _ _ t. t) d refl b.taken;
}

module _ (m : Metadata) (base size : ℕ) where
  -- What a successful `_malloc` did.
  pub malloc_trunk-eq :
      {ptr : ℕ} {m' : Metadata}
      → malloc_trunk m base size ≡ (some ptr, m')
      → (c : Class) × (class_of size ≡ some c)
        × (i : ℕ) × ((take_slot c (region c m)).0 ≡ some i)
        × (ptr ≡ base + start c + i * width c)
        × (m' ≡ with_region c (take_slot c (region c m)).1 m)
  unfolding malloc_trunk
  malloc_trunk-eq h = elim (Option-cases (class_of size)) [
    | inl e ↦ absurd (ground arith)
    | inr (c, e) ↦ elim (Option-cases (take_slot c (region c m)).0) [
      | inl f ↦ absurd (ground arith)
      | inr (i, f) ↦ (c, e, i, f, ground arith, ground arith)
    ]
  ]

  pub malloc_trunk-IsValid : IsValid m → IsValid (malloc_trunk m base size).1
  unfolding malloc_trunk
  malloc_trunk-IsValid v = elim (Option-cases (class_of size)) [
    | inl e ↦ rw (e, malloc_class) v
    | inr (c, e) ↦
        rw (e, malloc_class)
          (with_region_all IsCounted c _ m (take_slot-IsCounted c (region c m) (v c)) (λ d _. v d))
  ]

  -- A call that returns `NULL` changes nothing.
  pub malloc_trunk-null : (malloc_trunk m base size).0 ≡ none → malloc_trunk m base size ≡ (none, m)
  unfolding malloc_trunk
  malloc_trunk-null h = elim (Option-cases (class_of size)) [
    | inl e ↦ rw (e, malloc_class)
    | inr (c, e) ↦ elim (Option-cases (take_slot c (region c m)).0) [
      | inl f ↦ rw (e, malloc_class, take_slot-none c (region c m) f, with_region-region c m)
      | inr (i, f) ↦ absurd (ground arith)
    ]
  ]

  -- The call succeeds if the size has a class and its region has room.
  pub malloc_trunk_total :
      (c : Class)
      → IsValid m
      → class_of size ≡ some c
      → (region c m).count < slots_num c
      → (ptr : ℕ) × (malloc_trunk m base size ≡ (some ptr, (malloc_trunk m base size).1))
  unfolding malloc_trunk
  malloc_trunk_total c v e room =
      let (i, f) = take_slot_total c (region c m) (v c) room in
      (base + start c + i * width c, rw (e, malloc_class, f))

  -- The block that `_malloc` returns holds the size asked for, lies in the page at `base`, and is a
  -- block of the new metadata.
  pub malloc_trunk-IsBlock :
      {ptr : ℕ} {m' : Metadata}
      → IsValid m
      → malloc_trunk m base size ≡ (some ptr, m')
      → (c : Class) × (class_of size ≡ some c)
        × (0 < size)
        × (size ≤ width c)
        × (base ≤ ptr)
        × (ptr + size ≤ base + page_size)
        × IsBlock m' base ptr c
  malloc_trunk-IsBlock v h =
      let (c, e, i, f, at, now) = malloc_trunk-eq h in
      let (pos, fits) = class_of-some size c e in
      let (lt, taken) = take_slot-IsTaken c (region c m) i (v c) f in
      let bound = slot_offset_bound c i lt in
      (
        c,
        e,
        pos,
        fits,
        omega arith,
        omega arith,
        record {
          slot = i;
          at_slot = omega arith;
          in_range = lt;
          taken = subst (λ n. IsTaken (region c n) i) (sym now) (rw region-with_region taken);
        },
      )

  -- A block in use stays one, and the new block does not overlap it.
  pub malloc_trunk-disjoint :
      {ptr : ℕ} {m' : Metadata} (q : ℕ) (d : Class)
      → IsValid m
      → malloc_trunk m base size ≡ (some ptr, m')
      → IsBlock m base q d
      → IsBlock m' base q d × ((ptr + size ≤ q) ⊎ (q + width d ≤ ptr))
  malloc_trunk-disjoint q d v h b =
      let (c, e, i, f, at, now) = malloc_trunk-eq h in
      let (pos, fits) = class_of-some size c e in
      let (lt, _) = take_slot-IsTaken c (region c m) i (v c) f in
      let apart =
        slot_offset_disjoint c d i b.slot lt b.in_range
          (λ p. (take_slot-keeps c (region c m) i b.slot f (moved b p)).0) in
      (
        subst (λ n. IsBlock n base q d) (sym now)
            (IsBlock-with_region m base c _ b
              (λ _ t. (take_slot-keeps c (region c m) i b.slot f t).1)),
        omega arith,
      )
    where
      moved : {c : Class} (b : IsBlock m base q d) → c ≡ d → IsTaken (region c m) b.slot
      moved b p = subst (λ k. IsTaken (region k m) b.slot) (sym p) b.taken

-- A size without a class gets no block, in any trunk.
pub malloc_trunk-no_class :
    (m : Metadata) (base size : ℕ) → class_of size ≡ none → malloc_trunk m base size ≡ (none, m)
unfolding malloc_trunk
malloc_trunk-no_class m base size e = rw e

-- A full region has no block, in any trunk.
pub malloc_trunk_full :
    (m : Metadata) (base size : ℕ) (c : Class)
    → class_of size ≡ some c
    → slots_num c ≤ (region c m).count
    → (malloc_trunk m base size).0 ≡ none
unfolding malloc_trunk
malloc_trunk_full m base size c e full =
    rw (e, malloc_class, take_slot_full c (region c m) full) refl
