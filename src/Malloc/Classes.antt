-- ===== src/Malloc/Classes.antt =====
-- The geometry of a trunk: which sizes and offsets belong to which class, and that the slots of the
-- four regions tile the page.
use osdesignasst.Prelude.{
  ℕ, ◌+◌, ◌-◌, ◌*◌, ◌/◌, ◌≤◌, ◌<◌, ◌≡◌, ◌≢◌, ◌⊎◌, inl, inr, none, some, refl, arith, Option-cases,
}
use osdesignasst.Limits.{page_size}
use osdesignasst.Malloc.{
  Class, c32, c64, c128, c512, width, slots_num, start, Region, Metadata, region, with_region,
  class_of, class_at,
}

-- A class holds the sizes that it serves.
pub class_of-some : (size : ℕ) (c : Class) → class_of size ≡ some c → (0 < size) × (size ≤ width c)
unfolding class_of
class_of-some size c32 h = ground arith
class_of-some size c64 h = ground arith
class_of-some size c128 h = ground arith
class_of-some size c512 h = ground arith

-- Every size from 1 to 512 has a class.
pub class_of_total : (size : ℕ) → 0 < size → size ≤ 512 → (c : Class) × (class_of size ≡ some c)
unfolding class_of
class_of_total size pos small = elim (Option-cases (class_of size)) [
  | inl e ↦ absurd (ground arith)
  | inr found ↦ found
]

-- And no other.
pub class_of-none : (size : ℕ) → (size ≡ 0) ⊎ (512 < size) → class_of size ≡ none
unfolding class_of
class_of-none size h = ground arith

pub width_pos : (c : Class) → 0 < width c
width_pos c32 = omega arith
width_pos c64 = omega arith
width_pos c128 = omega arith
width_pos c512 = omega arith

pub slots_pos : (c : Class) → 0 < slots_num c
slots_pos c32 = omega arith
slots_pos c64 = omega arith
slots_pos c128 = omega arith
slots_pos c512 = omega arith

-- The offset of slot `i` of class `c`
abbrev pub slot_offset : Class → ℕ → ℕ
slot_offset c i = start c + i * width c

-- `_free` finds the class and the slot that `_malloc` computed the address from.
pub class_at-slot_offset :
    (c : Class) (i : ℕ)
    → i < slots_num c
    → (class_at (slot_offset c i) ≡ some c) × ((slot_offset c i - start c) / width c ≡ i)
unfolding class_at
class_at-slot_offset c32 i h = ground arith
class_at-slot_offset c64 i h = ground arith
class_at-slot_offset c128 i h = ground arith
class_at-slot_offset c512 i h = ground arith

-- An offset that `_free` accepts is that of a slot in range.
pub class_at-some :
    (offset : ℕ) (c : Class)
    → class_at offset ≡ some c
    → (offset ≡ slot_offset c ((offset - start c) / width c))
      × ((offset - start c) / width c < slots_num c)
unfolding class_at
class_at-some offset c32 h = ground arith
class_at-some offset c64 h = ground arith
class_at-some offset c128 h = ground arith
class_at-some offset c512 h = ground arith

-- A slot lies in its page.
pub slot_offset_bound :
    (c : Class) (i : ℕ) → i < slots_num c → slot_offset c i + width c ≤ page_size
slot_offset_bound c32 i h = omega arith
slot_offset_bound c64 i h = omega arith
slot_offset_bound c128 i h = omega arith
slot_offset_bound c512 i h = omega arith

-- Two slots do not overlap, unless they are the same.
pub slot_offset_disjoint :
    (c d : Class) (i j : ℕ)
    → i < slots_num c
    → j < slots_num d
    → ((c ≡ d) → i ≢ j)
    → (slot_offset c i + width c ≤ slot_offset d j) ⊎ (slot_offset d j + width d ≤ slot_offset c i)
slot_offset_disjoint c32 c32 i j hi hj differ = let ne = differ refl in omega arith
slot_offset_disjoint c64 c64 i j hi hj differ = let ne = differ refl in omega arith
slot_offset_disjoint c128 c128 i j hi hj differ = let ne = differ refl in omega arith
slot_offset_disjoint c512 c512 i j hi hj differ = let ne = differ refl in omega arith
slot_offset_disjoint c32 d i j hi hj differ = omega arith
slot_offset_disjoint c64 d i j hi hj differ = omega arith
slot_offset_disjoint c128 d i j hi hj differ = omega arith
slot_offset_disjoint c512 d i j hi hj differ = omega arith

pub region-with_region : (c : Class) (r : Region) (m : Metadata) → region c (with_region c r m) ≡ r
region-with_region c32 r m = refl
region-with_region c64 r m = refl
region-with_region c128 r m = refl
region-with_region c512 r m = refl

pub with_region-region : (c : Class) (m : Metadata) → with_region c (region c m) m ≡ m
with_region-region c32 m = refl
with_region-region c64 m = refl
with_region-region c128 m = refl
with_region-region c512 m = refl

pub with_region-with_region :
    (c : Class) (r r' : Region) (m : Metadata)
    → with_region c r (with_region c r' m) ≡ with_region c r m
with_region-with_region c32 r r' m = refl
with_region-with_region c64 r r' m = refl
with_region-with_region c128 r r' m = refl
with_region-with_region c512 r r' m = refl

-- A property of all regions survives the change of one that has it.
pub with_region_all :
    (P : Class → Region → Type 0) (c : Class) (r : Region) (m : Metadata)
    → P c r
    → ((d : Class) → c ≢ d → P d (region d m))
    → (d : Class) → P d (region d (with_region c r m))
with_region_all P c32 r m h keep c32 = h
with_region_all P c64 r m h keep c64 = h
with_region_all P c128 r m h keep c128 = h
with_region_all P c512 r m h keep c512 = h
with_region_all P c32 r m h keep d = keep d (λ e. cc)
with_region_all P c64 r m h keep d = keep d (λ e. cc)
with_region_all P c128 r m h keep d = keep d (λ e. cc)
with_region_all P c512 r m h keep d = keep d (λ e. cc)
