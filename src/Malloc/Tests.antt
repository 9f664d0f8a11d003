-- ===== src/Malloc/Tests.antt =====
-- Runs of `_malloc` and `_free` on a fresh trunk at its base, and the theorems at them.
use osdesignasst.Prelude.{ℕ, ◌+◌, ◌≤◌, ◌<◌, ◌≡◌, ◌⊎◌, refl, some, replicate, set, arith}
use osdesignasst.Limits.{page_size}
use osdesignasst.Malloc.{
  Class, c32, c64, c128, c512, width, Metadata, cleared, class_of, malloc_trunk,
}
use osdesignasst.Malloc.Trunk.{
  IsValid, IsBlock, cleared-IsValid, malloc_trunk-IsBlock, malloc_trunk-disjoint,
}

abbrev base : ℕ
base = 0x60001000

-- After `malloc(40)`: slot 0 of the 64-byte region.
abbrev one : Metadata
one = record cleared { region64 = record { slots = set (replicate 16 0) 0 1; count = 1 } }

-- And after a second `malloc(40)`.
abbrev two : Metadata
two = record cleared { region64 = record { slots = set (set (replicate 16 0) 0 1) 1 1; count = 2 } }

first_run : malloc_trunk cleared base 40 ≡ (some 0x60001400, one)
unfolding malloc_trunk
first_run = refl

second_run : malloc_trunk one base 40 ≡ (some 0x60001440, two)
unfolding malloc_trunk
second_run = refl

one-IsValid : IsValid one
one-IsValid c32 = record { size = refl; flags = refl; counted = refl }
one-IsValid c64 = record { size = refl; flags = refl; counted = refl }
one-IsValid c128 = record { size = refl; flags = refl; counted = refl }
one-IsValid c512 = record { size = refl; flags = refl; counted = refl }

block : IsBlock one base 0x60001400 c64
block = record { slot = 0; at_slot = refl; in_range = omega arith; taken = refl }

malloc_trunk-IsBlock_example :
    (c : Class) × (class_of 40 ≡ some c)
    × (0 < 40)
    × (40 ≤ width c)
    × (base ≤ 0x60001400)
    × (0x60001400 + 40 ≤ base + page_size)
    × IsBlock one base 0x60001400 c
malloc_trunk-IsBlock_example = malloc_trunk-IsBlock cleared base 40 cleared-IsValid first_run

malloc_trunk-disjoint_example :
    IsBlock two base 0x60001400 c64
    × ((0x60001440 + 40 ≤ 0x60001400) ⊎ (0x60001400 + 64 ≤ 0x60001440))
malloc_trunk-disjoint_example =
    malloc_trunk-disjoint one base 40 0x60001400 c64 one-IsValid second_run block
