-- ===== src/Malloc/Heap/Tests.antt =====
-- Runs of `my_malloc` on the heap that it starts with, and the theorems at them. The pages are
-- numbered, and `mm_allocate_page` gives the next.
use osdesignasst.Prelude.{
  subst, true, [], ◌∷◌, replicate, ◌≤◌, ◌⊎◌, ℕ, ◌+◌, ◌*◌, ◌≡◌, inr, refl, Option, none, some,
  Outcome, ok, fault, out_of_bounds, Returns, arith,
}
use osdesignasst.Limits.{page_size, virtual_heap_start}
use osdesignasst.Malloc.{Metadata, cleared, region, class_of, c32, c64, c128, c512}
use osdesignasst.Malloc.Trunk.{IsValid}
use osdesignasst.Malloc.Heap.{Heap, first_trunk, my_malloc, my_free}
use osdesignasst.Malloc.Heap.Grow.{HeapIsValid, Placed}
use osdesignasst.Malloc.Heap.Serve.{grown, my_malloc_lem, my_malloc-no_class, my_malloc-max_trunks}
use osdesignasst.Malloc.Heap.Free.{my_free-my_malloc}
use osdesignasst.Malloc.Heap.Start.{first_trunk-HeapIsValid, get_elem?-replicate_same}

abbrev next_page : ℕ → Outcome (Option ℕ × ℕ)
next_page n = ok (some (virtual_heap_start + n * page_size), n + 1)

my_malloc_lem_example :
    Returns
      (my_malloc next_page 40 (some first_trunk) 2)
      (λ r. (ptr : ℕ) × (r.0 ≡ some ptr) × Placed 40 r.1 ptr × HeapIsValid r.1)
my_malloc_lem_example =
    my_malloc_lem next_page 40 first_trunk 2 first_trunk-HeapIsValid (omega arith) (omega arith)
      (omega arith) refl

my_malloc-no_class_example :
    my_malloc next_page 513 (some first_trunk) 2 ≡ ok (none, grown first_trunk, 3)
my_malloc-no_class_example =
    my_malloc-no_class next_page 513 first_trunk 2 first_trunk-HeapIsValid (omega arith)
      (inr (omega arith)) refl

my_free-my_malloc_example : Returns (my_malloc next_page 40 (some first_trunk) 2) (λ r.
    (ptr : ℕ) × (r.0 ≡ some ptr)
    × ((my_free ptr r.1 ≡ ok first_trunk) ⊎ (my_free ptr r.1 ≡ ok (grown first_trunk))))
my_free-my_malloc_example =
    my_free-my_malloc next_page 40 first_trunk 2 first_trunk-HeapIsValid (omega arith) (omega arith)
      (omega arith) refl

-- Both 512-byte slots are taken.
abbrev full : Metadata
full = record cleared { region512 = record { slots = 1 ∷ 1 ∷ []; count = 2 } }

full-IsValid : IsValid full
full-IsValid c32 = record { size = refl; flags = refl; counted = refl }
full-IsValid c64 = record { size = refl; flags = refl; counted = refl }
full-IsValid c128 = record { size = refl; flags = refl; counted = refl }
full-IsValid c512 = record { size = refl; flags = refl; counted = refl }

abbrev full_heap : Heap
full_heap = record {
  heap_init = true;
  trunk_count = 53;
  metadata = replicate 53 full;
  past = cleared;
}

full_heap-HeapIsValid : HeapIsValid full_heap
full_heap-HeapIsValid = record {
  started = refl;
  in_page = omega arith;
  size = refl;
  trunks = λ i m at. subst IsValid (get_elem?-replicate_same 53 i full at) full-IsValid;
  behind = λ i low high. absurd (omega (arith, low, high));
}

my_malloc-max_trunks_example : my_malloc next_page 300 (some full_heap) 2 ≡ fault out_of_bounds
unfolding class_of
my_malloc-max_trunks_example =
    my_malloc-max_trunks next_page 300 full_heap 2 full_heap-HeapIsValid refl refl
      (λ i m at.
        subst (λ k. 2 ≤ (region c512 k).count) (get_elem?-replicate_same 53 i full at)
          (omega arith))
      refl
