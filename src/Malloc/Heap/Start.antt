-- ===== src/Malloc/Heap/Start.antt =====
-- The start of a heap: the first trunk of `my_malloc_init` is valid.
use osdesignasst.Prelude.{ℕ, zero, suc, ◌<◌, ◌≡◌, refl, subst, some, replicate, get_elem?, arith}
use osdesignasst.Malloc.{cleared}
use osdesignasst.Malloc.Trunk.{IsValid, cleared-IsValid}
use osdesignasst.Malloc.Heap.{max_trunks, first_trunk}
use osdesignasst.Malloc.Heap.Grow.{HeapIsValid}

module _ {ℓ} {A : Type ℓ} where
  get_elem?-replicate : (n i : ℕ) (a : A) → i < n → get_elem? (replicate n a) i ≡ some a
  get_elem?-replicate zero i a h = absurd (omega (arith, h))
  get_elem?-replicate (suc n) zero a h = refl
  get_elem?-replicate (suc n) (suc i) a h = get_elem?-replicate n i a (omega arith)

  pub get_elem?-replicate_same :
      (n i : ℕ) (a : A) {b : A} → get_elem? (replicate n a) i ≡ some b → a ≡ b
  get_elem?-replicate_same zero i a h = absurd (cc)
  get_elem?-replicate_same (suc n) zero a h = cc
  get_elem?-replicate_same (suc n) (suc i) a h = get_elem?-replicate_same n i a h

pub first_trunk-HeapIsValid : HeapIsValid first_trunk
first_trunk-HeapIsValid = record {
  started = refl;
  in_page = omega arith;
  size = refl;
  trunks =
      λ i m at. subst IsValid (get_elem?-replicate_same max_trunks i cleared at) cleared-IsValid;
  behind = λ i low high. get_elem?-replicate max_trunks i cleared high;
}
