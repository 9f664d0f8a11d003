-- ===== src/Virt/Owners/Start.antt =====
-- `mm_init` starts with frames and page tables in agreement.
use mathlib.Core.Option.{some-injective}
use osdesignasst.Prelude.{
  ℕ, zero, suc, ◌≡◌, refl, sym, ap, ◌∙◌, subst, Bool, true, false, some, ok, get_elem?, length,
  length-replicate, replicate, count, count-replicate, count-replicate_self, arith, ok-injective,
  >>=-eq-ok,
}
use osdesignasst.Limits.{max_physical_pages, max_virtual_pages}
use osdesignasst.Swap.{swap_init}
use osdesignasst.Virt.Pte.{valid}
use osdesignasst.Virt.State.{Pfn, Vm}
use osdesignasst.Virt.Frames.{maps, is_unused}
use osdesignasst.Virt.Init.{clear_physical, clear_virtual, mm_init}
use osdesignasst.Virt.Owners.{is_used, held, IsOwned}
use osdesignasst.Virt.Owners.Entry.{tables-IsOwned}

zero_maps : (i : ℕ) → maps i 0 ≡ false
unfolding maps valid
zero_maps i = refl

-- No frame is in use, and all page tables are zero. The library clears those of the threads that it creates,
-- not that of the main thread.
pub record IsFresh {Page : Type 0} (vm : Vm Page) : Type 0 where
  pub tables : (t : ℕ) → vm.tables t ≡ replicate max_virtual_pages 0
  pub count_zero : vm.pfn_count ≡ 0

module _ {Page : Type 0} where
  cleared-IsOwned :
      (zeros : Page) (vm : Vm Page)
      → IsFresh vm
      → IsOwned (clear_virtual zeros (clear_physical zeros vm)) max_physical_pages
  cleared-IsOwned zeros vm fresh =
      let free : Pfn = record { used = 0; thread = 0 } in
      record {
        frames = length-replicate max_physical_pages free;
        pages = length-replicate max_physical_pages zeros;
        flags = omega (
          arith,
          count-replicate is_used max_physical_pages free refl,
          count-replicate_self is_unused max_physical_pages free refl,
        );
        counted = fresh.count_zero ∙ sym (count-replicate is_used max_physical_pages free refl);
        size = λ t. ap length (fresh.tables t) ∙ length-replicate {A = ℕ} max_virtual_pages 0;
        owned = λ t i.
            ap (count (maps i)) (fresh.tables t)
            ∙ count-replicate (maps i) max_virtual_pages 0 (zero_maps i)
            ∙ sym (held-replicate t i max_physical_pages i);
      }
    where
      held-replicate :
          (t i n k : ℕ)
          → held max_physical_pages t i
              (get_elem? (replicate n (record { used = 0; thread = 0 })) k)
            ≡ 0
      held-replicate t i zero k = refl
      held-replicate t i (suc n) zero = ground arith
      held-replicate t i (suc n) (suc k) = held-replicate t i n k

  -- `mm_init`, where it succeeds, starts in agreement.
  pub mm_init-IsOwned :
      (zeros : Page) (physical_ok heap_ok share_ok : Bool) (vm : Vm Page) {vm' : Vm Page}
      → IsFresh vm
      → mm_init zeros physical_ok heap_ok share_ok vm ≡ ok (some vm')
      → IsOwned vm' max_physical_pages
  unfolding mm_init
  mm_init-IsOwned zeros false heap_ok share_ok vm fresh runs = cc
  mm_init-IsOwned zeros true false share_ok vm fresh runs = cc
  mm_init-IsOwned zeros true true false vm fresh runs = cc
  mm_init-IsOwned zeros true true true vm {vm'} fresh runs =
      let (swap, _, e) = >>=-eq-ok (swap_init zeros vm.swap) _ runs in
      let same : record (clear_virtual zeros (clear_physical zeros vm)) { swap = swap } ≡ vm' =
        some-injective _ _ (ok-injective _ _ e) in
      subst (λ s. IsOwned s max_physical_pages) same
        (tables-IsOwned
          {vm' = record (clear_virtual zeros (clear_physical zeros vm)) { swap = swap }}
          (cleared-IsOwned zeros vm fresh) refl refl refl refl)
