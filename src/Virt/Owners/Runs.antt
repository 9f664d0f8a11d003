-- ===== src/Virt/Owners/Runs.antt =====
-- What holds of the paged memory after any run.
use osdesignasst.Prelude.{
  ℕ, ◌<◌, ◌≡◌, ◌≢◌, ◌∙◌, Bool, true, some, List, ok, get_elem?, count, arith, Returns,
}
use osdesignasst.Limits.{max_physical_pages}
use osdesignasst.Swap.{max_swap_slots}
use osdesignasst.Swap.Slots.{IsValid}
use osdesignasst.Virt.State.{Vm}
use osdesignasst.Virt.Frames.{maps, allocate_physical_page}
use osdesignasst.Virt.Switch.{is_valid}
use osdesignasst.Virt.Switch.Roundtrip.{away_and_back}
use osdesignasst.Virt.Init.{mm_init}
use osdesignasst.Virt.Owners.Allocate.{allocate_physical_page_total}
use osdesignasst.Virt.Owners.Steps.{Reach, Reach-IsOwned}
use osdesignasst.Virt.Owners.Survive.{page_survives}
use osdesignasst.Virt.Owners.Start.{IsFresh, mm_init-IsOwned}

module _ {Page : Type 0} (zeros : Page) where
  -- From the state of `mm_init` on, if all page tables are zero then, that of the main thread too, after any
  -- steps, a switch from a thread `t` to another and back keeps every page of `t` that is in memory, whatever the other thread writes.
  pub reached_page_survives :
      (physical_ok heap_ok share_ok : Bool) (vm₀ : Vm Page) {vm₁ vm : Vm Page} (t u : ℕ)
      (left : List Page) (j : ℕ) {e : ℕ} {page w : Page}
      → IsFresh vm₀
      → mm_init zeros physical_ok heap_ok share_ok vm₀ ≡ ok (some vm₁)
      → Reach zeros vm₁ vm
      → u ≢ t
      → get_elem? (vm.tables t) j ≡ some e
      → is_valid e ≡ true
      → get_elem? vm.virtual j ≡ some page
      → get_elem? left j ≡ some w
      → get_elem? (away_and_back t u left vm).virtual j ≡ some page
  reached_page_survives physical_ok heap_ok share_ok vm₀ {vm₁} {vm} t u left j fresh start run ne at
        on now there =
      let v =
        Reach-IsOwned zeros (mm_init-IsOwned zeros physical_ok heap_ok share_ok vm₀ fresh start)
          run in
      page_survives vm v t u left j ne at on now there

  -- From the state of `mm_init` on, if all page tables are zero then, that of the main thread too, after any
  -- steps, `allocate_physical_page` returns, if the swap file is valid, opens and has room. The
  -- frame that it returns is one of the frames, belongs to the caller, and is named by no page table entry
  -- of any thread.
  pub reached_allocate :
      (physical_ok heap_ok share_ok : Bool) (vm₀ : Vm Page) {vm₁ vm : Vm Page} (c : ℕ)
      → IsFresh vm₀
      → mm_init zeros physical_ok heap_ok share_ok vm₀ ≡ ok (some vm₁)
      → Reach zeros vm₁ vm
      → IsValid vm.swap
      → vm.swap.count < max_swap_slots
      → vm.swap.opens ≡ true
      → Returns (allocate_physical_page c vm) (λ r.
        (r.0 < max_physical_pages)
        × (get_elem? r.1.pfns r.0 ≡ some (record { used = 1; thread = c }))
        × ((t : ℕ) → count (maps r.0) (r.1.tables t) ≡ 0))
  reached_allocate physical_ok heap_ok share_ok vm₀ {vm₁} {vm} c fresh start run sv room opens =
      let v =
        Reach-IsOwned zeros (mm_init-IsOwned zeros physical_ok heap_ok share_ok vm₀ fresh start)
          run in
      let (r, runs, reserved) = allocate_physical_page_total c vm v sv room opens in
      (
        r,
        runs,
        (
          reserved.in_range,
          reserved.mine,
          λ t. reserved.owned.owned t r.0 ∙ rw reserved.mine (ground arith),
        ),
      )
