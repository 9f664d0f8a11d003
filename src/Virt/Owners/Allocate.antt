-- ===== src/Virt/Owners/Allocate.antt =====
-- `allocate_physical_page` under the agreement of frames and page tables: whatever frame it returns is
-- the thread's, and is named by no entry.
use osdesignasst.Prelude.{
  ℕ, ◌<◌, ◌≤◌, ◌≡◌, ◌≢◌, sym, ap, ◌∙◌, subst, true, inl, inr, some, ok, Outcome, Fault, fault, leb,
  get_elem?-lt, get_elem?-some, find_index?, find_index?-some, find_index?-found, count, arith,
  Bool-cases, Outcome-cases, ok-injective, Returns,
}
use osdesignasst.Limits.{max_physical_pages}
use osdesignasst.Swap.{swap_out, max_swap_slots}
use osdesignasst.Swap.Slots.{IsValid, swap_out_total}
use osdesignasst.Virt.State.{Vm}
use osdesignasst.Virt.Frames.{maps, is_victim, is_unused, evict_page, allocate_physical_page}
use osdesignasst.Virt.Frames.Evict.{Victim, evict_page-evicted, evict_page-fault}
use osdesignasst.Virt.Pages.Fault.{allocate_physical_page-unused}
use osdesignasst.Virt.Owners.{IsOwned}
use osdesignasst.Virt.Owners.Reserve.{Reserved, framed-Reserved}
use osdesignasst.Virt.Owners.Evicted.{victim_found, evicted-Reserved}

module _ {Page : Type 0} (c : ℕ) (vm : Vm Page) where
  -- With all frames in use there is a victim, and it is not the caller's.
  evict_page-Victim :
      IsOwned vm max_physical_pages
      → max_physical_pages ≤ vm.pfn_count
      → (i : ℕ) × (j : ℕ) × (owner : ℕ) × (page : Page) × Victim c vm i j owner page × (owner ≢ c)
  evict_page-Victim v full =
      let (i, first) = victim_found c vm v full in
      let (f, at, hit) = find_index?-some (is_victim c) vm.pfns i first in
      let lt = get_elem?-lt vm.pfns i at in
      let (page, stored) = get_elem?-some vm.physical i (omega (arith, v.frames, v.pages)) in
      let used : f.used ≡ 1 = ground arith in
      let named : 0 < count (maps i) (vm.tables f.thread) =
        rw (v.owned f.thread i, at) (ground (arith, lt, v.frames)) in
      let (j, entry) = find_index?-found (maps i) (vm.tables f.thread) named in
      (
        i,
        j,
        f.thread,
        page,
        record {
          first = first;
          owned = at ∙ ap (λ (u : ℕ). some (record f { used = u })) used;
          entry = entry;
          stored = stored;
        },
        ground arith,
      )

  evicts : max_physical_pages ≤ vm.pfn_count → allocate_physical_page c vm ≡ evict_page c vm
  unfolding allocate_physical_page
  evicts full = ground arith

  -- With fewer frames in use than there are, one is unused.
  unused_found :
      IsOwned vm max_physical_pages
      → vm.pfn_count < max_physical_pages
      → (p : ℕ) × (find_index? is_unused vm.pfns ≡ some p)
  unused_found v room = find_index?-found is_unused vm.pfns (omega (arith, v.flags, v.counted))

  -- The frame that `allocate_physical_page` returns is the thread's, and no entry names it; all
  -- other frames and entries still agree.
  pub allocate_physical_page-Reserved :
      {p : ℕ} {vm' : Vm Page}
      → IsOwned vm max_physical_pages
      → allocate_physical_page c vm ≡ ok (p, vm')
      → Reserved c vm p vm'
  allocate_physical_page-Reserved {p} {vm'} v runs =
      elim (Bool-cases (leb max_physical_pages vm.pfn_count)) [
        | inl full ↦
            let (i, j, owner, page, victim, other) = evict_page-Victim v (ground arith) in
            elim (Outcome-cases (swap_out page vm.swap)) [
              | inl (e, out) ↦
                  absurd
                    (clash (sym runs ∙ evicts (ground arith) ∙ evict_page-fault c vm victim out))
              | inr ((offset, swap), out) ↦
                  is_result
                    (sym (evicts (ground arith) ∙ evict_page-evicted c vm victim out) ∙ runs)
                    (evicted-Reserved c vm i j owner offset swap v victim other)
            ]
        | inr room ↦
            let (q, found) = unused_found v (ground arith) in
            is_result (sym (allocate_physical_page-unused c vm q (ground arith) found) ∙ runs)
              (framed-Reserved c vm q v found)
      ]
    where
      is_result :
          {s : ℕ × Vm Page}
          → ◌≡◌ {A = Outcome (ℕ × Vm Page)} (ok s) (ok (p, vm'))
          → Reserved c vm s.0 s.1
          → Reserved c vm p vm'
      is_result e r = subst (λ s. Reserved c vm s.0 s.1) (ok-injective _ _ e) r

      clash : {e : Fault} → ◌≡◌ {A = Outcome (ℕ × Vm Page)} (ok (p, vm')) (fault e) → ⊥
      clash h = cc

  -- It returns, if the swap file has room.
  pub allocate_physical_page_total :
      IsOwned vm max_physical_pages
      → IsValid vm.swap
      → vm.swap.count < max_swap_slots
      → vm.swap.opens ≡ true
      → Returns (allocate_physical_page c vm) (λ r. Reserved c vm r.0 r.1)
  allocate_physical_page_total v sv room opens =
      elim (Bool-cases (leb max_physical_pages vm.pfn_count)) [
        | inl full ↦
            let (i, j, owner, page, victim, other) = evict_page-Victim v (ground arith) in
            let (out, runs, took) = swap_out_total page vm.swap sv room opens in
            (
              _,
              evicts (ground arith) ∙ evict_page-evicted c vm victim runs,
              evicted-Reserved c vm i j owner out.0 out.1 v victim other,
            )
        | inr less ↦
            let (q, found) = unused_found v (ground arith) in
            (
              _,
              allocate_physical_page-unused c vm q (ground arith) found,
              framed-Reserved c vm q v found,
            )
      ]
