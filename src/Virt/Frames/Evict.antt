-- ===== src/Virt/Frames/Evict.antt =====
-- Eviction: which frame is taken, and that its page is kept in the swap file.
use osdesignasst.Prelude.{
  ℕ, ◌/◌, ◌%◌, ◌^◌, ◌<◌, ◌≡◌, ◌≢◌, refl, ap, ◌∙◌, true, some, List, ok, Fault, fault, get_elem?,
  get_elem?-lt, get_elem?-set_self, get_or, set, find_index?, find_index?-some, Returns, arith,
}
use osdesignasst.Limits.{page_size}
use osdesignasst.Swap.{Swap, max_swap_slots, swap_out}
use osdesignasst.Swap.Slots.{IsValid, Took, swap_out_total}
use osdesignasst.Swap.Roundtrip.{Holds, Took-Holds}
use osdesignasst.Virt.Pte.{valid, swapout, gefilea_pos, swapped, swapped_lem}
use osdesignasst.Virt.State.{Vm}
use osdesignasst.Virt.Frames.{write_table, is_victim, maps, evict_entry, evict_to, evict_page}

-- The first frame in use by another thread than `c`, its owner, the owner's entry for it, and its page.
pub record Victim {Page : Type 0} (c : ℕ) (vm : Vm Page) (i j owner : ℕ) (page : Page)
    : Type 0 where
  pub first : find_index? (is_victim c) vm.pfns ≡ some i
  pub owned : get_elem? vm.pfns i ≡ some (record { used = 1; thread = owner })
  pub entry : find_index? (maps i) (vm.tables owner) ≡ some j
  pub stored : get_elem? vm.physical i ≡ some page

-- The page of entry `j` of thread `t` is in the swap file.
pub record IsOut {Page : Type 0} (vm : Vm Page) (t j : ℕ) (page : Page) : Type 0 where
  pub pte : ℕ
  pub at : get_elem? (vm.tables t) j ≡ some pte
  pub not_valid : valid pte ≡ 0
  pub is_out : swapout pte ≡ 1
  pub aligned : gefilea_pos pte % page_size ≡ 0
  pub held : Holds vm.swap (gefilea_pos pte / page_size) page

pub write_table_self : (f : ℕ → List ℕ) (t : ℕ) (table : List ℕ) → write_table f t table t ≡ table
write_table_self f t table = ground arith

pub write_table_ne :
    (f : ℕ → List ℕ) (t u : ℕ) (table : List ℕ) → u ≢ t → write_table f t table u ≡ f u
write_table_ne f t u table ne = ground arith

module _ {Page : Type 0} (c : ℕ) (vm : Vm Page) where
  evict_page-eq :
      {i j owner offset : ℕ} {page : Page} {swap : Swap Page}
      → Victim c vm i j owner page
      → swap_out page vm.swap ≡ ok (offset, swap)
      → evict_page c vm ≡ ok (i, evict_to c i owner vm (offset, swap))
  unfolding evict_page
  evict_page-eq v out = rw (v.first, v.owned, v.stored, out)

  pub evict_page-fault :
      {i j owner : ℕ} {page : Page} {e : Fault}
      → Victim c vm i j owner page
      → swap_out page vm.swap ≡ fault e
      → evict_page c vm ≡ fault e
  unfolding evict_page
  evict_page-fault v out = rw (v.first, v.owned, v.stored, out)

  -- The state after the eviction of frame `i`, whose page went to `offset`.
  abbrev pub evicted : (i j owner offset : ℕ) → Swap Page → Vm Page
  evicted i j owner offset swap =
      let table = vm.tables owner in
      record vm {
        swap = swap;
        tables = write_table vm.tables owner (set table j (swapped offset (get_or table j 0)));
        pfns = set vm.pfns i (record { used = 1; thread = c });
      }

  pub evict_page-evicted :
      {i j owner offset : ℕ} {page : Page} {swap : Swap Page}
      → Victim c vm i j owner page
      → swap_out page vm.swap ≡ ok (offset, swap)
      → evict_page c vm ≡ ok (i, evicted i j owner offset swap)
  unfolding evict_entry
  evict_page-evicted {i} {j} {owner} {offset} {swap} v out =
      evict_page-eq v out
      ∙ ap (λ o. ok (i, evict_entry c i owner offset (record vm { swap = swap }) o)) v.entry

  evicted-IsOut :
      {i j owner offset : ℕ} {page : Page} {swap : Swap Page}
      → Victim c vm i j owner page
      → Took page vm.swap offset swap
      → IsValid vm.swap
      → IsOut (evicted i j owner offset swap) owner j page
  evicted-IsOut {i} {j} {owner} {offset} v took sv =
      let (e, at_j, _) = find_index?-some (maps i) (vm.tables owner) j v.entry in
      let small : offset < 2 ^ 30 = omega (arith, took.at_slot, took.in_range) in
      let (off, out, place, _) = swapped_lem offset (get_or (vm.tables owner) j 0) small in
      let (aligned, held) = Took-Holds took sv in
      record {
        pte = swapped offset (get_or (vm.tables owner) j 0);
        at =
            ap (λ q. get_elem? q j) (write_table_self vm.tables owner _)
            ∙ get_elem?-set_self (vm.tables owner) j _ (get_elem?-lt (vm.tables owner) j at_j);
        not_valid = off;
        is_out = out;
        aligned = rw place aligned;
        held = rw place held;
      }

  -- With a victim, and room in a valid swap file that opens, eviction gives its frame to `c`; the
  -- owner's entry is then that of a page in the swap file, which holds what the frame held.
  pub evict_page_lem :
      {i j owner : ℕ} {page : Page}
      → Victim c vm i j owner page
      → IsValid vm.swap
      → vm.swap.count < max_swap_slots
      → vm.swap.opens ≡ true
      → Returns (evict_page c vm) (λ r.
        (r.0 ≡ i)
        × (get_elem? r.1.pfns i ≡ some (record { used = 1; thread = c }))
        × IsOut r.1 owner j page)
  evict_page_lem {i} {j} {owner} {page} v sv room opens =
      let (out, runs, took) = swap_out_total page vm.swap sv room opens in
      (
        (i, evicted i j owner out.0 out.1),
        evict_page-evicted v runs,
        (
          refl,
          get_elem?-set_self vm.pfns i _ (get_elem?-lt vm.pfns i v.owned),
          evicted-IsOut v took sv,
        ),
      )
