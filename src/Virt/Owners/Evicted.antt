-- ===== src/Virt/Owners/Evicted.antt =====
-- Eviction under the agreement of frames and page tables: there is a victim, and its frame is free of
-- entries after it.
use osdesignasst.Prelude.{
  ℕ, ◌+◌, ◌<◌, ◌≤◌, ◌≡◌, ◌≢◌, ◌⊎◌, refl, ap, ◌∙◌, true, false, inl, inr, some, List, ◌==◌,
  if◌then◌else◌, get_elem?, get_elem?-lt, get_elem?-some, get_elem?-set_self, get_or, set, length,
  length-set, find_index?, find_index?-some, find_index?-none, count, count-set, count-zero,
  count-all, ones, arith, eq_or_ne, Option-cases,
}
use osdesignasst.Limits.{max_physical_pages, max_virtual_pages}
use osdesignasst.Swap.{Swap}
use osdesignasst.Virt.Pte.{valid, swapped}
use osdesignasst.Virt.State.{Pfn, Vm}
use osdesignasst.Virt.Frames.{write_table, maps, is_victim}
use osdesignasst.Virt.Frames.Evict.{Victim, evicted, write_table_self, write_table_ne}
use osdesignasst.Virt.Owners.{is_used, held, IsOwned}
use osdesignasst.Virt.Owners.Pigeon.{le-length_of_maps}
use osdesignasst.Virt.Owners.Reserve.{Reserved, held-set, held-spare, frames_after}

valid-swapped : (offset e : ℕ) → valid (swapped offset e) ≡ 0
unfolding valid swapped
valid-swapped offset e = omega arith

maps-swapped : (k offset e : ℕ) → maps k (swapped offset e) ≡ false
unfolding maps
maps-swapped k offset e = rw (valid-swapped offset e) refl

-- An entry that names a frame names no other.
maps_once : (k i e : ℕ) → maps i e ≡ true → ones (maps k) e ≡ (if k == i then 1 else 0)
unfolding maps
maps_once k i e h = ground arith

module _ {Page : Type 0} (c : ℕ) (vm : Vm Page) where
  -- With all frames in use, some frame is not `c`'s: its page table has fewer entries than there are
  -- frames.
  pub victim_found :
      IsOwned vm max_physical_pages
      → max_physical_pages ≤ vm.pfn_count
      → (i : ℕ) × (find_index? (is_victim c) vm.pfns ≡ some i)
  victim_found v full = elim (Option-cases (find_index? (is_victim c) vm.pfns)) [
    | inl e ↦ absurd (
        omega (
          arith,
          v.size c,
          le-length_of_maps max_physical_pages (vm.tables c)
              (λ i lt. named_by i lt (find_index?-none _ vm.pfns e)),
        ))
    | inr found ↦ found
  ]
    where
      named_by :
          (i : ℕ)
          → i < max_physical_pages
          → count (is_victim c) vm.pfns ≡ 0
          → 0 < count (maps i) (vm.tables c)
      named_by i lt no_victim =
          let (f, at) = get_elem?-some vm.pfns i (omega (arith, v.frames)) in
          let used = count-all is_used vm.pfns i at (omega (arith, v.frames, v.counted)) in
          let own = count-zero (is_victim c) vm.pfns i at no_victim in
          rw (v.owned c i, at) (ground arith)

  -- What the owner's page table says after its entry went to the software form.
  count-evicted :
      (i j owner offset k t : ℕ) (swap : Swap Page)
      → find_index? (maps i) (vm.tables owner) ≡ some j
      → count (maps k) ((evicted c vm i j owner offset swap).tables t)
          + (if owner == t then if k == i then 1 else 0 else 0)
        ≡ count (maps k) (vm.tables t)
  count-evicted i j owner offset k t swap found =
      let (e, at, hit) = find_index?-some (maps i) (vm.tables owner) j found in
      let out = swapped offset (get_or (vm.tables owner) j 0) in
      let after = count-set (maps k) (vm.tables owner) j out at in
      let once = maps_once k i e hit in
      let gone = maps-swapped k offset (get_or (vm.tables owner) j 0) in
      elim (eq_or_ne t owner) [
        | inl same ↦
            let self : (owner == owner) ≡ true = ground arith in
            rw (same, self) (ground (arith, after, once, gone))
        | inr other ↦ let ne : (owner == t) ≡ false = ground arith in rw ne (omega arith)
      ]

  pub evicted-Reserved :
      (i j owner offset : ℕ) {page : Page} (swap : Swap Page)
      → IsOwned vm max_physical_pages
      → Victim c vm i j owner page
      → owner ≢ c
      → Reserved c vm i (evicted c vm i j owner offset swap)
  evicted-Reserved i j owner offset swap v victim other =
      let lt = get_elem?-lt vm.pfns i victim.owned in
      let (used, unused) = frames_after c vm i victim.owned in
      let new : Pfn = record { used = 1; thread = c } in
      record {
        in_range = omega (arith, lt, v.frames);
        owned = record {
          frames = length-set vm.pfns i new ∙ v.frames;
          pages = v.pages;
          flags = ground (arith, v.flags, used, unused);
          counted = ground (arith, v.counted, used);
          size = λ t. size_after t (eq_or_ne t owner);
          owned = λ t k. owned_after t k (eq_or_ne k i);
        };
        mine = get_elem?-set_self vm.pfns i new lt;
        same = ground arith;
      }
    where
      table : List ℕ
      table = set (vm.tables owner) j (swapped offset (get_or (vm.tables owner) j 0))

      size_after :
          (t : ℕ)
          → (t ≡ owner) ⊎ (t ≢ owner)
          → length (write_table vm.tables owner table t) ≡ max_virtual_pages
      size_after t (inl e) = rw e (
          ap length (write_table_self vm.tables owner table)
          ∙ length-set (vm.tables owner) j _
          ∙ v.size owner)
      size_after t (inr ne) = ap length (write_table_ne vm.tables owner t table ne) ∙ v.size t

      owned_after :
          (t k : ℕ)
          → (k ≡ i) ⊎ (k ≢ i)
          → count (maps k) ((evicted c vm i j owner offset swap).tables t)
            ≡ held i t k (get_elem? (set vm.pfns i (record { used = 1; thread = c })) k)
      owned_after t k (inl e) =
          let gone = count-evicted i j owner offset i t swap victim.entry in
          let own = v.owned t i ∙ ap (held max_physical_pages t i) victim.owned in
          rw
            (
              e,
              held-spare c vm t i (record { used = 1; thread = c })
                  (get_elem?-lt vm.pfns i victim.owned),
            )
            (ground (arith, gone, own, get_elem?-lt vm.pfns i victim.owned, v.frames))
      owned_after t k (inr ne) =
          let same = count-evicted i j owner offset k t swap victim.entry in
          let own =
            v.owned t k
            ∙ held-set c vm t k i (record { used = 1; thread = c })
                (get_elem?-lt vm.pfns i victim.owned) v.frames ne in
          ground (arith, same, own)
