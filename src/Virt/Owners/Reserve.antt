-- ===== src/Virt/Owners/Reserve.antt =====
-- `allocate_physical_page` under the agreement of frames and page tables: it finds a frame, by eviction
-- if none is unused, and the frame that it gives is then named by no entry.
use osdesignasst.Prelude.{
  ℕ, ◌+◌, ◌<◌, ◌≡◌, ◌≢◌, refl, sym, ◌∙◌, true, inl, inr, some, get_elem?, get_elem?-lt,
  get_elem?-set_self, get_elem?-set_ne, set, length, length-set, find_index?, find_index?-some,
  count, count-set, ones, arith, eq_or_ne, Option-cases,
}
use osdesignasst.Limits.{max_physical_pages}
use osdesignasst.Virt.State.{Pfn, Vm}
use osdesignasst.Virt.Frames.{is_unused}
use osdesignasst.Virt.Pages.Fault.{framed}
use osdesignasst.Virt.Owners.{is_used, held, IsOwned}

-- Frame `p` of `vm'` is `c`'s, no entry names it yet, and the entries of `c` are those of `vm`.
pub record Reserved {Page : Type 0} (c : ℕ) (vm : Vm Page) (p : ℕ) (vm' : Vm Page) : Type 0 where
  pub in_range : p < max_physical_pages
  pub owned : IsOwned vm' p
  pub mine : get_elem? vm'.pfns p ≡ some (record { used = 1; thread = c })
  pub same : vm'.tables c ≡ vm.tables c

module _ {Page : Type 0} (c : ℕ) (vm : Vm Page) where
  pub held-set :
      (t i p : ℕ) (f : Pfn)
      → p < length vm.pfns
      → length vm.pfns ≡ max_physical_pages
      → i ≢ p
      → held max_physical_pages t i (get_elem? vm.pfns i)
        ≡ held p t i (get_elem? (set vm.pfns p f) i)
  held-set t i p f lt size ne = elim (Option-cases (get_elem? vm.pfns i)) [
    | inl e ↦ rw (get_elem?-set_ne vm.pfns f (λ q. ne (sym q)), e) refl
    | inr (g, e) ↦
        let below = get_elem?-lt vm.pfns i e in
        rw (get_elem?-set_ne vm.pfns f (λ q. ne (sym q)), e) (ground arith)
  ]

  -- The frame that is handed out counts for nobody.
  pub held-spare :
      (t p : ℕ) (f : Pfn) → p < length vm.pfns → held p t p (get_elem? (set vm.pfns p f) p) ≡ 0
  held-spare t p f lt = rw (get_elem?-set_self vm.pfns p f lt) (ground arith)

  held-framed :
      (t i p : ℕ) {f : Pfn}
      → get_elem? vm.pfns p ≡ some f
      → is_unused f ≡ true
      → length vm.pfns ≡ max_physical_pages
      → held max_physical_pages t i (get_elem? vm.pfns i)
        ≡ held p t i (get_elem? (set vm.pfns p (record { used = 1; thread = c })) i)
  held-framed t i p {f} at free size =
      let new : Pfn = record { used = 1; thread = c } in
      let lt = get_elem?-lt vm.pfns p at in
      elim (eq_or_ne i p) [
        | inl e ↦ rw (e, held-spare t p new lt, at) (ground arith)
        | inr ne ↦ held-set t i p new lt size ne
      ]

  -- The number of used and of unused frames after a write of an owner to frame `p`.
  pub frames_after :
      (p : ℕ) {f : Pfn}
      → get_elem? vm.pfns p ≡ some f
      → (let after = set vm.pfns p (record { used = 1; thread = c }) in
          (count is_used after + ones is_used f ≡ count is_used vm.pfns + 1)
          × (count is_unused after + ones is_unused f ≡ count is_unused vm.pfns))
  frames_after p {f} at =
      let new : Pfn = record { used = 1; thread = c } in
      (
        omega (arith, count-set is_used vm.pfns p new at),
        omega (arith, count-set is_unused vm.pfns p new at),
      )

  pub framed-Reserved :
      (p : ℕ)
      → IsOwned vm max_physical_pages
      → find_index? is_unused vm.pfns ≡ some p
      → Reserved c vm p (framed c vm p)
  framed-Reserved p v found =
      let (f, at, free) = find_index?-some is_unused vm.pfns p found in
      let lt = get_elem?-lt vm.pfns p at in
      let (used, unused) = frames_after p at in
      let new : Pfn = record { used = 1; thread = c } in
      record {
        in_range = omega (arith, lt, v.frames);
        owned = record {
          frames = length-set vm.pfns p new ∙ v.frames;
          pages = v.pages;
          flags = ground (arith, v.flags, used, unused, free);
          counted = ground (arith, v.counted, used, free);
          size = v.size;
          owned = λ t i. v.owned t i ∙ held-framed t i p at free v.frames;
        };
        mine = get_elem?-set_self vm.pfns p new lt;
        same = refl;
      }
