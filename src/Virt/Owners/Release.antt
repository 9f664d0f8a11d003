-- ===== src/Virt/Owners/Release.antt =====
-- The end of a thread: `free_thread_pages` gives its frames back, and no other thread's.
use osdesignasst.Prelude.{
  ℕ, ◌≡◌, ◌≢◌, ◌⊎◌, refl, sym, ap, ◌∙◌, inl, inr, Option, some, none, List, [], ◌∷◌, ◌==◌, leb,
  get_elem?, length, count, ones, arith, eq_or_ne, Bool-cases,
}
use osdesignasst.Limits.{max_physical_pages, max_virtual_pages}
use osdesignasst.Virt.Pte.{valid, pageframenumber}
use osdesignasst.Virt.State.{Pfn, Vm}
use osdesignasst.Virt.Frames.{write_table, maps, free_frame, free_physical_page}
use osdesignasst.Virt.Frames.Evict.{write_table_self, write_table_ne}
use osdesignasst.Virt.Pages.{freed, free_entry, free_entries, free_thread_pages}
use osdesignasst.Virt.Owners.{held, IsOwned}
use osdesignasst.Virt.Owners.Entry.{zero_off}
use osdesignasst.Virt.Owners.GivenBack.{
  released, FramesAgree, free_entries-FramesAgree, free_entries-frame,
}

-- The entries that are left name no frame.
freed-maps : (i e : ℕ) → ones (maps i) (freed e) ≡ 0
unfolding maps
freed-maps i e = elim (Bool-cases (1 == valid e)) [
  | inl on ↦ rw on (rw zero_off refl)
  | inr off ↦ rw off (rw off refl)
]

module _ {Page : Type 0} where
  -- The page tables and the pages stay.
  free_physical_page-rest :
      (p : ℕ) (vm : Vm Page)
      → ((free_physical_page p vm).tables ≡ vm.tables)
        × ((free_physical_page p vm).physical ≡ vm.physical)
  unfolding free_physical_page
  free_physical_page-rest p vm = elim (Bool-cases (leb max_physical_pages p)) [
    | inl out ↦ rw out (refl, refl)
    | inr lt ↦ rw lt (frame_rest (get_elem? vm.pfns p))
  ]
    where
      frame_rest :
          (o : Option Pfn)
          → ((free_frame p vm o).tables ≡ vm.tables) × ((free_frame p vm o).physical ≡ vm.physical)
      frame_rest none = (refl, refl)
      frame_rest (some f) = elim (Bool-cases (0 == f.used)) [
        | inl off ↦ rw off (refl, refl)
        | inr on ↦ rw on (refl, refl)
      ]

  free_entry-rest :
      (e : ℕ) (vm : Vm Page)
      → ((free_entry e vm).tables ≡ vm.tables) × ((free_entry e vm).physical ≡ vm.physical)
  free_entry-rest e vm = elim (Bool-cases (1 == valid e)) [
    | inl on ↦ rw on (free_physical_page-rest (pageframenumber e) vm)
    | inr off ↦ rw off (refl, refl)
  ]

  free_entries-rest :
      (es : List ℕ) (vm : Vm Page)
      → ((free_entries es vm).1.tables ≡ vm.tables)
        × ((free_entries es vm).1.physical ≡ vm.physical)
  unfolding free_entries
  free_entries-rest [] vm = (refl, refl)
  free_entries-rest (e ∷ es) vm =
      let (tables, physical) = free_entry-rest e vm in
      let (tables', physical') = free_entries-rest es (free_entry e vm) in
      (tables' ∙ tables, physical' ∙ physical)

  free_entries-count :
      (es : List ℕ) (i : ℕ) (vm : Vm Page) → count (maps i) (free_entries es vm).0 ≡ 0
  unfolding free_entries
  free_entries-count [] i vm = refl
  free_entries-count (e ∷ es) i vm =
      omega (arith, freed-maps i e, free_entries-count es i (free_entry e vm))

  length-free_entries : (es : List ℕ) (vm : Vm Page) → length (free_entries es vm).0 ≡ length es
  unfolding free_entries
  length-free_entries [] vm = refl
  length-free_entries (e ∷ es) vm = omega (arith, length-free_entries es (free_entry e vm))

held-released_self : (q t i : ℕ) (o : Option Pfn) → held q t i (released (held q t i o) o) ≡ 0
held-released_self q t i none = refl
held-released_self q t i (some f) = ground arith

held-released_other :
    (q t u i : ℕ) (o : Option Pfn) → u ≢ t → held q u i (released (held q t i o) o) ≡ held q u i o
held-released_other q t u i none ne = refl
held-released_other q t u i (some f) ne = ground arith

-- The frames and page tables of the other threads agree as before, and those of the thread that ended
-- with a table that names no frame.
pub free_thread_pages-IsOwned :
    {Page : Type 0} (t : ℕ) (vm : Vm Page)
    → IsOwned vm max_physical_pages
    → IsOwned (free_thread_pages t vm) max_physical_pages
unfolding free_thread_pages
free_thread_pages-IsOwned t vm v = record {
  frames = after.frames;
  pages = ap length (free_entries-rest (vm.tables t) vm).1 ∙ v.pages;
  flags = after.flags;
  counted = after.counted;
  size = λ u. size_after u (eq_or_ne u t);
  owned = λ u i. owned_after u i (eq_or_ne u t);
}
  where
    after : FramesAgree (free_entries (vm.tables t) vm).1
    after =
        free_entries-FramesAgree (vm.tables t) vm
          (record { frames = v.frames; flags = v.flags; counted = v.counted })

    table : List ℕ
    table = (free_entries (vm.tables t) vm).0

    tables : ℕ → List ℕ
    tables = (free_entries (vm.tables t) vm).1.tables

    others : (u : ℕ) → u ≢ t → write_table tables t table u ≡ vm.tables u
    others u ne =
        write_table_ne tables t u table ne ∙ ap (λ f. f u) (free_entries-rest (vm.tables t) vm).0

    frame :
        (i : ℕ)
        → get_elem? (free_entries (vm.tables t) vm).1.pfns i
          ≡ released (held max_physical_pages t i (get_elem? vm.pfns i)) (get_elem? vm.pfns i)
    frame i =
        free_entries-frame (vm.tables t) i vm
          (record { frames = v.frames; flags = v.flags; counted = v.counted })
        ∙ ap (λ (n : ℕ). released n (get_elem? vm.pfns i)) (v.owned t i)

    size_after :
        (u : ℕ) → (u ≡ t) ⊎ (u ≢ t) → length (write_table tables t table u) ≡ max_virtual_pages
    size_after u (inl e) = rw e (
        ap length (write_table_self tables t table)
        ∙ length-free_entries (vm.tables t) vm
        ∙ v.size t)
    size_after u (inr ne) = ap length (others u ne) ∙ v.size u

    owned_after :
        (u i : ℕ)
        → (u ≡ t) ⊎ (u ≢ t)
        → count (maps i) (write_table tables t table u)
          ≡ held max_physical_pages u i (get_elem? (free_entries (vm.tables t) vm).1.pfns i)
    owned_after u i (inl e) =
        rw (e, frame i)
          (ap (count (maps i)) (write_table_self tables t table)
            ∙ free_entries-count (vm.tables t) i vm
            ∙ sym (held-released_self max_physical_pages t i (get_elem? vm.pfns i)))
    owned_after u i (inr ne) = rw (frame i) (
        ap (count (maps i)) (others u ne)
        ∙ v.owned u i
        ∙ sym (held-released_other max_physical_pages t u i (get_elem? vm.pfns i) ne))
