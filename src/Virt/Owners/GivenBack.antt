-- ===== src/Virt/Owners/GivenBack.antt =====
-- The frames after `free_physical_page` and the loop of `free_thread_pages`: those that an entry named
-- are given back, and the others stay.
use osdesignasst.Prelude.{
  ℕ, zero, suc, ◌+◌, ◌-◌, ◌<◌, ◌≤◌, ◌≡◌, ◌≢◌, ◌⊎◌, refl, sym, ap, ◌∙◌, true, false, inl, inr,
  Option, some, none, List, [], ◌∷◌, ◌==◌, leb, if◌then◌else◌, get_elem?, get_elem?-lt,
  get_elem?-some, get_elem?-none, get_elem?-set_self, get_elem?-set_ne, set, length, length-set,
  count, count-set, ones, arith, eq_or_ne, Bool-cases,
}
use osdesignasst.Limits.{max_physical_pages}
use osdesignasst.Virt.Pte.{valid, pageframenumber}
use osdesignasst.Virt.State.{Pfn, Vm}
use osdesignasst.Virt.Frames.{maps, is_unused, free_physical_page}
use osdesignasst.Virt.Pages.{free_entry, free_entries}
use osdesignasst.Virt.Owners.{is_used}

-- What frame `i` is after the entries were given back, of which `n` named it.
abbrev pub released : (n : ℕ) → Option Pfn → Option Pfn
released n none = none
released n (some f) = if 0 == n then some f else some (record f { used = 0 })

released-zero : (o : Option Pfn) → released 0 o ≡ o
released-zero none = refl
released-zero (some f) = refl

released-released : (m n : ℕ) (o : Option Pfn) → released m (released n o) ≡ released (n + m) o
released-released m n none = refl
released-released m n (some f) = ground arith

-- The frames alone, and what keeps their number right.
pub record FramesAgree {Page : Type 0} (vm : Vm Page) : Type 0 where
  pub frames : length vm.pfns ≡ max_physical_pages
  pub flags : count is_used vm.pfns + count is_unused vm.pfns ≡ max_physical_pages
  pub counted : vm.pfn_count ≡ count is_used vm.pfns

one_flag : (f : Pfn) → ones is_used f + ones is_unused f ≤ 1
one_flag f = ground arith

flags-le-length : (fs : List Pfn) → count is_used fs + count is_unused fs ≤ length fs
flags-le-length [] = omega arith
flags-le-length (f ∷ fs) = omega (arith, one_flag f, flags-le-length fs)

-- If the flags add up, each is 0 or 1.
flag_of :
    (fs : List Pfn) (i : ℕ) {f : Pfn}
    → get_elem? fs i ≡ some f
    → length fs ≤ count is_used fs + count is_unused fs
    → f.used ≤ 1
flag_of [] i at all = cc
flag_of (g ∷ fs) zero {f} at all =
    let one : 1 ≤ ones is_used g + ones is_unused g = omega (arith, flags-le-length fs) in
    ground (arith, one)
flag_of (g ∷ fs) (suc i) at all = flag_of fs i at (omega (arith, one_flag g))

module _ {Page : Type 0} (p : ℕ) (vm : Vm Page) where
  free_physical_page_out :
      length vm.pfns ≡ max_physical_pages → max_physical_pages ≤ p → free_physical_page p vm ≡ vm
  unfolding free_physical_page
  free_physical_page_out size out = ground arith

  -- The state after frame `p` is given back.
  abbrev given_back : Pfn → Vm Page
  given_back f = record vm {
    pfns = set vm.pfns p (record f { used = 0 });
    pfn_count = vm.pfn_count - 1;
  }

  free_physical_page_in :
      {f : Pfn}
      → p < max_physical_pages
      → get_elem? vm.pfns p ≡ some f
      → free_physical_page p vm ≡ (if 0 == f.used then vm else given_back f)
  unfolding free_physical_page
  free_physical_page_in lt at = rw at (ground arith)

  given_back-FramesAgree :
      (f : Pfn)
      → FramesAgree vm
      → get_elem? vm.pfns p ≡ some f
      → 0 ≢ f.used
      → FramesAgree (given_back f)
  given_back-FramesAgree f v at on =
      let one = flag_of vm.pfns p at (omega (arith, v.frames, v.flags)) in
      let used = count-set is_used vm.pfns p (record f { used = 0 }) at in
      let unused = count-set is_unused vm.pfns p (record f { used = 0 }) at in
      record {
        frames = length-set vm.pfns p _ ∙ v.frames;
        flags = ground (arith, v.flags, used, unused, one);
        counted = ground (arith, v.counted, used, one);
      }

  frame_cases :
      length vm.pfns ≡ max_physical_pages
      → (max_physical_pages ≤ p)
        ⊎ ((p < max_physical_pages) × (f : Pfn) × (get_elem? vm.pfns p ≡ some f))
  frame_cases size = elim (Bool-cases (leb max_physical_pages p)) [
    | inl out ↦ inl (ground arith)
    | inr lt ↦
        let (f, at) = get_elem?-some vm.pfns p (ground (arith, size)) in inr (ground arith, f, at)
  ]

  free_physical_page-FramesAgree : FramesAgree vm → FramesAgree (free_physical_page p vm)
  free_physical_page-FramesAgree v = elim (frame_cases v.frames) [
    | inl out ↦ rw (free_physical_page_out v.frames out) v
    | inr (lt, f, at) ↦ rw (free_physical_page_in lt at) (kept f at (Bool-cases (0 == f.used)))
  ]
    where
      kept :
          (f : Pfn)
          → get_elem? vm.pfns p ≡ some f
          → ((0 == f.used) ≡ true) ⊎ ((0 == f.used) ≡ false)
          → FramesAgree (if 0 == f.used then vm else given_back f)
      kept f at (inl e) = rw e v
      kept f at (inr e) = rw e (given_back-FramesAgree f v at (ground arith))

  given_back-frame :
      (i : ℕ) (f : Pfn)
      → get_elem? vm.pfns p ≡ some f
      → get_elem? (if 0 == f.used then vm else given_back f).pfns i
        ≡ released (if p == i then 1 else 0) (get_elem? vm.pfns i)
  given_back-frame i f at = elim (eq_or_ne i p) [
    | inl e ↦
        let self : (p == p) ≡ true = ground arith in
        let lt = get_elem?-lt vm.pfns p at in
        rw (e, self, at)
          (ground (arith, at, get_elem?-set_self vm.pfns p (record f { used = 0 }) lt))
    | inr ne ↦
        let other : (p == i) ≡ false = ground arith in
        rw (other, released-zero (get_elem? vm.pfns i))
          (ground (arith, get_elem?-set_ne vm.pfns (record f { used = 0 }) (λ e. ne (sym e))))
  ]

  free_physical_page-frame :
      (i : ℕ)
      → length vm.pfns ≡ max_physical_pages
      → get_elem? (free_physical_page p vm).pfns i
        ≡ released (if p == i then 1 else 0) (get_elem? vm.pfns i)
  free_physical_page-frame i size = elim (frame_cases size) [
    | inl out ↦ rw (free_physical_page_out size out) (sym (beyond i out (eq_or_ne i p)))
    | inr (lt, f, at) ↦ rw (free_physical_page_in lt at) (given_back-frame i f at)
  ]
    where
      beyond :
          (i : ℕ)
          → max_physical_pages ≤ p
          → (i ≡ p) ⊎ (i ≢ p)
          → released (if p == i then 1 else 0) (get_elem? vm.pfns i) ≡ get_elem? vm.pfns i
      beyond i out (inl e) = rw (e, get_elem?-none vm.pfns p (omega (arith, size, out))) refl
      beyond i out (inr ne) =
          let other : (p == i) ≡ false = ground arith in
          rw other (released-zero (get_elem? vm.pfns i))

module _ {Page : Type 0} where
  free_entry-FramesAgree : (e : ℕ) (vm : Vm Page) → FramesAgree vm → FramesAgree (free_entry e vm)
  free_entry-FramesAgree e vm v = elim (Bool-cases (1 == valid e)) [
    | inl on ↦ rw on (free_physical_page-FramesAgree (pageframenumber e) vm v)
    | inr off ↦ rw off v
  ]

  free_entry-frame :
      (e i : ℕ) (vm : Vm Page)
      → FramesAgree vm
      → get_elem? (free_entry e vm).pfns i ≡ released (ones (maps i) e) (get_elem? vm.pfns i)
  unfolding maps
  free_entry-frame e i vm v = elim (Bool-cases (1 == valid e)) [
    | inl on ↦ rw on (free_physical_page-frame (pageframenumber e) vm i v.frames)
    | inr off ↦ rw off (sym (released-zero (get_elem? vm.pfns i)))
  ]

  pub free_entries-FramesAgree :
      (es : List ℕ) (vm : Vm Page) → FramesAgree vm → FramesAgree (free_entries es vm).1
  unfolding free_entries
  free_entries-FramesAgree [] vm v = v
  free_entries-FramesAgree (e ∷ es) vm v =
      free_entries-FramesAgree es (free_entry e vm) (free_entry-FramesAgree e vm v)

  -- A frame is given back if some entry names it.
  pub free_entries-frame :
      (es : List ℕ) (i : ℕ) (vm : Vm Page)
      → FramesAgree vm
      → get_elem? (free_entries es vm).1.pfns i ≡ released (count (maps i) es) (get_elem? vm.pfns i)
  unfolding free_entries
  free_entries-frame [] i vm v = sym (released-zero (get_elem? vm.pfns i))
  free_entries-frame (e ∷ es) i vm v =
      free_entries-frame es i (free_entry e vm) (free_entry-FramesAgree e vm v)
      ∙ ap (released (count (maps i) es)) (free_entry-frame e i vm v)
      ∙ released-released (count (maps i) es) (ones (maps i) e) (get_elem? vm.pfns i)
