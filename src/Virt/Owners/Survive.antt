-- ===== src/Virt/Owners/Survive.antt =====
-- A thread's page is in a frame that no other entry names, so it survives the run of other threads.
use mathlib.Core.Path.{fun_ext}
use osdesignasst.Prelude.{
  ℕ, ◌<◌, ◌≡◌, ◌≢◌, ap, ◌∙◌, true, inl, inr, some, List, get_elem?, get_elem?-lt, count, count-pos,
  arith, Option-cases,
}
use osdesignasst.Limits.{max_physical_pages}
use osdesignasst.Virt.Pte.{valid, pageframenumber}
use osdesignasst.Virt.State.{Pfn, Vm}
use osdesignasst.Virt.Frames.{maps}
use osdesignasst.Virt.Switch.{is_valid}
use osdesignasst.Virt.Switch.Roundtrip.{uses, away_and_back, switch_back}
use osdesignasst.Virt.Owners.{held, IsOwned}

uses-eq-maps : (i e : ℕ) → uses i e ≡ maps i e
unfolding maps valid
uses-eq-maps i e = ground arith

count-uses : (i : ℕ) (es : List ℕ) → count (uses i) es ≡ count (maps i) es
count-uses i es = ap (λ p. count p es) (fun_ext (uses-eq-maps i))

maps_self : (e : ℕ) → is_valid e ≡ true → maps (pageframenumber e) e ≡ true
unfolding maps valid
maps_self e on = ground arith

module _ {Page : Type 0} (vm : Vm Page) (v : IsOwned vm max_physical_pages) where
  owner_of :
      (t p : ℕ)
      → 0 < count (maps p) (vm.tables t)
      → (f : Pfn) × (get_elem? vm.pfns p ≡ some f)
        × (p < max_physical_pages)
        × (f.used ≡ 1)
        × (f.thread ≡ t)
  owner_of t p named = elim (Option-cases (get_elem? vm.pfns p)) [
    | inl out ↦ absurd (omega (arith, named, v.owned t p ∙ ap (held max_physical_pages t p) out))
    | inr (f, at) ↦
        let own = v.owned t p ∙ ap (held max_physical_pages t p) at in
        (
          f,
          at,
          omega (arith, get_elem?-lt vm.pfns p at, v.frames),
          ground (arith, own, named),
          ground (arith, own, named),
        )
  ]

  -- The frame of a valid entry of `t` is named by no other entry of any thread.
  pub named_once :
      (t j : ℕ) {e : ℕ}
      → get_elem? (vm.tables t) j ≡ some e
      → is_valid e ≡ true
      → (pageframenumber e < max_physical_pages)
        × (count (maps (pageframenumber e)) (vm.tables t) ≡ 1)
        × ((u : ℕ) → u ≢ t → count (maps (pageframenumber e)) (vm.tables u) ≡ 0)
  named_once t j {e} at on =
      let p = pageframenumber e in
      let named = count-pos (maps p) (vm.tables t) j at (maps_self e on) in
      let (f, frame, lt, used, mine) = owner_of t p named in
      (
        lt,
        v.owned t p ∙ rw frame (ground (arith, lt, used, mine)),
        λ u ne. v.owned u p ∙ rw frame (ground (arith, mine, ne)),
      )

  -- A switch from `t` to any other thread and back keeps every page of `t` that is in memory.
  pub page_survives :
      (t u : ℕ) (left : List Page) (j : ℕ) {e : ℕ} {page w : Page}
      → u ≢ t
      → get_elem? (vm.tables t) j ≡ some e
      → is_valid e ≡ true
      → get_elem? vm.virtual j ≡ some page
      → get_elem? left j ≡ some w
      → get_elem? (away_and_back t u left vm).virtual j ≡ some page
  page_survives t u left j {e} ne at on now there =
      let (lt, once, never) = named_once t j at on in
      switch_back vm t u left j e at on now (omega (arith, lt, v.pages))
        (count-uses (pageframenumber e) (vm.tables t) ∙ once)
        (count-uses (pageframenumber e) (vm.tables u) ∙ never u ne) there
