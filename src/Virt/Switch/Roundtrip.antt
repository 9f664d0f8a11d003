-- ===== src/Virt/Switch/Roundtrip.antt =====
-- A thread's pages survive the run of another thread.
use mathlib.Core.Option.{some-injective}
use osdesignasst.Prelude.{
  ℕ, zero, suc, ◌<◌, ◌≡◌, refl, sym, ap, ◌∙◌, subst, Bool, true, ◌&&◌, inl, inr, some, List, [],
  ◌∷◌, ◌==◌, Bool-cases, length, length-set, get_elem?, get_elem?-set_self, get_elem?-set_ne,
  get_or_of_get_elem?, set, count, count-pos, arith,
}
use osdesignasst.Virt.Pte.{pageframenumber}
use osdesignasst.Virt.State.{Vm}
use osdesignasst.Virt.Switch.{
  is_valid, store_pages, load_pages, mm_store_virtual_pages_back, mm_switch_virtual_pages,
}

-- The entry is valid and names frame `p`.
abbrev pub uses : (p : ℕ) → (entry : ℕ) → Bool
uses p entry = is_valid entry && (pageframenumber entry == p)

module _ {Page : Type 0} where
  load_pages-valid :
      (es : List ℕ) (ps vs : List Page) (j : ℕ) {e : ℕ} {w v : Page}
      → get_elem? es j ≡ some e
      → is_valid e ≡ true
      → get_elem? vs j ≡ some w
      → get_elem? ps (pageframenumber e) ≡ some v
      → get_elem? (load_pages es ps vs) j ≡ some v
  unfolding load_pages
  load_pages-valid [] ps vs j h t w v = absurd (cc)
  load_pages-valid (e ∷ es) ps [] j h t w v = absurd (cc)
  load_pages-valid (f ∷ es) ps (x ∷ xs) zero {v = page} h t w v =
      let same = sym (some-injective _ _ h) in
      let t' = subst (λ k. is_valid k ≡ true) same t in
      let v' = subst (λ k. get_elem? ps (pageframenumber k) ≡ some page) same v in
      rw t' (ap some (get_or_of_get_elem? ps (pageframenumber f) x v'))
  load_pages-valid (e ∷ es) ps (x ∷ xs) (suc j) h t w v = load_pages-valid es ps xs j h t w v

  -- The store of pages leaves the frames alone that no entry uses.
  store_pages-other :
      (es : List ℕ) (vs ps : List Page) (p : ℕ)
      → count (uses p) es ≡ 0
      → get_elem? (store_pages es vs ps) p ≡ get_elem? ps p
  unfolding store_pages
  store_pages-other [] vs ps p h = refl
  store_pages-other (e ∷ es) [] ps p h = refl
  store_pages-other (e ∷ es) (v ∷ vs) ps p h = elim (Bool-cases (is_valid e)) [
    | inl t ↦ rw t (
        store_pages-other es vs (set ps (pageframenumber e) v) p (ground arith)
        ∙ get_elem?-set_ne ps v (λ q. ground arith))
    | inr f ↦ rw f (store_pages-other es vs ps p (ground arith))
  ]

  store_pages-head :
      (e : ℕ) (es : List ℕ) (v : Page) (vs ps : List Page)
      → is_valid e ≡ true
      → pageframenumber e < length ps
      → count (uses (pageframenumber e)) (e ∷ es) ≡ 1
      → get_elem? (store_pages (e ∷ es) (v ∷ vs) ps) (pageframenumber e) ≡ some v
  unfolding store_pages
  store_pages-head e es v vs ps t lt one =
      let none_after : count (uses (pageframenumber e)) es ≡ 0 = ground (arith, t, one) in
      rw t (
        store_pages-other es vs (set ps (pageframenumber e) v) (pageframenumber e) none_after
        ∙ get_elem?-set_self ps (pageframenumber e) v lt)

  -- A frame that one entry uses gets the page of that entry.
  store_pages-own :
      (es : List ℕ) (vs ps : List Page) (j e : ℕ) {v : Page}
      → get_elem? es j ≡ some e
      → is_valid e ≡ true
      → get_elem? vs j ≡ some v
      → pageframenumber e < length ps
      → count (uses (pageframenumber e)) es ≡ 1
      → get_elem? (store_pages es vs ps) (pageframenumber e) ≡ some v
  unfolding store_pages
  store_pages-own [] vs ps j e h t hv lt one = absurd (cc)
  store_pages-own (f ∷ es) [] ps j e h t hv lt one = absurd (cc)
  store_pages-own (f ∷ es) (x ∷ vs) ps zero e {v} h t hv lt one =
      let same = some-injective _ _ h in
      subst (λ k. get_elem? (store_pages (f ∷ es) (x ∷ vs) ps) (pageframenumber k) ≡ some v) same
        (store_pages-head f es x vs ps (subst (λ k. is_valid k ≡ true) (sym same) t)
            (subst (λ k. pageframenumber k < length ps) (sym same) lt)
            (subst (λ k. count (uses (pageframenumber k)) (f ∷ es) ≡ 1) (sym same) one)
          ∙ hv)
  store_pages-own (f ∷ es) (x ∷ vs) ps (suc j) e h t hv lt one =
      let found = count-pos (uses (pageframenumber e)) es j h (ground (arith, t)) in
      let one' : count (uses (pageframenumber e)) es ≡ 1 = ground (arith, found, one) in
      elim (Bool-cases (is_valid f)) [
        | inl g ↦ rw g (
            store_pages-own es vs (set ps (pageframenumber f) x) j e h t hv
              (omega (arith, lt, length-set ps (pageframenumber f) x)) one')
        | inr g ↦ rw g (store_pages-own es vs ps j e h t hv lt one')
      ]

-- A switch from `t` to `u`, which leaves the pages `left` in the virtual heap, and back.
abbrev pub away_and_back : {Page : Type 0} (t u : ℕ) (left : List Page) → Vm Page → Vm Page
away_and_back t u left vm =
    let there = mm_switch_virtual_pages u (mm_store_virtual_pages_back t vm) in
    mm_switch_virtual_pages t (mm_store_virtual_pages_back u (record there { virtual = left }))

-- Thread `t` is switched away from while its page `j` holds `page`. Thread `u`, none of whose entries
-- names the frame of that page, runs, leaves any pages in the virtual heap, and is switched away from.
-- When `t` is switched to again, page `j` holds `page`, if no other entry of `t` names its frame.
pub switch_back :
    {Page : Type 0} (vm : Vm Page) (t u : ℕ) (left : List Page) (j e : ℕ) {page w : Page}
    → get_elem? (vm.tables t) j ≡ some e
    → is_valid e ≡ true
    → get_elem? vm.virtual j ≡ some page
    → pageframenumber e < length vm.physical
    → count (uses (pageframenumber e)) (vm.tables t) ≡ 1
    → count (uses (pageframenumber e)) (vm.tables u) ≡ 0
    → get_elem? left j ≡ some w
    → get_elem? (away_and_back t u left vm).virtual j ≡ some page
unfolding mm_switch_virtual_pages mm_store_virtual_pages_back
switch_back vm t u left j e at valid_e now lt own other there =
    load_pages-valid (vm.tables t) _ left j at valid_e there (
      store_pages-other (vm.tables u) left _ (pageframenumber e) other
      ∙ store_pages-own (vm.tables t) vm.virtual vm.physical j e at valid_e now lt own)
