-- ===== src/Swap/Roundtrip.antt =====
-- A page that goes to the swap file comes back as it was, whatever goes out and in between.
use osdesignasst.Prelude.{
  ℕ, ◌-◌, ◌*◌, ◌/◌, ◌%◌, ◌≡◌, ◌≢◌, true, some, arith, ok, sym, ◌∙◌, get_elem?, get_elem?-set_self,
  get_elem?-set_ne, set, set-set_back,
}
use osdesignasst.Limits.{page_size}
use osdesignasst.Swap.{Swap, swap_out, swap_in}
use osdesignasst.Swap.Slots.{IsValid, Took, swap_out-Took, swap_in-eq}

-- Slot `i` is taken and holds `page`.
pub record Holds {Page : Type 0} (s : Swap Page) (i : ℕ) (page : Page) : Type 0 where
  pub marked : get_elem? s.slots i ≡ some 1
  pub stored : get_elem? s.file i ≡ some page

module _ {Page : Type 0} where
  -- The page just written is held at its offset.
  pub Took-Holds :
      {page : Page} {s s' : Swap Page} {offset : ℕ}
      → Took page s offset s'
      → IsValid s
      → (offset % page_size ≡ 0) × Holds s' (offset / page_size) page
  Took-Holds {page} {s} t v =
      rw (t.now, t.at_slot, slot)
        (
          omega arith,
          record {
            marked = get_elem?-set_self s.slots t.slot 1 (omega (arith, v.size, t.in_range));
            stored = get_elem?-set_self s.file t.slot page (omega (arith, v.pages, t.in_range));
          },
        )
    where
      slot : t.slot * page_size / page_size ≡ t.slot
      slot = omega arith

  -- A slot in use is not handed out again, and its page is left alone.
  pub Took-keeps :
      {page other : Page} {s s' : Swap Page} {offset i : ℕ}
      → Took other s offset s'
      → Holds s i page
      → (offset ≢ i * page_size) × Holds s' i page
  Took-keeps {other} {s} {i} t h =
      rw (t.now, t.at_slot)
        (
          λ e. differ (omega arith),
          record {
            marked = get_elem?-set_ne s.slots 1 differ ∙ h.marked;
            stored = get_elem?-set_ne s.file other differ ∙ h.stored;
          },
        )
    where
      differ : t.slot ≢ i
      differ e = ground (arith, t.was_clear, h.marked)

  -- Reading one page back leaves every other slot in use as it is.
  pub swap_in-keeps :
      {page other : Page} (offset : ℕ) {s s' : Swap Page} {i : ℕ}
      → swap_in offset s ≡ ok (other, s')
      → i ≢ offset / page_size
      → Holds s i page
      → Holds s' i page
  swap_in-keeps offset {s} {i} e differ h =
      let (_, _, _, now) = swap_in-eq offset s e in
      rw now (record {
        marked = get_elem?-set_ne s.slots 0 (λ p. differ (sym p)) ∙ h.marked;
        stored = h.stored;
      })

  -- A held page is what `swap_in` returns.
  pub swap_in-Holds :
      {page : Page} (offset : ℕ) (s : Swap Page)
      → s.opens ≡ true
      → offset % page_size ≡ 0
      → Holds s (offset / page_size) page
      → swap_in offset s
        ≡ ok (page, record s { slots = set s.slots (offset / page_size) 0; count = s.count - 1 })
  unfolding swap_in
  swap_in-Holds offset s opens aligned h = ground (arith, h.marked, h.stored)

  -- On a valid table whose file opens, a page written by `swap_out` is what `swap_in` at the returned
  -- offset reads, and the table and its count are then those from before the two calls.
  pub swap_in-swap_out :
      (page : Page) (s : Swap Page) {s' : Swap Page} {offset : ℕ}
      → IsValid s
      → s.opens ≡ true
      → swap_out page s ≡ ok (offset, s')
      → (s'' : Swap Page) × (swap_in offset s' ≡ ok (page, s''))
        × (s''.slots ≡ s.slots)
        × (s''.count ≡ s.count)
  swap_in-swap_out page s {s'} {offset} v opens h =
      let t = swap_out-Took page s v.size h in
      let (aligned, held) = Took-Holds t v in
      (
        record s' { slots = set s'.slots (offset / page_size) 0; count = s'.count - 1 },
        swap_in-Holds offset s' (ground (arith, t.now)) aligned held,
        restored t,
        ground (arith, t.now),
      )
    where
      restored : Took page s offset s' → set s'.slots (offset / page_size) 0 ≡ s.slots
      restored t = rw (t.now, t.at_slot, slot t) (set-set_back s.slots t.slot 1 t.was_clear)
        where
          slot : (t : Took page s offset s') → t.slot * page_size / page_size ≡ t.slot
          slot t = omega arith
