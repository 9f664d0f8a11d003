-- ===== src/Swap/Slots.antt =====
-- The table of swap slots: its invariant, and what taking and giving back a slot does.
use osdesignasst.Prelude.{
  ℕ, ◌+◌, ◌-◌, ◌*◌, ◌/◌, ◌%◌, ◌<◌, ◌≡◌, true, some, refl, inl, inr, arith, ok, get_elem?,
  get_elem?-lt, set, length, length-set, length-replicate, replicate, count-replicate_self,
  find_index?, find_index?-some, find_index?-found, count, count-set, count-replicate, count-pos,
  Returns, Option-cases,
}
use osdesignasst.Limits.{page_size}
use osdesignasst.Swap.{Swap, max_swap_slots, is_clear, is_marked, swap_init, swap_out, swap_in}

module _ {Page : Type 0} where
  -- Each slot is clear or marked, and `g_swap_count` is the number of marked ones.
  pub record IsValid (s : Swap Page) : Type 0 where
    pub size : length s.slots ≡ max_swap_slots
    pub pages : length s.file ≡ max_swap_slots
    pub flags : count is_clear s.slots + count is_marked s.slots ≡ max_swap_slots
    pub counted : s.count ≡ count is_marked s.slots

  -- What a successful `swap_out` has done: slot `i` was clear, is marked, and holds the page.
  pub record Took (page : Page) (s : Swap Page) (offset : ℕ) (s' : Swap Page) : Type 0 where
    pub slot : ℕ
    pub at_slot : offset ≡ slot * page_size
    pub in_range : slot < max_swap_slots
    pub was_clear : get_elem? s.slots slot ≡ some 0
    pub now :
        s'
        ≡ record s { slots = set s.slots slot 1; count = s.count + 1; file = set s.file slot page }

  module _ (page : Page) (s : Swap Page) where
    pub swap_out-found :
        (i : ℕ)
        → find_index? is_clear s.slots ≡ some i
        → s.count < max_swap_slots
        → s.opens ≡ true
        → swap_out page s
          ≡ ok (
            i * page_size,
            record s { slots = set s.slots i 1; count = s.count + 1; file = set s.file i page },
          )
    unfolding swap_out
    swap_out-found i e room opens = ground arith

    pub swap_out-inv :
        {offset : ℕ} {s' : Swap Page}
        → swap_out page s ≡ ok (offset, s')
        → (i : ℕ) × (find_index? is_clear s.slots ≡ some i)
          × (s.count < max_swap_slots)
          × (s.opens ≡ true)
    unfolding swap_out
    swap_out-inv h = elim (Option-cases (find_index? is_clear s.slots)) [
      | inl e ↦ absurd (ground arith)
      | inr (i, e) ↦ (i, e, ground arith, ground arith)
    ]

    pub swap_out-eq :
        {offset : ℕ} {s' : Swap Page}
        → swap_out page s ≡ ok (offset, s')
        → (i : ℕ) × (find_index? is_clear s.slots ≡ some i)
          × (s.count < max_swap_slots)
          × (s.opens ≡ true)
          × (offset ≡ i * page_size)
          × (s'
              ≡ record s { slots = set s.slots i 1; count = s.count + 1; file = set s.file i page })
    swap_out-eq h =
        let (i, e, room, opens) = swap_out-inv h in
        let done = swap_out-found i e room opens in (i, e, room, opens, cc, cc)

    -- A successful call took a clear slot of the file.
    pub swap_out-Took :
        {offset : ℕ} {s' : Swap Page}
        → length s.slots ≡ max_swap_slots
        → swap_out page s ≡ ok (offset, s')
        → Took page s offset s'
    swap_out-Took size h =
        let (i, e, room, opens, off, now) = swap_out-eq h in
        let (c, at_i, free) = find_index?-some is_clear s.slots i e in
        record {
          slot = i;
          at_slot = off;
          in_range = omega (arith, get_elem?-lt s.slots i at_i);
          was_clear = ground (arith, at_i);
          now = now;
        }

    -- With a clear slot and a file that opens the call succeeds.
    pub swap_out_total :
        IsValid s
        → s.count < max_swap_slots
        → s.opens ≡ true
        → Returns (swap_out page s) (λ r. Took page s r.0 r.1)
    swap_out_total v room opens =
        let (i, e) = find_index?-found is_clear s.slots (omega (arith, v.flags, v.counted)) in
        let done = swap_out-found i e room opens in (_, done, swap_out-Took v.size done)

  -- Taking a slot keeps the table valid.
  pub Took-IsValid :
      {page : Page} {s s' : Swap Page} {offset : ℕ} → Took page s offset s' → IsValid s → IsValid s'
  Took-IsValid {page} {s} t v = rw (t.now) (record {
    size = omega (arith, v.size, length-set s.slots t.slot 1);
    pages = omega (arith, v.pages, length-set s.file t.slot page);
    flags = ground (
      arith,
      v.flags,
      count-set is_clear s.slots t.slot 1 t.was_clear,
      count-set is_marked s.slots t.slot 1 t.was_clear,
    );
    counted = ground (arith, v.counted, count-set is_marked s.slots t.slot 1 t.was_clear);
  })

  -- What a successful `swap_in` found and did.
  pub swap_in-eq :
      (offset : ℕ) (s : Swap Page) {page : Page} {s' : Swap Page}
      → swap_in offset s ≡ ok (page, s')
      → (offset % page_size ≡ 0)
        × (get_elem? s.slots (offset / page_size) ≡ some 1)
        × (get_elem? s.file (offset / page_size) ≡ some page)
        × (s' ≡ record s { slots = set s.slots (offset / page_size) 0; count = s.count - 1 })
  unfolding swap_in
  swap_in-eq offset s h = elim (Option-cases (get_elem? s.slots (offset / page_size))) [
    | inl e ↦ absurd (ground arith)
    | inr (c, e) ↦ elim (Option-cases (get_elem? s.file (offset / page_size))) [
      | inl d ↦ absurd (ground arith)
      | inr (p, d) ↦ (ground arith, ground arith, ground arith, ground arith)
    ]
  ]

  -- Giving a slot back keeps the table valid.
  pub swap_in-IsValid :
      (offset : ℕ) (s : Swap Page) {page : Page} {s' : Swap Page}
      → swap_in offset s ≡ ok (page, s')
      → IsValid s
      → IsValid s'
  swap_in-IsValid offset s h v =
      let (_, marked, _, now) = swap_in-eq offset s h in
      rw now (record {
        size = omega (arith, v.size, length-set s.slots (offset / page_size) 0);
        pages = v.pages;
        flags = ground (
          arith,
          v.flags,
          count-set is_clear s.slots (offset / page_size) 0 marked,
          count-set is_marked s.slots (offset / page_size) 0 marked,
        );
        counted = ground (
          arith,
          v.counted,
          count-set is_marked s.slots (offset / page_size) 0 marked,
          count-pos is_marked s.slots (offset / page_size) marked refl,
        );
      })

  abbrev fresh_swap : Page → Swap Page → Swap Page
  fresh_swap zeros s = record s {
    slots = replicate max_swap_slots 0;
    file = replicate max_swap_slots zeros;
  }

  -- A first start leaves a valid table with no slot taken.
  pub swap_init-IsValid :
      (zeros : Page) (s : Swap Page) {s' : Swap Page}
      → s.count ≡ 0
      → swap_init zeros s ≡ ok s'
      → IsValid s' × (s'.count ≡ 0)
  unfolding swap_init
  swap_init-IsValid zeros s {s'} fresh h = rw (← made) (cleared_table, fresh)
    where
      made : fresh_swap zeros s ≡ s'
      made = ground arith

      cleared_table : IsValid (fresh_swap zeros s)
      cleared_table = record {
        size = length-replicate {A = ℕ} max_swap_slots 0;
        pages = length-replicate {A = Page} max_swap_slots zeros;
        flags = omega (
          arith,
          count-replicate is_marked max_swap_slots 0 refl,
          count-replicate_self is_clear max_swap_slots 0 refl,
        );
        counted = omega (arith, count-replicate is_marked max_swap_slots 0 refl);
      }
