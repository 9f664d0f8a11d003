-- ===== src/Share/Tests.antt =====
-- Runs of the shared pages, and the theorems at them.
use osdesignasst.Prelude.{◌≡◌, refl, ok, some, none, [], ◌∷◌, arith}
use osdesignasst.Prelude.Int.{pos}
use osdesignasst.Share.{Share, shinit, shalloc}
use osdesignasst.Share.Prefix.{prefix_share}
use osdesignasst.Share.Defects.{shalloc-overlap}

shinit_run : (s : Share) → shinit s ≡ prefix_share 0 4
unfolding shinit
shinit_run s = refl

-- `shalloc(8000)` twice gives pages 0 and 2.
shalloc_run :
    (shalloc 8000 (prefix_share 0 4) ≡ ok (some 0x607FC000, prefix_share 2 2))
    × (shalloc 8000 (prefix_share 2 2) ≡ ok (some 0x607FE000, prefix_share 4 0))
    × (shalloc 1 (prefix_share 4 0) ≡ ok (none, prefix_share 4 0))
unfolding shalloc
shalloc_run = (refl, refl, refl)

shalloc-overlap_example :
    shalloc 8000 (record { marks = 0 ∷ 1 ∷ 0 ∷ 0 ∷ []; count = pos 1 })
    ≡ ok (some 0x607FD000, record { marks = 0 ∷ 1 ∷ 1 ∷ 0 ∷ []; count = pos 3 })
shalloc-overlap_example = shalloc-overlap 8000 0 1 refl (omega arith)
