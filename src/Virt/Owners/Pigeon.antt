-- ===== src/Virt/Owners/Pigeon.antt =====
-- Fewer page table entries than frames: a thread that has all of the first `n` frames has `n` entries.
use osdesignasst.Prelude.{
  ℕ, zero, suc, ◌+◌, ◌<◌, ◌≤◌, ◌≡◌, refl, List, [], ◌∷◌, ltb, if◌then◌else◌, length, count, ones,
  arith,
}
use osdesignasst.Virt.Pte.{pageframenumber}
use osdesignasst.Virt.Frames.{maps}

-- The number of the first `n` frames that the entries name, each as often as it is named.
named : (n : ℕ) → List ℕ → ℕ
named zero es = 0
named (suc n) es = count (maps n) es + named n es

hits : (n : ℕ) → ℕ → ℕ
hits zero e = 0
hits (suc n) e = ones (maps n) e + hits n e

hits-le : (n e : ℕ) → hits n e ≤ (if ltb (pageframenumber e) n then 1 else 0)
unfolding hits maps
hits-le zero e = ground arith
hits-le (suc n) e = ground (arith, hits-le n e)

named-nil : (n : ℕ) → named n [] ≡ 0
unfolding named
named-nil zero = refl
named-nil (suc n) = omega (arith, named-nil n)

named-cons : (n e : ℕ) (es : List ℕ) → named n (e ∷ es) ≡ hits n e + named n es
unfolding named hits
named-cons zero e es = refl
named-cons (suc n) e es = omega (arith, named-cons n e es)

named-le-length : (n : ℕ) (es : List ℕ) → named n es ≤ length es
named-le-length n [] = omega (arith, named-nil n)
named-le-length n (e ∷ es) = ground (arith, named-cons n e es, hits-le n e, named-le-length n es)

le-named : (n : ℕ) (es : List ℕ) → ((i : ℕ) → i < n → 0 < count (maps i) es) → n ≤ named n es
unfolding named
le-named zero es all = omega arith
le-named (suc n) es all =
    omega (arith, all n (omega arith), le-named n es (λ i h. all i (omega arith)))

pub le-length_of_maps :
    (n : ℕ) (es : List ℕ) → ((i : ℕ) → i < n → 0 < count (maps i) es) → n ≤ length es
le-length_of_maps n es all = omega (arith, le-named n es all, named-le-length n es)
