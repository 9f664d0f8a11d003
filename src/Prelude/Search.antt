-- ===== src/Prelude/Search.antt =====
-- The loop `for (i = 0; i < N; i++) if (p(t[i])) break;` of every table of the program, and the
-- number of entries that pass a test.
use Prim.Native.Nat.{ℕ, zero, suc, ◌+◌, ◌<◌, ◌≤◌}
use mathlib.Core.Path.{◌≡◌, refl}
use mathlib.Core.Bool.{Bool, true, false}
use mathlib.Core.List.{List, [], ◌∷◌, ◌++◌}
use mathlib.Core.Option.{Option, none, some}
use mathlib.Core.Logic.{inl, inr}
use native.Mathlib.Omega.{arith}
use osdesignasst.Prelude.Tests.{if◌then◌else◌, Bool-cases}
use osdesignasst.Prelude.Lists.{length, get_elem?, set, replicate}

abbrev pub later : Option ℕ → Option ℕ
later none = none
later (some i) = some (suc i)

module _ {ℓ} {A : Type ℓ} (p : A → Bool) where
  -- The first index whose entry passes.
  abbrev pub find_index? : List A → Option ℕ
  find_index? [] = none
  find_index? (x ∷ xs) = if p x then some 0 else later (find_index? xs)

  abbrev pub ones : A → ℕ
  ones x = if p x then 1 else 0

  abbrev pub count : List A → ℕ
  count [] = 0
  count (x ∷ xs) = ones x + count xs

  pub count-le-length : (xs : List A) → count xs ≤ length xs
  count-le-length [] = omega arith
  count-le-length (x ∷ xs) = ground (arith, count-le-length xs)

  pub count-append : (xs ys : List A) → count (xs ++ ys) ≡ count xs + count ys
  count-append [] ys = omega arith
  count-append (x ∷ xs) ys = omega (arith, count-append xs ys)

  pub count-replicate : (n : ℕ) (x : A) → p x ≡ false → count (replicate n x) ≡ 0
  count-replicate zero x h = refl
  count-replicate (suc n) x h = ground (arith, count-replicate n x h)

  pub count-replicate_self : (n : ℕ) (x : A) → p x ≡ true → count (replicate n x) ≡ n
  count-replicate_self zero x h = refl
  count-replicate_self (suc n) x h = ground (arith, count-replicate_self n x h)

  -- What a write does to the count.
  pub count-set :
      (xs : List A) (i : ℕ) {a : A} (v : A)
      → get_elem? xs i ≡ some a
      → count (set xs i v) + ones a ≡ count xs + ones v
  count-set [] i v h = cc
  count-set (x ∷ xs) zero {a} v h = ground arith
  count-set (x ∷ xs) (suc i) {a} v h = omega (arith, count-set xs i v h)

  pub find_index?-some :
      (xs : List A) (i : ℕ)
      → find_index? xs ≡ some i
      → (a : A) × (get_elem? xs i ≡ some a) × (p a ≡ true)
  find_index?-some [] i h = cc
  find_index?-some (x ∷ xs) zero h = (x, refl, ground arith)
  find_index?-some (x ∷ xs) (suc i) h = find_index?-some xs i (ground arith)

  -- Nothing before the first index passes.
  pub find_index?-first :
      (xs : List A) (i j : ℕ) {b : A}
      → find_index? xs ≡ some i
      → j < i
      → get_elem? xs j ≡ some b
      → p b ≡ false
  find_index?-first [] i j h lt e = cc
  find_index?-first (x ∷ xs) zero j h lt e = absurd (omega arith)
  find_index?-first (x ∷ xs) (suc i) zero h lt e = ground arith
  find_index?-first (x ∷ xs) (suc i) (suc j) h lt e =
      find_index?-first xs i j (ground arith) (omega arith) e

  -- The search fails exactly if no entry passes.
  pub find_index?-none : (xs : List A) → find_index? xs ≡ none → count xs ≡ 0
  find_index?-none [] h = refl
  find_index?-none (x ∷ xs) h = ground (arith, find_index?-none xs)

  pub find_index?-found : (xs : List A) → 0 < count xs → (i : ℕ) × (find_index? xs ≡ some i)
  find_index?-found [] h = absurd (omega arith)
  find_index?-found (x ∷ xs) h = elim (Bool-cases (p x)) [
    | inl hit ↦ (0, ground arith)
    | inr miss ↦ let (i, e) = find_index?-found xs (ground arith) in (suc i, ground arith)
  ]

  -- An entry that passes is counted.
  pub count-pos :
      (xs : List A) (i : ℕ) {a : A} → get_elem? xs i ≡ some a → p a ≡ true → 0 < count xs
  count-pos [] i h t = cc
  count-pos (x ∷ xs) zero h t = ground arith
  count-pos (x ∷ xs) (suc i) h t = omega (arith, count-pos xs i h t)

  pub count-pos_of_find : (xs : List A) (i : ℕ) → find_index? xs ≡ some i → 0 < count xs
  count-pos_of_find xs i h = let (a, at_i, t) = find_index?-some xs i h in count-pos xs i at_i t

  -- An entry of a list whose count is nothing, or everything.
  pub count-zero :
      (xs : List A) (i : ℕ) {a : A} → get_elem? xs i ≡ some a → count xs ≡ 0 → p a ≡ false
  count-zero xs i {a} h none_passes = elim (Bool-cases (p a)) [
    | inl t ↦ absurd (omega (arith, count-pos xs i h t))
    | inr f ↦ f
  ]

  pub count-all :
      (xs : List A) (i : ℕ) {a : A} → get_elem? xs i ≡ some a → length xs ≤ count xs → p a ≡ true
  count-all [] i h full = cc
  count-all (x ∷ xs) zero h full = ground (arith, count-le-length xs)
  count-all (x ∷ xs) (suc i) h full = count-all xs i h (ground (arith, count-le-length xs))
