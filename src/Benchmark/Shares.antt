-- ===== src/Benchmark/Shares.antt =====
-- Benchmark/*.c: the loop `for (i = n; i < SIZE; i += thread_num)`, which gives worker `n` its share of
-- the indices, and the loop of `verify` over all of them.
use osdesignasst.Prelude.{
  ℕ, zero, suc, ◌+◌, ◌%◌, ◌^◌, ◌≤◌, ◌<◌, ◌≡◌, refl, sym, ap, ◌∙◌, List, [], ◌∷◌, map, ltb,
  if◌then◌else◌, length, arith,
}
use osdesignasst.Benchmark.Worker.{int_add}
use osdesignasst.Benchmark.Lock.{total, sum_of}

-- The sum over the indices from `i` on, `n` of them.
abbrev pub sum_up : (w : ℕ → ℕ) → (n i : ℕ) → ℕ
sum_up w zero i = 0
sum_up w (suc n) i = w i + sum_up w n (i + 1)

module _ (thread_num size : ℕ) where
  -- The indices from `i` on, with so many rounds at most.
  unfoldable pub strided : (rounds i : ℕ) → List ℕ
  strided zero i = []
  strided (suc n) i = let rest = strided n (i + thread_num) in if ltb i size then i ∷ rest else []

  -- `thread_num` is at least 1, so that `size` rounds are enough: more of them give the same.
  pub strided_rounds :
      (n k i : ℕ) → 0 < thread_num → size ≤ i + n → size ≤ i + k → strided n i ≡ strided k i
  unfolding strided
  strided_rounds zero zero i pos le le' = refl
  strided_rounds zero (suc k) i pos le le' = ground arith
  strided_rounds (suc n) zero i pos le le' = ground arith
  strided_rounds (suc n) (suc k) i pos le le' =
      ap (λ rest. if ltb i size then i ∷ rest else [])
        (strided_rounds n k (i + thread_num) pos (omega arith) (omega arith))

  abbrev pub share : ℕ → List ℕ
  share n = strided size n

  -- The shares of `k` workers from worker `n` on.
  unfoldable pub shares_from : (k n : ℕ) → List (List ℕ)
  unfolding strided
  shares_from zero n = []
  shares_from (suc k) n = share n ∷ shares_from k (n + 1)

  -- Those of all workers.
  abbrev pub shares : List (List ℕ)
  shares = shares_from thread_num 0

  pub length-shares_from : (k n : ℕ) → length (shares_from k n) ≡ k
  unfolding shares_from
  length-shares_from zero n = refl
  length-shares_from (suc k) n = ap suc (length-shares_from k (n + 1))

  module _ (w : ℕ → ℕ) where
    abbrev weigh : List ℕ → ℕ
    weigh = total w

    share-first :
        (i : ℕ) → 0 < thread_num → i < size → weigh (share i) ≡ w i + weigh (share (i + thread_num))
    unfolding strided
    share-first i pos lt =
        ap weigh (strided_rounds size (suc size) i pos (omega arith) (omega arith)) ∙ ground arith

    share-past : (i : ℕ) → size ≤ i → weigh (share i) ≡ 0
    unfolding strided
    share-past i le = past size
      where
        past : (n : ℕ) → weigh (strided n i) ≡ 0
        past zero = refl
        past (suc n) = ground arith

    total-shift :
        (k n : ℕ)
        → total weigh (shares_from k (n + 1)) + weigh (share n)
          ≡ total weigh (shares_from k n) + weigh (share (n + k))
    unfolding shares_from
    total-shift zero n =
        let same : weigh (share n) ≡ weigh (share (n + 0)) =
          ap (λ (j : ℕ). weigh (share j)) (omega arith) in
        omega (arith, same)
    total-shift (suc k) n =
        let last : weigh (share (n + 1 + k)) ≡ weigh (share (n + suc k)) =
          ap (λ (j : ℕ). weigh (share j)) (omega arith) in
        omega (arith, total-shift k (n + 1), last)

    total-past : (k n : ℕ) → size ≤ n → total weigh (shares_from k n) ≡ 0
    unfolding shares_from
    total-past zero n le = refl
    total-past (suc k) n le = omega (arith, share-past n le, total-past k (n + 1) (omega arith))

    -- The shares of `thread_num` workers from `i` on are the `m` indices that are left, each once.
    partition_from :
        (m i : ℕ)
        → 0 < thread_num
        → i + m ≡ size
        → total weigh (shares_from thread_num i) ≡ sum_up w m i
    partition_from zero i pos e = total-past thread_num i (omega arith)
    partition_from (suc m) i pos e = omega (
      arith,
      total-shift thread_num i,
      share-first i pos (omega arith),
      partition_from m (i + 1) pos (omega arith),
    )

    -- What the workers weigh together is what all indices weigh.
    pub partition_lem : 0 < thread_num → total weigh shares ≡ sum_up w size 0
    partition_lem pos = partition_from size 0 pos (omega arith)

-- `verify`: one loop over all indices, with the sum as it grows.
unfoldable pub verify_from : (term : ℕ → ℕ) → (rounds i sum : ℕ) → ℕ
verify_from term zero i sum = sum
verify_from term (suc n) i sum = verify_from term n (i + 1) (int_add sum (term i))

pub verify_from-eq :
    (term : ℕ → ℕ) (n i sum : ℕ)
    → sum < 2 ^ 32
    → verify_from term n i sum ≡ (sum + sum_up term n i) % 2 ^ 32
unfolding verify_from
verify_from-eq term zero i sum small = omega arith
verify_from-eq term (suc n) i sum small =
    verify_from-eq term n (i + 1) (int_add sum (term i)) (omega arith) ∙ omega arith

-- The sums of what a function makes of the shares.
pub total-map : (f : ℕ → ℕ) (xs : List ℕ) → sum_of (map f xs) ≡ total f xs
total-map f [] = refl
total-map f (x ∷ xs) = ap (λ (n : ℕ). f x + n) (total-map f xs)

pub total-maps :
    (f : ℕ → ℕ) (xss : List (List ℕ)) → total sum_of (map (map f) xss) ≡ total (total f) xss
total-maps f [] = refl
total-maps f (xs ∷ xss) = omega (arith, total-map f xs, total-maps f xss)

-- All the numbers of the workers add up to what the loop of `verify` computes.
pub shares-eq-verify_from :
    (term : ℕ → ℕ) (thread_num size : ℕ)
    → 0 < thread_num
    → total sum_of (map (map term) (shares thread_num size)) % 2 ^ 32 ≡ verify_from term size 0 0
shares-eq-verify_from term thread_num size pos =
    let all = total-maps term (shares thread_num size) ∙ partition_lem thread_num size term pos in
    ap (λ (n : ℕ). n % 2 ^ 32) all
    ∙ sym (verify_from-eq term size 0 0 (omega arith) ∙ ap (λ (n : ℕ). n % 2 ^ 32) (omega arith))

-- Each worker has a share.
pub length-works :
    (f : ℕ → ℕ) (thread_num size : ℕ) → length (map (map f) (shares thread_num size)) ≡ thread_num
length-works f thread_num size =
    length-map (shares thread_num size) ∙ length-shares_from thread_num size thread_num 0
  where
    length-map : (xss : List (List ℕ)) → length (map (map f) xss) ≡ length xss
    length-map [] = refl
    length-map (xs ∷ xss) = ap suc (length-map xss)
