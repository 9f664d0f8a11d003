-- ===== src/Share/Prefix.antt =====
-- The shared pages while the used ones stand in front: `shalloc` gives out the next pages, and
-- `shfree` of the last ones takes them back.
use mathlib.Core.List.{append_assoc}
use osdesignasst.Prelude.{
  ℕ, zero, suc, ◌+◌, ◌-◌, ◌*◌, ◌/◌, ◌≤◌, ◌<◌, ◌≡◌, refl, sym, ap, ◌∙◌, false, some, List, [], ◌∷◌,
  ◌++◌, ok, replicate, set, drop, find_index?, length, length-append, length-replicate, ◌==◌, arith,
}
use osdesignasst.Prelude.Int.{pos}
use osdesignasst.Limits.{page_size, max_share_pages, virtual_share_start}
use osdesignasst.Share.{
  Share, pages_of, is_skipped, exceeds, scan, fill, alloc_pages, free_from, shalloc, shfree,
}

-- `k` used pages, and `m` free ones behind them
abbrev pub prefix_marks : (k m : ℕ) → List ℕ
prefix_marks k m = replicate k 1 ++ replicate m 0

abbrev pub prefix_share : (k m : ℕ) → Share
prefix_share k m = record { marks = prefix_marks k m; count = pos k }

first_free : (k m : ℕ) → find_index? is_skipped (prefix_marks k (suc m)) ≡ some k
first_free zero m = refl
first_free (suc k) m = ground (arith, first_free k m)

drop-prefix_marks : (k m : ℕ) → drop k (prefix_marks k m) ≡ replicate m 0
drop-prefix_marks zero m = refl
drop-prefix_marks (suc k) m = drop-prefix_marks k m

scan-replicate :
    (m n i cnt : ℕ) → cnt < n → n ≤ cnt + m → scan n (replicate m 0) i cnt ≡ (i + (n - cnt) - 1, n)
unfolding scan
scan-replicate zero n i cnt lt le = absurd (omega arith)
scan-replicate (suc m) n i cnt lt le = ground (arith, scan-replicate m n (i + 1) (cnt + 1))

set-append : (xs zs : List ℕ) (y v : ℕ) → set (xs ++ y ∷ zs) (length xs) v ≡ xs ++ v ∷ zs
set-append [] zs y v = refl
set-append (x ∷ xs) zs y v = ap (λ l. x ∷ l) (set-append xs zs y v)

-- A `for` loop of writes replaces the pages that it runs over, and no others.
fill-middle :
    (v : ℕ) (ys xs zs : List ℕ)
    → fill v (length xs) (length ys) (xs ++ (ys ++ zs)) ≡ xs ++ (replicate (length ys) v ++ zs)
unfolding fill
fill-middle v [] xs zs = refl
fill-middle v (y ∷ ys) xs zs =
    ap (fill v (length xs + 1) (length ys))
      (set-append xs (ys ++ zs) y v ∙ sym (append_assoc xs (v ∷ []) (ys ++ zs)))
    ∙ ap (λ k. fill v k (length ys) ((xs ++ v ∷ []) ++ (ys ++ zs)))
        (sym (length-append xs (v ∷ [])))
    ∙ fill-middle v ys (xs ++ v ∷ []) zs
    ∙ append_assoc xs (v ∷ []) (replicate (length ys) v ++ zs)

replicate-add : (n m a : ℕ) → replicate n a ++ replicate m a ≡ replicate (n + m) a
replicate-add zero m a = let e : m ≡ 0 + m = omega arith in ap (λ k. replicate k a) e
replicate-add (suc n) m a =
    let e : suc (n + m) ≡ suc n + m = omega arith in
    ap (λ l. a ∷ l) (replicate-add n m a) ∙ ap (λ k. replicate k a) e

fill-replicate :
    (v k n m a b c : ℕ)
    → fill v k n (replicate k a ++ (replicate n b ++ replicate m c))
      ≡ replicate k a ++ (replicate n v ++ replicate m c)
fill-replicate v k n m a b c =
    rw (length-replicate k a, length-replicate n b) at
      (fill-middle v (replicate n b) (replicate k a) (replicate m c))

-- Taking and giving back the pages behind the used ones.
fill-used : (k n m : ℕ) → fill 1 k n (prefix_marks k (n + m)) ≡ prefix_marks (k + n) m
fill-used k n m =
    ap (λ l. fill 1 k n (replicate k 1 ++ l)) (sym (replicate-add n m 0))
    ∙ fill-replicate 1 k n m 1 0 0
    ∙ sym (append_assoc (replicate k 1) (replicate n 1) (replicate m 0))
    ∙ ap (λ l. l ++ replicate m 0) (replicate-add k n 1)

fill-free : (k n m : ℕ) → fill 0 k n (prefix_marks (k + n) m) ≡ prefix_marks k (n + m)
fill-free k n m =
    ap (λ l. fill 0 k n (l ++ replicate m 0)) (sym (replicate-add k n 1))
    ∙ ap (fill 0 k n) (append_assoc (replicate k 1) (replicate n 1) (replicate m 0))
    ∙ fill-replicate 0 k n m 1 1 0
    ∙ ap (λ l. replicate k 1 ++ l) (replicate-add n m 0)

-- With `k` used pages in front and `n + m` free ones behind, a request of `n` pages gets the `n`
-- pages behind the used ones, which are then used.
pub shalloc-prefix :
    (size k m : ℕ)
    → 0 < pages_of size
    → k + (pages_of size + m) ≡ max_share_pages
    → shalloc size (prefix_share k (pages_of size + m))
      ≡ ok (some (virtual_share_start + k * page_size), prefix_share (k + pages_of size) m)
unfolding shalloc
shalloc-prefix size k m pos_n total = go (pages_of size) pos_n total
  where
    go :
        (n : ℕ)
        → 0 < n
        → k + (n + m) ≡ max_share_pages
        → alloc_pages n (prefix_share k (n + m))
          ≡ ok (some (virtual_share_start + k * page_size), prefix_share (k + n) m)
    go n pos_n total =
        let found : find_index? is_skipped (prefix_marks k (n + m)) ≡ some k =
          let e : n + m ≡ suc (n + m - 1) = omega arith in
          ap (λ j. find_index? is_skipped (prefix_marks k j)) e ∙ first_free k (n + m - 1) in
        let scanned : scan n (drop k (prefix_marks k (n + m))) k 0 ≡ (k + (n - 0) - 1, n) =
          rw (drop-prefix_marks k (n + m)) (scan-replicate (n + m) n k 0 pos_n (omega arith)) in
        let back : k + (n - 0) - 1 + 1 - n ≡ k = omega arith in
        let kept : exceeds n (pos k) ≡ false = ground arith in
        let some_pages : (0 == n) ≡ false = ground arith in
        rw (some_pages, kept, found, scanned, back) (ground (arith, fill-used k n m))

-- Giving back the last `n` used pages makes them free again, as long as at least as many pages are
-- free as are given back.
pub shfree-prefix :
    (size k m : ℕ)
    → k + (pages_of size + m) ≡ max_share_pages
    → pages_of size ≤ m
    → 0 < pages_of size
    → shfree (virtual_share_start + k * page_size) size (prefix_share (k + pages_of size) m)
      ≡ ok (prefix_share k (pages_of size + m))
unfolding shfree
shfree-prefix size k m total room pos_n = go (pages_of size) total room pos_n
  where
    go :
        (n : ℕ)
        → k + (n + m) ≡ max_share_pages
        → n ≤ m
        → 0 < n
        → free_from n (virtual_share_start + k * page_size) (prefix_share (k + n) m)
          ≡ ok (prefix_share k (n + m))
    go n total room pos_n =
        let start : (virtual_share_start + k * page_size - virtual_share_start) / page_size ≡ k =
          omega arith in
        rw start (ground (arith, fill-free k n m))
