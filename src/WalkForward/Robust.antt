-- ===== src/WalkForward/Robust.antt =====
-- What it is for a result of backtest/walk_forward.py to be robust.
use garnet_trader.Prelude.{
  ℕ, ◌+◌, ◌*◌, ◌≤◌, ◌≡◌, ◌↔◌, refl, ap, ◌∙◌, Bool, true, false, ◌&&◌, ◌<◌, length, leb, ltb,
  if◌then◌else◌, none, some, List, [], ◌∷◌, arith,
}
use garnet_trader.Prelude.Int.{ℤ, pos, ltb_ℤ, pos_part, neg_part}
use garnet_trader.Metrics.{total}
use garnet_trader.WalkForward.{FoldResult, usable, known, count_positive, mean_of, is_positive}
use garnet_trader.WalkForward.Optimizer.{WalkForwardResult, test_expectancies, is_robust}

-- The expectancies on the tests of the folds that have at least ten signals in training and in test.
unfoldable pub tested : List FoldResult → List ℤ
tested [] = []
tested (f ∷ fs) =
    let rest = tested fs in
    if leb 10 f.train.total && leb 10 f.test.total
    then elim f.test.expectancy_pct [ none ↦ rest | some v ↦ v ∷ rest ]
    else rest

-- How many folds have ten signals in each, and how many expectancies are positive.
unfoldable pub large_folds : List FoldResult → ℕ
large_folds [] = 0
large_folds (f ∷ fs) =
    (if leb 10 f.train.total && leb 10 f.test.total then 1 else 0) + large_folds fs

unfoldable pub gains : List ℤ → ℕ
gains [] = 0
gains (v ∷ vs) = (if ltb_ℤ (pos 0) v then 1 else 0) + gains vs

-- At least two large folds, expectancies on their tests whose sum is positive, and more than half of
-- them positive.
abbrev pub IsRobust : {V : Type 0} → WalkForwardResult V → Type 0
IsRobust r =
    (2 ≤ large_folds r.folds)
    × (neg_part (total (tested r.folds)) < pos_part (total (tested r.folds)))
    × (length (tested r.folds) < 2 * gains (tested r.folds))

pub tested_lem : (fs : List FoldResult) → known (λ f. f.test.expectancy_pct) (usable fs) ≡ tested fs
unfolding known usable tested
tested_lem [] = refl
tested_lem (f ∷ fs) = ground (arith, tested_lem fs)

large_folds_lem : (fs : List FoldResult) → length (usable fs) ≡ large_folds fs
unfolding usable large_folds
large_folds_lem [] = refl
large_folds_lem (f ∷ fs) = ground (arith, large_folds_lem fs)

gains_lem : (vs : List ℤ) → count_positive vs ≡ gains vs
unfolding count_positive gains
gains_lem [] = refl
gains_lem (v ∷ vs) = ap (λ n. (if ltb_ℤ (pos 0) v then 1 else 0) + n) (gains_lem vs)

-- The test of is_robust, on the number of usable folds and their expectancies.
unfoldable passes : ℕ → List ℤ → Bool
passes n vs = if ltb n 2 then false else elim (mean_of vs) [
  | none ↦ false
  | some mean ↦ is_positive mean && ltb (length vs) (2 * count_positive vs)
]

passes_lem :
    (n : ℕ) (vs : List ℤ)
    → (passes n vs ≡ true)
      ↔ ((2 ≤ n) × (neg_part (total vs) < pos_part (total vs)) × (length vs < 2 * gains vs))
unfolding passes mean_of total
passes_lem n [] = ground (arith, gains_lem [])
passes_lem n (v ∷ vs) = ground (arith, gains_lem (v ∷ vs))

module _ {V : Type 0} where
  pub is_robust_lem : (r : WalkForwardResult V) → (is_robust r ≡ true) ↔ IsRobust r
  unfolding is_robust passes
  is_robust_lem r =
      let same : is_robust r ≡ passes (large_folds r.folds) (tested r.folds) =
        ap (λ n. passes n (test_expectancies r)) (large_folds_lem r.folds)
        ∙ ap (passes (large_folds r.folds)) (tested_lem r.folds) in
      rw same (passes_lem (large_folds r.folds) (tested r.folds))

  pub fails-IsRobust : (r : WalkForwardResult V) → is_robust r ≡ false → ¬ IsRobust r
  fails-IsRobust r weak = λ robust. ground (arith, weak, (is_robust_lem r).1 robust)
