-- ===== src/WalkForward/Optimizer.antt =====
-- backtest/walk_forward.py: WalkForwardResult and WalkForwardOptimizer.
use garnet_trader.Prelude.{
  ℕ, zero, suc, ◌-◌, ◌*◌, Bool, true, false, ◌&&◌, Option, none, some, List, [], ◌∷◌, ◌++◌, map,
  length, take, ltb, leb, if◌then◌else◌,
}
use garnet_trader.Prelude.Dict.{Dict, insert}
use garnet_trader.Prelude.Int.{ℤ, pos, negsuc}
use garnet_trader.Prelude.Result.{Result, ok, raised}
use garnet_trader.Prelude.Sort.{sort}
use garnet_trader.Prelude.Text.{Text}
use garnet_trader.Payoff.{smallest}
use garnet_trader.WalkForward.{
  Fold, build_folds, parameter_grid, SliceMetrics, Mean, mean_of, mean_leb, is_positive, FoldResult,
  degradation, usable, known, count_positive,
}

pub record WalkForwardResult (V : Type 0) : Type 0 where
  pub params : Dict V
  pub folds : List FoldResult

unfoldable pub between : {X : Type 0} → ℕ → ℕ → List X → List X
between zero end candles = take end candles
between (suc start) zero candles = []
between (suc start) (suc end) [] = []
between (suc start) (suc end) (x ∷ candles) = between start end candles

-- A negative index of a slice counts from the end.
abbrev pub place_in : ℕ → ℤ → ℕ
place_in size (pos n) = n
place_in size (negsuc n) = size - suc n

-- `candles[start:end]`
unfoldable pub window : {X : Type 0} → ℤ → ℤ → List X → List X
unfolding between
window start end candles =
    between (place_in (length candles) start) (place_in (length candles) end) candles

-- The histories of the backtester, adjusted, its runs over one symbol with the strategy of some
-- parameters, and the metrics of the outcomes. A strategy of an unknown name, which raises before
-- any run, is left out.
pub record WalkForwardOptimizer (V X O : Type 0) : Type 0 where
  pub get_history : Text → Result (List X)
  pub run_symbol : Dict V → Text → List X → Result (List O)
  pub metrics : List O → SliceMetrics
  pub warmup_days : ℕ
  pub train_days : ℕ
  pub test_days : ℕ
  pub step_days : Option ℤ

-- The order of the results: the best mean first, a missing one last.
unfoldable pub mean_at_least : Option Mean → Option Mean → Bool
mean_at_least none none = true
mean_at_least none (some n) = false
mean_at_least (some m) none = true
mean_at_least (some m) (some n) = mean_leb n m

module _ {V : Type 0} where
  abbrev pub test_expectancies : WalkForwardResult V → List ℤ
  test_expectancies r = known (λ f. f.test.expectancy_pct) (usable r.folds)

  abbrev pub mean_test_expectancy : WalkForwardResult V → Option Mean
  mean_test_expectancy r = mean_of (test_expectancies r)

  pub mean_degradation : WalkForwardResult V → Option Mean
  mean_degradation r = mean_of (known degradation (usable r.folds))

  -- At least two usable folds, a positive mean, and most of the folds positive.
  unfoldable pub is_robust : WalkForwardResult V → Bool
  unfolding usable known mean_of count_positive
  is_robust r = if ltb (length (usable r.folds)) 2 then false else elim (mean_test_expectancy r) [
    | none ↦ false
    | some mean ↦
        is_positive mean
        && ltb (length (test_expectancies r)) (2 * count_positive (test_expectancies r))
  ]

  abbrev pub ranks_before : WalkForwardResult V → WalkForwardResult V → Bool
  ranks_before a b = mean_at_least (mean_test_expectancy a) (mean_test_expectancy b)

  unfoldable pub first_robust : List (WalkForwardResult V) → Option (WalkForwardResult V)
  unfolding is_robust
  first_robust [] = none
  first_robust (r ∷ rs) = let rest = first_robust rs in if is_robust r then some r else rest

module _ {V X O : Type 0} (w : WalkForwardOptimizer V X O) where
  -- Symbols whose history fails or is empty are left out.
  unfoldable pub load_histories : List Text → Dict (List X) → Dict (List X)
  load_histories [] histories = histories
  load_histories (symbol ∷ symbols) histories = elim (w.get_history symbol) [
    | raised ↦ load_histories symbols histories
    | ok [] ↦ load_histories symbols histories
    | ok (x ∷ candles) ↦ load_histories symbols (insert symbol (x ∷ candles) histories)
  ]

  unfoldable pub slice_outcomes : Dict V → Dict (List X) → ℤ → ℤ → List O
  unfolding window
  slice_outcomes params [] start end = []
  slice_outcomes params ((symbol, candles) ∷ histories) start end =
      let rest = slice_outcomes params histories start end in
      let part = window start end candles in
      if leb (length part) w.warmup_days
      then rest
      else elim (w.run_symbol params symbol part) [ raised ↦ rest | ok outcomes ↦ outcomes ++ rest ]

  unfoldable pub slice_metrics : Dict V → Dict (List X) → ℤ → ℤ → SliceMetrics
  unfolding slice_outcomes
  slice_metrics params histories start end = w.metrics (slice_outcomes params histories start end)

  unfoldable pub evaluate_fold : Dict V → Dict (List X) → Fold → FoldResult
  unfolding slice_metrics
  evaluate_fold params histories fold = record {
    fold = fold;
    train = slice_metrics params histories fold.train_start fold.train_end;
    test = slice_metrics params histories fold.train_end fold.test_end;
  }

  unfoldable pub evaluate : Dict V → List Fold → Dict (List X) → WalkForwardResult V
  unfolding evaluate_fold
  evaluate params folds histories = record {
    params = params;
    folds = map (evaluate_fold params histories) folds;
  }

  unfoldable pub rank : List Fold → Dict (List X) → List (Dict V) → List (WalkForwardResult V)
  unfolding evaluate mean_at_least sort
  rank folds histories combos =
      sort ranks_before (map (λ params. evaluate params folds histories) combos)

  -- No history or no fold gives no result. A step that is negative, with which the loop of
  -- build_folds does not end, gives `raised` here.
  unfoldable pub run : List Text → Dict (List V) → Result (List (WalkForwardResult V))
  unfolding load_histories rank smallest
  run symbols space = elim (load_histories symbols []) [
    | [] ↦ ok []
    | history ∷ others ↦
        let shortest = smallest (map (λ h. length h.1) (history ∷ others)) in
        elim (build_folds shortest w.train_days w.test_days w.step_days) [
          | raised ↦ raised
          | ok none ↦ raised
          | ok (some folds) ↦ elim folds [
            | [] ↦ ok []
            | fold ∷ more ↦ ok (rank (fold ∷ more) (history ∷ others) (parameter_grid space))
          ]
        ]
  ]

  unfoldable pub best : List Text → Dict (List V) → Result (Option (WalkForwardResult V))
  unfolding run first_robust
  best symbols space = elim (run symbols space) [
    | raised ↦ raised
    | ok results ↦ ok (first_robust results)
  ]
