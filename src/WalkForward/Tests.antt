-- ===== src/WalkForward/Tests.antt =====
-- Runs of the folds and of the optimiser.
use garnet_trader.Prelude.{
  ℕ, ◌+◌, ◌*◌, ◌≤◌, ◌<◌, ◌≡◌, ◌↔◌, refl, Option, none, some, List, [], ◌∷◌, map, length, arith,
}
use garnet_trader.Prelude.Dict.{Dict, insert}
use garnet_trader.Prelude.Int.{ℤ, pos, negsuc, ◌+ℤ◌, ◌*ℤ◌}
use garnet_trader.Prelude.Result.{Result, ok, raised}
use garnet_trader.Prelude.Text.{codes}
use garnet_trader.Metrics.{total}
use garnet_trader.WalkForward.{Fold, build_folds, parameter_grid}
use garnet_trader.WalkForward.Folds.{nth_fold, steps, build_folds_lem}
use garnet_trader.WalkForward.Optimizer.{
  WalkForwardResult, WalkForwardOptimizer, evaluate, first_robust, rank, best, window,
}
use garnet_trader.WalkForward.Best.{IsChoice, rank-IsChoice}

abbrev days : List ℕ
days =
    0 ∷ 1 ∷ 2 ∷ 3 ∷ 4 ∷ 5 ∷ 6 ∷ 7 ∷ 8 ∷ 9 ∷ 10 ∷ 11 ∷ 12 ∷ 13 ∷ 14 ∷ 15 ∷ 16 ∷ 17 ∷ 18 ∷ 19 ∷ 20
    ∷ 21 ∷ []

-- 10 days of training, 5 of test, in 22 days: two folds.
folds_of_22 : build_folds 22 10 5 none ≡ ok (some (nth_fold 10 5 0 0 ∷ nth_fold 10 5 5 1 ∷ []))
unfolding build_folds ◌+ℤ◌
folds_of_22 = refl

-- A slice that starts two days from the end.
last_two : window (negsuc 1) (pos 22) days ≡ 20 ∷ 21 ∷ []
unfolding window
last_two = refl

no_folds_back : build_folds 22 10 5 (some (negsuc 4)) ≡ ok none
unfolding build_folds ◌+ℤ◌
no_folds_back = refl

grid_of_four :
    length (parameter_grid {V = ℕ} ((codes "b", 1 ∷ 2 ∷ []) ∷ (codes "a", 3 ∷ 4 ∷ []) ∷ [])) ≡ 4
unfolding parameter_grid
grid_of_four = refl

abbrev first_value : Dict ℤ → ℤ
first_value [] = pos 0
first_value ((key, v) ∷ params) = v

-- A backtester whose every run of a strategy gives its parameter, and 22 days of history.
abbrev optimizer : WalkForwardOptimizer ℤ ℕ ℤ
optimizer = record {
  get_history = λ symbol. ok days;
  run_symbol = λ params symbol candles. ok (first_value params ∷ []);
  metrics = λ outcomes. record { total = 10; expectancy_pct = some (total outcomes) };
  warmup_days = 2;
  train_days = 10;
  test_days = 5;
  step_days = none;
}

abbrev values_of : Result (Option (WalkForwardResult ℤ)) → ℤ
values_of raised = pos 0
values_of (ok none) = pos 0
values_of (ok (some r)) = first_value r.params

-- The best of 1, 3 and 2.
best_of_three :
    values_of (best optimizer (codes "A" ∷ []) ((codes "k", pos 1 ∷ pos 3 ∷ pos 2 ∷ []) ∷ []))
    ≡ pos 3
unfolding best insert build_folds parameter_grid ◌*ℤ◌ ◌+ℤ◌
best_of_three = refl

build_folds_lem_example :
    (n : ℕ) × (build_folds 22 10 5 (some (pos 3)) ≡ ok (some (steps n 10 5 3 0 0)))
    × ((i : ℕ) → (i < n) ↔ (i * 3 + 10 + 5 ≤ 22))
build_folds_lem_example = build_folds_lem 22 10 5 3 (some (pos 3)) (omega arith) (omega arith) refl

abbrev three : List (Dict ℤ)
three = ((codes "k", pos 1) ∷ []) ∷ ((codes "k", pos 3) ∷ []) ∷ ((codes "k", negsuc 0) ∷ []) ∷ []

abbrev two_folds : List Fold
two_folds = nth_fold 10 5 0 0 ∷ nth_fold 10 5 5 1 ∷ []

abbrev histories : Dict (List ℕ)
histories = (codes "A", days) ∷ []

rank-IsChoice_example :
    IsChoice
      (map (λ params. evaluate optimizer params two_folds histories) three)
      (first_robust (rank optimizer two_folds histories three))
rank-IsChoice_example = rank-IsChoice optimizer two_folds histories three
