-- ===== src/WalkForward.antt =====
-- backtest/walk_forward.py: the folds, the grid of parameters, and the choice among the results. An
-- expectancy is an integer of any fine unit, a mean an exact quotient. The backtester is a parameter.
pub mod Optimizer
pub mod Folds
pub mod Robust
pub mod Best
mod Tests
use garnet_trader.Prelude.{
  ℕ, zero, suc, ◌+◌, ◌-◌, ◌*◌, min, Bool, true, false, not, ◌&&◌, ◌||◌, Option, none, some, List,
  [], ◌∷◌, ◌++◌, map, length, take, ltb, leb, ◌==◌, if◌then◌else◌,
}
use garnet_trader.Prelude.Dict.{Dict, insert}
use garnet_trader.Prelude.Int.{ℤ, pos, negsuc, ◌+ℤ◌, ◌*ℤ◌, ◌-ℤ◌, ltb_ℤ, leb_ℤ}
use garnet_trader.Prelude.Result.{Result, ok, raised}
use garnet_trader.Prelude.Sort.{sort}
use garnet_trader.Prelude.Text.{Text}
use garnet_trader.Metrics.{total}
use garnet_trader.PaperStore.{text_leb}
use garnet_trader.Payoff.{smallest}

-- The bounds are integers: a step may be negative.
pub record Fold : Type 0 where
  pub index : ℕ
  pub train_start : ℤ
  pub train_end : ℤ
  pub test_end : ℤ

abbrev pub fold_at : ℕ → ℕ → ℤ → ℕ → Fold
fold_at train test start index = record {
  index = index;
  train_start = start;
  train_end = start +ℤ pos train;
  test_end = start +ℤ pos (train + test);
}

-- The loop, with fuel: `none` when it is spent before the loop ends.
unfoldable pub fold_loop : ℕ → ℕ → ℕ → ℕ → ℤ → ℤ → ℕ → Option (List Fold)
fold_loop zero total train test step start index = none
fold_loop (suc fuel) total train test step start index =
    let rest = fold_loop fuel total train test step (start +ℤ step) (index + 1) in
    if leb_ℤ (start +ℤ pos (train + test)) (pos total)
    then elim rest [ none ↦ none | some folds ↦ some (fold_at train test start index ∷ folds) ]
    else some []

-- `step_days or test_days`
abbrev pub step_of : Option ℤ → ℕ → ℤ
step_of none test = pos test
step_of (some (pos zero)) test = pos test
step_of (some (pos (suc step))) test = pos (suc step)
step_of (some (negsuc n)) test = negsuc n

-- A length of training or test that is negative is refused as 0 is.
unfoldable pub build_folds : ℕ → ℕ → ℕ → Option ℤ → Result (Option (List Fold))
unfolding fold_loop
build_folds total train test step_days =
    if leb train 0 || leb test 0
    then raised
    else ok (fold_loop (suc total) total train test (step_of step_days test) (pos 0) 0)

-- The metrics of a report that the optimiser reads.
pub record SliceMetrics : Type 0 where
  pub total : ℕ
  pub expectancy_pct : Option ℤ

module _ {V : Type 0} where
  -- One value for each key, the last key varying fastest.
  unfoldable pub combinations : List (Text × List V) → List (Dict V)
  combinations [] = [] ∷ []
  combinations ((key, values) ∷ space) = with_each key values (combinations space)
    where
      with_each : Text → List V → List (Dict V) → List (Dict V)
      with_each key [] rests = []
      with_each key (v ∷ vs) rests = map (λ rest. (key, v) ∷ rest) rests ++ with_each key vs rests

  unfoldable pub parameter_grid : Dict (List V) → List (Dict V)
  unfolding combinations sort text_leb
  parameter_grid space = combinations (sort (λ x y. text_leb x.0 y.0) space)

abbrev pub min_signals_per_fold : ℕ
min_signals_per_fold = 10

-- A mean of `more` + 1 terms.
pub record Mean : Type 0 where
  pub sum : ℤ
  pub more : ℕ

unfoldable pub mean_of : List ℤ → Option Mean
unfolding total
mean_of [] = none
mean_of (v ∷ vs) = some (record { sum = total (v ∷ vs); more = length vs })

abbrev pub mean_leb : Mean → Mean → Bool
mean_leb m n = leb_ℤ (m.sum *ℤ pos (suc n.more)) (n.sum *ℤ pos (suc m.more))

abbrev pub is_positive : Mean → Bool
is_positive m = ltb_ℤ (pos 0) m.sum

pub record FoldResult : Type 0 where
  pub fold : Fold
  pub train : SliceMetrics
  pub test : SliceMetrics

-- What both of two optional expectancies give.
unfoldable pub degradation : FoldResult → Option ℤ
degradation r = elim r.train.expectancy_pct [
  | none ↦ none
  | some trained ↦ elim r.test.expectancy_pct [
    | none ↦ none
    | some tested ↦ some (trained -ℤ tested)
  ]
]

abbrev pub is_usable : FoldResult → Bool
is_usable r = leb min_signals_per_fold r.train.total && leb min_signals_per_fold r.test.total

unfoldable pub usable : List FoldResult → List FoldResult
usable [] = []
usable (r ∷ rs) = let rest = usable rs in if is_usable r then r ∷ rest else rest

-- The values that are known.
unfoldable pub known : (FoldResult → Option ℤ) → List FoldResult → List ℤ
known value [] = []
known value (r ∷ rs) =
    let rest = known value rs in elim (value r) [ none ↦ rest | some v ↦ v ∷ rest ]

unfoldable pub count_positive : List ℤ → ℕ
count_positive [] = 0
count_positive (v ∷ vs) = (if ltb_ℤ (pos 0) v then 1 else 0) + count_positive vs
