-- ===== src/Reporting.antt =====
-- storage/reporting.py: the table of results beside the table of signals, and what is reported of
-- both. Returns and prices are whole numbers of any unit, times are seconds, days are day numbers.
-- An average is an exact quotient. Where SQL leaves the order of rows open, one of the possible
-- orders is taken.
pub mod Totals
mod Tests
use garnet_trader.Prelude.{
  ℕ, zero, suc, ◌+◌, ◌-◌, ◌*◌, Bool, true, false, not, ◌&&◌, ◌||◌, Option, none, some, List, [],
  ◌∷◌, ◌++◌, map, take, length, if◌then◌else◌, ltb, leb, ◌==◌,
}
use garnet_trader.Prelude.Int.{ℤ, pos, ◌+ℤ◌, ◌-ℤ◌, ◌*ℤ◌, max_ℤ, min_ℤ}
use garnet_trader.Prelude.Ratio.{Ratio, ratio, ratio_ℕ}
use garnet_trader.Prelude.Text.{Text, codes, text_eq}
use garnet_trader.Prelude.Dict.{Dict, lookup, insert}
use garnet_trader.Prelude.Sort.{sort}

pub record SignalRow : Type 0 where
  pub signal_id : Text
  pub created_at : ℕ
  pub strategy_name : Text
  pub underlying : Text

pub record OutcomeRow : Type 0 where
  pub checked_at : ℕ
  pub price_at_check : Option ℤ
  pub pnl_pct : Option ℤ
  pub hit_target : Bool
  pub hit_stop : Bool
  pub outcome : Text
  pub note : Option Text

-- The rows of `signals` and those of `signal_outcomes`, whose key is the signal.
pub record Tables : Type 0 where
  pub signals : List SignalRow
  pub outcomes : Dict OutcomeRow

-- INSERT OR REPLACE.
pub record_outcome : Text → OutcomeRow → Tables → Tables
record_outcome signal_id row t = record {
  signals = t.signals;
  outcomes = insert signal_id row t.outcomes;
}

abbrev pub Joined : Type 0
Joined = SignalRow × Option OutcomeRow

unfoldable pub in_window : ℕ → Option ℕ → SignalRow → Bool
in_window now none s = true
in_window now (some days) s = leb now (s.created_at + days * 86400)

-- `signals LEFT JOIN signal_outcomes` over a window.
unfoldable pub left_join : ℕ → Option ℕ → Dict OutcomeRow → List SignalRow → List Joined
unfolding in_window lookup
left_join now days outcomes [] = []
left_join now days outcomes (s ∷ ss) =
    let rest = left_join now days outcomes ss in
    if in_window now days s then (s, lookup s.signal_id outcomes) ∷ rest else rest

abbrev pub has_outcome : Text → Joined → Bool
has_outcome outcome (s, none) = false
has_outcome outcome (s, some o) = text_eq o.outcome outcome

abbrev pub any_row : Joined → Bool
any_row row = true

unfoldable pub count_rows : (Joined → Bool) → List Joined → ℕ
count_rows test [] = 0
count_rows test (row ∷ rows) = (if test row then 1 else 0) + count_rows test rows

abbrev pub pnl_of : Joined → Option ℤ
pnl_of (s, none) = none
pnl_of (s, some o) = o.pnl_pct

unfoldable pub known_returns : List Joined → List ℤ
known_returns [] = []
known_returns (row ∷ rows) = elim (pnl_of row) [
  | none ↦ known_returns rows
  | some pnl ↦ pnl ∷ known_returns rows
]

unfoldable pub sum_of : List ℤ → ℤ
sum_of [] = pos 0
sum_of (x ∷ xs) = x +ℤ sum_of xs

-- SQL's AVG, MAX and MIN are NULL of no values.
unfoldable pub average_return : List ℤ → Option Ratio
unfolding sum_of
average_return [] = none
average_return (x ∷ xs) = some (ratio (sum_of (x ∷ xs)) (length (x ∷ xs)))

unfoldable pub fold_with : (ℤ → ℤ → ℤ) → List ℤ → Option ℤ
fold_with pick [] = none
fold_with pick (x ∷ xs) = elim (fold_with pick xs) [ none ↦ some x | some y ↦ some (pick x y) ]

pub record StrategyStats : Type 0 where
  pub strategy : Text
  pub total : ℕ
  pub wins : ℕ
  pub losses : ℕ
  pub pending : ℤ
  pub avg_pnl_pct : Option Ratio
  pub best_pnl_pct : Option ℤ
  pub worst_pnl_pct : Option ℤ

pub resolved : StrategyStats → ℕ
resolved s = s.wins + s.losses

pub win_rate : StrategyStats → Option Ratio
win_rate s = if s.wins + s.losses == 0 then none else some (ratio_ℕ s.wins (s.wins + s.losses))

unfoldable pub stats_of : Text × List Joined → StrategyStats
unfolding count_rows known_returns average_return fold_with
stats_of (name, rows) =
    let wins = count_rows (has_outcome (codes "win")) rows in
    let losses = count_rows (has_outcome (codes "loss")) rows in
    record {
      strategy = name;
      total = count_rows any_row rows;
      wins = wins;
      losses = losses;
      pending = pos (count_rows any_row rows) -ℤ pos wins -ℤ pos losses;
      avg_pnl_pct = average_return (known_returns rows);
      best_pnl_pct = fold_with max_ℤ (known_returns rows);
      worst_pnl_pct = fold_with min_ℤ (known_returns rows);
    }

-- GROUP BY.
unfoldable pub add_row : Text → Joined → List (Text × List Joined) → List (Text × List Joined)
add_row key row [] = (key, row ∷ []) ∷ []
add_row key row ((k, rows) ∷ groups) =
    let rest = add_row key row groups in
    if text_eq k key then (k, row ∷ rows) ∷ groups else (k, rows) ∷ rest

unfoldable pub group_rows : (SignalRow → Text) → List Joined → List (Text × List Joined)
unfolding add_row
group_rows key [] = []
group_rows key (row ∷ rows) = add_row (key row.0) row (group_rows key rows)

abbrev pub more_signals : StrategyStats → StrategyStats → Bool
more_signals s t = leb t.total s.total

unfoldable pub stats_by : (SignalRow → Text) → ℕ → Option ℕ → Tables → List StrategyStats
unfolding sort stats_of group_rows left_join
stats_by key now days t =
    sort more_signals (map stats_of (group_rows key (left_join now days t.outcomes t.signals)))

pub by_strategy : ℕ → Option ℕ → Tables → List StrategyStats
unfolding stats_by
by_strategy now days t = stats_by (λ s. s.strategy_name) now days t

-- The report has the name, the counts and the average of these.
pub by_underlying : ℕ → Option ℕ → Tables → List StrategyStats
unfolding stats_by
by_underlying now days t = stats_by (λ s. s.underlying) now days t

pub record Summary : Type 0 where
  pub total : ℕ
  pub wins : ℕ
  pub losses : ℕ
  pub pending : ℤ
  pub resolved : ℕ
  pub win_rate : Option Ratio
  pub avg_pnl_pct : Option Ratio
  pub window_days : Option ℕ

unfoldable pub summary : ℕ → Option ℕ → Tables → Summary
unfolding left_join count_rows average_return known_returns
summary now days t =
    let rows = left_join now days t.outcomes t.signals in
    let wins = count_rows (has_outcome (codes "win")) rows in
    let losses = count_rows (has_outcome (codes "loss")) rows in
    record {
      total = count_rows any_row rows;
      wins = wins;
      losses = losses;
      pending = pos (count_rows any_row rows) -ℤ pos (wins + losses);
      resolved = wins + losses;
      win_rate = if wins + losses == 0 then none else some (ratio_ℕ wins (wins + losses));
      avg_pnl_pct = average_return (known_returns rows);
      window_days = days;
    }

-- Those without a row of results, the newest first.
unfoldable pub without_outcome : Dict OutcomeRow → List SignalRow → List SignalRow
unfolding lookup
without_outcome outcomes [] = []
without_outcome outcomes (s ∷ ss) = elim (lookup s.signal_id outcomes) [
  | none ↦ s ∷ without_outcome outcomes ss
  | some o ↦ without_outcome outcomes ss
]

pub pending_signals : Tables → List SignalRow
unfolding without_outcome sort
pending_signals t =
    sort (λ a b. leb b.created_at a.created_at) (without_outcome t.outcomes t.signals)

abbrev counts_as_resolved : OutcomeRow → Bool
counts_as_resolved o =
    text_eq o.outcome (codes "win")
    || text_eq o.outcome (codes "loss")
    || text_eq o.outcome (codes "expired")

-- Python's `if strategy`: an empty name asks for no strategy.
abbrev of_strategy : Option Text → SignalRow → Bool
of_strategy none s = true
of_strategy (some []) s = true
of_strategy (some (c ∷ cs)) s = text_eq s.strategy_name (c ∷ cs)

abbrev return_of : Option Text → Joined → Option ℤ
return_of strategy (s, none) = none
return_of strategy (s, some o) =
    if counts_as_resolved o && of_strategy strategy s then o.pnl_pct else none

unfoldable pub returns_in : Option Text → List Joined → List ℤ
returns_in strategy [] = []
returns_in strategy (row ∷ rows) = elim (return_of strategy row) [
  | none ↦ returns_in strategy rows
  | some pnl ↦ pnl ∷ returns_in strategy rows
]

abbrev older : Joined → Joined → Bool
older a b = leb a.0.created_at b.0.created_at

pub resolved_returns : ℕ → Option ℕ → Option Text → Tables → List ℤ
unfolding returns_in left_join sort
resolved_returns now days strategy t =
    returns_in strategy (sort older (left_join now days t.outcomes t.signals))

-- The rows of `recent`: the newest first, those without a result as "pending".
abbrev shown : Joined → SignalRow × Text
shown (s, none) = (s, codes "pending")
shown (s, some o) = (s, if text_eq o.outcome [] then codes "pending" else o.outcome)

pub recent : ℕ → ℕ → Option ℕ → Tables → List (SignalRow × Text)
unfolding left_join sort
recent now limit days t =
    map shown (take limit (sort (λ a b. older b a) (left_join now days t.outcomes t.signals)))

-- What evaluate_signal reads of a payload. An expiry that is no date counts as missing.
pub record SignalPayload : Type 0 where
  pub suggested_price : Option ℕ
  pub take_profit : Option ℕ
  pub stop_loss : Option ℕ
  pub expiry : Option ℕ

-- The result, the return, and whether the target or the stop was reached.
pub record Evaluation : Type 0 where
  pub outcome : Text
  pub pnl_pct : Ratio
  pub hit_target : Bool
  pub hit_stop : Bool

abbrev evaluation : Text → Ratio → Bool → Bool → Evaluation
evaluation outcome pnl_pct hit_target hit_stop = record {
  outcome = outcome;
  pnl_pct = pnl_pct;
  hit_target = hit_target;
  hit_stop = hit_stop;
}

-- A level that is missing or 0 is never reached.
abbrev reaches : Option ℕ → (ℕ → Bool) → Bool
reaches none test = false
reaches (some zero) test = false
reaches (some (suc n)) test = test (suc n)

abbrev has_expired : ℕ → Option ℕ → Bool
has_expired today none = false
has_expired today (some day) = ltb day today

unfoldable pub judge : ℕ → ℕ → ℕ → SignalPayload → Evaluation
judge today current_price entry p =
    let pnl_pct = ratio ((pos current_price -ℤ pos entry) *ℤ pos 100) entry in
    if reaches p.take_profit (λ target. leb target current_price)
    then evaluation (codes "win") pnl_pct true false
    else (if reaches p.stop_loss (λ stop. leb current_price stop)
        then evaluation (codes "loss") pnl_pct false true
        else (if has_expired today p.expiry
            then evaluation (if ltb entry current_price then codes "win" else codes "loss") pnl_pct
                false false
            else evaluation (codes "pending") pnl_pct false false))

unfoldable pub evaluate_signal : ℕ → SignalPayload → ℕ → Evaluation
unfolding judge
evaluate_signal today p current_price = elim p.suggested_price [
  | none ↦ evaluation (codes "unknown") (ratio_ℕ 0 1) false false
  | some zero ↦ evaluation (codes "unknown") (ratio_ℕ 0 1) false false
  | some (suc entry) ↦ judge today current_price (suc entry) p
]
