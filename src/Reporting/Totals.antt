-- ===== src/Reporting/Totals.antt =====
-- The totals of the reports of storage/reporting.py.
use garnet_trader.Prelude.{
  ℕ, ◌≡◌, refl, ◌∙◌, inl, inr, ◌+◌, Bool, Option, List, [], ◌∷◌, map, sum, if◌then◌else◌,
  Bool-cases, arith,
}
use garnet_trader.Prelude.Sort.{place, sort}
use garnet_trader.Prelude.Text.{Text, text_eq, codes}
use garnet_trader.Reporting.{
  SignalRow, Tables, Joined, StrategyStats, count_rows, has_outcome, any_row, stats_of, add_row,
  group_rows, left_join, more_signals, stats_by, summary,
}

sum_place {ℓ} :
    {A : Type ℓ} (g : A → ℕ) (before : A → A → Bool) (x : A) (ys : List A)
    → sum (map g (place before x ys)) ≡ g x + sum (map g ys)
unfolding place
sum_place g before x [] = refl
sum_place g before x (y ∷ ys) = elim (Bool-cases (before x y)) [
  | inl first ↦ rw first refl
  | inr later ↦ rw later (omega (arith, sum_place g before x ys))
]

sum_sort {ℓ} :
    {A : Type ℓ} (g : A → ℕ) (before : A → A → Bool) (xs : List A)
    → sum (map g (sort before xs)) ≡ sum (map g xs)
unfolding sort
sum_sort g before [] = refl
sum_sort g before (x ∷ xs) =
    omega (arith, sum_place g before x (sort before xs), sum_sort g before xs)

-- The count over all groups.
abbrev grouped : (Joined → Bool) → List (Text × List Joined) → ℕ
grouped test [] = 0
grouped test (group ∷ groups) = count_rows test group.1 + grouped test groups

grouped-add_row :
    (test : Joined → Bool) (key : Text) (row : Joined) (groups : List (Text × List Joined))
    → grouped test (add_row key row groups) ≡ (if test row then 1 else 0) + grouped test groups
unfolding add_row count_rows
grouped-add_row test key row [] = omega arith
grouped-add_row test key row ((k, rows) ∷ groups) = elim (Bool-cases (text_eq k key)) [
  | inl same ↦ rw same (omega arith)
  | inr other ↦ rw other (omega (arith, grouped-add_row test key row groups))
]

grouped-group_rows :
    (test : Joined → Bool) (key : SignalRow → Text) (rows : List Joined)
    → grouped test (group_rows key rows) ≡ count_rows test rows
unfolding group_rows count_rows
grouped-group_rows test key [] = refl
grouped-group_rows test key (row ∷ rows) = omega (
  arith,
  grouped-add_row test (key row.0) row (group_rows key rows),
  grouped-group_rows test key rows,
)

sum_stats :
    (g : StrategyStats → ℕ) (test : Joined → Bool)
    → ((group : Text × List Joined) → g (stats_of group) ≡ count_rows test group.1)
    → (groups : List (Text × List Joined)) → sum (map g (map stats_of groups)) ≡ grouped test groups
sum_stats g test same [] = refl
sum_stats g test same (group ∷ groups) = omega (arith, same group, sum_stats g test same groups)

sum-stats_by :
    (g : StrategyStats → ℕ) (test : Joined → Bool)
    → ((group : Text × List Joined) → g (stats_of group) ≡ count_rows test group.1)
    → (key : SignalRow → Text) (now : ℕ) (days : Option ℕ) (t : Tables)
    → sum (map g (stats_by key now days t))
      ≡ count_rows test (left_join now days t.outcomes t.signals)
unfolding stats_by
sum-stats_by g test same key now days t =
    let groups = group_rows key (left_join now days t.outcomes t.signals) in
    sum_sort g more_signals (map stats_of groups)
    ∙ sum_stats g test same groups
    ∙ grouped-group_rows test key (left_join now days t.outcomes t.signals)

-- However the signals of a window are grouped, by their strategy or by their underlying, the numbers
-- of signals, of wins and of losses of the groups add up to those of the summary.
pub stats_by-summary :
    (key : SignalRow → Text) (now : ℕ) (days : Option ℕ) (t : Tables)
    → (sum (map (λ (s : StrategyStats). s.total) (stats_by key now days t))
        ≡ (summary now days t).total)
      × (sum (map (λ (s : StrategyStats). s.wins) (stats_by key now days t))
          ≡ (summary now days t).wins)
      × (sum (map (λ (s : StrategyStats). s.losses) (stats_by key now days t))
          ≡ (summary now days t).losses)
unfolding stats_of summary
stats_by-summary key now days t = (
  sum-stats_by (λ s. s.total) any_row (λ group. refl) key now days t,
  sum-stats_by (λ s. s.wins) (has_outcome (codes "win")) (λ group. refl) key now days t,
  sum-stats_by (λ s. s.losses) (has_outcome (codes "loss")) (λ group. refl) key now days t,
)
