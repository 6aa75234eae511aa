-- ===== src/Calendar/Tests.antt =====
-- A week of trade in April 2025, from Saturday the 5th (day 739346), with Monday the 7th missing.
use garnet_trader.Prelude.{
  ℕ, ◌+◌, ◌≤◌, ◌<◌, ◌≡◌, ◌↔◌, refl, true, false, not, ◌&&◌, none, some, List, [], ◌∷◌, arith,
}
use garnet_trader.Prelude.Result.{ok}
use garnet_trader.Prelude.Sort.{sort}
use garnet_trader.Jalali.{is_weekend}
use garnet_trader.Calendar.{
  Calendar, contains, dedup, learn_from_history, learn_from_client, defer_learning, is_holiday,
  is_trading_day, next_trading_day, trading_days_between, learn_loop, learn_day, last_of,
  learn_from_sorted, learn_between,
}
use garnet_trader.Calendar.Queries.{
  answer, is_trading_day-learn_from_history, is_holiday-unobserved_past,
}
use garnet_trader.Calendar.Questions.{
  Question, holiday, next_day, days_between, ask, defer_learning-unobservable,
}
use garnet_trader.Calendar.Ranges.{add_counts, next_trading_day_lem, trading_days_between-split}

abbrev saturday : ℕ
saturday = 739346

abbrev week : List ℕ
week = 739349 ∷ 739346 ∷ 739347 ∷ 739350 ∷ 739346 ∷ []

abbrev blank : Calendar
blank = record { holidays = []; observed_from = none; observed_to = none; learner = none }

week_range : (d : ℕ) → contains week d ≡ true → (739346 ≤ d) × (d ≤ 739350)
unfolding contains
week_range d h = ground arith

learn-week : learn_from_history week blank ≡ (
  1,
  record {
    holidays = 739348 ∷ [];
    observed_from = some 739346;
    observed_to = some 739350;
    learner = none;
  },
)
unfolding learn_from_history learn_from_sorted learn_between learn_loop learn_day dedup contains
    last_of sort is_weekend
learn-week = refl

is_trading_day-learn_from_history_example :
    (is_trading_day 739348 (learn_from_history week blank).1).0
    ≡ ok (not (is_weekend 739348) && contains week 739348)
unfolding contains
is_trading_day-learn_from_history_example =
    is_trading_day-learn_from_history week blank 739346 739350 739348 refl refl refl (omega arith)
      week_range (omega arith) (omega arith) refl

-- Sunday 2025-03-23 is 1404/01/03, in the table.
is_holiday-unobserved_past_example :
    (is_holiday 739333 (learn_from_history week blank).1).0 ≡ ok false
unfolding contains is_weekend
is_holiday-unobserved_past_example =
    is_holiday-unobserved_past week blank 739346 739350 739333 refl refl refl (omega arith)
      week_range (omega arith) refl refl

abbrev questions : List Question
questions = holiday 739348 ∷ next_day 739347 ∷ days_between 739346 739350 ∷ []

defer_learning-unobservable_example :
    ask questions (defer_learning (ok week) blank)
    ≡ ask questions (learn_from_client (ok week) blank).1
defer_learning-unobservable_example = defer_learning-unobservable questions (ok week) blank refl

next_trading_day_lem_example :
    ((next_trading_day 739347 (learn_from_history week blank).1).0 ≡ ok 739349) ↔ (
      (739347 < 739349)
      × (739349 ≤ 739347 + 60)
      × (answer (learn_from_history week blank).1 739349 ≡ ok false)
      × ((e : ℕ) → 739347 < e → e < 739349 → answer (learn_from_history week blank).1 e ≡ ok true))
next_trading_day_lem_example = next_trading_day_lem 739347 739349 (learn_from_history week blank).1

trading_days_between-split_example :
    (trading_days_between 739346 739350 (learn_from_history week blank).1).0
    ≡ add_counts
        (trading_days_between 739346 739348 (learn_from_history week blank).1).0
        (trading_days_between 739349 739350 (learn_from_history week blank).1).0
trading_days_between-split_example =
    trading_days_between-split 739346 739348 739350 (learn_from_history week blank).1 (omega arith)
      (omega arith)
