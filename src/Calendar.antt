-- ===== src/Calendar.antt =====
-- `TradingCalendar` and `MarketSession` of market/trading_calendar.py. Days are ordinals, without
-- datetime's upper limit. The set of holidays is a list. The learner that `defer_learning` keeps is
-- what bootstrap.py builds, a call of `learn_from_client`: here it is what that call's request for
-- the history will answer. The cache on disk is not modelled.
pub mod Learning
pub mod Queries
pub mod Questions
pub mod Ranges
mod Tests
use garnet_trader.Prelude.{
  ℕ, zero, suc, ◌+◌, ◌-◌, ◌≤◌, ◌<◌, min, max, Bool, true, false, not, ◌&&◌, ◌||◌, Option, none,
  some, List, [], ◌∷◌, ◌++◌, ltb, leb, ◌==◌, if◌then◌else◌,
}
use garnet_trader.Prelude.Result.{Result, ok, raised}
use garnet_trader.Prelude.Sort.{sort}
use garnet_trader.Jalali.{is_weekend, is_fixed_holiday}

unfoldable pub contains : List ℕ → ℕ → Bool
contains [] d = false
contains (h ∷ hs) d = (h == d) || contains hs d

pub record Calendar : Type 0 where
  pub holidays : List ℕ
  pub observed_from : Option ℕ
  pub observed_to : Option ℕ
  pub learner : Option (Result (List ℕ))

-- `set(days)`
unfoldable pub dedup : List ℕ → List ℕ
unfolding contains
dedup [] = []
dedup (d ∷ ds) = let rest = dedup ds in if contains ds d then rest else d ∷ rest

unfoldable pub last_of : ℕ → List ℕ → ℕ
last_of d [] = d
last_of d (e ∷ es) = last_of e es

-- The loop of `learn_from_history`, with the days left: on the holidays and the count.
unfoldable pub learn_day : List ℕ → ℕ → List ℕ × ℕ → List ℕ × ℕ
learn_day known cursor (holidays, learned) =
    if not (is_weekend cursor) && not (contains known cursor) && not (contains holidays cursor)
    then (cursor ∷ holidays, learned + 1)
    else (holidays, learned)

unfoldable pub learn_loop : List ℕ → ℕ → ℕ → List ℕ × ℕ → List ℕ × ℕ
learn_loop known zero cursor acc = acc
learn_loop known (suc left) cursor acc =
    learn_loop known left (cursor + 1) (learn_day known cursor acc)

abbrev or_else : Option ℕ → (ℕ → ℕ) → ℕ → ℕ
or_else none f d = d
or_else (some o) f d = f o

learn_between : List ℕ → ℕ → ℕ → Calendar → ℕ × Calendar
learn_between known first last c =
    let (holidays, learned) = learn_loop known (last + 1 - first) first (c.holidays, 0) in
    (
      learned,
      record c {
        holidays = holidays;
        observed_from = some (or_else c.observed_from (λ o. min o first) first);
        observed_to = some (or_else c.observed_to (λ o. max o last) last);
      },
    )

-- The sorted days; fewer than two teach nothing.
learn_from_sorted : List ℕ → Calendar → ℕ × Calendar
learn_from_sorted [] c = (0, c)
learn_from_sorted (d ∷ []) c = (0, c)
learn_from_sorted (d ∷ e ∷ es) c = learn_between (d ∷ e ∷ es) d (last_of e es) c

pub learn_from_history : List ℕ → Calendar → ℕ × Calendar
learn_from_history trading_days = learn_from_sorted (sort leb (dedup trading_days))

-- A request that fails teaches nothing.
unfoldable pub learn_from_client : Result (List ℕ) → Calendar → ℕ × Calendar
learn_from_client raised c = (0, c)
learn_from_client (ok candle_days) c = learn_from_history candle_days c

pub add_holidays : List ℕ → Calendar → Calendar
add_holidays days c = record c { holidays = days ++ c.holidays }

pub defer_learning : Result (List ℕ) → Calendar → Calendar
defer_learning learner c = record c { learner = some learner }

-- The learner is forgotten before it runs, so it runs once.
unfoldable pub learn_if_needed : Calendar → Calendar
learn_if_needed c = elim c.learner [
  | none ↦ c
  | some learner ↦ (learn_from_client learner (record c { learner = none })).1
]

-- The table of fixed holidays speaks for the days past the last one observed.
unfoldable pub is_known_holiday : Calendar → ℕ → Result Bool
is_known_holiday c day = if contains c.holidays day then ok true else elim c.observed_to [
  | none ↦ is_fixed_holiday day
  | some to ↦ if leb day to then ok false else is_fixed_holiday day
]

unfoldable pub is_holiday : ℕ → Calendar → Result Bool × Calendar
is_holiday day c =
    if is_weekend day
    then (ok true, c)
    else let c' = learn_if_needed c in (is_known_holiday c' day, c')

abbrev pub negate : Result Bool → Result Bool
negate raised = raised
negate (ok b) = ok (not b)

unfoldable pub is_trading_day : ℕ → Calendar → Result Bool × Calendar
is_trading_day day c = let (r, c') = is_holiday day c in (negate r, c')

-- The session of a day, in microseconds since midnight; both ends belong to it.
pub record MarketSession : Type 0 where
  pub opens : ℕ
  pub closes : ℕ

abbrev pub default_session : MarketSession
default_session = record { opens = 32_400_000_000; closes = 45_000_000_000 }

pub session_contains : MarketSession → ℕ → Bool
session_contains s moment = leb s.opens moment && leb moment s.closes

pub is_open : MarketSession → ℕ → ℕ → Calendar → Result Bool × Calendar
is_open s day moment c =
    let (r, c') = is_trading_day day c in
    (elim r [ raised ↦ raised | ok b ↦ ok (b && session_contains s moment) ], c')

-- The loop of `next_trading_day`, with the rounds left; at the end of them it raises.
unfoldable pub search_day : ℕ → ℕ → Calendar → Result ℕ × Calendar
search_day zero cursor c = (raised, c)
search_day (suc left) cursor c =
    let (r, c') = is_trading_day cursor c in
    elim r [
      | raised ↦ (raised, c')
      | ok b ↦ elim b [ true ↦ (ok cursor, c') | false ↦ search_day left (cursor + 1) c' ]
    ]

pub next_trading_day : ℕ → Calendar → Result ℕ × Calendar
next_trading_day day c = search_day 60 (day + 1) c

-- The loop of `trading_days_between`, with the days left.
unfoldable pub count_days : ℕ → ℕ → ℕ → Calendar → Result ℕ × Calendar
count_days zero cursor count c = (ok count, c)
count_days (suc left) cursor count c =
    let (r, c') = is_trading_day cursor c in
    elim r [
      | raised ↦ (raised, c')
      | ok b ↦ count_days left (cursor + 1) (if b then count + 1 else count) c'
    ]

pub trading_days_between : ℕ → ℕ → Calendar → Result ℕ × Calendar
trading_days_between start end c =
    if ltb end start then (ok 0, c) else count_days (end + 1 - start) start 0 c
