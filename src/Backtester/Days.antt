-- ===== src/Backtester/Days.antt =====
-- backtest/signal_backtester.py: SignalBacktester, and PremiumBar of data/option_history.py.
use garnet_trader.Prelude.{
  ℕ, zero, suc, ◌+◌, ◌-◌, ◌%◌, Bool, ◌&&◌, Option, none, some, List, [], ◌∷◌, ◌++◌, map, length,
  take, ltb, leb, ◌==◌, if◌then◌else◌,
}
use garnet_trader.Prelude.Result.{Result, ok, raised}
use garnet_trader.Prelude.Text.{Text}
use garnet_trader.CorporateActions.{Candle}
use garnet_trader.Payoff.Contracts.{OptionContract, OptionChain}
use garnet_trader.Signals.{Signal}
use garnet_trader.Backtester.{SignalOutcome}

-- What is read of a bar of the premium.
pub record PremiumBar : Type 0 where
  pub date : ℕ
  pub close : ℕ
  pub last : ℕ
  pub volume : ℕ
  pub trades : ℕ

abbrev pub traded : PremiumBar → Bool
traded bar = ltb 0 bar.volume && ltb 0 bar.trades

-- `close or last`
abbrev pub reference_price : PremiumBar → ℕ
reference_price bar = if bar.close == 0 then bar.last else bar.close

-- What a strategy sees.
pub record BacktestContext : Type 0 where
  pub underlying : Text
  pub history : List (Candle ℕ)
  pub chain : OptionChain
  pub now : ℕ

pub record SignalBacktester : Type 0 where
  pub strategies : List (BacktestContext → Result (List Signal))
  pub horizon_days : ℕ
  pub warmup_days : ℕ
  pub step_days : ℕ
  pub option_history : Option (Text → Text → List PremiumBar)

-- `bars.get(day)`, of the bars that traded: the last of a day counts.
unfoldable pub bar_on : ℕ → List PremiumBar → Option PremiumBar
bar_on day [] = none
bar_on day (bar ∷ bars) = elim (bar_on day bars) [
  | some later ↦ some later
  | none ↦ if traded bar && (bar.date == day) then some bar else none
]

abbrev pub price_on : ℕ → List PremiumBar → Option ℕ
price_on day bars = elim (bar_on day bars) [ none ↦ none | some bar ↦ some (reference_price bar) ]

unfoldable pub premiums : SignalBacktester → Signal → ℕ → ℕ → Option ℕ × Option ℕ
unfolding bar_on
premiums b s entry_day exit_day = elim b.option_history [
  | none ↦ (none, none)
  | some try_get_history ↦ elim s.metadata.ins_code [
    | none ↦ (none, none)
    | some [] ↦ (none, none)
    | some (c ∷ code) ↦
        let bars = try_get_history (c ∷ code) s.symbol in
        (price_on entry_day bars, price_on exit_day bars)
  ]
]

abbrev pub shifted : ℕ → ℕ → OptionContract → OptionContract
shifted from to c = record c { expiry = c.expiry + to - from }

-- The chain of today, moved to a past day and its price.
unfoldable pub chain_at : OptionChain → ℕ → ℕ → OptionChain
chain_at chain as_of spot = record chain {
  contracts = map (shifted chain.as_of as_of) chain.contracts;
  spot_price = spot;
  as_of = as_of;
}

unfoldable pub outcome : SignalBacktester → Candle ℕ → Candle ℕ → Signal → SignalOutcome
unfolding premiums
outcome b entry exit s =
    let (entry_premium, exit_premium) = premiums b s entry.date exit.date in
    record {
      signal = s;
      entry_price = entry.close;
      exit_price = exit.close;
      horizon_days = b.horizon_days;
      entry_premium = entry_premium;
      exit_premium = exit_premium;
    }

-- An exception of a strategy ends the run.
unfoldable pub signals_of :
    List (BacktestContext → Result (List Signal)) → BacktestContext → Result (List Signal)
signals_of [] context = ok []
signals_of (strategy ∷ strategies) context =
    let rest = signals_of strategies context in
    elim (strategy context) [
      | raised ↦ raised
      | ok signals ↦ elim rest [ raised ↦ raised | ok others ↦ ok (signals ++ others) ]
    ]

-- `history[i]`
unfoldable pub bar_at : ℕ → List (Candle ℕ) → Option (Candle ℕ)
bar_at i [] = none
bar_at zero (x ∷ history) = some x
bar_at (suc i) (x ∷ history) = bar_at i history

unfoldable pub day_outcomes :
    SignalBacktester
    → Text
    → OptionChain
    → List (Candle ℕ)
    → Candle ℕ
    → Candle ℕ
    → Result (List SignalOutcome)
unfolding signals_of chain_at outcome
day_outcomes b symbol chain window entry exit =
    let context : BacktestContext = record {
      underlying = symbol;
      history = window;
      chain = chain_at chain entry.date entry.close;
      now = entry.date;
    } in
    elim (signals_of b.strategies context) [
      | raised ↦ raised
      | ok signals ↦ ok (map (outcome b entry exit) signals)
    ]

unfoldable pub on_bars :
    SignalBacktester
    → Text
    → OptionChain
    → List (Candle ℕ)
    → Option (Candle ℕ)
    → Option (Candle ℕ)
    → Result (List SignalOutcome)
unfolding day_outcomes
on_bars b symbol chain window none exit = raised
on_bars b symbol chain window (some entry) none = raised
on_bars b symbol chain window (some entry) (some exit) =
    day_outcomes b symbol chain window entry exit

-- One day of the loop: an index out of range raises.
unfoldable pub run_day :
    SignalBacktester → Text → OptionChain → List (Candle ℕ) → ℕ → Result (List SignalOutcome)
unfolding on_bars bar_at
run_day b symbol chain history index =
    on_bars b symbol chain (take (suc index) history) (bar_at index history)
      (bar_at (index + b.horizon_days) history)

-- Whether `range` from the warm-up stops at an index.
abbrev pub is_step : SignalBacktester → ℕ → Bool
is_step b index = leb b.warmup_days index && ((index - b.warmup_days) % b.step_days == 0)

unfoldable pub then_day :
    Result (List SignalOutcome) → Result (List SignalOutcome) → Result (List SignalOutcome)
then_day raised day = raised
then_day (ok outcomes) raised = raised
then_day (ok outcomes) (ok more) = ok (outcomes ++ more)

-- The outcomes of the days below an index.
unfoldable pub run_days :
    SignalBacktester → Text → OptionChain → List (Candle ℕ) → ℕ → Result (List SignalOutcome)
unfolding run_day then_day
run_days b symbol chain history zero = ok []
run_days b symbol chain history (suc index) =
    let before = run_days b symbol chain history index in
    if is_step b index then then_day before (run_day b symbol chain history index) else before

-- A step of 0 raises.
unfoldable pub run_symbol :
    SignalBacktester → Text → OptionChain → List (Candle ℕ) → Result (List SignalOutcome)
unfolding run_days
run_symbol b symbol chain history =
    if b.step_days == 0
    then raised
    else run_days b symbol chain history (length history - b.horizon_days)
