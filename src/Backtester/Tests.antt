-- ===== src/Backtester/Tests.antt =====
-- Runs of the backtester.
use garnet_trader.Prelude.{ℕ, ◌≡◌, refl, none, List, [], ◌∷◌, ◌++◌, map}
use garnet_trader.Prelude.Int.{pos, negsuc, ◌-ℤ◌, ◌*ℤ◌}
use garnet_trader.Prelude.Ratio.{Ratio, ratio}
use garnet_trader.Prelude.Result.{Result, ok, raised}
use garnet_trader.Prelude.Text.{codes}
use garnet_trader.CorporateActions.{Candle}
use garnet_trader.Payoff.{buy, call}
use garnet_trader.Payoff.Contracts.{OptionChain}
use garnet_trader.Signals.{Signal}
use garnet_trader.Backtester.{SignalOutcome, effective_return_pct}
use garnet_trader.Backtester.Days.{SignalBacktester, run_symbol}
use garnet_trader.Backtester.Prefix.{IsBeginning, run_symbol-IsBeginning}

abbrev bar : ℕ → ℕ → Candle ℕ
bar day price = record {
  date = day;
  open_price = price;
  high = price;
  low = price;
  close = price;
  volume = 1;
}

abbrev purchase_at : ℕ → Signal
purchase_at time = record {
  symbol = codes "A1";
  option_type = call;
  side = buy;
  strike = 100;
  expiry = 90;
  suggested_price = 10;
  suggested_qty = 1;
  strategy_name = codes "one";
  created_at = time;
  valid_until = none;
  stop_loss = none;
  take_profit = none;
  confidence = none;
  contract_size = none;
  metadata = record {
    leg_group_id = none;
    ins_code = none;
    leg_count = none;
    leg_ratio = none;
    contract_size = none;
    max_loss = none;
    round_trip_fees = none;
  };
}

abbrev backtester : SignalBacktester
backtester = record {
  strategies = (λ context. ok (purchase_at context.now ∷ [])) ∷ [];
  horizon_days = 1;
  warmup_days = 1;
  step_days = 2;
  option_history = none;
}

abbrev chain : OptionChain
chain = record { underlying = codes "A"; spot_price = 200; as_of = 50; contracts = [] }

abbrev week : List (Candle ℕ)
week = bar 1 100 ∷ bar 2 100 ∷ bar 3 110 ∷ bar 4 120 ∷ bar 5 90 ∷ []

abbrev returns_of : Result (List SignalOutcome) → List Ratio
returns_of raised = []
returns_of (ok os) = map effective_return_pct os

-- Days 1 and 3 of five, each settled on the next: up a tenth, and down a quarter.
run_symbol-week :
    returns_of (run_symbol backtester (codes "A") chain week)
    ≡ ratio (pos 1000) 100 ∷ ratio (negsuc 2999) 120 ∷ []
unfolding run_symbol effective_return_pct ◌-ℤ◌ ◌*ℤ◌
run_symbol-week = refl

run_symbol-IsBeginning_example :
    IsBeginning
      (run_symbol backtester (codes "A") chain week)
      (run_symbol backtester (codes "A") chain (week ++ bar 6 95 ∷ []))
run_symbol-IsBeginning_example =
    run_symbol-IsBeginning backtester (codes "A") chain week (bar 6 95 ∷ [])
