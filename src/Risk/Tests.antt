-- ===== src/Risk/Tests.antt =====
-- Runs of the risk calculator.
use garnet_trader.Prelude.{◌≡◌, ◌≤◌, ◌↔◌, ◌*◌, refl, none, arith, []}
use garnet_trader.Prelude.Int.{pos}
use garnet_trader.Payoff.{buy, call}
use garnet_trader.Signals.{Signal}
use garnet_trader.Risk.{RiskLimits, FeeRules, evaluate}
use garnet_trader.Risk.Bounds.{Fits, loss_of, evaluate-Fits}

abbrev limits : RiskLimits
limits = record {
  account_equity = 1000000000;
  risk_per_trade = 10000;
  max_position = 50000;
  max_contracts = 50;
  stop_loss = 350000;
  take_profit = 700000;
}

-- One part in a thousand each way.
abbrev fees : FeeRules
fees = record {
  round_trip_cost = λ notional is_buy. notional * 2000;
  net_take_profit = λ premium pct is_buy. pos 0;
}

abbrev purchase : Signal
purchase = record {
  symbol = [];
  option_type = call;
  side = buy;
  strike = 100;
  expiry = 800000;
  suggested_price = 1000;
  suggested_qty = 0;
  strategy_name = [];
  created_at = 0;
  valid_until = none;
  stop_loss = none;
  take_profit = none;
  confidence = none;
  contract_size = none;
  metadata = record {
    leg_group_id = none;
    ins_code = none;
    leg_count = none;
    leg_ratio = none;
    contract_size = none;
    max_loss = none;
    round_trip_fees = none;
  };
}

-- A risk of 352 thousand each, of ten million.
evaluate-purchase : (evaluate fees limits purchase 1000).suggested_qty ≡ 28
unfolding evaluate
evaluate-purchase = refl

evaluate-Fits_example :
    (Fits fees limits purchase 1000 28 ↔ (28 ≤ (evaluate fees limits purchase 1000).suggested_qty))
    × ((evaluate fees limits purchase 1000).max_loss
        ≡ (evaluate fees limits purchase 1000).suggested_qty
          * loss_of fees limits buy (1000 * 1000))
evaluate-Fits_example =
    evaluate-Fits fees limits purchase 1000 28 (omega arith) (omega arith) (omega arith)
