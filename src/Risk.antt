-- ===== src/Risk.antt =====
-- risk/risk_calculator.py: the quantity, the limits and the costs suggested for a signal. Percentages
-- are millionths of the whole, and the amounts that they give are counted in millionths too, not
-- rounded. What the fees of the schedule come to is a parameter, of which nothing is assumed.
pub mod Bounds
mod Tests
use garnet_trader.Prelude.{
  ℕ, zero, suc, ◌+◌, ◌-◌, ◌*◌, ◌/◌, min, max, Bool, true, false, ◌||◌, Option, none, some, ltb, leb,
  ◌==◌, if◌then◌else◌,
}
use garnet_trader.Prelude.Int.{ℤ, pos, ◌-ℤ◌}
use garnet_trader.Payoff.{Side, is_buy}
use garnet_trader.Signals.{Signal, Metadata, with_risk}

pub record RiskLimits : Type 0 where
  pub account_equity : ℕ
  pub risk_per_trade : ℕ
  pub max_position : ℕ
  pub max_contracts : ℕ
  pub stop_loss : ℕ
  pub take_profit : ℕ

-- `round_trip_cost` and `net_take_profit` of a FeeSchedule, in millionths.
pub record FeeRules : Type 0 where
  pub round_trip_cost : ℕ → Bool → ℕ
  pub net_take_profit : ℕ → ℕ → Bool → ℤ

pub record RiskSuggestion : Type 0 where
  pub suggested_qty : ℕ
  pub stop_loss : Option ℤ
  pub take_profit : Option ℤ
  pub max_loss : ℕ
  pub round_trip_fees : ℕ

abbrev pub million : ℕ
million = 1000000

abbrev pub is_tradable : RiskSuggestion → Bool
is_tradable r = ltb 0 r.suggested_qty

abbrev pub risk_budget : RiskLimits → ℕ
risk_budget l = l.account_equity * l.risk_per_trade

abbrev pub exposure_cap : RiskLimits → ℕ
exposure_cap l = l.account_equity * l.max_position

-- A buyer may lose up to the stop, a seller is taken to lose twice the premium; both pay the fees.
unfoldable pub risk_per_contract : FeeRules → RiskLimits → Bool → ℕ → ℕ
risk_per_contract f l buying cost =
    (if buying then cost * l.stop_loss else cost * 2 * million) + f.round_trip_cost cost buying

-- `budget // max(risk, 1e-9)`: the smallest divisor is a thousandth of a millionth.
unfoldable pub qty_by_risk : ℕ → ℕ → ℕ
qty_by_risk budget risk = if risk == 0 then budget * 1000 else budget / risk

unfoldable pub qty_by_exposure : RiskLimits → ℕ → ℕ
qty_by_exposure l cost = exposure_cap l / (cost * million)

unfoldable pub no_suggestion : RiskSuggestion
no_suggestion = record {
  suggested_qty = 0;
  stop_loss = none;
  take_profit = none;
  max_loss = 0;
  round_trip_fees = 0;
}

unfoldable pub suggestion : FeeRules → RiskLimits → Bool → ℕ → ℕ → RiskSuggestion
unfolding risk_per_contract qty_by_risk qty_by_exposure
suggestion f l buying premium contract_size =
    let cost = premium * contract_size in
    let risk = risk_per_contract f l buying cost in
    let qty =
      min (min (qty_by_risk (risk_budget l) risk) (qty_by_exposure l cost)) l.max_contracts in
    let stop : ℤ =
      if buying
      then pos (premium * million) -ℤ pos (premium * l.stop_loss)
      else pos (premium * million + premium * l.stop_loss) in
    record {
      suggested_qty = qty;
      stop_loss = if ltb 0 qty then some stop else none;
      take_profit =
          if ltb 0 qty then some (f.net_take_profit premium l.take_profit buying) else none;
      max_loss = qty * risk;
      round_trip_fees = f.round_trip_cost (qty * cost) buying;
    }

unfoldable pub evaluate : FeeRules → RiskLimits → Signal → ℕ → RiskSuggestion
unfolding suggestion no_suggestion
evaluate f l s contract_size =
    if leb s.suggested_price 0 || leb contract_size 0
    then no_suggestion
    else suggestion f l (is_buy s.side) s.suggested_price contract_size

unfoldable pub enriched : RiskSuggestion → ℕ → Signal → Signal
unfolding with_risk
enriched r contract_size s =
    let sized = with_risk s r.suggested_qty r.stop_loss r.take_profit in
    record sized {
      contract_size = some contract_size;
      metadata = record s.metadata {
        contract_size = some contract_size;
        max_loss = some r.max_loss;
        round_trip_fees =
            if r.round_trip_fees == 0 then s.metadata.round_trip_fees else some r.round_trip_fees;
      };
    }

-- Python's `apply`.
unfoldable pub apply : FeeRules → RiskLimits → Signal → ℕ → Option Signal
unfolding evaluate enriched
apply f l s contract_size =
    let r = evaluate f l s contract_size in
    if is_tradable r then some (enriched r contract_size s) else none
