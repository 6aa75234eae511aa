-- ===== src/Payoff/Tests.antt =====
-- Runs of the payoff of structures.
use garnet_trader.Prelude.{ℕ, ◌≡◌, refl, inl, none, some, List, [], ◌∷◌, arith, true, false}
use garnet_trader.Prelude.Int.{pos, negsuc, ◌-ℤ◌, ◌+ℤ◌, ◌*ℤ◌}
use garnet_trader.Payoff.{
  Side, buy, sell, OptionType, call, PositionLeg, StrategyPayoff, payoff, max_profit, max_loss, any,
  has_unlimited_upside, in_millionths, total, net_cost,
}
use garnet_trader.Payoff.Contracts.{underlying_leg}
use garnet_trader.Payoff.Limits.{IsGreatest, IsSmallest, max_profit-IsGreatest, max_loss-IsSmallest}
use garnet_trader.Payoff.Cost.{leg_value, payoff-net_cost}

abbrev option_leg : Side → OptionType → ℕ → ℕ → PositionLeg
option_leg side type strike price = record {
  side = side;
  quantity = 1;
  entry_price = price;
  contract_size = 1000;
  option_type = some type;
  strike = some strike;
  expiry = none;
  symbol = [];
  role = [];
  bid = none;
  ask = none;
  open_interest = 0;
  volume = 0;
  ins_code = [];
}

abbrev structure_of : List PositionLeg → StrategyPayoff
structure_of legs = record {
  legs = legs;
  commission_rate = 500;
  underlying_price = some 100;
  required_margin = none;
  single_expiry = true;
}

-- A call bought at 100 for 6 and one sold at 120 for 2.
abbrev call_spread : StrategyPayoff
call_spread = structure_of (option_leg buy call 100 6 ∷ option_leg sell call 120 2 ∷ [])

call_spread-max_profit : max_profit call_spread ≡ some (pos 15996000000)
unfolding max_profit ◌-ℤ◌ ◌*ℤ◌ ◌+ℤ◌
call_spread-max_profit = refl

call_spread-max_loss : max_loss call_spread ≡ some (negsuc 4003999999)
unfolding max_loss ◌-ℤ◌ ◌*ℤ◌ ◌+ℤ◌
call_spread-max_loss = refl

-- A call sold with nothing to cover it.
abbrev naked_call : StrategyPayoff
naked_call = structure_of (option_leg sell call 120 2 ∷ [])

naked_call-max_loss : max_loss naked_call ≡ none
unfolding max_loss ◌-ℤ◌ ◌*ℤ◌ ◌+ℤ◌
naked_call-max_loss = refl

-- Two contracts of the underlying bought and one call sold: the profit passes every bound, and the
-- program calls it limited.
abbrev half_covered : StrategyPayoff
half_covered = structure_of (underlying_leg [] 100 2 1000 buy ∷ option_leg sell call 120 2 ∷ [])

half_covered-has_unlimited_upside : has_unlimited_upside half_covered ≡ false
unfolding has_unlimited_upside underlying_leg
half_covered-has_unlimited_upside = refl

max_profit-IsGreatest_example : IsGreatest (payoff call_spread) (max_profit call_spread)
unfolding any
max_profit-IsGreatest_example =
    max_profit-IsGreatest 1000 call_spread (omega arith)
      ((refl, omega arith, refl), ((refl, omega arith, refl), tt)) (inl refl) refl

max_loss-IsSmallest_example : IsSmallest (payoff naked_call) (max_loss naked_call)
max_loss-IsSmallest_example =
    max_loss-IsSmallest 1000 naked_call (omega arith) ((refl, omega arith, refl), tt) refl

payoff-net_cost_example :
    payoff call_spread 130
    ≡ in_millionths (total (leg_value 130) call_spread.legs) -ℤ net_cost call_spread
payoff-net_cost_example = payoff-net_cost call_spread 130
