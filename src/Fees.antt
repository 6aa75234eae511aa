-- ===== src/Fees.antt =====
-- risk/fees.py: fees and tax, as fractions of the notional value and a fixed part of each order.
use garnet_trader.Prelude.{Bool, not, ◌&&◌, if◌then◌else◌}
use garnet_trader.Prelude.Number.{Number}

pub record FeeSchedule (F : Type 0) : Type 0 where
  pub buy_rate : F
  pub sell_rate : F
  pub sell_tax_rate : F
  pub per_order : F

module _ {F : Type 0} (n : Number F) where
  open n use {of_ℕ, add, sub, mul, div, magnitude, is_zero, is_positive}

  -- The buyer pays the buying rate, the seller the selling rate and the tax.
  unfoldable pub entry_cost : FeeSchedule F → F → Bool → F
  entry_cost s notional is_buy =
      let rate = if is_buy then s.buy_rate else add s.sell_rate s.sell_tax_rate in
      add (mul (magnitude notional) rate) s.per_order

  -- Whoever bought leaves by selling.
  unfoldable pub exit_cost : FeeSchedule F → F → Bool → F
  exit_cost s notional was_buy =
      let rate = if was_buy then add s.sell_rate s.sell_tax_rate else s.buy_rate in
      add (mul (magnitude notional) rate) s.per_order

  unfoldable pub round_trip_cost : FeeSchedule F → F → Bool → F
  round_trip_cost s notional is_buy =
      add (entry_cost s notional is_buy) (exit_cost s notional is_buy)

  pub is_free : FeeSchedule F → Bool
  is_free s =
      is_zero s.buy_rate && is_zero s.sell_rate && is_zero s.sell_tax_rate && is_zero s.per_order

  abbrev pub round_trip_rate : FeeSchedule F → F
  round_trip_rate s = add (add s.buy_rate s.sell_rate) s.sell_tax_rate

  pub breakeven_premium : FeeSchedule F → F → Bool → F
  breakeven_premium s premium is_buy =
      let shift = mul premium (round_trip_rate s) in
      if not (is_positive premium)
      then premium
      else if is_buy
      then add premium shift
      else sub premium shift

  pub net_take_profit : FeeSchedule F → F → F → Bool → F
  net_take_profit s premium target_pct is_buy =
      let part = div target_pct (of_ℕ 100) in
      let shift = mul premium (round_trip_rate s) in
      if not (is_positive premium)
      then premium
      else if is_buy
      then add (mul premium (add (of_ℕ 1) part)) shift
      else sub (mul premium (sub (of_ℕ 1) part)) shift
