-- ===== src/Payoff/Capital.antt =====
-- The capital that a structure needs, the ratios over it, and what is known of its liquidity.
use garnet_trader.Prelude.{
  ℕ, ◌+◌, ◌*◌, Bool, Option, none, some, List, [], ◌∷◌, map, length, if◌then◌else◌, ltb, ◌==◌,
}
use garnet_trader.Prelude.Int.{ℤ, pos, pos_part, neg_part, ◌-ℤ◌, ◌*ℤ◌, ltb_ℤ, leb_ℤ}
use garnet_trader.Prelude.Ratio.{Ratio, ratio}
use garnet_trader.Payoff.{
  Side, OptionType, PositionLeg, is_option, rate_unit, StrategyPayoff, net_cost, max_profit,
  max_loss, keep, smallest, relative_spread,
}

-- What the legs cost if they cost anything, else the margin of the broker, else the greatest loss.
unfoldable pub required_capital : StrategyPayoff → Option ℤ
unfolding net_cost max_loss
required_capital s =
    let cost = net_cost s in
    if ltb_ℤ (pos 0) cost then some cost else elim s.required_margin [
      | some margin ↦ some (pos (margin * rate_unit))
      | none ↦ elim (max_loss s) [
        | none ↦ none
        | some loss ↦ if ltb_ℤ loss (pos 0) then some (pos 0 -ℤ loss) else none
      ]
    ]

unfoldable pub roi : StrategyPayoff → Option Ratio
unfolding required_capital max_profit
roi s = elim (required_capital s) [
  | none ↦ none
  | some capital ↦ if leb_ℤ capital (pos 0) then none else elim (max_profit s) [
    | none ↦ none
    | some profit ↦ some (ratio profit (pos_part capital))
  ]
]

unfoldable pub risk_reward : StrategyPayoff → Option Ratio
unfolding max_profit max_loss
risk_reward s = elim (max_profit s) [
  | none ↦ none
  | some profit ↦ elim (max_loss s) [
    | none ↦ none
    | some loss ↦
        let size = pos_part loss + neg_part loss in
        if size == 0 then none else some (ratio profit size)
  ]
]

pub min_open_interest : StrategyPayoff → ℕ
unfolding keep smallest
min_open_interest s = smallest (map (λ leg. leg.open_interest) (keep is_option s.legs))

-- a / b < c / d, for denominators that are not 0.
abbrev less : Ratio → Ratio → Bool
less a b = ltb_ℤ (a.num *ℤ pos b.den) (b.num *ℤ pos a.den)

-- The largest of the spreads that are known.
unfoldable widest : Option Ratio → List PositionLeg → Option Ratio
unfolding relative_spread
widest so_far [] = so_far
widest none (leg ∷ legs) = widest (relative_spread leg) legs
widest (some r) (leg ∷ legs) = elim (relative_spread leg) [
  | none ↦ widest (some r) legs
  | some t ↦ widest (some (if less r t then t else r)) legs
]

pub max_relative_spread : StrategyPayoff → Option Ratio
unfolding widest keep
max_relative_spread s = widest none (keep is_option s.legs)

pub has_leg_risk : StrategyPayoff → Bool
unfolding keep
has_leg_risk s = ltb 1 (length (keep is_option s.legs))

-- One line of the plan of orders.
pub record PlannedOrder : Type 0 where
  pub action : Side
  pub instrument : Option OptionType
  pub symbol : List ℕ
  pub strike : Option ℕ
  pub expiry : Option ℕ
  pub quantity : ℕ
  pub contract_size : ℕ
  pub limit_price : ℕ
  pub role : List ℕ
  pub ins_code : List ℕ

abbrev planned : PositionLeg → PlannedOrder
planned leg = record {
  action = leg.side;
  instrument = leg.option_type;
  symbol = leg.symbol;
  strike = leg.strike;
  expiry = leg.expiry;
  quantity = leg.quantity;
  contract_size = leg.contract_size;
  limit_price = leg.entry_price;
  role = leg.role;
  ins_code = leg.ins_code;
}

pub order_plan : StrategyPayoff → List PlannedOrder
order_plan s = map planned s.legs
