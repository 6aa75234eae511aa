-- ===== src/Strategies.antt =====
-- strategies/multi_leg.py: the legs of a structure, its cost and its greatest loss. Prices are whole
-- numbers. The registry of strategies is in the module below.
pub mod Registry
mod Tests
use garnet_trader.Prelude.{
  ℕ, zero, suc, ◌+◌, ◌*◌, Bool, true, false, not, ◌&&◌, ◌||◌, Option, none, some, List, [], ◌∷◌,
  if◌then◌else◌, length, ◌==◌,
}
use garnet_trader.Prelude.Int.{ℤ, pos, ◌+ℤ◌, ◌-ℤ◌, max_ℤ}
use garnet_trader.Payoff.{Side, is_buy, signed}
use garnet_trader.Payoff.Contracts.{OptionContract, or_else, or_zero, mid_price, same_type}

pub record Leg : Type 0 where
  pub contract : OptionContract
  pub side : Side
  pub ratio : ℕ
  pub role : List ℕ

-- A buyer pays the ask and a seller gets the bid; the middle stands in for them.
unfoldable pub price_of : Bool → OptionContract → ℕ
unfolding or_else mid_price
price_of true c = or_zero (or_else c.ask (or_else (mid_price c) none))
price_of false c = or_zero (or_else c.bid (or_else (mid_price c) none))

unfoldable pub net_debit : List Leg → ℤ
unfolding price_of signed
net_debit [] = pos 0
net_debit (leg ∷ legs) =
    signed (is_buy leg.side) (pos (price_of (is_buy leg.side) leg.contract * leg.ratio))
    +ℤ net_debit legs

-- Some bought leg of the same type.
unfoldable pub is_covered : Leg → List Leg → Bool
is_covered leg [] = false
is_covered leg (other ∷ legs) =
    is_buy other.side && same_type other.contract.option_type leg.contract.option_type
    || is_covered leg legs

unfoldable pub has_naked : List Leg → List Leg → Bool
unfolding is_covered
has_naked all [] = false
has_naked all (leg ∷ legs) = not (is_buy leg.side) && not (is_covered leg all) || has_naked all legs

-- Missing where the loss is unlimited.
unfoldable pub structure_loss : List Leg → ℤ → Option ℤ
unfolding has_naked
structure_loss legs net_debit = if has_naked legs legs then none else some (max_ℤ net_debit (pos 0))
