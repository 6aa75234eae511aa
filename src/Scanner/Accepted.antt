-- ===== src/Scanner/Accepted.antt =====
-- What the filters of strategies/scanner.py ask of a contract, and what a leg has of its contract.
use garnet_trader.Prelude.{
  ℕ, suc, zero, ◌+◌, ◌-◌, ◌*◌, ◌≤◌, ◌≡◌, ◌⊎◌, inl, inr, refl, true, false, Option, none, some, List,
  Option-cases, Bool-cases, arith,
}
use garnet_trader.Payoff.{Side, buy, sell, PositionLeg, quotes}
use garnet_trader.Payoff.Contracts.{OptionContract, or_else, leg_price, leg_from_contract}
use garnet_trader.Scanner.{ScanFilters, tight, accepts, accepts_quotes}

-- Two quotes that are not 0, the bid not above the ask, and no further apart than the part of their
-- mean that is allowed, in millionths.
abbrev pub IsTight : ℕ → Option ℕ → Option ℕ → Type 0
IsTight limit bid ask =
    (b : ℕ) × (a : ℕ) × (bid ≡ some b)
    × (ask ≡ some a)
    × (1 ≤ b)
    × (b ≤ a)
    × ((a - b) * 2 * 1000000 ≤ limit * (b + a))

-- What the filters ask: enough days to the end and not too many, enough open interest and volume, a
-- strike, and tight quotes where both are required.
abbrev pub IsAccepted : ScanFilters → ℕ → OptionContract → Type 0
IsAccepted f today c =
    (today + f.min_days_to_expiry ≤ c.expiry)
    × (c.expiry ≤ today + f.max_days_to_expiry)
    × (f.min_open_interest ≤ c.open_interest)
    × (f.min_volume ≤ c.volume)
    × (1 ≤ c.strike)
    × ((f.require_both_quotes ≡ false) ⊎ IsTight f.max_relative_spread c.bid c.ask)

tight-IsTight :
    (limit : ℕ) (bid ask : Option ℕ) → tight limit (quotes bid ask) ≡ true → IsTight limit bid ask
unfolding quotes
tight-IsTight limit none ask h = absurd (ground (arith, h))
tight-IsTight limit (some b) none h = absurd (ground (arith, h))
tight-IsTight limit (some b) (some a) h =
    (b, a, refl, refl, ground (arith, h), ground (arith, h), ground (arith, h))

accepts_quotes_lem :
    (f : ScanFilters) (c : OptionContract)
    → accepts_quotes f c ≡ true
    → (f.require_both_quotes ≡ false) ⊎ IsTight f.max_relative_spread c.bid c.ask
unfolding accepts_quotes
accepts_quotes_lem f c h = elim (Bool-cases f.require_both_quotes) [
  | inl both ↦ inr (tight-IsTight f.max_relative_spread c.bid c.ask (ground (arith, both, h)))
  | inr either ↦ inl either
]

pub accepts-IsAccepted :
    (f : ScanFilters) (today : ℕ) (c : OptionContract)
    → accepts f today c ≡ true
    → IsAccepted f today c
unfolding accepts
accepts-IsAccepted f today c h = (
  ground (arith, h),
  ground (arith, h),
  ground (arith, h),
  ground (arith, h),
  ground (arith, h),
  accepts_quotes_lem f c (ground (arith, h)),
)

-- The quote at which a side trades.
abbrev pub quote_of : Side → OptionContract → Option ℕ
quote_of buy c = c.ask
quote_of sell c = c.bid

-- One contract bought or sold as a leg: at its ask if it is bought and at its bid if it is sold, where
-- there is one.
abbrev pub IsLeg : Side → OptionContract → PositionLeg → Type 0
IsLeg side c leg =
    (leg.side ≡ side)
    × (leg.quantity ≡ 1)
    × (leg.option_type ≡ some c.option_type)
    × (leg.strike ≡ some c.strike)
    × (leg.expiry ≡ some c.expiry)
    × (leg.contract_size ≡ c.contract_size)
    × (leg.symbol ≡ c.symbol)
    × ((quote_of side c ≡ none)
        ⊎ ((quote_of side c ≡ some 0) ⊎ (quote_of side c ≡ some leg.entry_price)))

leg_price_lem :
    (side : Side) (c : OptionContract)
    → (quote_of side c ≡ none)
      ⊎ ((quote_of side c ≡ some 0) ⊎ (quote_of side c ≡ some (leg_price c side)))
unfolding leg_price or_else
leg_price_lem buy c = elim (Option-cases c.ask) [
  | inl missing ↦ inl missing
  | inr (zero, e) ↦ inr (inl e)
  | inr (suc a, e) ↦ inr (inr (ground (arith, e)))
]
leg_price_lem sell c = elim (Option-cases c.bid) [
  | inl missing ↦ inl missing
  | inr (zero, e) ↦ inr (inl e)
  | inr (suc a, e) ↦ inr (inr (ground (arith, e)))
]

pub leg_from_contract-IsLeg :
    (side : Side) (c : OptionContract) (role : List ℕ)
    → IsLeg side c (leg_from_contract c side 1 role)
unfolding leg_from_contract
leg_from_contract-IsLeg side c role =
    (refl, refl, refl, refl, refl, refl, refl, leg_price_lem side c)
