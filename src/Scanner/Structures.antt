-- ===== src/Scanner/Structures.antt =====
-- strategies/scanner.py: the straddle and the collar. Quotes have at most two decimals, so that the
-- rounding of the cost of a collar changes nothing.
use garnet_trader.Prelude.{
  ℕ, zero, suc, ◌+◌, ◌-◌, ◌&&◌, Option, none, some, List, [], ◌∷◌, map, take, if◌then◌else◌, ltb,
  leb,
}
use garnet_trader.Prelude.Int.{ℤ, pos, ◌-ℤ◌, ltb_ℤ, leb_ℤ}
use garnet_trader.Prelude.Sort.{sort}
use garnet_trader.Payoff.{buy, sell, OptionType, call, put, StrategyPayoff, has, distinct, net_cost}
use garnet_trader.Payoff.Contracts.{
  OptionContract, OptionChain, same_type, keep_contracts, or_zero, leg_from_contract,
  underlying_leg,
}
use garnet_trader.Scanner.Role
use garnet_trader.Scanner.{
  ScanFilters, Group, usable, by_expiry, found_by, for_each, structure, only_if, strike_before,
}

abbrev pub of_type : OptionType → List OptionContract → List OptionContract
of_type type cs = keep_contracts (λ c. same_type c.option_type type) cs

-- The contract that a dictionary by strike keeps: the last with that strike.
unfoldable pub at_strike : ℕ → Option OptionContract → List OptionContract → Option OptionContract
at_strike strike kept [] = kept
at_strike strike kept (c ∷ cs) =
    at_strike strike (if leb c.strike strike && leb strike c.strike then some c else kept) cs

unfoldable pub common : List ℕ → List ℕ → List ℕ
unfolding has
common [] ys = []
common (x ∷ xs) ys = let rest = common xs ys in if has x ys then x ∷ rest else rest

pub record Straddle : Type 0 where
  pub payoff : StrategyPayoff
  pub expiration : ℕ
  pub strike : ℕ
  pub call_symbol : List ℕ
  pub put_symbol : List ℕ

unfoldable pub straddle_of :
    ScanFilters → OptionChain → ℕ → ℕ → OptionContract → OptionContract → Option Straddle
unfolding structure leg_from_contract net_cost
straddle_of f chain expiry strike call_contract put_contract =
    let payoff = structure f chain (
      leg_from_contract call_contract buy 1 Role.call_role
      ∷ leg_from_contract put_contract buy 1 Role.put_role
      ∷ []) in
    only_if (ltb_ℤ (pos 0) (net_cost payoff)) (record {
      payoff = payoff;
      expiration = expiry;
      strike = strike;
      call_symbol = call_contract.symbol;
      put_symbol = put_contract.symbol;
    })

unfoldable pub straddle_at :
    ScanFilters → OptionChain → ℕ → List OptionContract → List OptionContract → ℕ → Option Straddle
unfolding at_strike straddle_of
straddle_at f chain expiry calls puts strike = elim (at_strike strike none calls) [
  | none ↦ none
  | some c ↦ elim (at_strike strike none puts) [
    | none ↦ none
    | some p ↦ straddle_of f chain expiry strike c p
  ]
]

unfoldable pub straddles_of : ScanFilters → OptionChain → Group → List Straddle
unfolding found_by straddle_at sort common distinct keep_contracts
straddles_of f chain (expiry, contracts) =
    let calls = of_type call contracts in
    let puts = of_type put contracts in
    found_by (straddle_at f chain expiry calls puts)
      (sort leb (common (distinct (map (λ c. c.strike) calls)) (map (λ c. c.strike) puts)))

abbrev from_spot : ℕ → ℕ → ℕ
from_spot a b = (a - b) + (b - a)

unfoldable pub scan_long_straddle : ScanFilters → OptionChain → ℕ → ℕ → List Straddle
unfolding for_each straddles_of by_expiry usable sort
scan_long_straddle f chain today limit = take limit (
    sort (λ s t. leb (from_spot s.strike chain.spot_price) (from_spot t.strike chain.spot_price))
      (for_each (straddles_of f chain) (by_expiry (usable f chain today))))

pub record Collar : Type 0 where
  pub payoff : StrategyPayoff
  pub expiration : ℕ
  pub lower_protection : ℕ
  pub upper_profit_cap : ℕ
  pub cost_of_protection : ℤ

-- Python's `or` on numbers: 0 gives way.
abbrev or_number : ℕ → ℕ → ℕ
or_number zero b = b
or_number (suc a) b = suc a

unfoldable pub collar : ScanFilters → OptionChain → ℕ → ℕ → OptionContract → OptionContract → Collar
unfolding structure leg_from_contract underlying_leg
collar f chain quantity expiry put_contract call_contract =
    let contract_size = or_number call_contract.contract_size put_contract.contract_size in
    let legs =
      underlying_leg chain.underlying chain.spot_price quantity contract_size buy
      ∷ leg_from_contract put_contract buy quantity Role.protective_put
      ∷ leg_from_contract call_contract sell quantity Role.sold_call
      ∷ [] in
    record {
      payoff = structure f chain legs;
      expiration = expiry;
      lower_protection = put_contract.strike;
      upper_profit_cap = call_contract.strike;
      cost_of_protection = pos (or_zero put_contract.ask) -ℤ pos (or_zero call_contract.bid);
    }

-- The puts below the price of the underlying and the calls above it.
abbrev pub puts_below : ℕ → List OptionContract → List OptionContract
puts_below spot cs = keep_contracts (λ c. same_type c.option_type put && ltb c.strike spot) cs

abbrev pub calls_above : ℕ → List OptionContract → List OptionContract
calls_above spot cs = keep_contracts (λ c. same_type c.option_type call && ltb spot c.strike) cs

-- Where there is no put or no call, the loops have nothing to go through.
unfoldable pub collars_of : ScanFilters → OptionChain → ℕ → Group → List Collar
unfolding for_each collar sort keep_contracts
collars_of f chain quantity (expiry, contracts) =
    let puts = sort (λ c d. leb d.strike c.strike) (puts_below chain.spot_price contracts) in
    let calls = sort strike_before (calls_above chain.spot_price contracts) in
    for_each (λ p. map (λ c. collar f chain quantity expiry p c) (take 4 calls)) (take 4 puts)

unfoldable pub scan_collar : ScanFilters → OptionChain → ℕ → ℕ → Option ℕ → List Collar
unfolding for_each collars_of by_expiry usable sort
scan_collar f chain today limit shares_owned =
    let found =
      sort (λ c d. leb_ℤ c.cost_of_protection d.cost_of_protection)
        (for_each (collars_of f chain (or_number (or_zero shares_owned) 1))
          (by_expiry (usable f chain today))) in
    if leb chain.spot_price 0 then [] else take limit found
