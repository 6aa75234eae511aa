-- ===== src/Scanner.antt =====
-- strategies/scanner.py: the structures that are found among the contracts of a chain. Modelled are
-- the filters, the grouping by expiry and the four vertical spreads here, the other structures and
-- the ranking in the modules below. Rates are counted in millionths; dates are day numbers.
pub mod Lists
pub mod Accepted
pub mod Candidates
pub mod Vertical
pub mod Role
pub mod Structures
pub mod Spreads
pub mod Condor
pub mod Ranking
mod Tests
use garnet_trader.Prelude.{
  ℕ, zero, suc, ◌+◌, ◌-◌, ◌*◌, max, Bool, true, false, not, ◌&&◌, ◌||◌, Option, none, some, List,
  [], ◌∷◌, ◌++◌, map, take, if◌then◌else◌, ltb, leb, ◌==◌,
}
use garnet_trader.Prelude.Int.{ℤ, pos, pos_part, neg_part, ◌*ℤ◌, ltb_ℤ, leb_ℤ}
use garnet_trader.Prelude.Ratio.{Ratio, ratio_ℕ}
use garnet_trader.Prelude.Sort.{sort}
use garnet_trader.Payoff.{
  Side, buy, sell, OptionType, call, put, PositionLeg, StrategyPayoff, rate_unit, quotes, is_some,
  net_premium, net_cost, max_profit,
}
use garnet_trader.Scanner.Role
use garnet_trader.Payoff.Capital.{roi}
use garnet_trader.Payoff.Contracts.{
  OptionContract, OptionChain, same_type, keep_contracts, or_else, leg_from_contract,
}

pub record ScanFilters : Type 0 where
  pub min_days_to_expiry : ℕ
  pub max_days_to_expiry : ℕ
  pub min_open_interest : ℕ
  pub max_relative_spread : ℕ
  pub require_both_quotes : Bool
  pub min_volume : ℕ
  pub commission_rate : ℕ
  pub max_spread_width_pct : ℕ
  pub min_calendar_gap_days : ℕ

-- Two quotes in order, and not too far apart for their middle.
abbrev pub tight : ℕ → Option (ℕ × ℕ) → Bool
tight limit none = false
tight limit (some (bid, ask)) =
    leb bid ask && leb ((ask - bid) * 2 * rate_unit) (limit * (bid + ask))

unfoldable pub accepts_quotes : ScanFilters → OptionContract → Bool
unfolding quotes or_else
accepts_quotes f c =
    if f.require_both_quotes
    then tight f.max_relative_spread (quotes c.bid c.ask)
    else is_some (or_else c.bid (or_else c.ask (or_else c.last_price none)))

unfoldable pub accepts : ScanFilters → ℕ → OptionContract → Bool
unfolding accepts_quotes
accepts f today c =
    leb (today + f.min_days_to_expiry) c.expiry
    && leb c.expiry (today + f.max_days_to_expiry)
    && leb f.min_open_interest c.open_interest
    && leb f.min_volume c.volume
    && ltb 0 c.strike
    && accepts_quotes f c

unfoldable pub usable : ScanFilters → OptionChain → ℕ → List OptionContract
unfolding keep_contracts accepts
usable f chain today = keep_contracts (accepts f today) chain.contracts

-- Contracts under a key, in the order in which they came.
abbrev pub Group : Type 0
Group = ℕ × List OptionContract

unfoldable pub add_contract : ℕ → OptionContract → List Group → List Group
add_contract key c [] = (key, c ∷ []) ∷ []
add_contract key c ((k, cs) ∷ groups) =
    let rest = add_contract key c groups in
    if k == key then (k, cs ++ c ∷ []) ∷ groups else (k, cs) ∷ rest

unfoldable pub group_by : (OptionContract → ℕ) → List Group → List OptionContract → List Group
unfolding add_contract
group_by key groups [] = groups
group_by key groups (c ∷ cs) = group_by key (add_contract (key c) c groups) cs

unfoldable pub by_expiry : List OptionContract → List Group
unfolding group_by
by_expiry contracts = group_by (λ c. c.expiry) [] contracts

-- `itertools.combinations` of two.
unfoldable pub combinations : List OptionContract → List (OptionContract × OptionContract)
combinations [] = []
combinations (c ∷ cs) = map (λ d. (c, d)) cs ++ combinations cs

-- The results that a loop with `continue` appends.
unfoldable pub add_found {ℓ} : {A : Type ℓ} → Option A → List A → List A
add_found none results = results
add_found (some result) results = result ∷ results

unfoldable pub found_by {ℓ κ} : {A : Type ℓ} {B : Type κ} → (A → Option B) → List A → List B
unfolding add_found
found_by f [] = []
found_by f (x ∷ xs) = add_found (f x) (found_by f xs)

unfoldable pub for_each {ℓ κ} : {A : Type ℓ} {B : Type κ} → (A → List B) → List A → List B
for_each f [] = []
for_each f (x ∷ xs) = f x ++ for_each f xs

unfoldable pub structure : ScanFilters → OptionChain → List PositionLeg → StrategyPayoff
structure f chain legs = record {
  legs = legs;
  commission_rate = f.commission_rate;
  underlying_price = some chain.spot_price;
  required_margin = none;
  single_expiry = true;
}

-- Python's `value or 0`.
abbrev pub or_zero_ratio : Option Ratio → Ratio
or_zero_ratio none = ratio_ℕ 0 1
or_zero_ratio (some r) = r

abbrev pub ratio_leb : Ratio → Ratio → Bool
ratio_leb r s = leb_ℤ (r.num *ℤ pos s.den) (s.num *ℤ pos r.den)

-- A spread of two strikes with its metadata.
pub record Spread : Type 0 where
  pub payoff : StrategyPayoff
  pub expiration : ℕ
  pub long_strike : ℕ
  pub short_strike : ℕ
  pub spread_width : ℕ
  pub max_spread_value : ℕ
  pub is_debit : Bool

unfoldable pub spread_legs : OptionContract → OptionContract → List PositionLeg
unfolding leg_from_contract
spread_legs long_leg short_leg =
    leg_from_contract long_leg buy 1 Role.long ∷ leg_from_contract short_leg sell 1 Role.short ∷ []

unfoldable pub make_spread :
    ScanFilters → OptionChain → ℕ → ℕ → OptionContract → OptionContract → Spread
unfolding structure spread_legs
make_spread f chain expiry width long_leg short_leg =
    let payoff = structure f chain (spread_legs long_leg short_leg) in
    record {
      payoff = payoff;
      expiration = expiry;
      long_strike = long_leg.strike;
      short_strike = short_leg.strike;
      spread_width = width;
      max_spread_value = width * max long_leg.contract_size short_leg.contract_size;
      is_debit = ltb_ℤ (pos 0) (net_premium payoff);
    }

-- Strikes that differ, and not by too much of the price of the underlying.
unfoldable pub is_narrow : ℕ → ℕ → ℕ → ℕ → Bool
is_narrow max_width_pct spot lower upper =
    ltb lower upper && not (ltb 0 spot && ltb (max_width_pct * spot) ((upper - lower) * rate_unit))

abbrev pub is_gain : Option ℤ → Bool
is_gain none = true
is_gain (some profit) = ltb_ℤ (pos 0) profit

abbrev pub size : ℤ → ℕ
size n = pos_part n + neg_part n

-- The premium is not more than the spread can be worth, and there is something to gain.
unfoldable pub is_coherent : Spread → Bool
unfolding net_premium max_profit
is_coherent s =
    leb (size (net_premium s.payoff)) s.max_spread_value && is_gain (max_profit s.payoff)

abbrev pub only_if {ℓ} : {A : Type ℓ} → Bool → A → Option A
only_if true a = some a
only_if false a = none

unfoldable pub vertical_spread :
    ScanFilters → OptionChain → Bool → ℕ → ℕ → OptionContract × OptionContract → Option Spread
unfolding is_narrow is_coherent make_spread
vertical_spread f chain long_is_lower max_width_pct expiry (lower, upper) =
    let width = upper.strike - lower.strike in
    let spread =
      if long_is_lower
      then make_spread f chain expiry width lower upper
      else make_spread f chain expiry width upper lower in
    only_if
      (is_narrow max_width_pct chain.spot_price lower.strike upper.strike && is_coherent spread)
      spread

abbrev pub strike_before : OptionContract → OptionContract → Bool
strike_before c d = leb c.strike d.strike

-- Fewer than two contracts have no combinations, so that the early `continue` changes nothing.
unfoldable pub spreads_of : ScanFilters → OptionChain → OptionType → Bool → ℕ → Group → List Spread
unfolding found_by vertical_spread combinations sort keep_contracts
spreads_of f chain option_type long_is_lower max_width_pct (expiry, contracts) =
    found_by (vertical_spread f chain long_is_lower max_width_pct expiry) (
      combinations
        (sort strike_before (keep_contracts (λ c. same_type c.option_type option_type) contracts)))

-- Sorted by the key `-(roi or 0)`.
unfoldable pub better_roi : Spread → Spread → Bool
unfolding roi
better_roi s t = ratio_leb (or_zero_ratio (roi t.payoff)) (or_zero_ratio (roi s.payoff))

unfoldable pub vertical_spreads :
    ScanFilters → OptionChain → OptionType → Bool → ℕ → ℕ → ℕ → List Spread
unfolding for_each spreads_of by_expiry usable sort better_roi
vertical_spreads f chain option_type long_is_lower today limit max_width_pct = take limit (
    sort better_roi (
      for_each (spreads_of f chain option_type long_is_lower max_width_pct)
        (by_expiry (usable f chain today))))

pub scan_bull_call_spread : ScanFilters → OptionChain → ℕ → ℕ → List Spread
unfolding vertical_spreads
scan_bull_call_spread f chain today limit =
    vertical_spreads f chain call true today limit f.max_spread_width_pct

pub scan_bear_call_spread : ScanFilters → OptionChain → ℕ → ℕ → List Spread
unfolding vertical_spreads
scan_bear_call_spread f chain today limit =
    vertical_spreads f chain call false today limit f.max_spread_width_pct

pub scan_bull_put_spread : ScanFilters → OptionChain → ℕ → ℕ → List Spread
unfolding vertical_spreads
scan_bull_put_spread f chain today limit =
    vertical_spreads f chain put true today limit f.max_spread_width_pct

pub scan_bear_put_spread : ScanFilters → OptionChain → ℕ → ℕ → List Spread
unfolding vertical_spreads
scan_bear_put_spread f chain today limit =
    vertical_spreads f chain put false today limit f.max_spread_width_pct
