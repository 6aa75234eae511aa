-- ===== src/Scanner/Spreads.antt =====
-- strategies/scanner.py: the iron condor and the calendar spread, and all the scans of a chain.
use garnet_trader.Prelude.{
  ℕ, ◌-◌, Bool, false, ◌&&◌, Option, none, some, List, [], ◌∷◌, ◌++◌, map, take, length,
  if◌then◌else◌, ltb, leb,
}
use garnet_trader.Prelude.Int.{pos, ltb_ℤ, leb_ℤ}
use garnet_trader.Prelude.Sort.{sort}
use garnet_trader.Payoff.{
  buy, sell, OptionType, call, put, PositionLeg, StrategyPayoff, is_some, net_premium, net_credit,
  net_cost,
}
use garnet_trader.Payoff.Capital.{roi}
use garnet_trader.Payoff.Contracts.{OptionContract, OptionChain, keep_contracts, leg_from_contract}
use garnet_trader.Scanner.Role
use garnet_trader.Scanner.Structures.{
  of_type, puts_below, calls_above, scan_long_straddle, scan_collar,
}
use garnet_trader.Scanner.{
  ScanFilters, Group, usable, by_expiry, group_by, combinations, found_by, for_each, structure,
  or_zero_ratio, ratio_leb, only_if, strike_before, scan_bull_call_spread, scan_bear_call_spread,
  scan_bull_put_spread, scan_bear_put_spread,
}

-- `long_put_strike` and the other three, in the order of the legs.
pub record IronCondor : Type 0 where
  pub payoff : StrategyPayoff
  pub expiration : ℕ
  pub long_put_strike : ℕ
  pub short_put_strike : ℕ
  pub short_call_strike : ℕ
  pub long_call_strike : ℕ
  pub put_spread_width : ℕ
  pub call_spread_width : ℕ

abbrev pub Pair : Type 0
Pair = OptionContract × OptionContract

unfoldable pub condor_legs : Pair → Pair → List PositionLeg
unfolding leg_from_contract
condor_legs (long_put, short_put) (short_call, long_call) =
    leg_from_contract long_put buy 1 Role.long_put
    ∷ leg_from_contract short_put sell 1 Role.short_put
    ∷ leg_from_contract short_call sell 1 Role.short_call
    ∷ leg_from_contract long_call buy 1 Role.long_call
    ∷ []

unfoldable pub make_condor : ScanFilters → OptionChain → ℕ → Pair → Pair → IronCondor
unfolding structure condor_legs
make_condor f chain expiry puts calls = record {
  payoff = structure f chain (condor_legs puts calls);
  expiration = expiry;
  long_put_strike = puts.0.strike;
  short_put_strike = puts.1.strike;
  short_call_strike = calls.0.strike;
  long_call_strike = calls.1.strike;
  put_spread_width = puts.1.strike - puts.0.strike;
  call_spread_width = calls.1.strike - calls.0.strike;
}

-- The two tests of a pair are made again by the test of all four strikes.
unfoldable pub in_order : Pair → Pair → Bool
in_order puts calls =
    ltb puts.0.strike puts.1.strike
    && ltb calls.0.strike calls.1.strike
    && ltb puts.1.strike calls.0.strike

unfoldable pub iron_condor : ScanFilters → OptionChain → ℕ → Pair → Pair → Option IronCondor
unfolding make_condor in_order net_credit
iron_condor f chain expiry puts calls =
    let condor = make_condor f chain expiry puts calls in
    only_if (in_order puts calls && is_some (net_credit condor.payoff)) condor

-- Python's `contracts[-n:]`.
unfoldable pub last_contracts : ℕ → List OptionContract → List OptionContract
last_contracts n [] = []
last_contracts n (c ∷ cs) =
    let rest = last_contracts n cs in if ltb (length cs) n then c ∷ cs else rest

-- The two puts and the two calls nearest to the price are taken from five of each.
unfoldable pub condors_of : ScanFilters → OptionChain → Group → List IronCondor
unfolding for_each found_by iron_condor combinations last_contracts sort keep_contracts
condors_of f chain (expiry, contracts) =
    let puts = sort strike_before (puts_below chain.spot_price contracts) in
    let calls = sort strike_before (calls_above chain.spot_price contracts) in
    let call_pairs = combinations (take 5 calls) in
    for_each (λ p. found_by (iron_condor f chain expiry p) call_pairs)
      (combinations (last_contracts 5 puts))

unfoldable pub better_condor : IronCondor → IronCondor → Bool
unfolding roi
better_condor s t = ratio_leb (or_zero_ratio (roi t.payoff)) (or_zero_ratio (roi s.payoff))

unfoldable pub scan_iron_condor : ScanFilters → OptionChain → ℕ → ℕ → List IronCondor
unfolding for_each condors_of by_expiry usable sort better_condor
scan_iron_condor f chain today limit =
    take limit
      (sort better_condor (for_each (condors_of f chain) (by_expiry (usable f chain today))))

pub record CalendarSpread : Type 0 where
  pub payoff : StrategyPayoff
  pub expiration : ℕ
  pub strike : ℕ
  pub option_type : OptionType
  pub near_expiry : ℕ
  pub far_expiry : ℕ
  pub gap_days : ℕ

unfoldable pub over_two_expiries :
    ScanFilters → OptionChain → OptionContract → OptionContract → StrategyPayoff
unfolding leg_from_contract
over_two_expiries f chain near far = record {
  legs =
      leg_from_contract near sell 1 Role.short_near
      ∷ leg_from_contract far buy 1 Role.long_far
      ∷ [];
  commission_rate = f.commission_rate;
  underlying_price = some chain.spot_price;
  required_margin = none;
  single_expiry = false;
}

unfoldable pub calendar_spread :
    ScanFilters → OptionChain → OptionType → ℕ → Pair → Option CalendarSpread
unfolding over_two_expiries net_premium
calendar_spread f chain option_type strike (near, far) =
    let payoff = over_two_expiries f chain near far in
    only_if
      (leb f.min_calendar_gap_days (far.expiry - near.expiry) && ltb_ℤ (pos 0) (net_premium payoff))
      (record {
        payoff = payoff;
        expiration = near.expiry;
        strike = strike;
        option_type = option_type;
        near_expiry = near.expiry;
        far_expiry = far.expiry;
        gap_days = far.expiry - near.expiry;
      })

unfoldable pub calendars_of : ScanFilters → OptionChain → OptionType → Group → List CalendarSpread
unfolding found_by calendar_spread combinations sort
calendars_of f chain option_type (strike, contracts) =
    found_by (calendar_spread f chain option_type strike)
      (combinations (sort (λ c d. leb c.expiry d.expiry) contracts))

unfoldable pub scan_calendar_spread : ScanFilters → OptionChain → ℕ → ℕ → List CalendarSpread
unfolding for_each calendars_of group_by usable sort net_cost keep_contracts
scan_calendar_spread f chain today limit =
    let of = λ (t : OptionType).
      for_each (calendars_of f chain t)
        (group_by (λ c. c.strike) [] (of_type t (usable f chain today))) in
    take limit (sort (λ s t. leb_ℤ (net_cost s.payoff) (net_cost t.payoff)) (of call ++ of put))

-- The keys of `SCAN_KINDS`, in its order.
pub data ScanKind : Type 0 where
  long_straddle : ScanKind
  collar_kind : ScanKind
  iron_condor_kind : ScanKind
  bull_call_spread : ScanKind
  bear_call_spread : ScanKind
  bull_put_spread : ScanKind
  bear_put_spread : ScanKind
  calendar_spread_kind : ScanKind

pub scan : ScanFilters → OptionChain → ℕ → ℕ → ScanKind → List StrategyPayoff
scan f chain today limit long_straddle =
    map (λ s. s.payoff) (scan_long_straddle f chain today limit)
scan f chain today limit collar_kind = map (λ s. s.payoff) (scan_collar f chain today limit none)
scan f chain today limit iron_condor_kind =
    map (λ s. s.payoff) (scan_iron_condor f chain today limit)
scan f chain today limit bull_call_spread =
    map (λ s. s.payoff) (scan_bull_call_spread f chain today limit)
scan f chain today limit bear_call_spread =
    map (λ s. s.payoff) (scan_bear_call_spread f chain today limit)
scan f chain today limit bull_put_spread =
    map (λ s. s.payoff) (scan_bull_put_spread f chain today limit)
scan f chain today limit bear_put_spread =
    map (λ s. s.payoff) (scan_bear_put_spread f chain today limit)
scan f chain today limit calendar_spread_kind =
    map (λ s. s.payoff) (scan_calendar_spread f chain today limit)

abbrev pub scan_kinds : List ScanKind
scan_kinds =
    long_straddle ∷ collar_kind ∷ iron_condor_kind ∷ bull_call_spread ∷ bear_call_spread
    ∷ bull_put_spread ∷ bear_put_spread ∷ calendar_spread_kind ∷ []

pub scan_all : ScanFilters → OptionChain → ℕ → ℕ → List (ScanKind × List StrategyPayoff)
scan_all f chain today limit = map (λ kind. (kind, scan f chain today limit kind)) scan_kinds
