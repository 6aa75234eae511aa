-- ===== src/Scanner/Vertical.antt =====
-- The vertical spreads of strategies/scanner.py: what every one of them satisfies.
use mathlib.Core.Path.{subst}
use garnet_trader.Prelude.{
  ℕ, ◌≡◌, refl, ◌⊎◌, inl, inr, ◌+◌, ◌-◌, ◌*◌, ◌≤◌, ◌<◌, max, Bool, true, false, ◌&&◌, Option, none,
  some, [], ◌∷◌, leb, if◌then◌else◌, length, length-take, All, All-imp, arith,
}
use garnet_trader.Prelude.Int.{ℤ, pos, pos_part, neg_part, ◌+ℤ◌, ◌-ℤ◌, int_laws}
use garnet_trader.Prelude.Sort.{sort, All-sort}
use garnet_trader.Payoff.{
  buy, sell, OptionType, PositionLeg, units, net_premium, max_profit, total, keep, entry_cost,
  signed,
}
use garnet_trader.Payoff.Contracts.{
  OptionContract, OptionChain, same_type, keep_contracts, leg_from_contract,
}
use garnet_trader.Scanner.{
  ScanFilters, Spread, Group, usable, by_expiry, combinations, spread_legs, make_spread, structure,
  is_narrow, is_coherent, is_gain, size, vertical_spread, spreads_of, strike_before, better_roi,
  vertical_spreads, for_each,
}
use garnet_trader.Scanner.Role
use garnet_trader.Scanner.Accepted.{IsLeg, accepts-IsAccepted, leg_from_contract-IsLeg}
use garnet_trader.Scanner.Candidates.{
  IsUsable, IsCandidate, usable-IsUsable, same_type_eq, only_if-some, both, one_contract,
}
use garnet_trader.Scanner.Lists.{
  All-take, All-for_each, All-found_by, All-keep_contracts, All-combinations, InGroup,
  group_by-InGroup,
}

is_narrow_lem :
    (pct spot lower upper : ℕ)
    → is_narrow pct spot lower upper ≡ true
    → (lower < upper) × ((spot ≡ 0) ⊎ ((upper - lower) * 1000000 ≤ pct * spot))
unfolding is_narrow
is_narrow_lem pct spot lower upper h = ground (arith, h)

-- What is paid for one leg and what is received for the other differ by no more than an amount.
abbrev pub IsWorth : PositionLeg → PositionLeg → ℕ → Type 0
IsWorth bought sold most =
    (bought.entry_price * bought.contract_size ≤ sold.entry_price * sold.contract_size + most)
    × (sold.entry_price * sold.contract_size ≤ bought.entry_price * bought.contract_size + most)

-- The two contracts of a vertical spread, the one that is bought first, and what holds of them, of
-- the legs and of the spread.
abbrev pub IsVertical : ScanFilters → OptionChain → OptionType → Bool → ℕ → ℕ → Spread → Type 0
IsVertical f chain type long_is_lower today pct s =
    (lower : OptionContract) × (upper : OptionContract) × (bought : PositionLeg)
    × (sold : PositionLeg) × IsCandidate f chain today type s.expiration lower
    × IsCandidate f chain today type s.expiration upper
    × (s.payoff.legs ≡ bought ∷ sold ∷ [])
    × IsLeg buy (if long_is_lower then lower else upper) bought
    × IsLeg sell (if long_is_lower then upper else lower) sold
    × (lower.strike < upper.strike)
    × ((chain.spot_price ≡ 0) ⊎ ((upper.strike - lower.strike) * 1000000 ≤ pct * chain.spot_price))
    × IsWorth bought sold
        ((upper.strike - lower.strike) * max lower.contract_size upper.contract_size)
    × ((max_profit s.payoff ≡ none)
        ⊎ ((profit : ℤ) × (max_profit s.payoff ≡ some profit)
            × (neg_part profit < pos_part profit)))

long_leg : OptionContract → PositionLeg
long_leg c = leg_from_contract c buy 1 Role.long

short_leg : OptionContract → PositionLeg
short_leg c = leg_from_contract c sell 1 Role.short

difference_lem :
    (a b most : ℕ)
    → size (pos a +ℤ ((pos 0 -ℤ pos b) +ℤ pos 0)) ≤ most
    → (a ≤ b + most) × (b ≤ a + most)
difference_lem a b most h = (omega (int_laws, h), omega (int_laws, h))

net_premium-IsWorth :
    (f : ScanFilters) (chain : OptionChain) (long short : OptionContract) (most : ℕ)
    → size (net_premium (structure f chain (spread_legs long short))) ≤ most
    → IsWorth (long_leg long) (short_leg short) most
unfolding net_premium total keep entry_cost signed structure spread_legs leg_from_contract long_leg
    short_leg
net_premium-IsWorth f chain long short most h =
    let gap =
      difference_lem ((long_leg long).entry_price * units (long_leg long))
        ((short_leg short).entry_price * units (short_leg short)) most h in
    let paid = one_contract (long_leg long) refl in
    let received = one_contract (short_leg short) refl in
    (omega (arith, gap.0, paid, received), omega (arith, gap.1, paid, received))

gain_lem :
    (profit : Option ℤ)
    → is_gain profit ≡ true
    → (profit ≡ none) ⊎ ((p : ℤ) × (profit ≡ some p) × (neg_part p < pos_part p))
gain_lem none h = inl refl
gain_lem (some p) h = inr (p, refl, ground (arith, h))

is_coherent_lem :
    (s : Spread)
    → is_coherent s ≡ true
    → (size (net_premium s.payoff) ≤ s.max_spread_value) × (is_gain (max_profit s.payoff) ≡ true)
unfolding is_coherent
is_coherent_lem s h =
    let gates =
      both (leb (size (net_premium s.payoff)) s.max_spread_value) (is_gain (max_profit s.payoff))
        h in
    (ground (arith, gates.0), gates.1)

max_comm : (a b : ℕ) → max a b ≡ max b a
max_comm a b = omega arith

vertical_spread-IsVertical :
    (f : ScanFilters) (chain : OptionChain) (type : OptionType) (long_is_lower : Bool)
    (today pct expiry : ℕ) (p : OptionContract × OptionContract)
    → IsCandidate f chain today type expiry p.0 × IsCandidate f chain today type expiry p.1
    → (s : Spread) → vertical_spread f chain long_is_lower pct expiry p ≡ some s
    → IsVertical f chain type long_is_lower today pct s
unfolding vertical_spread make_spread structure spread_legs long_leg short_leg
vertical_spread-IsVertical f chain type true today pct expiry (lower, upper) h s found =
    let width = upper.strike - lower.strike in
    let spread = make_spread f chain expiry width lower upper in
    let narrow = is_narrow pct chain.spot_price lower.strike upper.strike in
    let kept = only_if-some (narrow && is_coherent spread) spread s found in
    let gates = both narrow (is_coherent spread) kept.0 in
    let close = is_narrow_lem pct chain.spot_price lower.strike upper.strike gates.0 in
    let worth = is_coherent_lem spread gates.1 in
    let most = width * max lower.contract_size upper.contract_size in
    subst (IsVertical f chain type true today pct) kept.1 (
      lower,
      upper,
      long_leg lower,
      short_leg upper,
      h.0,
      h.1,
      refl,
      leg_from_contract-IsLeg buy lower Role.long,
      leg_from_contract-IsLeg sell upper Role.short,
      close.0,
      close.1,
      net_premium-IsWorth f chain lower upper most worth.0,
      gain_lem (max_profit spread.payoff) worth.1,
    )
vertical_spread-IsVertical f chain type false today pct expiry (lower, upper) h s found =
    let width = upper.strike - lower.strike in
    let spread = make_spread f chain expiry width upper lower in
    let narrow = is_narrow pct chain.spot_price lower.strike upper.strike in
    let kept = only_if-some (narrow && is_coherent spread) spread s found in
    let gates = both narrow (is_coherent spread) kept.0 in
    let close = is_narrow_lem pct chain.spot_price lower.strike upper.strike gates.0 in
    let worth = is_coherent_lem spread gates.1 in
    let most = width * max lower.contract_size upper.contract_size in
    let bounded =
      subst (λ m. size (net_premium spread.payoff) ≤ width * m)
        (max_comm upper.contract_size lower.contract_size) worth.0 in
    subst (IsVertical f chain type false today pct) kept.1 (
      lower,
      upper,
      long_leg upper,
      short_leg lower,
      h.0,
      h.1,
      refl,
      leg_from_contract-IsLeg buy upper Role.long,
      leg_from_contract-IsLeg sell lower Role.short,
      close.0,
      close.1,
      net_premium-IsWorth f chain upper lower most bounded,
      gain_lem (max_profit spread.payoff) worth.1,
    )

spreads_of-IsVertical :
    (f : ScanFilters) (chain : OptionChain) (type : OptionType) (long_is_lower : Bool)
    (today pct : ℕ) (group : Group)
    → InGroup (IsUsable f chain today) (λ c. c.expiry) group
    → All
        (IsVertical f chain type long_is_lower today pct)
        (spreads_of f chain type long_is_lower pct group)
unfolding spreads_of
spreads_of-IsVertical f chain type long_is_lower today pct (expiry, cs) h =
    let is_of : OptionContract → Bool = λ c. same_type c.option_type type in
    let candidate = IsCandidate f chain today type expiry in
    let kept =
      All-imp (λ c. (IsUsable f chain today c × (c.expiry ≡ expiry)) × (is_of c ≡ true)) candidate
        (λ c u. (
          u.0.0.0,
          accepts-IsAccepted f today c u.0.0.1,
          u.0.1,
          same_type_eq c.option_type type u.1,
        ))
        (keep_contracts is_of cs)
        (All-keep_contracts (λ c. IsUsable f chain today c × (c.expiry ≡ expiry)) is_of cs h) in
    let sorted = sort strike_before (keep_contracts is_of cs) in
    All-found_by (λ (p : OptionContract × OptionContract). candidate p.0 × candidate p.1)
      (IsVertical f chain type long_is_lower today pct)
      (vertical_spread f chain long_is_lower pct expiry)
      (vertical_spread-IsVertical f chain type long_is_lower today pct expiry) (combinations sorted)
      (All-combinations candidate sorted
        (All-sort strike_before candidate (keep_contracts is_of cs) kept))

-- Every spread that a scan for vertical spreads gives is made of two contracts of the chain, of the
-- type asked for and of the expiry of the spread, that have what the filters ask: days to the end,
-- open interest, volume, a strike, and tight quotes where both are required. The strike of the lower
-- is less than that of the upper, by no more than the share of the price of the underlying that is
-- allowed where there is a price. The legs are the purchase of one contract of the one, at its ask,
-- and the sale of one of the other, at its bid, as the flag says. What is paid and what is received
-- differ by no more than the width of the strikes times the larger contract size, and the greatest
-- profit is positive where it is known. No more spreads are given than the limit.
pub vertical_spreads-IsVertical :
    (f : ScanFilters) (chain : OptionChain) (type : OptionType) (long_is_lower : Bool)
    (today limit pct : ℕ)
    → All
        (IsVertical f chain type long_is_lower today pct)
        (vertical_spreads f chain type long_is_lower today limit pct)
      × (length (vertical_spreads f chain type long_is_lower today limit pct) ≤ limit)
unfolding vertical_spreads by_expiry
vertical_spreads-IsVertical f chain type long_is_lower today limit pct =
    let good = IsVertical f chain type long_is_lower today pct in
    let usable_in_group = InGroup (IsUsable f chain today) (λ c. c.expiry) in
    let groups = by_expiry (usable f chain today) in
    let found = for_each (spreads_of f chain type long_is_lower pct) groups in
    let grouped =
      group_by-InGroup (IsUsable f chain today) (λ c. c.expiry) [] (usable f chain today)
        (usable-IsUsable f chain today) tt in
    let all =
      All-for_each usable_in_group good (spreads_of f chain type long_is_lower pct)
        (spreads_of-IsVertical f chain type long_is_lower today pct) groups grouped in
    let bound = length-take limit (sort better_roi found) in
    (
      All-take good limit (sort better_roi found) (All-sort better_roi good found all),
      omega (arith, bound),
    )
