-- ===== src/Scanner/Tests.antt =====
-- Runs of the scanner.
use garnet_trader.Prelude.{
  ℕ, zero, suc, ◌+◌, ◌≡◌, refl, true, false, Option, none, some, List, [], ◌∷◌, map, length, leb,
  ◌≤◌, ◌++◌, All, arith,
}
use mathlib.Core.List.{Perm}
use garnet_trader.Prelude.Int.{◌-ℤ◌, ◌+ℤ◌, ◌*ℤ◌}
use garnet_trader.Prelude.Text.{Text, codes, text_eq}
use garnet_trader.Prelude.Dict.{lookup}
use garnet_trader.Payoff.{OptionType, call, put}
use garnet_trader.Payoff.Contracts.{OptionContract, OptionChain}
use garnet_trader.Scanner.{ScanFilters, Spread, vertical_spreads}
use garnet_trader.Scanner.Spreads.{IronCondor, scan_iron_condor}
use garnet_trader.Scanner.Vertical.{IsVertical, vertical_spreads-IsVertical}
use garnet_trader.Scanner.Condor.{IsCondor, scan_iron_condor-IsCondor}
use garnet_trader.Scanner.Ranking.{
  rank_keys, rank_strategies, InOrder, falling, rank_strategies-IsSorted,
}

abbrev filters : ScanFilters
filters = record {
  min_days_to_expiry = 7;
  max_days_to_expiry = 120;
  min_open_interest = 50;
  max_relative_spread = 350000;
  require_both_quotes = true;
  min_volume = 0;
  commission_rate = 500;
  max_spread_width_pct = 300000;
  min_calendar_gap_days = 14;
}

abbrev contract : OptionType → ℕ → ℕ → ℕ → OptionContract
contract type strike expiry bid = record {
  symbol = [];
  underlying = [];
  option_type = type;
  strike = strike;
  expiry = expiry;
  bid = some bid;
  ask = some (bid + 1);
  last_price = none;
  open_interest = 100;
  volume = 0;
  contract_size = 1000;
  ins_code = [];
}

-- On day 0 the price is 100. The last contract ends too soon.
abbrev chain : OptionChain
chain = record {
  underlying = [];
  spot_price = 100;
  as_of = 0;
  contracts =
      contract call 110 30 9
      ∷ contract put 90 30 8
      ∷ contract call 120 30 5
      ∷ contract put 80 30 4
      ∷ contract call 110 60 15
      ∷ contract call 130 3 5
      ∷ [];
}

found_spreads :
    map {B = ℕ × ℕ}
      (λ (s : Spread). (s.long_strike, s.short_strike))
      (vertical_spreads filters chain call true 0 20 300000)
    ≡ (110, 120) ∷ []
unfolding vertical_spreads ◌-ℤ◌ ◌*ℤ◌ ◌+ℤ◌
found_spreads = refl

found_condors :
    map {B = ℕ × ℕ}
      (λ (s : IronCondor). (s.long_put_strike, s.long_call_strike))
      (scan_iron_condor filters chain 0 20)
    ≡ (80, 120) ∷ []
unfolding scan_iron_condor ◌-ℤ◌ ◌*ℤ◌ ◌+ℤ◌
found_condors = refl

vertical_spreads-IsVertical_example :
    All
      (IsVertical filters chain call true 0 300000)
      (vertical_spreads filters chain call true 0 20 300000)
    × (length (vertical_spreads filters chain call true 0 20 300000) ≤ 20)
vertical_spreads-IsVertical_example =
    vertical_spreads-IsVertical filters chain call true 0 20 300000

scan_iron_condor-IsCondor_example :
    All (IsCondor filters chain 0) (scan_iron_condor filters chain 0 20)
    × (length (scan_iron_condor filters chain 0 20) ≤ 20)
scan_iron_condor-IsCondor_example = scan_iron_condor-IsCondor filters chain 0 20

leb_trans : (u v w : ℕ) → leb u v ≡ true → leb v w ≡ true → leb u w ≡ true
leb_trans u v w h k = ground arith

leb_total : (v w : ℕ) → leb v w ≡ false → leb w v ≡ true
leb_total v w h = ground arith

-- Structures that are their own value, which 0 lacks.
abbrev read : Text → ℕ → Option ℕ
read key zero = none
read key (suc n) = some n

ranked :
    rank_strategies leb read (0 ∷ 3 ∷ 9 ∷ 0 ∷ 5 ∷ []) (codes "roi") none
    ≡ some (9 ∷ 5 ∷ 3 ∷ 0 ∷ 0 ∷ [])
unfolding rank_strategies text_eq
ranked = refl

unknown_key : rank_strategies leb read (0 ∷ 3 ∷ []) (codes "delta") none ≡ none
unfolding rank_strategies text_eq
unknown_key = refl

known_key : lookup (codes "roi") rank_keys ≡ some true
unfolding lookup text_eq
known_key = refl

rank_strategies-IsSorted_example :
    (ranked : List ℕ) × (missing : List ℕ) × (rank_strategies leb read
        (0 ∷ 3 ∷ 9 ∷ 5 ∷ [])
        (codes "roi")
        none
      ≡ some (ranked ++ missing))
    × InOrder leb (read (codes "roi")) (falling none true) ranked
    × All (λ s. (v : ℕ) × (read (codes "roi") s ≡ some v)) ranked
    × All (λ s. read (codes "roi") s ≡ none) missing
    × Perm (ranked ++ missing) (0 ∷ 3 ∷ 9 ∷ 5 ∷ [])
rank_strategies-IsSorted_example =
    rank_strategies-IsSorted leb leb_trans leb_total read (0 ∷ 3 ∷ 9 ∷ 5 ∷ []) (codes "roi") none
      true known_key
