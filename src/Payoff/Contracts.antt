-- ===== src/Payoff/Contracts.antt =====
-- data/option_chain_client.py: a contract of a chain and what is asked of it; the legs made from it.
use garnet_trader.Prelude.{
  ℕ, zero, suc, ◌+◌, ◌-◌, ◌/◌, Bool, true, false, ◌&&◌, Option, none, some, List, [], ◌∷◌,
  if◌then◌else◌, ltb, leb, ◌==◌,
}
use garnet_trader.Payoff.{Side, buy, sell, OptionType, call, put, PositionLeg}

-- The end of a contract is a day number.
pub record OptionContract : Type 0 where
  pub symbol : List ℕ
  pub underlying : List ℕ
  pub option_type : OptionType
  pub strike : ℕ
  pub expiry : ℕ
  pub bid : Option ℕ
  pub ask : Option ℕ
  pub last_price : Option ℕ
  pub open_interest : ℕ
  pub volume : ℕ
  pub contract_size : ℕ
  pub ins_code : List ℕ

-- Python's `or` on numbers that may be missing: what is missing or 0 gives way.
unfoldable pub or_else : Option ℕ → Option ℕ → Option ℕ
or_else none b = b
or_else (some zero) b = b
or_else (some (suc a)) b = some (suc a)

unfoldable pub mid_of : Option ℕ → Option ℕ → Option ℕ → Option ℕ
mid_of (some (suc b)) (some (suc a)) last = some ((suc b + suc a) / 2)
mid_of bid ask last = last

unfoldable pub mid_price : OptionContract → Option ℕ
unfolding mid_of
mid_price c = mid_of c.bid c.ask c.last_price

unfoldable pub days_to_expiry : OptionContract → ℕ → ℕ
days_to_expiry c today = c.expiry - today

pub is_liquid : OptionContract → ℕ → ℕ → Bool
is_liquid c min_open_interest min_volume =
    leb min_open_interest c.open_interest && leb min_volume c.volume

pub record OptionChain : Type 0 where
  pub underlying : List ℕ
  pub spot_price : ℕ
  pub as_of : ℕ
  pub contracts : List OptionContract

abbrev pub same_type : OptionType → OptionType → Bool
same_type call call = true
same_type call put = false
same_type put call = false
same_type put put = true

unfoldable pub keep_contracts : (OptionContract → Bool) → List OptionContract → List OptionContract
keep_contracts test [] = []
keep_contracts test (c ∷ cs) =
    let rest = keep_contracts test cs in if test c then c ∷ rest else rest

-- A test that is not asked for passes.
abbrev when {ℓ} : {A : Type ℓ} → Option A → (A → OptionContract → Bool) → OptionContract → Bool
when none test c = true
when (some a) test c = test a c

unfoldable pub filter :
    OptionChain → Option OptionType → Option ℕ → Option ℕ → Option ℕ → List OptionContract
unfolding keep_contracts days_to_expiry
filter chain option_type expiry min_days max_days =
    let of_type =
      keep_contracts (when option_type (λ t c. same_type c.option_type t)) chain.contracts in
    let of_expiry = keep_contracts (when expiry (λ e c. c.expiry == e)) of_type in
    let long_enough =
      keep_contracts (when min_days (λ d c. leb d (days_to_expiry c chain.as_of))) of_expiry in
    keep_contracts (when max_days (λ d c. leb (days_to_expiry c chain.as_of) d)) long_enough

abbrev gap : ℕ → OptionContract → ℕ
gap target c = (c.strike - target) + (target - c.strike)

-- The first of the contracts whose strike is nearest.
unfoldable pub nearest : ℕ → OptionContract → List OptionContract → OptionContract
nearest target c [] = c
nearest target c (d ∷ ds) = nearest target (if ltb (gap target d) (gap target c) then d else c) ds

pub nearest_strike : OptionChain → OptionType → ℕ → Option ℕ → Option OptionContract
unfolding filter nearest
nearest_strike chain option_type target expiry =
    elim (filter chain (some option_type) expiry none none) [
      | [] ↦ none
      | c ∷ cs ↦ some (nearest target c cs)
    ]

abbrev pub or_zero : Option ℕ → ℕ
or_zero none = 0
or_zero (some n) = n

-- A buyer pays the ask and a seller gets the bid; the middle and the last price stand in for them.
unfoldable pub leg_price : OptionContract → Side → ℕ
unfolding or_else mid_price
leg_price c buy = or_zero (or_else c.ask (or_else (mid_price c) (or_else c.last_price none)))
leg_price c sell = or_zero (or_else c.bid (or_else (mid_price c) (or_else c.last_price none)))

unfoldable pub leg_from_contract : OptionContract → Side → ℕ → List ℕ → PositionLeg
unfolding leg_price
leg_from_contract c side quantity role = record {
  side = side;
  quantity = quantity;
  entry_price = leg_price c side;
  contract_size = c.contract_size;
  option_type = some c.option_type;
  strike = some c.strike;
  expiry = some c.expiry;
  symbol = c.symbol;
  role = role;
  bid = c.bid;
  ask = c.ask;
  open_interest = c.open_interest;
  volume = c.volume;
  ins_code = c.ins_code;
}

-- The Persian name of the role.
abbrev underlying_role : List ℕ
underlying_role = 1587 ∷ 1607 ∷ 1605 ∷ 32 ∷ 1662 ∷ 1575 ∷ 1740 ∷ 1607 ∷ []

unfoldable pub underlying_leg : List ℕ → ℕ → ℕ → ℕ → Side → PositionLeg
underlying_leg symbol price quantity contract_size side = record {
  side = side;
  quantity = quantity;
  entry_price = price;
  contract_size = contract_size;
  option_type = none;
  strike = none;
  expiry = none;
  symbol = symbol;
  role = underlying_role;
  bid = none;
  ask = none;
  open_interest = 0;
  volume = 0;
  ins_code = [];
}
