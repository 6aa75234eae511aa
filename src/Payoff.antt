-- ===== src/Payoff.antt =====
-- strategies/payoff.py: the profit at expiry of a position of several legs, its extremes, its cost
-- and the capital that it needs, and the legs made from the contracts of data/option_chain_client.py.
-- Prices are whole numbers of a unit of which the strikes and quotes are even multiples, so that
-- the halves that the code takes are exact. Amounts of a whole structure are counted in millionths
-- of that unit, as the rate of commission is.
pub mod Slope
pub mod Walk
pub mod Extremes
pub mod Limits
pub mod Capital
pub mod Cost
pub mod Contracts
mod Tests
use garnet_trader.Prelude.{
  ℕ, zero, suc, ◌+◌, ◌-◌, ◌*◌, ◌/◌, min, max, Bool, true, false, not, ◌&&◌, ◌||◌, Option, none,
  some, List, [], ◌∷◌, ◌++◌, map, if◌then◌else◌, ltb, leb, ◌==◌,
}
use garnet_trader.Prelude.Int.{
  ℤ, pos, negsuc, pos_part, neg_part, ◌+ℤ◌, ◌-ℤ◌, ◌*ℤ◌, ltb_ℤ, max_ℤ, min_ℤ,
}
use garnet_trader.Prelude.Ratio.{Ratio, ratio, ratio_ℕ}
use garnet_trader.Prelude.Sort.{sort}

pub data Side : Type 0 where
  buy : Side
  sell : Side

-- The program's text "call" or "put"; it treats any other text as "put".
pub data OptionType : Type 0 where
  call : OptionType
  put : OptionType

-- `option_type` is missing for the underlying itself. Dates are day numbers, texts lists of codes.
pub record PositionLeg : Type 0 where
  pub side : Side
  pub quantity : ℕ
  pub entry_price : ℕ
  pub contract_size : ℕ
  pub option_type : Option OptionType
  pub strike : Option ℕ
  pub expiry : Option ℕ
  pub symbol : List ℕ
  pub role : List ℕ
  pub bid : Option ℕ
  pub ask : Option ℕ
  pub open_interest : ℕ
  pub volume : ℕ
  pub ins_code : List ℕ

abbrev pub is_buy : Side → Bool
is_buy buy = true
is_buy sell = false

abbrev pub is_some {ℓ} : {A : Type ℓ} → Option A → Bool
is_some none = false
is_some (some a) = true

abbrev pub is_long : PositionLeg → Bool
is_long leg = is_buy leg.side

abbrev pub is_option : PositionLeg → Bool
is_option leg = is_some leg.option_type

abbrev pub names_call : Option OptionType → Bool
names_call none = false
names_call (some call) = true
names_call (some put) = false

abbrev pub is_call : PositionLeg → Bool
is_call leg = names_call leg.option_type

abbrev pub units : PositionLeg → ℕ
units leg = leg.quantity * leg.contract_size

-- An amount for a purchase, its opposite for a sale.
unfoldable pub signed : Bool → ℤ → ℤ
signed true amount = amount
signed false amount = pos 0 -ℤ amount

-- What entering a leg costs: positive is paid, negative received.
unfoldable pub entry_cost : PositionLeg → ℤ
entry_cost leg = signed (is_long leg) (pos (leg.entry_price * units leg))

unfoldable pub quotes : Option ℕ → Option ℕ → Option (ℕ × ℕ)
quotes none ask = none
quotes (some bid) none = none
quotes (some bid) (some ask) = if leb bid 0 || leb ask 0 then none else some (bid, ask)

unfoldable pub bid_ask_spread : PositionLeg → Option ℤ
unfolding quotes
bid_ask_spread leg = elim (quotes leg.bid leg.ask) [
  | none ↦ none
  | some (bid, ask) ↦ some (pos ask -ℤ pos bid)
]

-- The spread over the mean of the two quotes, as an exact quotient.
unfoldable pub relative_spread : PositionLeg → Option Ratio
unfolding quotes
relative_spread leg = elim (quotes leg.bid leg.ask) [
  | none ↦ none
  | some (bid, ask) ↦ some (ratio ((pos ask -ℤ pos bid) *ℤ pos 2) (bid + ask))
]

-- The value of one unit at expiry; for an option without a strike it is 0.
unfoldable pub value_of : Option OptionType → Option ℕ → ℕ → ℕ
value_of none strike price = price
value_of (some type) none price = 0
value_of (some call) (some strike) price = price - strike
value_of (some put) (some strike) price = strike - price

unfoldable pub intrinsic_at : PositionLeg → ℕ → ℕ
unfolding value_of
intrinsic_at leg price = value_of leg.option_type leg.strike price

unfoldable pub payoff_at : PositionLeg → ℕ → ℤ
unfolding intrinsic_at signed
payoff_at leg price =
    signed (is_long leg) ((pos (intrinsic_at leg price) -ℤ pos leg.entry_price) *ℤ pos (units leg))

-- The rate of commission is counted in millionths, and so are the amounts that depend on it.
abbrev pub rate_unit : ℕ
rate_unit = 1000000

pub record StrategyPayoff : Type 0 where
  pub legs : List PositionLeg
  pub commission_rate : ℕ
  pub underlying_price : Option ℕ
  pub required_margin : Option ℕ
  pub single_expiry : Bool

abbrev pub in_millionths : ℤ → ℤ
in_millionths amount = amount *ℤ pos rate_unit

-- Sums over the legs, and over those that pass a test.
unfoldable pub total : (PositionLeg → ℤ) → List PositionLeg → ℤ
total amount [] = pos 0
total amount (leg ∷ legs) = amount leg +ℤ total amount legs

unfoldable pub count : (PositionLeg → Bool) → List PositionLeg → ℕ
count test [] = 0
count test (leg ∷ legs) = (if test leg then leg.quantity else 0) + count test legs

unfoldable pub any : (PositionLeg → Bool) → List PositionLeg → Bool
any test [] = false
any test (leg ∷ legs) = test leg || any test legs

unfoldable pub keep : (PositionLeg → Bool) → List PositionLeg → List PositionLeg
keep test [] = []
keep test (leg ∷ legs) = if test leg then leg ∷ keep test legs else keep test legs

unfoldable pub turnover : List PositionLeg → ℕ
turnover [] = 0
turnover (leg ∷ legs) = leg.entry_price * units leg + turnover legs

unfoldable pub commission : StrategyPayoff → ℕ
unfolding turnover
commission s = if leb s.commission_rate 0 then 0 else turnover s.legs * s.commission_rate

-- The smallest of some numbers, and 0 of none.
unfoldable pub smallest : List ℕ → ℕ
smallest [] = 0
smallest (x ∷ []) = x
smallest (x ∷ y ∷ xs) = min x (smallest (y ∷ xs))

unfoldable pub largest : List ℕ → ℕ
largest [] = 0
largest (x ∷ xs) = max x (largest xs)

unfoldable pub quantity : StrategyPayoff → ℕ
unfolding smallest
quantity s = smallest (map (λ leg. leg.quantity) s.legs)

pub contract_multiplier : StrategyPayoff → ℕ
unfolding keep largest
contract_multiplier s = elim (keep is_option s.legs) [
  | [] ↦ 1000
  | leg ∷ legs ↦ largest (map (λ leg. leg.contract_size) (leg ∷ legs))
]

-- In price units: no commission enters it.
unfoldable pub net_premium : StrategyPayoff → ℤ
unfolding total keep entry_cost
net_premium s = total entry_cost (keep is_option s.legs)

unfoldable pub net_credit : StrategyPayoff → Option ℤ
unfolding net_premium
net_credit s =
    let premium = net_premium s in if ltb_ℤ premium (pos 0) then some (pos 0 -ℤ premium) else none

unfoldable pub net_cost : StrategyPayoff → ℤ
unfolding total entry_cost commission
net_cost s = in_millionths (total entry_cost s.legs) +ℤ pos (commission s)

-- The profit of the whole structure when the underlying stands at a price at expiry.
unfoldable pub payoff : StrategyPayoff → ℕ → ℤ
unfolding total payoff_at commission
payoff s price = in_millionths (total (λ leg. payoff_at leg price) s.legs) -ℤ pos (commission s)

abbrev pub is_long_call : PositionLeg → Bool
is_long_call leg = is_option leg && is_call leg && is_long leg

abbrev pub is_short_call : PositionLeg → Bool
is_short_call leg = is_option leg && is_call leg && not (is_long leg)

abbrev pub is_long_underlying : PositionLeg → Bool
is_long_underlying leg = not (is_option leg) && is_long leg

unfoldable pub has_unlimited_upside : StrategyPayoff → Bool
unfolding count any
has_unlimited_upside s =
    let long_calls = count is_long_call s.legs in
    let short_calls = count is_short_call s.legs in
    ltb short_calls long_calls || any is_long_underlying s.legs && short_calls == 0

unfoldable pub has_unlimited_downside : StrategyPayoff → Bool
unfolding count
has_unlimited_downside s =
    let short_calls = count is_short_call s.legs in
    let long_calls = count is_long_call s.legs in
    let covered = count is_long_underlying s.legs in ltb (long_calls + covered) short_calls

-- The strikes that are given and not 0, as a sorted set.
unfoldable pub given_strikes : List PositionLeg → List ℕ
given_strikes [] = []
given_strikes (leg ∷ legs) = elim leg.strike [
  | none ↦ given_strikes legs
  | some zero ↦ given_strikes legs
  | some (suc k) ↦ suc k ∷ given_strikes legs
]

unfoldable pub has : ℕ → List ℕ → Bool
has x [] = false
has x (y ∷ ys) = x == y || has x ys

unfoldable pub distinct : List ℕ → List ℕ
unfolding has
distinct [] = []
distinct (x ∷ xs) = if has x xs then distinct xs else x ∷ distinct xs

unfoldable pub strikes : StrategyPayoff → List ℕ
unfolding given_strikes distinct sort
strikes s = sort leb (distinct (given_strikes s.legs))

-- The midpoint of each two that follow each other.
unfoldable pub midpoints : List ℕ → List ℕ
midpoints [] = []
midpoints (a ∷ []) = []
midpoints (a ∷ b ∷ ks) = (a + b) / 2 ∷ midpoints (b ∷ ks)

unfoldable pub beyond : List ℕ → ℕ
unfolding smallest largest
beyond ks =
    let span = largest ks - smallest ks in largest ks + (if span == 0 then largest ks / 2 else span)

-- The prices tried after 0.
unfoldable pub probes_of : Option ℕ → List ℕ → List ℕ
unfolding midpoints beyond
probes_of none [] = []
probes_of (some zero) [] = []
probes_of (some (suc center)) [] = suc center * 2 ∷ []
probes_of price (k ∷ ks) = (k ∷ ks) ++ beyond (k ∷ ks) ∷ midpoints (k ∷ ks)

unfoldable pub best : Bool → ℤ → List ℤ → ℤ
best maximize v [] = v
best maximize v (w ∷ ws) = best maximize (if maximize then max_ℤ v w else min_ℤ v w) ws

unfoldable pub extreme : Bool → StrategyPayoff → ℤ
unfolding best payoff probes_of strikes
extreme maximize s =
    best maximize (payoff s 0) (map (payoff s) (probes_of s.underlying_price (strikes s)))

unfoldable pub max_profit : StrategyPayoff → Option ℤ
unfolding has_unlimited_upside extreme
max_profit s =
    if not s.single_expiry
    then none
    else (if has_unlimited_upside s then none else some (extreme true s))

unfoldable pub max_loss : StrategyPayoff → Option ℤ
unfolding has_unlimited_downside extreme
max_loss s =
    if not s.single_expiry
    then none
    else (if has_unlimited_downside s then none else some (extreme false s))
