-- ===== src/Strategies/Tests.antt =====
-- Runs of the registry and of the costs of legs.
use garnet_trader.Prelude.{ℕ, ◌≡◌, refl, none, some, [], ◌∷◌, map}
use garnet_trader.Prelude.Int.{pos, ◌+ℤ◌, ◌-ℤ◌}
use garnet_trader.Prelude.Text.{Text, codes, text_eq}
use garnet_trader.Prelude.Dict.{Dict}
use garnet_trader.Payoff.{Side, buy, sell, OptionType, call, put}
use garnet_trader.Strategies.{Leg, net_debit, structure_loss}
use garnet_trader.Strategies.Registry.{
  StrategyClass, BaseStrategy, register_strategy, create_strategies,
}

abbrev class_of : Text → ℕ → StrategyClass
class_of name identity = record { name = name; identity = identity }

abbrev registry : Dict StrategyClass
registry =
    (codes "straddle", class_of (codes "straddle") 1)
    ∷ (codes "collar", class_of (codes "collar") 2)
    ∷ []

base_refused : register_strategy (class_of (codes "base") 3) registry ≡ none
unfolding register_strategy text_eq
base_refused = refl

name_taken : register_strategy (class_of (codes "collar") 3) registry ≡ none
unfolding register_strategy text_eq
name_taken = refl

all_made :
    map (λ (s : BaseStrategy). s.strategy_class.identity) (create_strategies registry none)
    ≡ 2 ∷ 1 ∷ []
unfolding create_strategies text_eq
all_made = refl

-- Strategies that the settings do not name are not made, and unknown ones are passed over.
some_made :
    map
      (λ (s : BaseStrategy). s.strategy_class.identity)
      (create_strategies registry (some ((codes "x", none) ∷ (codes "straddle", none) ∷ [])))
    ≡ 1 ∷ []
unfolding create_strategies text_eq
some_made = refl

abbrev leg : OptionType → Side → Leg
leg type side = record {
  contract = record {
    symbol = [];
    underlying = [];
    option_type = type;
    strike = 100;
    expiry = 30;
    bid = some 4;
    ask = some 6;
    last_price = none;
    open_interest = 0;
    volume = 0;
    contract_size = 1000;
    ins_code = [];
  };
  side = side;
  ratio = 1;
  role = [];
}

cost : net_debit (leg call buy ∷ leg call sell ∷ []) ≡ pos 2
unfolding net_debit ◌-ℤ◌ ◌+ℤ◌
cost = refl

naked : structure_loss (leg call buy ∷ leg put sell ∷ []) (pos 2) ≡ none
unfolding structure_loss
naked = refl
