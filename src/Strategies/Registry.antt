-- ===== src/Strategies/Registry.antt =====
-- strategies/registry.py: the classes of strategies by name, and the strategies made from settings. A
-- class is its name and a number that tells it from other classes; a strategy is its class with its
-- parameters.
use garnet_trader.Prelude.{
  ℕ, Bool, true, false, not, ◌||◌, ◌&&◌, Option, none, some, List, [], ◌∷◌, map, if◌then◌else◌,
  ◌==◌, ltb,
}
use garnet_trader.Prelude.Text.{Text, codes, text_eq}
use garnet_trader.Prelude.Dict.{Dict, lookup, insert}
use garnet_trader.Prelude.Sort.{sort}

pub record StrategyClass : Type 0 where
  pub name : Text
  pub identity : ℕ

-- The name of BaseStrategy itself.
abbrev base_name : Text
base_name = codes "base"

abbrev taken : Option StrategyClass → StrategyClass → Bool
taken none c = false
taken (some d) c = not (d.identity == c.identity)

-- Missing where the name is not allowed or belongs to another class.
unfoldable pub register_strategy : StrategyClass → Dict StrategyClass → Option (Dict StrategyClass)
unfolding lookup insert text_eq
register_strategy c registry =
    if text_eq c.name [] || text_eq c.name base_name || taken (lookup c.name registry) c
    then none
    else some (insert c.name c registry)

abbrev name_before : Text → Text → Bool
name_before [] t = true
name_before (c ∷ cs) [] = false
name_before (c ∷ cs) (d ∷ ds) = ltb c d || c == d && name_before cs ds

unfoldable pub available_strategies : Dict StrategyClass → List Text
unfolding sort
available_strategies registry = sort name_before (map (λ entry. entry.0) registry)

pub record BaseStrategy : Type 0 where
  pub strategy_class : StrategyClass
  pub params : Dict Text

abbrev or_empty : Option (Dict Text) → Dict Text
or_empty none = []
or_empty (some params) = params

-- Missing for a name that is not registered.
unfoldable pub create_strategy :
    Dict StrategyClass → Text → Option (Dict Text) → Option BaseStrategy
unfolding lookup
create_strategy registry name params = elim (lookup name registry) [
  | none ↦ none
  | some c ↦ some (record { strategy_class = c; params = or_empty params })
]

-- An entry of the settings; one that is empty is enabled.
pub record Entry : Type 0 where
  pub enabled : Option Bool
  pub params : Option (Dict Text)

abbrev is_enabled : Option Entry → Bool
is_enabled none = true
is_enabled (some e) = elim e.enabled [ none ↦ true | some b ↦ b ]

abbrev params_of : Option Entry → Option (Dict Text)
params_of none = none
params_of (some e) = e.params

abbrev with_created : Option BaseStrategy → List BaseStrategy → List BaseStrategy
with_created none rest = rest
with_created (some s) rest = s ∷ rest

unfoldable pub from_entries : Dict StrategyClass → Dict (Option Entry) → List BaseStrategy
unfolding create_strategy
from_entries registry [] = []
from_entries registry ((name, entry) ∷ config) =
    let rest = from_entries registry config in
    if is_enabled entry
    then with_created (create_strategy registry name (params_of entry)) rest
    else rest

unfoldable pub from_names : Dict StrategyClass → List Text → List BaseStrategy
unfolding create_strategy
from_names registry [] = []
from_names registry (name ∷ names) =
    with_created (create_strategy registry name none) (from_names registry names)

-- Without settings every registered strategy is made.
unfoldable pub create_strategies :
    Dict StrategyClass → Option (Dict (Option Entry)) → List BaseStrategy
unfolding from_names from_entries available_strategies
create_strategies registry none = from_names registry (available_strategies registry)
create_strategies registry (some []) = from_names registry (available_strategies registry)
create_strategies registry (some (entry ∷ config)) = from_entries registry (entry ∷ config)
