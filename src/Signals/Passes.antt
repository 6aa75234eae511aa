-- ===== src/Signals/Passes.antt =====
-- signals/signal_generator.py: a pass over the symbols. The requests for market data, the broker's
-- list of holdings and the strategies are parameters; the rank of implied volatility is part of the
-- context that the requests give.
use garnet_trader.Prelude.{
  ℕ, ◌+◌, Bool, ◌&&◌, Option, none, some, List, [], ◌∷◌, ◌++◌, length, ltb, leb,
}
use garnet_trader.Prelude.Dict.{Dict, lookup, insert}
use garnet_trader.Prelude.Result.{Result, ok, raised}
use garnet_trader.Prelude.Text.{Text}
use garnet_trader.Signals.{Signal}
use garnet_trader.Signals.Generator.{GeneratorConfig, Generator, or_zero, process_batch}

pub record Strategy (C : Type 0) : Type 0 where
  pub name : Text
  pub generate : C → Result (List Signal)

-- What one pass meets: the answer to the requests for a symbol, which awaits the holding, the answer
-- of the broker when a symbol asks, and the strategies.
pub record World (C : Type 0) : Type 0 where
  pub fetch : Text → Result (Option ℕ → C)
  pub holdings_provider : Option (Text → Result (Dict ℕ))
  pub strategies : List (Strategy C)

abbrev pub held : Text → Dict ℕ → Option ℕ
held symbol holdings = elim (lookup symbol holdings) [ none ↦ some 0 | some n ↦ some n ]

unfoldable pub count_error : Text → Generator → Generator
count_error name g = record g {
  strategy_errors = insert name (or_zero (lookup name g.strategy_errors) + 1) g.strategy_errors;
}

unfoldable pub fail_symbol : Text → Generator → Generator
fail_symbol symbol g = record g { failed_symbols = g.failed_symbols ++ symbol ∷ [] }

abbrev pub fresh : Generator → Generator
fresh g = record g { holdings = none; failed_symbols = []; strategy_errors = [] }

-- `symbols or self.config.symbols`
abbrev pub chosen : GeneratorConfig → List Text → List Text
chosen c [] = c.symbols
chosen c (symbol ∷ symbols) = symbol ∷ symbols

module _ {C : Type 0} where
  unfoldable pub holding_for : World C → Text → Generator → Option ℕ × Generator
  holding_for w symbol g = elim w.holdings_provider [
    | none ↦ (none, g)
    | some provider ↦ elim g.holdings [
      | some holdings ↦ (held symbol holdings, g)
      | none ↦ elim (provider symbol) [
        | raised ↦ (none, g)
        | ok holdings ↦ (held symbol holdings, record g { holdings = some holdings })
      ]
    ]
  ]

  unfoldable pub run_strategies :
      GeneratorConfig → List (Strategy C) → C → Generator → List Signal × Generator
  unfolding process_batch count_error
  run_strategies c [] context g = ([], g)
  run_strategies c (strategy ∷ strategies) context g = elim (strategy.generate context) [
    | raised ↦ run_strategies c strategies context (count_error strategy.name g)
    | ok raw ↦
        let (accepted, g') = process_batch c raw g in
        let (rest, g'') = run_strategies c strategies context g' in (accepted ++ rest, g'')
  ]

  unfoldable pub generate_for_symbol :
      GeneratorConfig → World C → Text → Generator → Result (List Signal) × Generator
  unfolding run_strategies holding_for
  generate_for_symbol c w symbol g = elim (w.fetch symbol) [
    | raised ↦ (raised, g)
    | ok make ↦
        let (holding, g') = holding_for w symbol g in
        let (signals, g'') = run_strategies c w.strategies (make holding) g' in (ok signals, g'')
  ]

  unfoldable pub run_symbols :
      GeneratorConfig → World C → List Text → Generator → List Signal × Generator
  unfolding generate_for_symbol fail_symbol
  run_symbols c w [] g = ([], g)
  run_symbols c w (symbol ∷ symbols) g =
      let (answer, g') = generate_for_symbol c w symbol g in
      elim answer [
        | raised ↦ run_symbols c w symbols (fail_symbol symbol g')
        | ok signals ↦ let (rest, g'') = run_symbols c w symbols g' in (signals ++ rest, g'')
      ]

  unfoldable pub run_once :
      GeneratorConfig → World C → List Text → Generator → List Signal × Generator
  unfolding run_symbols
  run_once c w symbols g = run_symbols c w (chosen c symbols) (fresh g)

pub all_symbols_failed : GeneratorConfig → Generator → Bool
all_symbols_failed c g =
    let planned = length c.symbols in ltb 0 planned && leb planned (length g.failed_symbols)
