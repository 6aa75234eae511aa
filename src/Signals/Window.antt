-- ===== src/Signals/Window.antt =====
-- The window against duplicates, over any number of passes.
use mathlib.Core.Path.{subst}
use garnet_trader.Prelude.{◌≡◌, refl, sym, ◌⊎◌, inl, inr, List, [], ◌∷◌, ◌++◌, arith, Option-cases}
use garnet_trader.Prelude.Result.{ok, raised, Result-cases}
use garnet_trader.Prelude.Text.{Text}
use garnet_trader.Signals.{Signal}
use garnet_trader.Signals.Generator.{GeneratorConfig, Generator, process_batch}
use garnet_trader.Signals.Passes.{
  Strategy, World, holding_for, count_error, run_strategies, generate_for_symbol, fail_symbol,
  run_symbols, fresh, chosen, run_once,
}
use garnet_trader.Signals.Spacing.{IsSpaced, IsStep, IsStep-append, IsStep-none, IsStep-from}
use garnet_trader.Signals.Batch.{process_batch-IsStep}

-- Passes one after another, each with the world that it meets and the symbols that it is given.
unfoldable pub run_passes :
    {C : Type 0}
    → GeneratorConfig
    → List (World C × List Text)
    → Generator
    → List Signal × Generator
run_passes c [] g = ([], g)
run_passes c ((w, symbols) ∷ passes) g =
    let (signals, g') = run_once c w symbols g in
    let (rest, g'') = run_passes c passes g' in (signals ++ rest, g'')

module _ {C : Type 0} (c : GeneratorConfig) where
  holding_for-keeps :
      (w : World C) (symbol : Text) (g : Generator)
      → (holding_for w symbol g).1.last_emitted ≡ g.last_emitted
  unfolding holding_for
  holding_for-keeps w symbol g = elim (Option-cases w.holdings_provider) [
    | inl unknown ↦ ground (arith, unknown)
    | inr (provider, e) ↦ elim (Option-cases g.holdings) [
      | inr (holdings, f) ↦ ground (arith, e, f)
      | inl empty ↦ elim (Result-cases (provider symbol)) [
        | inl failed ↦ ground (arith, e, empty, failed)
        | inr (holdings, f) ↦ ground (arith, e, empty, f)
      ]
    ]
  ]

  run_strategies-IsStep :
      (strategies : List (Strategy C)) (context : C) (g : Generator)
      → IsStep c (run_strategies c strategies context g) g
  unfolding run_strategies count_error
  run_strategies-IsStep [] context g = IsStep-none c g g refl
  run_strategies-IsStep (strategy ∷ strategies) context g =
      elim (Result-cases (strategy.generate context)) [
        | inl failed ↦
            let g' = count_error strategy.name g in
            let same : run_strategies c (strategy ∷ strategies) context g
                ≡ run_strategies c strategies context g' =
              ground (arith, failed) in
            subst (λ r. IsStep c r g) (sym same)
              (IsStep-from c (run_strategies c strategies context g') g g' refl
                (run_strategies-IsStep strategies context g'))
        | inr (raw, e) ↦
            let first = process_batch c raw g in
            let rest = run_strategies c strategies context first.1 in
            let same : run_strategies c (strategy ∷ strategies) context g
                ≡ (first.0 ++ rest.0, rest.1) =
              ground (arith, e) in
            subst (λ r. IsStep c r g) (sym same)
              (IsStep-append c first.0 rest.0 g first.1 rest.1 (process_batch-IsStep c raw g)
                (run_strategies-IsStep strategies context first.1))
      ]

  -- The two ends that a symbol comes to.
  generate_for_symbol-cases :
      (w : World C) (symbol : Text) (g : Generator)
      → (generate_for_symbol c w symbol g ≡ (raised, g))
        ⊎ ((signals : List Signal) × (g' : Generator) × (generate_for_symbol c w symbol g
              ≡ (ok signals, g'))
            × IsStep c (signals, g') g)
  unfolding generate_for_symbol
  generate_for_symbol-cases w symbol g = elim (Result-cases (w.fetch symbol)) [
    | inl failed ↦ inl (ground (arith, failed))
    | inr (make, e) ↦
        let holding = holding_for w symbol g in
        let run = run_strategies c w.strategies (make holding.0) holding.1 in
        inr (
          run.0,
          run.1,
          ground (arith, e),
          IsStep-from c run g holding.1 (holding_for-keeps w symbol g)
              (run_strategies-IsStep w.strategies (make holding.0) holding.1),
        )
  ]

  run_symbols-IsStep :
      (w : World C) (symbols : List Text) (g : Generator) → IsStep c (run_symbols c w symbols g) g
  unfolding run_symbols fail_symbol
  run_symbols-IsStep w [] g = IsStep-none c g g refl
  run_symbols-IsStep w (symbol ∷ symbols) g = elim (generate_for_symbol-cases w symbol g) [
    | inl failed ↦
        let g' = fail_symbol symbol g in
        let same : run_symbols c w (symbol ∷ symbols) g ≡ run_symbols c w symbols g' =
          ground (arith, failed) in
        subst (λ r. IsStep c r g) (sym same)
          (IsStep-from c (run_symbols c w symbols g') g g' refl (run_symbols-IsStep w symbols g'))
    | inr (signals, g', e, step) ↦
        let rest = run_symbols c w symbols g' in
        let same : run_symbols c w (symbol ∷ symbols) g ≡ (signals ++ rest.0, rest.1) =
          ground (arith, e) in
        subst (λ r. IsStep c r g) (sym same)
          (IsStep-append c signals rest.0 g g' rest.1 step (run_symbols-IsStep w symbols g'))
  ]

  run_passes-IsStep :
      (passes : List (World C × List Text)) (g : Generator) → IsStep c (run_passes c passes g) g
  unfolding run_passes run_once
  run_passes-IsStep [] g = IsStep-none c g g refl
  run_passes-IsStep ((w, symbols) ∷ passes) g =
      let first = run_once c w symbols g in
      let rest = run_passes c passes first.1 in
      IsStep-append c first.0 rest.0 g first.1 rest.1
        (IsStep-from c first g (fresh g) refl (run_symbols-IsStep w (chosen c symbols) (fresh g)))
        (run_passes-IsStep passes first.1)

  -- Over any passes, whatever the strategies, the market and the broker answer, no single signal is
  -- published that has the key of one published before and comes less than the window after it.
  pub run_passes-IsSpaced :
      (passes : List (World C × List Text)) (g : Generator) → IsSpaced c (run_passes c passes g).0
  run_passes-IsSpaced passes g = (run_passes-IsStep passes g).3
