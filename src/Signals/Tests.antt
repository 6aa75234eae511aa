-- ===== src/Signals/Tests.antt =====
-- Runs of the generator of signals.
use garnet_trader.Prelude.{ℕ, ◌≡◌, ◌⊎◌, refl, Option, none, some, List, [], ◌∷◌, map, length, ◌≤◌}
use garnet_trader.Prelude.Int.{pos}
use garnet_trader.Prelude.Result.{ok}
use garnet_trader.Prelude.Text.{Text, codes, text_eq}
use garnet_trader.Prelude.Dict.{lookup, insert}
use garnet_trader.Payoff.{buy, OptionType, call, put}
use garnet_trader.Risk.{RiskLimits, apply}
use garnet_trader.Signals.{Signal}
use garnet_trader.Signals.Generator.{
  GeneratorConfig, Generator, base_qty, process_batch, process_leg_group, expected_legs,
}
use garnet_trader.Signals.Passes.{World, run_once}
use garnet_trader.Signals.Groups.{IsStructure, IsHeld, process_leg_group-IsStructure}
use garnet_trader.Signals.Spacing.{IsSpaced}
use garnet_trader.Signals.Window.{run_passes, run_passes-IsSpaced}

abbrev limits : RiskLimits
limits = record {
  account_equity = 1000000000;
  risk_per_trade = 10000;
  max_position = 50000;
  max_contracts = 50;
  stop_loss = 350000;
  take_profit = 700000;
}

abbrev config : GeneratorConfig
config = record {
  symbols = codes "A" ∷ [];
  dedupe_window = 3600;
  min_confidence = none;
  signal_validity = 1800;
  fees = record {
    round_trip_cost = λ notional is_buy. 0;
    net_take_profit = λ premium pct is_buy. pos 0;
  };
  limits = limits;
  show_strike = λ strike. strike ∷ [];
}

abbrev start : Generator
start = record { last_emitted = []; holdings = none; failed_symbols = []; strategy_errors = [] }

abbrev leg_at : ℕ → Option Text → OptionType → ℕ → Signal
leg_at time group type premium = record {
  symbol = codes "A1";
  option_type = type;
  side = buy;
  strike = 100;
  expiry = 800000;
  suggested_price = premium;
  suggested_qty = 0;
  strategy_name = codes "straddle";
  created_at = time;
  valid_until = none;
  stop_loss = none;
  take_profit = none;
  confidence = none;
  contract_size = none;
  metadata = record {
    leg_group_id = group;
    ins_code = none;
    leg_count = some 2;
    leg_ratio = none;
    contract_size = none;
    max_loss = none;
    round_trip_fees = none;
  };
}

abbrev quantities : List Signal → List ℕ
quantities = map (λ s. s.suggested_qty)

-- The dearer leg allows fewer contracts, and both get that many.
straddle :
    quantities
      (process_batch config
        (leg_at 0 (some (codes "g")) call 1000 ∷ leg_at 0 (some (codes "g")) put 2000 ∷ [])
        start).0
    ≡ 14 ∷ 14 ∷ []
unfolding process_batch apply lookup insert text_eq base_qty
straddle = refl

-- A structure with a leg missing is dropped.
half_straddle : (process_batch config (leg_at 0 (some (codes "g")) call 1000 ∷ []) start).0 ≡ []
unfolding process_batch apply lookup insert
half_straddle = refl

abbrev world : ℕ → World ℕ
world time = record {
  fetch = λ symbol. ok (λ holding. time);
  holdings_provider = none;
  strategies =
      record { name = codes "one"; generate = λ t. ok (leg_at t none call 1000 ∷ []) } ∷ [];
}

abbrev three_passes : List (World ℕ × List Text)
three_passes = (world 0, []) ∷ (world 3599, []) ∷ (world 3600, []) ∷ []

-- The second of three passes comes too early.
three_passes_times :
    map (λ s. s.created_at) (run_passes config three_passes start).0 ≡ 0 ∷ 3600 ∷ []
unfolding run_passes run_once apply lookup insert text_eq
three_passes_times = refl

process_leg_group-IsStructure_example :
    let leg = leg_at 0 (some (codes "g")) call 1000 in
    let legs = leg_at 0 (some (codes "g")) put 2000 ∷ [] in
    let (outs, g') = process_leg_group config (leg ∷ legs) start in
    ((outs ≡ []) × (g' ≡ start) × IsHeld config leg legs start)
    ⊎ ((base : ℕ) × (1 ≤ base)
        × (length (leg ∷ legs) ≡ expected_legs leg legs)
        × IsStructure config base (leg ∷ legs) outs)
process_leg_group-IsStructure_example =
    process_leg_group-IsStructure config (leg_at 0 (some (codes "g")) call 1000)
      (leg_at 0 (some (codes "g")) put 2000 ∷ []) start

run_passes-IsSpaced_example : IsSpaced config (run_passes config three_passes start).0
run_passes-IsSpaced_example = run_passes-IsSpaced config three_passes start
