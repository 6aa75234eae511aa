-- ===== src/Reporting/Tests.antt =====
-- Runs of the reports.
use garnet_trader.Prelude.{ℕ, ◌≡◌, refl, false, none, some, [], ◌∷◌, map, sum}
use garnet_trader.Prelude.Int.{ℤ, pos, negsuc}
use garnet_trader.Prelude.Text.{Text, codes, text_eq}
use garnet_trader.Reporting.{
  SignalRow, OutcomeRow, Tables, StrategyStats, by_strategy, stats_by, summary, resolved_returns,
  SignalPayload, evaluate_signal,
}
use garnet_trader.Reporting.Totals.{stats_by-summary}

abbrev signal_row : Text → ℕ → Text → SignalRow
signal_row signal_id created_at strategy_name = record {
  signal_id = signal_id;
  created_at = created_at;
  strategy_name = strategy_name;
  underlying = [];
}

abbrev outcome_row : Text → ℤ → OutcomeRow
outcome_row outcome pnl = record {
  checked_at = 0;
  price_at_check = none;
  pnl_pct = some pnl;
  hit_target = false;
  hit_stop = false;
  outcome = outcome;
  note = none;
}

-- Two signals of one strategy, a win and an open one, and a loss of another.
abbrev tables : Tables
tables = record {
  signals =
      signal_row (codes "1") 30 (codes "a")
      ∷ signal_row (codes "2") 20 (codes "b")
      ∷ signal_row (codes "3") 10 (codes "a")
      ∷ [];
  outcomes =
      (codes "1", outcome_row (codes "win") (pos 5))
      ∷ (codes "2", outcome_row (codes "loss") (negsuc 2))
      ∷ [];
}

strategies :
    map (λ (s : StrategyStats). s.strategy) (by_strategy 40 none tables)
    ≡ codes "a" ∷ codes "b" ∷ []
unfolding by_strategy text_eq
strategies = refl

past_returns : resolved_returns 40 none none tables ≡ negsuc 2 ∷ pos 5 ∷ []
unfolding resolved_returns text_eq
past_returns = refl

abbrev payload : SignalPayload
payload = record {
  suggested_price = some 10;
  take_profit = some 20;
  stop_loss = some 5;
  expiry = none;
}

open_signal : (evaluate_signal 0 payload 9).outcome ≡ codes "pending"
unfolding evaluate_signal
open_signal = refl

stats_by-summary_example :
    (sum (map (λ (s : StrategyStats). s.total) (stats_by (λ s. s.strategy_name) 40 none tables))
      ≡ (summary 40 none tables).total)
    × (sum (map (λ (s : StrategyStats). s.wins) (stats_by (λ s. s.strategy_name) 40 none tables))
        ≡ (summary 40 none tables).wins)
    × (sum (map (λ (s : StrategyStats). s.losses) (stats_by (λ s. s.strategy_name) 40 none tables))
        ≡ (summary 40 none tables).losses)
stats_by-summary_example = stats_by-summary (λ s. s.strategy_name) 40 none tables
