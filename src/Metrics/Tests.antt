-- ===== src/Metrics/Tests.antt =====
-- A series with a flat return between two losses.
use garnet_trader.Prelude.{◌≡◌, some, List, [], ◌∷◌}
use garnet_trader.Prelude.Int.{ℤ, pos, negsuc, ◌+ℤ◌, ◌-ℤ◌}
use garnet_trader.Metrics.{longest_losing_streak, curve_from, equity_curve, max_drawdown}
use garnet_trader.Metrics.Streak.{
  losses_before_win, worst_from_any, longest_losing_streak-eq-worst_from_any,
}
use garnet_trader.Metrics.Drawdown.{fall_below, worst_fall, max_drawdown-eq-worst_fall}

abbrev returns : List ℤ
returns = negsuc 1 ∷ pos 0 ∷ negsuc 4 ∷ pos 3 ∷ negsuc 0 ∷ []

longest_losing_streak-eq-worst_from_any_example : longest_losing_streak returns ≡ 2
unfolding losses_before_win worst_from_any
longest_losing_streak-eq-worst_from_any_example = longest_losing_streak-eq-worst_from_any returns

max_drawdown-eq-worst_fall_example : max_drawdown returns ≡ some (pos 5)
unfolding worst_fall fall_below equity_curve curve_from ◌+ℤ◌ ◌-ℤ◌
max_drawdown-eq-worst_fall_example = max_drawdown-eq-worst_fall returns
