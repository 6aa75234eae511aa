-- ===== src/Metrics.antt =====
-- backtest/metrics.py: the metrics of a series of returns that need no roots. A return is an integer of
-- any scale; a quotient is kept as its two parts.
pub mod Streak
pub mod Drawdown
mod Tests
use garnet_trader.Prelude.{
  ℕ, suc, ◌+◌, ◌-◌, ◌*◌, ◌≤◌, max, Bool, true, false, Option, none, some, List, [], ◌∷◌, ltb, leb,
  ◌==◌, length, if◌then◌else◌,
}
use garnet_trader.Prelude.Int.{ℤ, pos, negsuc, neg_part, pos_part, ◌+ℤ◌, ◌-ℤ◌, ltb_ℤ, max_ℤ}

abbrev pub is_win : ℤ → Bool
is_win v = ltb_ℤ (pos 0) v

abbrev pub is_loss : ℤ → Bool
is_loss v = ltb_ℤ v (pos 0)

unfoldable pub chosen : (ℤ → Bool) → List ℤ → List ℤ
chosen test [] = []
chosen test (v ∷ vs) = let rest = chosen test vs in if test v then v ∷ rest else rest

unfoldable pub total : List ℤ → ℤ
total [] = pos 0
total (v ∷ vs) = v +ℤ total vs

-- The sum and the number that divides it.
unfoldable pub average : List ℤ → Option (ℤ × ℕ)
average [] = none
average (v ∷ vs) = some (total (v ∷ vs), length (v ∷ vs))

pub average_win : List ℤ → Option (ℤ × ℕ)
average_win values = average (chosen is_win values)

pub average_loss : List ℤ → Option (ℤ × ℕ)
average_loss values = average (chosen is_loss values)

pub expectancy : List ℤ → Option (ℤ × ℕ)
expectancy values = average values

unfoldable pub profit_factor : List ℤ → Option (ℕ × ℕ)
profit_factor values =
    let losses = neg_part (total (chosen is_loss values)) in
    if losses == 0 then none else some (pos_part (total (chosen is_win values)), losses)

-- The running sums, from a total so far.
unfoldable pub curve_from : ℤ → List ℤ → List ℤ
curve_from so_far [] = []
curve_from so_far (v ∷ vs) = let next = so_far +ℤ v in next ∷ curve_from next vs

unfoldable pub equity_curve : List ℤ → List ℤ
equity_curve values = curve_from (pos 0) values

-- The loop of `longest_losing_streak`, on the longest and the current.
unfoldable pub streak_loop : List ℤ → ℕ × ℕ → ℕ
streak_loop [] (longest, current) = longest
streak_loop (v ∷ vs) (longest, current) = streak_loop vs (
    if is_win v
    then (longest, 0)
    else if is_loss v
    then (max longest (current + 1), current + 1)
    else (longest, current))

unfoldable pub longest_losing_streak : List ℤ → ℕ
longest_losing_streak values = streak_loop values (0, 0)

-- The loop of `max_drawdown`, on the peak and the worst fall.
unfoldable pub drawdown_loop : List ℤ → ℤ × ℤ → ℤ
drawdown_loop [] (peak, worst) = worst
drawdown_loop (value ∷ curve) (peak, worst) =
    let higher = max_ℤ peak value in drawdown_loop curve (higher, max_ℤ worst (higher -ℤ value))

unfoldable pub drawdown_of : List ℤ → Option ℤ
drawdown_of [] = none
drawdown_of (first ∷ curve) = some (drawdown_loop (first ∷ curve) (first, pos 0))

unfoldable pub max_drawdown : List ℤ → Option ℤ
max_drawdown values = drawdown_of (equity_curve values)
