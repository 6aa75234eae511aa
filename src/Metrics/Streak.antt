-- ===== src/Metrics/Streak.antt =====
-- The losing streaks of a series of returns, described on their own.
use garnet_trader.Prelude.{
  ℕ, ◌+◌, ◌≤◌, ◌≡◌, max, inl, inr, List, [], ◌∷◌, arith, if◌then◌else◌, Bool-cases,
}
use garnet_trader.Prelude.Int.{ℤ}
use garnet_trader.Metrics.{is_win, is_loss, streak_loop, longest_losing_streak}

-- The losses from the start of a series up to its first win.
unfoldable pub losses_before_win : List ℤ → ℕ
losses_before_win [] = 0
losses_before_win (v ∷ vs) =
    let rest = losses_before_win vs in if is_win v then 0 else if is_loss v then rest + 1 else rest

-- The most that there are of these, from any place on.
unfoldable pub worst_from_any : List ℤ → ℕ
worst_from_any [] = 0
worst_from_any (v ∷ vs) = max (losses_before_win (v ∷ vs)) (worst_from_any vs)

losses_before_win_le : (vs : List ℤ) → losses_before_win vs ≤ worst_from_any vs
unfolding losses_before_win worst_from_any
losses_before_win_le [] = omega arith
losses_before_win_le (v ∷ vs) = ground arith

streak_loop_lem :
    (vs : List ℤ) (longest current : ℕ)
    → current ≤ longest
    → streak_loop vs (longest, current)
      ≡ max longest (max (current + losses_before_win vs) (worst_from_any vs))
unfolding streak_loop losses_before_win worst_from_any
streak_loop_lem [] longest current le = omega arith
streak_loop_lem (v ∷ vs) longest current le = elim (Bool-cases (is_win v)) [
  | inl win ↦
      ground (arith, win, streak_loop_lem vs longest 0 (omega arith), losses_before_win_le vs)
  | inr no_win ↦ elim (Bool-cases (is_loss v)) [
    | inl loss ↦ ground (
      arith,
      no_win,
      loss,
      streak_loop_lem vs (max longest (current + 1)) (current + 1) (omega arith),
      losses_before_win_le vs,
    )
    | inr flat ↦
        ground (arith, no_win, flat, streak_loop_lem vs longest current le, losses_before_win_le vs)
  ]
]

-- The longest losing streak is the largest number, over all places of the series, of losses from there up
-- to the next win.
pub longest_losing_streak-eq-worst_from_any :
    (vs : List ℤ) → longest_losing_streak vs ≡ worst_from_any vs
unfolding longest_losing_streak
longest_losing_streak-eq-worst_from_any vs =
    ground (arith, streak_loop_lem vs 0 0 (omega arith), losses_before_win_le vs)
