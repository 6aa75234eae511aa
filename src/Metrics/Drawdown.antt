-- ===== src/Metrics/Drawdown.antt =====
-- The falls of a curve, described on their own.
use garnet_trader.Prelude.{
  ℕ, ◌+◌, ◌-◌, ◌≤◌, ◌≡◌, refl, max, inl, inr, none, some, List, [], ◌∷◌, arith, Bool-cases,
}
use garnet_trader.Prelude.Int.{ℤ, pos, pos_part, neg_part, ◌-ℤ◌, ltb_ℤ, max_ℤ, ◌≤ℤ◌}
use garnet_trader.Metrics.{drawdown_loop, drawdown_of, max_drawdown, equity_curve, curve_from}

-- How far a curve falls below a level.
unfoldable pub fall_below : ℤ → List ℤ → ℕ
fall_below level [] = 0
fall_below level (value ∷ curve) = max (pos_part (level -ℤ value)) (fall_below level curve)

-- How far a curve falls below any of its points that come before.
unfoldable pub worst_fall : List ℤ → ℕ
worst_fall [] = 0
worst_fall (value ∷ curve) = max (fall_below value curve) (worst_fall curve)

-- The parts of a difference of whole numbers, one of which is 0.
-ℤ_positive : (a b : ℤ) → pos_part (a -ℤ b) ≡ (pos_part a + neg_part b) - (neg_part a + pos_part b)
unfolding ◌-ℤ◌
-ℤ_positive a b = ground arith

fall_below_mono : (p q : ℤ) (curve : List ℤ) → p ≤ℤ q → fall_below p curve ≤ fall_below q curve
unfolding fall_below
fall_below_mono p q [] le = omega arith
fall_below_mono p q (v ∷ vs) le =
    ground (arith, fall_below_mono p q vs le, -ℤ_positive p v, -ℤ_positive q v)

max_ℤ-sub : (w : ℕ) (h v : ℤ) → v ≤ℤ h → max_ℤ (pos w) (h -ℤ v) ≡ pos (max w (pos_part (h -ℤ v)))
unfolding ◌-ℤ◌
max_ℤ-sub w h v le = ground arith

drawdown_loop_lem :
    (vs : List ℤ) (p : ℤ) (w : ℕ)
    → drawdown_loop vs (p, pos w) ≡ pos (max w (max (fall_below p vs) (worst_fall vs)))
unfolding drawdown_loop fall_below worst_fall
drawdown_loop_lem [] p w = ground arith
drawdown_loop_lem (v ∷ vs) p w = elim (Bool-cases (ltb_ℤ p v)) [
  | inl higher ↦
      let mono : p ≤ℤ v = ground arith in
      let kept : max_ℤ (pos w) (v -ℤ v) ≡ pos (max w (pos_part (v -ℤ v))) =
        max_ℤ-sub w v v (omega arith) in
      ground (
        arith,
        higher,
        kept,
        drawdown_loop_lem vs v (max w (pos_part (v -ℤ v))),
        fall_below_mono p v vs mono,
        -ℤ_positive p v,
        -ℤ_positive v v,
      )
  | inr lower ↦
      let mono : v ≤ℤ p = ground arith in
      ground (
        arith,
        lower,
        max_ℤ-sub w p v mono,
        drawdown_loop_lem vs p (max w (pos_part (p -ℤ v))),
        fall_below_mono v p vs mono,
      )
]

drawdown_of-cons : (x : ℤ) (xs : List ℤ) → drawdown_of (x ∷ xs) ≡ some (pos (worst_fall (x ∷ xs)))
unfolding drawdown_of fall_below worst_fall
drawdown_of-cons x xs = ground (arith, drawdown_loop_lem (x ∷ xs) x 0, -ℤ_positive x x)

-- The drawdown of a series with a return in it is how far its curve of running sums falls, at most, below
-- a point of the curve that comes before; an empty series has none.
pub max_drawdown-eq-worst_fall :
    (vs : List ℤ)
    → max_drawdown vs
      ≡ (elim vs [ [] ↦ none | v ∷ rest ↦ some (pos (worst_fall (equity_curve (v ∷ rest)))) ])
unfolding max_drawdown equity_curve curve_from drawdown_of
max_drawdown-eq-worst_fall [] = refl
max_drawdown-eq-worst_fall (v ∷ vs) = drawdown_of-cons _ _
