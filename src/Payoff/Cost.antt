-- ===== src/Payoff/Cost.antt =====
-- The profit against the cost of entering: both count the same units.
use native.Mathlib.Nat.{add-mul}
use garnet_trader.Prelude.{ℕ, ◌+◌, ◌*◌, ◌≡◌, refl, ap, Bool, true, false, List, [], ◌∷◌, arith}
use garnet_trader.Prelude.Int.{
  ℤ, pos, pos_part, neg_part, ◌-ℤ◌, ◌*ℤ◌, int_laws, scaled_positive, scaled_negative, -ℤ_parts,
}
use garnet_trader.Payoff.{
  PositionLeg, StrategyPayoff, is_long, units, signed, intrinsic_at, payoff_at, entry_cost, total,
  in_millionths, net_cost, payoff, rate_unit,
}

-- What a leg brings at expiry, or costs where it was sold.
abbrev pub leg_value : ℕ → PositionLeg → ℤ
leg_value price leg = signed (is_long leg) (pos (intrinsic_at leg price * units leg))

scaled_difference : (a b u : ℕ) → (pos a -ℤ pos b) *ℤ pos u ≡ pos (a * u) -ℤ pos (b * u)
scaled_difference a b u =
    let d = pos a -ℤ pos b in
    let parts : (pos_part d + b) * u ≡ (neg_part d + a) * u =
      ap (λ n. n * u) (omega (arith, -ℤ_parts (pos a) (pos b))) in
    omega (int_laws, parts, add-mul, scaled_positive d u, scaled_negative d u)

signed_difference : (b : Bool) (u v : ℤ) → signed b (u -ℤ v) ≡ signed b u -ℤ signed b v
unfolding signed
signed_difference true u v = refl
signed_difference false u v = omega int_laws

leg_payoff :
    (leg : PositionLeg) (price : ℕ) → payoff_at leg price ≡ leg_value price leg -ℤ entry_cost leg
unfolding payoff_at entry_cost
leg_payoff leg price = rw (scaled_difference (intrinsic_at leg price) leg.entry_price (units leg)) (
    signed_difference (is_long leg) (pos (intrinsic_at leg price * units leg))
      (pos (leg.entry_price * units leg)))

total_payoff :
    (legs : List PositionLeg) (price : ℕ)
    → total (λ leg. payoff_at leg price) legs
      ≡ total (leg_value price) legs -ℤ total entry_cost legs
unfolding total
total_payoff [] price = omega int_laws
total_payoff (leg ∷ legs) price =
    rw (total_payoff legs price, leg_payoff leg price) (omega int_laws)

-- The profit of a structure is what its legs bring at expiry less `net_cost`, at every price.
pub payoff-net_cost :
    (s : StrategyPayoff) (price : ℕ)
    → payoff s price ≡ in_millionths (total (leg_value price) s.legs) -ℤ net_cost s
unfolding payoff net_cost
payoff-net_cost s price =
    let value = total (leg_value price) s.legs in
    let cost = total entry_cost s.legs in
    let scaled : in_millionths (value -ℤ cost) ≡ in_millionths value -ℤ in_millionths cost = omega (
      int_laws,
      scaled_positive (value -ℤ cost) rate_unit,
      scaled_negative (value -ℤ cost) rate_unit,
      scaled_positive value rate_unit,
      scaled_negative value rate_unit,
      scaled_positive cost rate_unit,
      scaled_negative cost rate_unit,
    ) in
    rw (total_payoff s.legs price, scaled) (omega int_laws)
