-- ===== src/Payoff/Slope.antt =====
-- The profit of a position grows with the price by a slope that changes at the strikes only.
use native.Mathlib.Nat.{add-mul}
use garnet_trader.Prelude.{
  ℕ, zero, suc, ◌+◌, ◌*◌, ◌≡◌, ◌≢◌, refl, ap, inl, inr, Bool, true, false, Option, none, some, List,
  [], ◌∷◌, arith, if◌then◌else◌, ltb, leb, Option-cases,
}
use garnet_trader.Prelude.Int.{
  ℤ, pos, negsuc, pos_part, neg_part, ◌+ℤ◌, ◌-ℤ◌, ◌*ℤ◌, int_laws, scaled_positive, scaled_negative,
  +ℤ_parts,
}
use garnet_trader.Payoff.{
  OptionType, call, put, PositionLeg, is_long, units, signed, value_of, intrinsic_at, payoff_at,
  total, StrategyPayoff, payoff, in_millionths, has, given_strikes,
}

-- How much the value of one unit grows when the price grows by one.
unfoldable pub slope_of : Option OptionType → Option ℕ → ℕ → ℤ
slope_of none strike x = pos 1
slope_of (some type) none x = pos 0
slope_of (some call) (some strike) x = if leb strike x then pos 1 else pos 0
slope_of (some put) (some strike) x = if ltb x strike then negsuc 0 else pos 0

unfoldable pub leg_slope : ℕ → PositionLeg → ℤ
unfolding slope_of signed
leg_slope x leg = signed (is_long leg) (slope_of leg.option_type leg.strike x *ℤ pos (units leg))

unfoldable pub slope : List PositionLeg → ℕ → ℤ
unfolding total leg_slope
slope legs x = total (leg_slope x) legs

-- Multiplication by a number distributes over a sum.
pub scaled_sum : (a b : ℤ) (c : ℕ) → (a +ℤ b) *ℤ pos c ≡ a *ℤ pos c +ℤ b *ℤ pos c
scaled_sum a b c =
    let parts : (pos_part (a +ℤ b) + neg_part a + neg_part b) * c
        ≡ (neg_part (a +ℤ b) + pos_part a + pos_part b) * c =
      ap (λ n. n * c) (+ℤ_parts a b) in
    omega (
      int_laws,
      parts,
      add-mul,
      scaled_positive (a +ℤ b) c,
      scaled_negative (a +ℤ b) c,
      scaled_positive a c,
      scaled_negative a c,
      scaled_positive b c,
      scaled_negative b c,
    )

signed_sum : (b : Bool) (u v : ℤ) → signed b (u +ℤ v) ≡ signed b u +ℤ signed b v
unfolding signed
signed_sum true u v = refl
signed_sum false u v = omega int_laws

value-suc :
    (type : Option OptionType) (strike : Option ℕ) (x : ℕ)
    → pos (value_of type strike (suc x)) ≡ pos (value_of type strike x) +ℤ slope_of type strike x
unfolding value_of slope_of ◌+ℤ◌
value-suc none strike x = ground arith
value-suc (some type) none x = ground arith
value-suc (some call) (some strike) x = ground arith
value-suc (some put) (some strike) x = ground arith

payoff_at-suc :
    (leg : PositionLeg) (x : ℕ) → payoff_at leg (suc x) ≡ payoff_at leg x +ℤ leg_slope x leg
unfolding payoff_at intrinsic_at leg_slope
payoff_at-suc leg x =
    let value = pos (value_of leg.option_type leg.strike x) in
    let grows = slope_of leg.option_type leg.strike x in
    let shift : (value +ℤ grows) -ℤ pos leg.entry_price ≡ (value -ℤ pos leg.entry_price) +ℤ grows =
      omega int_laws in
    rw (value-suc leg.option_type leg.strike x, shift, scaled_sum, signed_sum) refl

total-suc :
    (legs : List PositionLeg) (x : ℕ)
    → total (λ leg. payoff_at leg (suc x)) legs
      ≡ total (λ leg. payoff_at leg x) legs +ℤ slope legs x
unfolding total slope
total-suc [] x = omega int_laws
total-suc (leg ∷ legs) x =
    let tail : total (λ l. payoff_at l (suc x)) legs
        ≡ total (λ l. payoff_at l x) legs +ℤ total (leg_slope x) legs =
      total-suc legs x in
    rw (tail, payoff_at-suc leg x) (omega int_laws)

pub payoff-suc :
    (s : StrategyPayoff) (x : ℕ) → payoff s (suc x) ≡ payoff s x +ℤ in_millionths (slope s.legs x)
unfolding payoff
payoff-suc s x = rw (total-suc s.legs x, scaled_sum) (omega int_laws)

slope_of-suc :
    (type : Option OptionType) (strike : Option ℕ) (x : ℕ)
    → strike ≢ some (suc x)
    → slope_of type strike (suc x) ≡ slope_of type strike x
unfolding slope_of
slope_of-suc none strike x apart = refl
slope_of-suc (some type) none x apart = refl
slope_of-suc (some call) (some k) x apart =
    let other : k ≢ suc x = λ e. apart (ap some e) in ground (arith, other)
slope_of-suc (some put) (some k) x apart =
    let other : k ≢ suc x = λ e. apart (ap some e) in ground (arith, other)

strike-apart :
    (leg : PositionLeg) (legs : List PositionLeg) (x : ℕ)
    → has (suc x) (given_strikes (leg ∷ legs)) ≡ false
    → (leg.strike ≢ some (suc x)) × (has (suc x) (given_strikes legs) ≡ false)
unfolding given_strikes has
strike-apart leg legs x none_is = elim (Option-cases leg.strike) [
  | inl missing ↦ ((λ e. cc), ground (arith, missing))
  | inr (zero, e) ↦ ((λ f. ground (arith, e, f)), ground (arith, e))
  | inr (suc k, e) ↦ ((λ f. ground (arith, e, f)), ground (arith, e))
]

-- Between the strikes the slope does not change.
pub slope-suc :
    (legs : List PositionLeg) (x : ℕ)
    → has (suc x) (given_strikes legs) ≡ false
    → slope legs (suc x) ≡ slope legs x
unfolding slope total leg_slope
slope-suc [] x apart = refl
slope-suc (leg ∷ legs) x apart =
    let here = strike-apart leg legs x apart in
    let tail : total (leg_slope (suc x)) legs ≡ total (leg_slope x) legs =
      slope-suc legs x here.1 in
    rw (tail, slope_of-suc leg.option_type leg.strike x here.0) refl
