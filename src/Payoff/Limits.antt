-- ===== src/Payoff/Limits.antt =====
-- The flags of unlimited profit and loss, against the slope above the strikes.
use native.Mathlib.Nat.{add-mul, mul-le-mul_right, mul-lt-mul_of_pos_right}
use mathlib.Core.Path.{subst}
use garnet_trader.Prelude.{
  ℕ, zero, suc, ◌+◌, ◌*◌, ◌≤◌, ◌<◌, ◌≡◌, refl, sym, ◌⊎◌, inl, inr, Bool, true, false, not, ◌&&◌,
  Option, none, some, List, [], ◌∷◌, arith, if◌then◌else◌, ltb, All, Bool-cases, Option-cases,
}
use garnet_trader.Prelude.Int.{ℤ, pos, ◌-ℤ◌, ◌*ℤ◌, ◌≤ℤ◌, int_laws, scaled_positive, scaled_negative}
use garnet_trader.Payoff.{
  Side, buy, sell, OptionType, call, put, PositionLeg, is_buy, is_some, is_long, is_option,
  names_call, units, signed, StrategyPayoff, payoff, rate_unit, in_millionths, total, count, any,
  largest, given_strikes, is_long_call, is_short_call, is_long_underlying, has_unlimited_upside,
  has_unlimited_downside, extreme, max_profit, max_loss,
}
use garnet_trader.Payoff.Slope.{slope_of, leg_slope, slope, payoff-suc}
use garnet_trader.Payoff.Walk.{passes}
use garnet_trader.Payoff.Extremes.{
  top, slope_above, extreme_maximum, extreme_minimum, opposite-suc, extreme-attained,
}

-- A leg of at least one contract of the common size, an option with a strike or a purchase of the
-- underlying itself.
abbrev pub IsListed : ℕ → PositionLeg → Type 0
IsListed size leg =
    (leg.contract_size ≡ size)
    × (1 ≤ leg.quantity)
    × ((if is_option leg then is_some leg.strike else is_long leg) ≡ true)

-- No strike lies above the price.
abbrev IsBelow : Option ℕ → ℕ → Type 0
IsBelow none x = Unit
IsBelow (some k) x = k ≤ x

-- How many of a leg's contracts gain, and how many lose, with every further step of the price.
abbrev gaining : Side → Option OptionType → ℕ → ℕ
gaining side type q =
    (if is_some type && names_call type && is_buy side then q else 0)
    + (if not (is_some type) && is_buy side then q else 0)

abbrev losing : Side → Option OptionType → ℕ → ℕ
losing side type q = if is_some type && names_call type && not (is_buy side) then q else 0

fields_slope :
    (side : Side) (type : Option OptionType) (strike : Option ℕ) (q c x : ℕ)
    → (if is_some type then is_some strike else is_buy side) ≡ true
    → IsBelow strike x
    → signed (is_buy side) (slope_of type strike x *ℤ pos (q * c))
      ≡ pos (gaining side type q * c) -ℤ pos (losing side type q * c)
unfolding signed slope_of ◌*ℤ◌ ◌-ℤ◌
fields_slope buy none strike q c x listed below = ground arith
fields_slope sell none strike q c x listed below = ground (arith, listed)
fields_slope side (some type) none q c x listed below = ground (arith, listed)
fields_slope buy (some call) (some k) q c x listed below = ground arith
fields_slope sell (some call) (some k) q c x listed below = ground arith
fields_slope buy (some put) (some k) q c x listed below = ground arith
fields_slope sell (some put) (some k) q c x listed below = ground arith

strike-IsBelow :
    (leg : PositionLeg) (legs : List PositionLeg) (x : ℕ)
    → largest (given_strikes (leg ∷ legs)) ≤ x
    → IsBelow leg.strike x × (largest (given_strikes legs) ≤ x)
unfolding given_strikes largest
strike-IsBelow leg legs x le = elim (Option-cases leg.strike) [
  | inl missing ↦ rw missing (tt, ground (arith, missing, le))
  | inr (zero, e) ↦ rw e (omega arith, ground (arith, e, le))
  | inr (suc k, e) ↦ rw e (ground (arith, e, le), ground (arith, e, le))
]

-- Above the strikes, the slope is what the flags count.
total_slope :
    (size : ℕ) (legs : List PositionLeg) (x : ℕ)
    → All (IsListed size) legs
    → largest (given_strikes legs) ≤ x
    → slope legs x
      ≡ pos ((count is_long_call legs + count is_long_underlying legs) * size)
        -ℤ pos (count is_short_call legs * size)
unfolding slope total count leg_slope
total_slope size [] x listed le = omega int_laws
total_slope size (leg ∷ legs) x listed le =
    let below = strike-IsBelow leg legs x le in
    let tail : total (leg_slope x) legs
        ≡ pos ((count is_long_call legs + count is_long_underlying legs) * size)
          -ℤ pos (count is_short_call legs * size) =
      total_slope size legs x listed.1 below.1 in
    let same : units leg ≡ leg.quantity * size = rw (listed.0.0) refl in
    rw
      (
        tail,
        same,
        fields_slope leg.side leg.option_type leg.strike leg.quantity size x listed.0.2 below.0,
      )
      (omega (int_laws, scaled_positive, scaled_negative, add-mul))

count_none :
    (test : PositionLeg → Bool) (legs : List PositionLeg)
    → any test legs ≡ false
    → count test legs ≡ 0
unfolding any count
count_none test [] none_is = refl
count_none test (leg ∷ legs) none_is = elim (Bool-cases (test leg)) [
  | inl one ↦ absurd (ground (arith, one, none_is))
  | inr other ↦
      let rest = count_none test legs (ground (arith, other, none_is)) in
      ground (arith, other, rest)
]

count_some :
    (size : ℕ) (test : PositionLeg → Bool) (legs : List PositionLeg)
    → All (IsListed size) legs
    → any test legs ≡ true
    → 1 ≤ count test legs
unfolding any count
count_some size test [] listed one = absurd (ground (arith, one))
count_some size test (leg ∷ legs) listed one = elim (Bool-cases (test leg)) [
  | inl here ↦ ground (arith, here, listed.0.1)
  | inr later ↦
      let rest = count_some size test legs listed.1 (ground (arith, later, one)) in
      ground (arith, later, rest)
]

-- An optional amount against the values of a function: missing when they pass every bound, and
-- otherwise the greatest of them, or the smallest.
abbrev pub IsGreatest : (ℕ → ℤ) → Option ℤ → Type 0
IsGreatest f none = (bound : ℤ) → (x : ℕ) × (bound ≤ℤ f x)
IsGreatest f (some v) = ((x : ℕ) → f x ≤ℤ v) × (x : ℕ) × (v ≡ f x)

abbrev pub IsSmallest : (ℕ → ℤ) → Option ℤ → Type 0
IsSmallest f none = (bound : ℤ) → (x : ℕ) × (f x ≤ℤ bound)
IsSmallest f (some v) = ((x : ℕ) → v ≤ℤ f x) × (x : ℕ) × (v ≡ f x)

-- The underlying is not bought, or the calls sold cover it together with the calls bought.
abbrev pub IsCovered : List PositionLeg → Type 0
IsCovered legs =
    (any is_long_underlying legs ≡ false)
    ⊎ (count is_long_call legs + count is_long_underlying legs ≤ count is_short_call legs)

module _ (size : ℕ) (s : StrategyPayoff) (positive : 1 ≤ size)
    (listed : All (IsListed size) s.legs) where
  slope_counted :
      slope s.legs (top s)
      ≡ pos ((count is_long_call s.legs + count is_long_underlying s.legs) * size)
        -ℤ pos (count is_short_call s.legs * size)
  slope_counted = total_slope size s.legs (top s) listed (omega arith)

  falling :
      count is_long_call s.legs + count is_long_underlying s.legs ≤ count is_short_call s.legs
      → slope s.legs (top s) ≤ℤ pos 0
  falling le = rw slope_counted (omega (int_laws, mul-le-mul_right size le))

  rising :
      count is_short_call s.legs < count is_long_call s.legs + count is_long_underlying s.legs
      → pos 1 ≤ℤ slope s.legs (top s)
  rising lt = rw slope_counted (omega (int_laws, mul-lt-mul_of_pos_right lt positive))

  not_falling :
      count is_short_call s.legs ≤ count is_long_call s.legs + count is_long_underlying s.legs
      → pos 0 ≤ℤ slope s.legs (top s)
  not_falling le = rw slope_counted (omega (int_laws, mul-le-mul_right size le))

  sinking :
      count is_long_call s.legs + count is_long_underlying s.legs < count is_short_call s.legs
      → pos 1 ≤ℤ pos 0 -ℤ slope s.legs (top s)
  sinking lt = rw slope_counted (omega (int_laws, mul-lt-mul_of_pos_right lt positive))

  unlimited_above : pos 1 ≤ℤ slope s.legs (top s) → (bound : ℤ) → (x : ℕ) × (bound ≤ℤ payoff s x)
  unlimited_above up =
      passes (payoff s) (λ x. in_millionths (slope s.legs x)) (payoff-suc s) (top s)
        (λ x le. rw (slope_above s x le) (
          omega (
            arith,
            up,
            scaled_positive (slope s.legs (top s)) rate_unit,
            scaled_negative (slope s.legs (top s)) rate_unit,
          )))

  unlimited_below :
      pos 1 ≤ℤ pos 0 -ℤ slope s.legs (top s) → (bound : ℤ) → (x : ℕ) × (payoff s x ≤ℤ bound)
  unlimited_below down bound =
      let far : (x : ℕ) × (pos 0 -ℤ bound ≤ℤ pos 0 -ℤ payoff s x) =
        passes (λ x. pos 0 -ℤ payoff s x) (λ x. pos 0 -ℤ in_millionths (slope s.legs x))
          (opposite-suc s) (top s)
          (λ x le. rw (slope_above s x le) (
            omega (
              int_laws,
              down,
              scaled_positive (slope s.legs (top s)) rate_unit,
              scaled_negative (slope s.legs (top s)) rate_unit,
            )))
          (pos 0 -ℤ bound) in
      (far.0, omega (int_laws, far.1))

  upside_lem :
      IsCovered s.legs
      → has_unlimited_upside s
        ≡ ltb
            (count is_short_call s.legs)
            (count is_long_call s.legs + count is_long_underlying s.legs)
  unfolding has_unlimited_upside
  upside_lem (inl none_is) =
      let zero_is = count_none is_long_underlying s.legs none_is in ground (arith, none_is, zero_is)
  upside_lem (inr le) = elim (Bool-cases (any is_long_underlying s.legs)) [
    | inl some_is ↦
        let one = count_some size is_long_underlying s.legs listed some_is in
        ground (arith, le, some_is, one)
    | inr none_is ↦ ground (arith, le, none_is)
  ]

  -- Legs of one contract size, of one expiry, where no purchase of the underlying stands above the
  -- calls that are sold: `max_profit` is the greatest profit over all prices, and reached at one of
  -- them, or is missing and the profit passes every bound.
  pub max_profit-IsGreatest :
      IsCovered s.legs → s.single_expiry ≡ true → IsGreatest (payoff s) (max_profit s)
  unfolding max_profit
  max_profit-IsGreatest covered single =
      let flag = upside_lem covered in
      elim (Bool-cases (has_unlimited_upside s)) [
        | inl up ↦
            let same : max_profit s ≡ none = ground (arith, single, up) in
            subst (IsGreatest (payoff s)) (sym same)
              (unlimited_above (rising (ground (arith, flag, up))))
        | inr flat ↦
            let same : max_profit s ≡ some (extreme true s) = ground (arith, single, flat) in
            let at = extreme-attained true s in
            subst (IsGreatest (payoff s)) (sym same)
              (extreme_maximum s (falling (ground (arith, flag, flat))), at.0, at.1)
      ]

  downside_lem :
      has_unlimited_downside s
      ≡ ltb
          (count is_long_call s.legs + count is_long_underlying s.legs)
          (count is_short_call s.legs)
  unfolding has_unlimited_downside
  downside_lem = refl

  -- Legs of one contract size, of one expiry, where the underlying is not sold: `max_loss` is the
  -- smallest profit over all prices, and reached at one of them, or is missing and the profit falls
  -- below every bound.
  pub max_loss-IsSmallest : s.single_expiry ≡ true → IsSmallest (payoff s) (max_loss s)
  unfolding max_loss
  max_loss-IsSmallest single = elim (Bool-cases (has_unlimited_downside s)) [
    | inl down ↦
        let same : max_loss s ≡ none = ground (arith, single, down) in
        subst (IsSmallest (payoff s)) (sym same)
          (unlimited_below (sinking (ground (arith, downside_lem, down))))
    | inr flat ↦
        let same : max_loss s ≡ some (extreme false s) = ground (arith, single, flat) in
        let at = extreme-attained false s in
        subst (IsSmallest (payoff s)) (sym same)
          (extreme_minimum s (not_falling (ground (arith, downside_lem, flat))), at.0, at.1)
  ]
