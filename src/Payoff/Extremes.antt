-- ===== src/Payoff/Extremes.antt =====
-- What `extreme` finds, against the profit at every price.
use native.Mathlib.Nat.{add-zero, add-suc}
use mathlib.Core.Path.{subst}
use garnet_trader.Prelude.{
  ℕ, zero, suc, ◌+◌, ◌-◌, ◌≤◌, ◌<◌, ◌≡◌, refl, sym, ap, inl, inr, Bool, true, false, Option, none,
  some, List, [], ◌∷◌, ◌++◌, map, arith, if◌then◌else◌, leb, ◌==◌, All, Bool-cases, ==_iff,
}
use garnet_trader.Prelude.Int.{
  ℤ, pos, ◌+ℤ◌, ◌-ℤ◌, ◌≤ℤ◌, int_laws, scaled_positive, scaled_negative, max_ℤ, min_ℤ, ltb_ℤ,
}
use garnet_trader.Prelude.Sort.{sort, All-sort_back}
use garnet_trader.Payoff.{
  StrategyPayoff, payoff, rate_unit, in_millionths, largest, given_strikes, has, distinct, strikes,
  midpoints, beyond, probes_of, best, extreme,
}
use garnet_trader.Payoff.Slope.{slope, slope-suc, payoff-suc}
use garnet_trader.Payoff.Walk.{bounded}

All-map {ℓ} : (P : ℤ → Type ℓ) (f : ℕ → ℤ) (ps : List ℕ) → All P (map f ps) → All (λ p. P (f p)) ps
All-map P f [] h = tt
All-map P f (p ∷ ps) h = (h.0, All-map P f ps h.1)

All-append {ℓ} : (P : ℕ → Type ℓ) (xs ys : List ℕ) → All P (xs ++ ys) → All P xs
All-append P [] ys h = tt
All-append P (x ∷ xs) ys h = (h.0, All-append P xs ys h.1)

-- A predicate that holds of a list holds of what the list has.
pub All-has {ℓ} : (P : ℕ → Type ℓ) (x : ℕ) (ys : List ℕ) → has x ys ≡ true → All P ys → P x
unfolding has
All-has P x [] e h = absurd (ground (arith, e))
All-has P x (y ∷ ys) e h = elim (Bool-cases (x == y)) [
  | inl same ↦ subst P (sym ((==_iff x y).0 same)) h.0
  | inr other ↦ All-has P x ys (ground (arith, other, e)) h.1
]

All-distinct {ℓ} : (P : ℕ → Type ℓ) (xs : List ℕ) → All P (distinct xs) → All P xs
unfolding distinct
All-distinct P [] h = tt
All-distinct P (x ∷ xs) h = elim (Bool-cases (has x xs)) [
  | inl twice ↦
      let all : All P (distinct xs) =
        subst (λ b. All P (if b then distinct xs else x ∷ distinct xs)) twice h in
      let rest = All-distinct P xs all in (All-has P x xs twice rest, rest)
  | inr once ↦
      let all : All P (x ∷ distinct xs) =
        subst (λ b. All P (if b then distinct xs else x ∷ distinct xs)) once h in
      (all.0, All-distinct P xs all.1)
]

-- Every strike is tried.
All-probes {ℓ} :
    (P : ℕ → Type ℓ) (price : Option ℕ) (ks : List ℕ) → All P (probes_of price ks) → All P ks
unfolding probes_of
All-probes P price [] h = tt
All-probes P none (k ∷ ks) h = All-append P (k ∷ ks) (beyond (k ∷ ks) ∷ midpoints (k ∷ ks)) h
All-probes P (some c) (k ∷ ks) h = All-append P (k ∷ ks) (beyond (k ∷ ks) ∷ midpoints (k ∷ ks)) h

best_max : (v : ℤ) (ws : List ℤ) → (v ≤ℤ best true v ws) × All (λ w. w ≤ℤ best true v ws) ws
unfolding best
best_max v [] = (omega arith, tt)
best_max v (w ∷ ws) =
    let rest = best_max (max_ℤ v w) ws in
    let first : (v ≤ℤ max_ℤ v w) × (w ≤ℤ max_ℤ v w) = ground arith in
    (omega (arith, first.0, rest.0), (omega (arith, first.1, rest.0), rest.1))

best_min : (v : ℤ) (ws : List ℤ) → (best false v ws ≤ℤ v) × All (λ w. best false v ws ≤ℤ w) ws
unfolding best
best_min v [] = (omega arith, tt)
best_min v (w ∷ ws) =
    let rest = best_min (min_ℤ v w) ws in
    let first : (min_ℤ v w ≤ℤ v) × (min_ℤ v w ≤ℤ w) = ground arith in
    (omega (arith, first.0, rest.0), (omega (arith, first.1, rest.0), rest.1))

-- The extreme is the profit at some price.
best-attained :
    (b : Bool) (f : ℕ → ℤ) (p : ℕ) (ps : List ℕ) → (x : ℕ) × (best b (f p) (map f ps) ≡ f x)
unfolding best
best-attained b f p [] = (p, refl)
best-attained true f p (q ∷ qs) = elim (Bool-cases (ltb_ℤ (f p) (f q))) [
  | inl less ↦ rw (less, best) (best-attained true f q qs)
  | inr more ↦ rw (more, best) (best-attained true f p qs)
]
best-attained false f p (q ∷ qs) = elim (Bool-cases (ltb_ℤ (f q) (f p))) [
  | inl less ↦ rw (less, best) (best-attained false f q qs)
  | inr more ↦ rw (more, best) (best-attained false f p qs)
]

pub extreme-attained : (b : Bool) (s : StrategyPayoff) → (x : ℕ) × (extreme b s ≡ payoff s x)
unfolding extreme
extreme-attained b s = best-attained b (payoff s) 0 (probes_of s.underlying_price (strikes s))

-- Above every strike.
abbrev pub top : StrategyPayoff → ℕ
top s = largest (given_strikes s.legs)

pub has-largest : (x : ℕ) (ks : List ℕ) → largest ks < x → has x ks ≡ false
unfolding has largest
has-largest x [] h = refl
has-largest x (k ∷ ks) h = let rest = has-largest x ks (omega arith) in ground (arith, rest)

slope-top : (s : StrategyPayoff) (n : ℕ) → slope s.legs (top s + n) ≡ slope s.legs (top s)
slope-top s zero = rw add-zero refl
slope-top s (suc n) =
    let apart : has (suc (top s + n)) (given_strikes s.legs) ≡ false =
      has-largest (suc (top s + n)) (given_strikes s.legs) (omega arith) in
    rw (add-suc, slope-suc s.legs (top s + n) apart) (slope-top s n)

pub slope_above : (s : StrategyPayoff) (x : ℕ) → top s ≤ x → slope s.legs x ≡ slope s.legs (top s)
slope_above s x le =
    let sum : top s + (x - top s) ≡ x = omega arith in
    subst (λ y. slope s.legs y ≡ slope s.legs (top s)) sum (slope-top s (x - top s))

-- What holds at 0 and at every price tried holds at every strike.
at_strikes {ℓ} :
    (P : ℕ → Type ℓ) (s : StrategyPayoff)
    → All P (probes_of s.underlying_price (strikes s))
    → (x : ℕ) → has x (given_strikes s.legs) ≡ true
    → P x
unfolding strikes
at_strikes P s h x at =
    let sorted = All-probes P s.underlying_price (sort leb (distinct (given_strikes s.legs))) h in
    let set = All-sort_back leb P (distinct (given_strikes s.legs)) sorted in
    All-has P x (given_strikes s.legs) at (All-distinct P (given_strikes s.legs) set)

-- When the profit does not grow for ever, no price brings more than the extreme.
pub extreme_maximum :
    (s : StrategyPayoff)
    → slope s.legs (top s) ≤ℤ pos 0
    → (price : ℕ) → payoff s price ≤ℤ extreme true s
unfolding extreme
extreme_maximum s down =
    let ps = probes_of s.underlying_price (strikes s) in
    let above = best_max (payoff s 0) (map (payoff s) ps) in
    let m = best true (payoff s 0) (map (payoff s) ps) in
    bounded (payoff s) (λ x. in_millionths (slope s.legs x)) (payoff-suc s)
      (λ x. has x (given_strikes s.legs)) (λ x apart. ap in_millionths (slope-suc s.legs x apart)) m
      above.0 (at_strikes (λ p. payoff s p ≤ℤ m) s (All-map (λ w. w ≤ℤ m) (payoff s) ps above.1))
      (top s)
      (λ x le. rw (slope_above s x le) (
        omega (
          arith,
          down,
          scaled_positive (slope s.legs (top s)) rate_unit,
          scaled_negative (slope s.legs (top s)) rate_unit,
        )))

pub opposite-suc :
    (s : StrategyPayoff) (x : ℕ)
    → pos 0 -ℤ payoff s (suc x) ≡ (pos 0 -ℤ payoff s x) +ℤ (pos 0 -ℤ in_millionths (slope s.legs x))
opposite-suc s x = rw (payoff-suc s x) (omega int_laws)

-- When the profit does not fall for ever, no price brings less than the extreme.
pub extreme_minimum :
    (s : StrategyPayoff)
    → pos 0 ≤ℤ slope s.legs (top s)
    → (price : ℕ) → extreme false s ≤ℤ payoff s price
unfolding extreme
extreme_minimum s up price =
    let ps = probes_of s.underlying_price (strikes s) in
    let below = best_min (payoff s 0) (map (payoff s) ps) in
    let m = best false (payoff s 0) (map (payoff s) ps) in
    let at = at_strikes (λ p. m ≤ℤ payoff s p) s (All-map (λ w. m ≤ℤ w) (payoff s) ps below.1) in
    let least : pos 0 -ℤ payoff s price ≤ℤ pos 0 -ℤ m =
      bounded (λ x. pos 0 -ℤ payoff s x) (λ x. pos 0 -ℤ in_millionths (slope s.legs x))
        (opposite-suc s) (λ x. has x (given_strikes s.legs))
        (λ x apart. ap (λ v. pos 0 -ℤ in_millionths v) (slope-suc s.legs x apart)) (pos 0 -ℤ m)
        (omega (int_laws, below.0)) (λ x kink. omega (int_laws, at x kink)) (top s)
        (λ x le. rw (slope_above s x le) (
          omega (
            int_laws,
            up,
            scaled_positive (slope s.legs (top s)) rate_unit,
            scaled_negative (slope s.legs (top s)) rate_unit,
          )))
        price in
    omega (int_laws, least)
