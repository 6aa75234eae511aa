-- ===== src/Risk/Bounds.antt =====
-- What the suggested quantity is the largest of.
use native.Mathlib.Nat.{le-div_iff_mul-le, mul-pos}
use garnet_trader.Prelude.{ℕ, ◌*◌, ◌/◌, ◌≤◌, ◌≡◌, ◌↔◌, ◌+◌, refl, true, false, arith}
use garnet_trader.Payoff.{Side, buy, sell, is_buy}
use garnet_trader.Signals.{Signal}
use garnet_trader.Risk.{
  RiskLimits, FeeRules, million, risk_budget, exposure_cap, risk_per_contract, qty_by_risk,
  qty_by_exposure, suggestion, evaluate,
}

-- What one contract may lose: a purchase the part of its cost at which it is stopped, a sale twice
-- its premium, each with the fees of both ends. Amounts are in millionths.
abbrev pub loss_of : FeeRules → RiskLimits → Side → ℕ → ℕ
loss_of f l buy cost = cost * l.stop_loss + f.round_trip_cost cost true
loss_of f l sell cost = 2 * cost * 1000000 + f.round_trip_cost cost false

-- A number of contracts within the limits: what it risks, what it costs, and the number itself.
abbrev pub Fits : FeeRules → RiskLimits → Signal → ℕ → ℕ → Type 0
Fits f l s contract_size q =
    let cost = s.suggested_price * contract_size in
    (q * loss_of f l s.side cost ≤ l.account_equity * l.risk_per_trade)
    × (q * (cost * 1000000) ≤ l.account_equity * l.max_position)
    × (q ≤ l.max_contracts)

loss_of-eq :
    (f : FeeRules) (l : RiskLimits) (side : Side) (cost : ℕ)
    → risk_per_contract f l (is_buy side) cost ≡ loss_of f l side cost
unfolding risk_per_contract
loss_of-eq f l buy cost = refl
loss_of-eq f l sell cost = omega arith

qty_by_risk_lem : (b r q : ℕ) → 1 ≤ r → (q * r ≤ b) ↔ (q ≤ qty_by_risk b r)
unfolding qty_by_risk
qty_by_risk_lem b r q positive =
    let two : (q ≤ b / r) ↔ (q * r ≤ b) = le-div_iff_mul-le positive in
    let same : qty_by_risk b r ≡ b / r = ground (arith, positive) in rw same (two.1, two.0)

qty_by_exposure_lem :
    (l : RiskLimits) (cost q : ℕ)
    → 1 ≤ cost
    → (q * (cost * million) ≤ exposure_cap l) ↔ (q ≤ qty_by_exposure l cost)
unfolding qty_by_exposure
qty_by_exposure_lem l cost q positive =
    let two : (q ≤ exposure_cap l / (cost * million)) ↔ (q * (cost * million) ≤ exposure_cap l) =
      le-div_iff_mul-le (omega arith) in
    (two.1, two.0)

-- A premium and a contract size that are not 0, and a contract that risks something: the quantity
-- suggested is the largest whose risk, fees included, stays within the risk of one trade, whose cost
-- stays within the part of the account for one position, and that is no more than `max_contracts`. A
-- purchase risks the part of its cost at which it is stopped, a sale twice its premium; the loss
-- suggested with the quantity is that risk times the quantity.
pub evaluate-Fits :
    (f : FeeRules) (l : RiskLimits) (s : Signal) (contract_size q : ℕ)
    → 1 ≤ s.suggested_price
    → 1 ≤ contract_size
    → 1 ≤ loss_of f l s.side (s.suggested_price * contract_size)
    → (Fits f l s contract_size q ↔ (q ≤ (evaluate f l s contract_size).suggested_qty))
      × ((evaluate f l s contract_size).max_loss
          ≡ (evaluate f l s contract_size).suggested_qty
            * loss_of f l s.side (s.suggested_price * contract_size))
unfolding evaluate suggestion
evaluate-Fits f l s size q price sized risky =
    let cost = s.suggested_price * size in
    let risk = risk_per_contract f l (is_buy s.side) cost in
    let some_cost : 1 ≤ cost = mul-pos price sized in
    let loss = loss_of-eq f l s.side cost in
    let by_risk = qty_by_risk_lem (risk_budget l) (loss_of f l s.side cost) q risky in
    let by_exposure = qty_by_exposure_lem l cost q some_cost in
    let same : evaluate f l s size ≡ suggestion f l (is_buy s.side) s.suggested_price size =
      ground (arith, price, sized) in
    rw (same, loss)
      (
        (
          (λ fits. omega (arith, by_risk.0 fits.0, by_exposure.0 fits.1, fits.2)),
          (λ le. (
            by_risk.1 (omega (arith, le)),
            by_exposure.1 (omega (arith, le)),
            omega (arith, le),
          )),
        ),
        refl,
      )
