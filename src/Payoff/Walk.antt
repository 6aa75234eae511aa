-- ===== src/Payoff/Walk.antt =====
-- A function of the price that grows by a slope, where the slope changes at some prices only.
use native.Mathlib.Decide.{dec_le}
use native.Mathlib.Nat.{add-zero, add-suc}
use garnet_trader.Prelude.{
  ℕ, zero, suc, ◌+◌, ◌≤◌, ◌<◌, ◌≡◌, ◌⊎◌, inl, inr, Bool, true, false, arith, Bool-cases,
}
use garnet_trader.Prelude.Int.{ℤ, pos, pos_part, neg_part, ◌+ℤ◌, ◌≤ℤ◌, +ℤ_parts, int_laws}

module _ (f s : ℕ → ℤ) (grow : (x : ℕ) → f (suc x) ≡ f x +ℤ s x) where
  grow_parts :
      (x : ℕ)
      → pos_part (f (suc x)) + neg_part (f x) + neg_part (s x)
        ≡ neg_part (f (suc x)) + pos_part (f x) + pos_part (s x)
  grow_parts x = rw (grow x) (+ℤ_parts (f x) (s x))

  -- Where the slope is at least 1 from some price on, the function passes every bound.
  pub climbs : (top n : ℕ) → ((x : ℕ) → top ≤ x → pos 1 ≤ℤ s x) → f top +ℤ pos n ≤ℤ f (top + n)
  climbs top zero up = rw add-zero (omega int_laws)
  climbs top (suc n) up =
      rw add-suc
        (omega (int_laws, climbs top n up, up (top + n) (omega arith), grow_parts (top + n)))

  pub passes :
      (top : ℕ) → ((x : ℕ) → top ≤ x → pos 1 ≤ℤ s x) → (bound : ℤ) → (x : ℕ) × (bound ≤ℤ f x)
  passes top up bound =
      let n = pos_part bound + neg_part (f top) in (top + n, omega (int_laws, climbs top n up))

  module _ (kink : ℕ → Bool) (flat : (x : ℕ) → kink (suc x) ≡ false → s (suc x) ≡ s x) (m : ℤ)
      (first : f 0 ≤ℤ m) (at_kinks : (x : ℕ) → kink x ≡ true → f x ≤ℤ m) where
    -- A price at which the function is above the bound and still grows.
    abbrev IsRising : ℕ → Type 0
    IsRising x = (pos_part m + neg_part (f x) < pos_part (f x) + neg_part m) × (pos 1 ≤ℤ s x)

    IsRising-suc : (x : ℕ) → IsRising x → IsRising (suc x)
    IsRising-suc x up = elim (Bool-cases (kink (suc x))) [
      | inl at ↦ absurd (omega (int_laws, up.0, up.1, grow_parts x, at_kinks (suc x) at))
      | inr between ↦
          let same = flat x between in (omega (int_laws, up.0, up.1, grow_parts x), rw same up.1)
    ]

    IsRising-add : (x n : ℕ) → IsRising x → IsRising (x + n)
    IsRising-add x zero up = rw add-zero up
    IsRising-add x (suc n) up = rw add-suc (IsRising-suc (x + n) (IsRising-add x n up))

    below_or_IsRising : (x : ℕ) → (f x ≤ℤ m) ⊎ IsRising x
    below_or_IsRising zero = inl first
    below_or_IsRising (suc x) = elim (below_or_IsRising x) [
      | inr up ↦ inr (IsRising-suc x up)
      | inl low ↦ elim (Bool-cases (kink (suc x))) [
        | inl at ↦ inl (at_kinks (suc x) at)
        | inr between ↦
            elim (dec_le (pos_part (f (suc x)) + neg_part m) (pos_part m + neg_part (f (suc x)))) [
              | yes le ↦ inl le
              | no gt ↦
                  let same = flat x between in
                  let up : pos 1 ≤ℤ s x = omega (int_laws, gt, low, grow_parts x) in
                  inr (omega (arith, gt), rw same up)
            ]
      ]
    ]

    -- A bound at 0 and where the slope changes is a bound at every price, when the function does
    -- not grow for ever.
    pub bounded : (top : ℕ) → ((x : ℕ) → top ≤ x → s x ≤ℤ pos 0) → (x : ℕ) → f x ≤ℤ m
    bounded top down x = elim (below_or_IsRising x) [
      | inl low ↦ low
      | inr up ↦ absurd (omega (arith, (IsRising-add x top up).1, down (x + top) (omega arith)))
    ]
