-- ===== src/Prelude/Ratio.antt =====
-- An exact quotient, where the program divides two floats: the quotient of what they stand for.
-- Rounding is not modelled. It is kept as it was formed, not in lowest terms.
use garnet_trader.Prelude.{ℕ}
use garnet_trader.Prelude.Int.{ℤ, pos}

pub record Ratio : Type 0 where
  pub num : ℤ
  pub den : ℕ

abbrev pub ratio : ℤ → ℕ → Ratio
ratio n d = record { num = n; den = d }

abbrev pub ratio_ℕ : ℕ → ℕ → Ratio
ratio_ℕ n d = ratio (pos n) d
