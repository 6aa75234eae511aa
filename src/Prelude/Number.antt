-- ===== src/Prelude/Number.antt =====
-- Python's floats, where the program's values are not whole: a parameter of the model, the
-- operations that the code calls. Nothing is assumed of them, so what is proved over a `Number`
-- holds of IEEE arithmetic with its rounding as of exact numbers.
use garnet_trader.Prelude.{ℕ, Bool}
use garnet_trader.Prelude.Int.{pos_part}
use garnet_trader.Prelude.Ratio.{Ratio}

pub record Number (F : Type 0) : Type 0 where
  pub of_ℕ : ℕ → F
  pub add : F → F → F
  pub sub : F → F → F
  pub mul : F → F → F
  pub div : F → F → F
  pub magnitude : F → F
  pub is_zero : F → Bool
  pub is_positive : F → Bool

-- A quotient that is not negative, as the division that forms it.
abbrev pub quotient : {F : Type 0} → Number F → Ratio → F
quotient n r = n.div (n.of_ℕ (pos_part r.num)) (n.of_ℕ r.den)
