-- ===== src/CorporateActions/Tests.antt =====
-- Runs of the corporate actions, on whole numbers.
use garnet_trader.Prelude.{
  ℕ, ◌+◌, ◌-◌, ◌*◌, ◌/◌, ◌≡◌, refl, Option, none, some, List, [], ◌∷◌, ◌==◌, ltb, length, arith,
}
use garnet_trader.Prelude.Number.{Number}
use garnet_trader.Prelude.Text.{Text, codes, text_eq}
use garnet_trader.CorporateActions.{
  CorporateAction, AdjustedContract, ShareChange, make_log, adjust, collect,
}
use garnet_trader.CorporateActions.Splitting.{add_all, adjust-split}

-- Thousandths, rounded down and without a sign, as an implementation of the numbers.
abbrev thousandths : Number ℕ
thousandths = record {
  of_ℕ = λ k. k * 1000;
  add = λ a b. a + b;
  sub = λ a b. (a - b) + (b - a);
  mul = λ a b. a * b / 1000;
  div = λ a b. a * 1000 / b;
  magnitude = λ a. a;
  is_zero = λ a. a == 0;
  is_positive = λ a. ltb 0 a;
}

abbrev action_on : ℕ → Text → Option ℕ → Option ℕ → CorporateAction ℕ
action_on day kind ratio dividend = record {
  underlying = codes "A";
  effective_date = day;
  kind = kind;
  ratio = ratio;
  dividend = dividend;
  shares = none;
}

-- The number of shares doubles on day 20, and 100 is paid on day 10.
abbrev doubling : CorporateAction ℕ
doubling = action_on 20 (codes "capital_increase") (some 500) none

abbrev dividend : CorporateAction ℕ
dividend = action_on 10 (codes "cash_dividend") none (some 100000)

abbrev whole : ℕ → ℕ
whole x = x / 1000

abbrev contract : AdjustedContract ℕ
contract = record { strike = 1000000; contract_size = 1000 }

abbrev both : List (CorporateAction ℕ)
both = make_log (doubling ∷ dividend ∷ [])

-- The dividend comes off first, then the strike halves and the size doubles.
adjust-both :
    adjust thousandths whole both contract 5 30 ≡ record { strike = 450000; contract_size = 2000 }
unfolding adjust make_log text_eq
adjust-both = refl

-- A contract issued between the two sees the second alone.
adjust-issued_between :
    adjust thousandths whole both contract 10 30 ≡ record { strike = 500000; contract_size = 2000 }
unfolding adjust make_log text_eq
adjust-issued_between = refl

abbrev change_on : ℕ → Option (ShareChange ℕ)
change_on day =
    some (record { number_of_share_old = 1210000; number_of_share_new = 2378000; day = day })

-- The exchange repeats an increase on the next day.
collect-repeated : length (collect thousandths (codes "A") (change_on 3 ∷ change_on 4 ∷ []) []) ≡ 1
unfolding collect
collect-repeated = refl

adjust-split_example :
    let log = add_all (dividend ∷ []) (make_log (doubling ∷ [])) in
    adjust thousandths whole log (adjust thousandths whole log contract 5 15) 15 30
    ≡ adjust thousandths whole log contract 5 30
adjust-split_example =
    adjust-split thousandths whole (doubling ∷ []) (dividend ∷ []) contract 5 15 30 (omega arith)
      (omega arith)
