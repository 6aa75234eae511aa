-- ===== src/CorporateActions.antt =====
-- market/corporate_actions.py: the actions of a symbol, and the contracts and prices they adjust. The
-- amounts are numbers of any kind `F`; `round` is Python's rounding to a whole number. A row of the
-- exchange is what `float` and `parse_tsetmc_date` read of it, and missing where one of them raises.
pub mod Splitting
mod Tests
use garnet_trader.Prelude.{
  ℕ, ◌+◌, max, Bool, true, false, not, ◌&&◌, ◌||◌, Option, none, some, List, [], ◌∷◌, ◌++◌, map,
  ltb, leb, if◌then◌else◌,
}
use garnet_trader.Prelude.Number.{Number}
use garnet_trader.Prelude.Result.{Result, ok, raised}
use garnet_trader.Prelude.Sort.{sort}
use garnet_trader.Prelude.Text.{Text, codes, text_eq}

-- The number of shares before and after stands with an increase that was read from the exchange.
pub record CorporateAction (F : Type 0) : Type 0 where
  pub underlying : Text
  pub effective_date : ℕ
  pub kind : Text
  pub ratio : Option F
  pub dividend : Option F
  pub shares : Option (F × F)

-- The fields of a contract that an action changes.
pub record AdjustedContract (F : Type 0) : Type 0 where
  pub strike : F
  pub contract_size : ℕ

pub record Candle (F : Type 0) : Type 0 where
  pub date : ℕ
  pub open_price : F
  pub high : F
  pub low : F
  pub close : F
  pub volume : F

pub record ShareChange (F : Type 0) : Type 0 where
  pub number_of_share_old : F
  pub number_of_share_new : F
  pub day : ℕ

abbrev is_by : ℕ → Option ℕ → Bool
is_by day none = true
is_by day (some end) = leb day end

module _ {F : Type 0} where
  abbrev pub is_capital_increase : CorporateAction F → Bool
  is_capital_increase a = text_eq a.kind (codes "capital_increase")

  -- By date, those of one date as they stand.
  abbrev pub is_earlier : CorporateAction F → CorporateAction F → Bool
  is_earlier a b = leb a.effective_date b.effective_date

  -- `CorporateActionLog(actions)`
  unfoldable pub make_log : List (CorporateAction F) → List (CorporateAction F)
  unfolding sort
  make_log actions = sort is_earlier actions

  unfoldable pub add : CorporateAction F → List (CorporateAction F) → List (CorporateAction F)
  unfolding sort
  add action log = sort is_earlier (log ++ action ∷ [])

  -- The actions after a day, up to another where that is given.
  unfoldable pub since : List (CorporateAction F) → ℕ → Option ℕ → List (CorporateAction F)
  since [] reference until = []
  since (a ∷ log) reference until =
      let rest = since log reference until in
      if ltb reference a.effective_date && is_by a.effective_date until then a ∷ rest else rest

module _ {F : Type 0} (n : Number F) where
  open n use {of_ℕ, sub, mul, div, is_zero, is_positive}

  abbrev is_negative : F → Bool
  is_negative x = not (is_zero x || is_positive x)

  -- `x or 1.0`
  unfoldable pub or_one : Option F → F
  or_one none = of_ℕ 1
  or_one (some x) = if is_zero x then of_ℕ 1 else x

  abbrev or_zero : Option F → F
  or_zero none = of_ℕ 0
  or_zero (some x) = x

  -- The checks of `__post_init__`.
  unfoldable pub validated : CorporateAction F → Result (CorporateAction F)
  validated a =
      if is_capital_increase a
      then elim a.ratio [ none ↦ raised | some ratio ↦ if is_positive ratio then ok a else raised ]
      else if text_eq a.kind (codes "cash_dividend")
      then elim a.dividend [
        | none ↦ raised
        | some dividend ↦ if is_negative dividend then raised else ok a
      ]
      else raised

  unfoldable pub from_share_change : Text → Option (ShareChange F) → Option (CorporateAction F)
  from_share_change underlying none = none
  from_share_change underlying (some row) =
      let old = row.number_of_share_old in
      let new = row.number_of_share_new in
      if not (is_positive old) || not (is_positive new) || is_zero (sub old new)
      then none
      else some (record {
        underlying = underlying;
        effective_date = row.day;
        kind = codes "capital_increase";
        ratio = some (div old new);
        dividend = none;
        shares = some (old, new);
      })

  -- Python's `apply`.
  unfoldable pub apply_action :
      (F → ℕ) → CorporateAction F → AdjustedContract F → AdjustedContract F
  unfolding or_one
  apply_action round a contract =
      if is_capital_increase a
      then (let ratio = or_one a.ratio in
          record {
            strike = mul contract.strike ratio;
            contract_size = max (round (div (of_ℕ contract.contract_size) ratio)) 1;
          })
      else (let strike = sub contract.strike (or_zero a.dividend) in
          record contract { strike = if is_positive strike then strike else of_ℕ 0 })

  unfoldable pub apply_all :
      (F → ℕ) → List (CorporateAction F) → AdjustedContract F → AdjustedContract F
  unfolding apply_action
  apply_all round [] contract = contract
  apply_all round (a ∷ pending) contract = apply_all round pending (apply_action round a contract)

  unfoldable pub adjust :
      (F → ℕ) → List (CorporateAction F) → AdjustedContract F → ℕ → ℕ → AdjustedContract F
  unfolding apply_all since
  adjust round log contract issued_on today =
      apply_all round (since log issued_on (some today)) contract

  unfoldable pub product : F → List (CorporateAction F) → F
  unfolding or_one
  product ratio [] = ratio
  product ratio (a ∷ actions) =
      product (if is_capital_increase a then mul ratio (or_one a.ratio) else ratio) actions

  unfoldable pub net_ratio : List (CorporateAction F) → ℕ → Option ℕ → F
  unfolding product since
  net_ratio log reference until = product (of_ℕ 1) (since log reference until)

  unfoldable pub adjust_candle : List (CorporateAction F) → Candle F → Candle F
  unfolding net_ratio
  adjust_candle log candle =
      let ratio = net_ratio log candle.date none in
      if is_zero (sub ratio (of_ℕ 1)) then candle else record candle {
        open_price = mul candle.open_price ratio;
        high = mul candle.high ratio;
        low = mul candle.low ratio;
        close = mul candle.close ratio;
      }

  unfoldable pub adjust_history : List (CorporateAction F) → List (Candle F) → List (Candle F)
  unfolding adjust_candle
  adjust_history [] candles = candles
  adjust_history (a ∷ log) candles = map (adjust_candle (a ∷ log)) candles

  abbrev same_shares : Option (F × F) → Option (F × F) → Bool
  same_shares none none = true
  same_shares none (some t) = false
  same_shares (some s) none = false
  same_shares (some (old, new)) (some (old', new')) =
      is_zero (sub old old') && is_zero (sub new new')

  unfoldable pub is_seen : Option (F × F) → List (Option (F × F)) → Bool
  is_seen key [] = false
  is_seen key (k ∷ seen) = same_shares key k || is_seen key seen

  -- The actions of the rows, each transition of the number of shares once.
  unfoldable pub collect :
      Text → List (Option (ShareChange F)) → List (Option (F × F)) → List (CorporateAction F)
  unfolding from_share_change is_seen
  collect underlying [] seen = []
  collect underlying (row ∷ rows) seen = elim (from_share_change underlying row) [
    | none ↦ collect underlying rows seen
    | some a ↦
        let rest = collect underlying rows (a.shares ∷ seen) in
        if is_seen a.shares seen then collect underlying rows seen else a ∷ rest
  ]

  unfoldable pub fetch_corporate_actions :
      Text → Result (List (Option (ShareChange F))) → Result (List (CorporateAction F))
  unfolding collect make_log
  fetch_corporate_actions underlying raised = raised
  fetch_corporate_actions underlying (ok rows) = ok (make_log (collect underlying rows []))

  pub try_fetch_corporate_actions :
      Text → Result (List (Option (ShareChange F))) → List (CorporateAction F)
  unfolding fetch_corporate_actions
  try_fetch_corporate_actions underlying answer = elim (fetch_corporate_actions underlying answer) [
    | raised ↦ []
    | ok log ↦ log
  ]
