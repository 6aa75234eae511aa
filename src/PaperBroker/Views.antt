-- ===== src/PaperBroker/Views.antt =====
-- What the dashboard reads of the account: the open positions and their floating profit.
use garnet_trader.Prelude.{ℕ, Option, none, some, List, [], ◌∷◌, map, if◌then◌else◌}
use garnet_trader.Prelude.Int.{pos}
use garnet_trader.Prelude.Number.{Number, quotient}
use garnet_trader.Prelude.Result.{Result, ok, raised}
use garnet_trader.Prelude.Text.{Text, codes}
use garnet_trader.OrderBook.{fill_price}
use garnet_trader.PaperStore.{Store, PositionRow, list_positions}
use garnet_trader.PaperBroker.{Broker, Contract}

pub record Position (F : Type 0) : Type 0 where
  pub symbol : Text
  pub quantity : ℕ
  pub average_price : F

pub record Unrealized (F : Type 0) : Type 0 where
  pub mark_price : F
  pub pnl_absolute : F
  pub pnl_pct : F

module _ {F : Type 0} (n : Number F) (b : Broker F) where
  open n use {of_ℕ, sub, mul, div, is_zero}

  pub get_positions : Store F → List (Position F)
  get_positions s =
      map (λ p. record { symbol = p.0; quantity = p.1.quantity; average_price = p.1.average_price })
        (list_positions s)

  -- A division by an average price of 0 raises.
  mark : Contract F → PositionRow F → F → Result (Option (Unrealized F))
  mark c row mark_price =
      let price_diff = sub mark_price row.average_price in
      if is_zero row.average_price
      then raised
      else ok (
          some (record {
            mark_price = mark_price;
            pnl_absolute = mul (mul price_diff (of_ℕ row.quantity)) (of_ℕ c.contract_size);
            pnl_pct = mul (div price_diff row.average_price) (of_ℕ 100);
          }))

  unrealized_of : Text → PositionRow F → Result (Option (Unrealized F))
  unrealized_of symbol row = elim (b.resolve_contract symbol) [
    | none ↦ ok none
    | some c ↦ elim c.ins_code [
      | [] ↦ ok none
      | _ ∷ _ ↦ elim (b.order_book c.ins_code symbol) [
        | none ↦ ok none
        | some book ↦ elim (fill_price (codes "sell") (pos row.quantity) book) [
          | none ↦ raised
          | some fill ↦ elim fill.average [
            | none ↦ ok none
            | some average ↦ mark c row (quotient n average)
          ]
        ]
      ]
    ]
  ]

  abbrev with_row :
      Text → Option (Unrealized F) → List (Text × Unrealized F) → List (Text × Unrealized F)
  with_row symbol none rest = rest
  with_row symbol (some u) rest = (symbol, u) ∷ rest

  unrealized_rows : List (Text × PositionRow F) → Result (List (Text × Unrealized F))
  unrealized_rows [] = ok []
  unrealized_rows ((symbol, row) ∷ rows) =
      let rest = unrealized_rows rows in
      elim (unrealized_of symbol row) [
        | raised ↦ raised
        | ok u ↦ elim rest [ raised ↦ raised | ok us ↦ ok (with_row symbol u us) ]
      ]

  pub unrealized_pnl : Store F → Result (List (Text × Unrealized F))
  unrealized_pnl s = unrealized_rows (list_positions s)
