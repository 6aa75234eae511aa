-- ===== src/PaperStore/Rows.antt =====
-- What each statement does to the rows of the tables: the contracts held of a symbol, those bought
-- by the orders and those closed by the trades.
use garnet_trader.Prelude.{
  ℕ, ◌+◌, ◌≡◌, Option, none, some, List, [], ◌∷◌, ◌++◌, arith, if◌then◌else◌,
}
use garnet_trader.Prelude.Dict.{Dict, lookup, insert, lookup-insert, lookup-erase}
use garnet_trader.Prelude.Int.{ℤ, pos_part}
use garnet_trader.Prelude.Text.{Text, codes, text_eq}
use garnet_trader.PaperStore.{
  Store, OrderRow, PositionRow, TradeRow, upsert_position, delete_position, opened, update_cash,
}

module _ {F : Type 0} where
  -- The contracts held of a symbol, 0 without a position.
  abbrev pub quantity_of : Option (PositionRow F) → ℕ
  quantity_of none = 0
  quantity_of (some row) = row.quantity

  unfoldable pub held_of : Text → Dict (PositionRow F) → ℕ
  held_of symbol positions = quantity_of (lookup symbol positions)

  -- What one order adds to the contracts bought of a symbol.
  unfoldable pub bought_by : Text → OrderRow F → ℕ
  bought_by symbol o =
      if text_eq o.symbol symbol
      then (if text_eq o.side (codes "buy") then o.filled_quantity else 0)
      else 0

  unfoldable pub bought : Text → Dict (OrderRow F) → ℕ
  bought symbol [] = 0
  bought symbol ((id, o) ∷ orders) = bought_by symbol o + bought symbol orders

  unfoldable pub closed : Text → List (TradeRow F) → ℕ
  closed symbol [] = 0
  closed symbol (t ∷ ts) = (if text_eq t.symbol symbol then t.quantity else 0) + closed symbol ts

  pub closed-append :
      (symbol : Text) (ts : List (TradeRow F)) (t : TradeRow F)
      → closed symbol (ts ++ t ∷ [])
        ≡ closed symbol ts + (if text_eq t.symbol symbol then t.quantity else 0)
  unfolding closed
  closed-append symbol [] t = omega arith
  closed-append symbol (u ∷ us) t = omega (arith, closed-append symbol us t)

  pub closed_append :
      (symbol : Text) (ts us : List (TradeRow F))
      → closed symbol (ts ++ us) ≡ closed symbol ts + closed symbol us
  unfolding closed
  closed_append symbol [] us = omega arith
  closed_append symbol (t ∷ ts) us = omega (arith, closed_append symbol ts us)

  -- An order under a fresh identifier adds what it bought.
  pub bought-insert :
      (symbol id : Text) (o : OrderRow F) (orders : Dict (OrderRow F))
      → lookup id orders ≡ none
      → bought symbol (insert id o orders) ≡ bought symbol orders + bought_by symbol o
  unfolding bought insert lookup
  bought-insert symbol id o [] h = omega arith
  bought-insert symbol id o ((j, p) ∷ orders) h = ground (arith, bought-insert symbol id o orders)

  pub held-upsert :
      (symbol k : Text) (q : ℤ) (price : F) (at now : ℕ) (s : Store F)
      → held_of k (upsert_position symbol q price at now s).positions
        ≡ (if text_eq symbol k then pos_part q else held_of k s.positions)
  unfolding upsert_position delete_position held_of
  held-upsert symbol k q price at now s = ground (
    arith,
    lookup-erase {V = PositionRow F} symbol k s.positions,
    lookup-insert {V = PositionRow F} symbol k
        (record {
          quantity = pos_part q;
          average_price = price;
          opened_at = opened symbol at s;
          updated_at = now;
        })
        s.positions,
  )

  pub held-delete :
      (symbol k : Text) (s : Store F)
      → held_of k (delete_position symbol s).positions
        ≡ (if text_eq symbol k then 0 else held_of k s.positions)
  unfolding delete_position held_of
  held-delete symbol k s = ground (arith, lookup-erase symbol k s.positions)

  -- A statement on one table leaves the others alone.
  pub update_cash-tables :
      (cash : F) (s : Store F)
      → ((update_cash cash s).orders ≡ s.orders)
        × ((update_cash cash s).positions ≡ s.positions)
        × ((update_cash cash s).trades ≡ s.trades)
  unfolding update_cash
  update_cash-tables cash s = ground arith

  pub upsert_position-tables :
      (symbol : Text) (q : ℤ) (price : F) (at now : ℕ) (s : Store F)
      → ((upsert_position symbol q price at now s).orders ≡ s.orders)
        × ((upsert_position symbol q price at now s).account ≡ s.account)
        × ((upsert_position symbol q price at now s).trades ≡ s.trades)
  unfolding upsert_position
  upsert_position-tables symbol q price at now s = ground arith
