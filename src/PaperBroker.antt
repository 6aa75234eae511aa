-- ===== src/PaperBroker.antt =====
-- execution/paper_broker.py: `PaperBroker`, which fills each order at once against the book or
-- refuses it. The contracts and the order books are parameters: `resolve_contract`, and what
-- `try_get_order_book` answers. The identifiers that uuid draws and the clock come with each call.
-- Amounts are numbers of any kind, under the operations that the code applies to them.
pub mod Orders
pub mod Positions
pub mod Placing
pub mod Settling
pub mod Keys
pub mod Ledger
pub mod Views
mod Tests
use garnet_trader.Prelude.{
  ℕ, ◌+◌, ◌-◌, ◌≤◌, Bool, true, false, not, ◌&&◌, ◌||◌, Option, none, some, List, [], ◌∷◌, ◌++◌,
  ltb, leb, ◌==◌, if◌then◌else◌,
}
use garnet_trader.Prelude.Int.{ℤ, pos, pos_part, ◌-ℤ◌, leb_ℤ, ltb_ℤ}
use garnet_trader.Prelude.Number.{Number, quotient}
use garnet_trader.Prelude.Ratio.{Ratio}
use garnet_trader.Prelude.Result.{Result, ok, raised}
use garnet_trader.Prelude.Text.{Text, codes, text_eq, lower}
use garnet_trader.Fees.{FeeSchedule, entry_cost, exit_cost}
use garnet_trader.OrderBook.{OrderBook, Fill, fill_price}
use garnet_trader.PaperStore.{
  Account, Store, OrderRow, OrderStatus, filled, partially_filled, rejected, Reason, bad_quantity,
  bad_side, not_held, no_contract, no_book, no_depth, Metadata, because, paid, PositionRow,
  TradeRow, CloseReason, manual, expiry_settlement, init_account, update_cash, save_order,
  get_order, get_position, delete_position, upsert_position, list_positions, record_trade, reset,
}

-- What the broker reads of an `OptionContract`. The expiry is a day.
pub record Contract (F : Type 0) : Type 0 where
  pub ins_code : Text
  pub contract_size : ℕ
  pub expiry : ℕ
  pub last_price : Option F

-- The state besides the store, which no method changes.
pub record Broker (F : Type 0) : Type 0 where
  pub fees : FeeSchedule F
  pub resolve_contract : Text → Option (Contract F)
  pub order_book : Text → Text → Option OrderBook

pub record Request : Type 0 where
  pub symbol : Text
  pub side : Text
  pub quantity : ℤ
  pub signal_id : Option Text
  pub now : ℕ
  pub order_id : Text
  pub trade_id : Text

-- What the checks of `place_order` come to: a refusal, an exception, or a fill of some contracts at
-- an average price.
pub data Decision (F : Type 0) : Type 0 where
  refuse_for : Reason → Decision F
  fails : Decision F
  execute : Contract F → F → ℕ → Decision F

abbrev is_open_status : OrderStatus → Bool
is_open_status OrderStatus.open' = true
is_open_status _ = false

module _ {F : Type 0} (n : Number F) (b : Broker F) where
  open n use {of_ℕ, add, sub, mul, div, is_zero}

  unfoldable pub refuse : Request → Reason → Store F → OrderRow F × Store F
  refuse r reason s =
      let order : OrderRow F = record {
        order_id = r.order_id;
        symbol = r.symbol;
        side = r.side;
        quantity = r.quantity;
        filled_quantity = 0;
        avg_fill_price = of_ℕ 0;
        status = rejected;
        fee_paid = of_ℕ 0;
        signal_id = none;
        created_at = r.now;
        metadata = because reason;
      } in
      (order, save_order order s)

  unfoldable pub on_fill : Contract F → Option Fill → Decision F
  on_fill c none = fails
  on_fill c (some fill) = elim fill.average [
    | none ↦ refuse_for no_depth
    | some avg ↦
        if leb fill.filled 0 then refuse_for no_depth else execute c (quotient n avg) fill.filled
  ]

  unfoldable pub on_contract : Text → Text → ℕ → Option (Contract F) → Decision F
  on_contract side symbol quantity none = refuse_for no_contract
  on_contract side symbol quantity (some c) = elim c.ins_code [
    | [] ↦ refuse_for no_contract
    | _ ∷ _ ↦ elim (b.order_book c.ins_code symbol) [
      | none ↦ refuse_for no_book
      | some book ↦ on_fill c (fill_price side (pos quantity) book)
    ]
  ]

  -- The contracts held of a symbol.
  unfoldable pub held : Text → Store F → ℕ
  held symbol s = elim (get_position symbol s) [ none ↦ 0 | some row ↦ row.quantity ]

  unfoldable pub decide_order : Request → Store F → Decision F
  decide_order r s =
      let side = lower r.side in
      let quantity = pos_part r.quantity in
      if leb_ℤ r.quantity (pos 0)
      then refuse_for bad_quantity
      else if not (text_eq side (codes "buy") || text_eq side (codes "sell"))
      then refuse_for bad_side
      else if text_eq side (codes "sell") && ltb (held r.symbol s) quantity
      then refuse_for not_held
      else on_contract side r.symbol quantity (b.resolve_contract r.symbol)

  unfoldable pub contract_size : Text → ℕ
  contract_size symbol = elim (b.resolve_contract symbol) [ none ↦ 1 | some c ↦ c.contract_size ]

  -- price × quantity × size
  abbrev pub value : F → ℕ → ℕ → F
  value price quantity size = mul (mul price (of_ℕ quantity)) (of_ℕ size)

  unfoldable pub add_position : Text → ℕ → F → ℕ → Store F → Store F
  add_position symbol filled_qty avg now s = elim (get_position symbol s) [
    | none ↦ upsert_position symbol (pos filled_qty) avg now now s
    | some row ↦
        let new_qty = row.quantity + filled_qty in
        let old_cost = mul (of_ℕ row.quantity) row.average_price in
        let new_avg = div (add old_cost (mul (of_ℕ filled_qty) avg)) (of_ℕ new_qty) in
        upsert_position symbol (pos new_qty) new_avg row.opened_at now s
  ]

  -- Without an account, reading its cash raises.
  unfoldable pub apply_buy : Text → ℕ → F → F → ℕ → Store F → Result (Store F)
  apply_buy symbol filled_qty avg fee now s = elim s.account [
    | none ↦ raised
    | some a ↦
        let notional = value avg filled_qty (contract_size symbol) in
        ok (add_position symbol filled_qty avg now (update_cash (sub (sub a.cash notional) fee) s))
  ]

  unfoldable pub percent : F → F → F
  percent exit entry = if is_zero entry then of_ℕ 0 else mul (div (sub exit entry) entry) (of_ℕ 100)

  unfoldable pub close_trade : Request → Contract F → PositionRow F → ℕ → F → F → TradeRow F
  close_trade r c row filled_qty avg fee = record {
    trade_id = r.trade_id;
    symbol = r.symbol;
    quantity = filled_qty;
    entry_price = row.average_price;
    exit_price = avg;
    fee_paid = fee;
    pnl_absolute = sub (value (sub avg row.average_price) filled_qty c.contract_size) fee;
    pnl_pct = percent avg row.average_price;
    opened_at = row.opened_at;
    closed_at = r.now;
    signal_id = r.signal_id;
    close_reason = manual;
  }

  unfoldable pub apply_sell : Request → Contract F → ℕ → F → F → Store F → Result (Store F)
  apply_sell r c filled_qty avg fee s = elim (get_position r.symbol s) [
    | none ↦ raised
    | some row ↦ elim s.account [
      | none ↦ raised
      | some a ↦
          let notional = value avg filled_qty c.contract_size in
          let s₁ = update_cash (sub (add a.cash notional) fee) s in
          let s₂ =
            upsert_position r.symbol (pos row.quantity -ℤ pos filled_qty) row.average_price
              row.opened_at r.now s₁ in
          ok (record_trade (close_trade r c row filled_qty avg fee) s₂)
    ]
  ]

  unfoldable pub filled_order : Request → Contract F → F → ℕ → OrderRow F
  filled_order r c avg filled_qty =
      let is_buy = text_eq (lower r.side) (codes "buy") in
      let notional = value avg filled_qty c.contract_size in
      let fee =
        if is_buy then entry_cost n b.fees notional is_buy else exit_cost n b.fees notional true in
      record {
        order_id = r.order_id;
        symbol = r.symbol;
        side = lower r.side;
        quantity = r.quantity;
        filled_quantity = filled_qty;
        avg_fill_price = avg;
        status = if filled_qty == pos_part r.quantity then filled else partially_filled;
        fee_paid = fee;
        signal_id = r.signal_id;
        created_at = r.now;
        metadata = paid c.ins_code fee;
      }

  unfoldable pub apply_fill : Request → Contract F → ℕ → F → F → Store F → Result (Store F)
  apply_fill r c filled_qty avg fee s =
      if text_eq (lower r.side) (codes "buy")
      then apply_buy r.symbol filled_qty avg fee r.now s
      else apply_sell r c filled_qty avg fee s

  -- The order is saved once the fill is applied.
  unfoldable pub save_filled :
      OrderRow F → Store F → Result (Store F) → Result (OrderRow F) × Store F
  save_filled order s raised = (raised, s)
  save_filled order s (ok s') = (ok order, save_order order s')

  unfoldable pub run_decision : Request → Decision F → Store F → Result (OrderRow F) × Store F
  run_decision r (refuse_for reason) s = let (order, s') = refuse r reason s in (ok order, s')
  run_decision r fails s = (raised, s)
  run_decision r (execute c avg filled_qty) s =
      let order = filled_order r c avg filled_qty in
      save_filled order s (apply_fill r c filled_qty avg order.fee_paid s)

  unfoldable pub place_order : Request → Store F → Result (OrderRow F) × Store F
  place_order r s = run_decision r (decide_order r s) s

  unfoldable pub cancel_order : Text → Store F → Bool
  cancel_order order_id s = elim (get_order order_id s) [
    | none ↦ false
    | some o ↦ is_open_status o.status
  ]

  pub modify_order : Text → Result (OrderRow F)
  modify_order order_id = raised

  pub get_order_status : Text → Store F → Result OrderStatus
  get_order_status order_id s = elim (get_order order_id s) [ none ↦ raised | some o ↦ ok o.status ]

  pub get_account_balance : Store F → F
  get_account_balance s = elim s.account [ none ↦ of_ℕ 0 | some a ↦ a.cash ]

  unfoldable pub expiry_trade : Text → PositionRow F → Contract F → F → F → ℕ → Text → TradeRow F
  expiry_trade symbol row c price fee now trade_id = record {
    trade_id = trade_id;
    symbol = symbol;
    quantity = row.quantity;
    entry_price = row.average_price;
    exit_price = price;
    fee_paid = fee;
    pnl_absolute = sub (value (sub price row.average_price) row.quantity c.contract_size) fee;
    pnl_pct = percent price row.average_price;
    opened_at = row.opened_at;
    closed_at = now;
    signal_id = none;
    close_reason = expiry_settlement;
  }

  -- The end of a round of `settle_expired_positions`. The percentage divides by the entry price when
  -- the position is already gone.
  unfoldable pub settle_at :
      Text
      → PositionRow F
      → Contract F
      → F
      → ℕ
      → Text
      → Store F
      → Result (Option (TradeRow F)) × Store F
  settle_at symbol row c price now trade_id s =
      let notional = value price row.quantity c.contract_size in
      let fee = exit_cost n b.fees notional true in
      elim s.account [
        | none ↦ (raised, s)
        | some a ↦
            let s' = delete_position symbol (update_cash (sub (add a.cash notional) fee) s) in
            let trade = expiry_trade symbol row c price fee now trade_id in
            if is_zero row.average_price
            then (raised, s')
            else (ok (some trade), record_trade trade s')
      ]

  -- Settlement of one position, by the day, the time and a fresh identifier. `ok none` passes over
  -- it.
  unfoldable pub settle_row :
      ℕ → ℕ → Text → Text × PositionRow F → Store F → Result (Option (TradeRow F)) × Store F
  settle_row today now trade_id (symbol, row) s = elim (b.resolve_contract symbol) [
    | none ↦ (ok none, s)
    | some c ↦ if ltb today c.expiry then (ok none, s) else elim c.last_price [
      | none ↦ (ok none, s)
      | some price ↦ settle_at symbol row c price now trade_id s
    ]
  ]

  abbrev pub after_row :
      Option (TradeRow F) → Result (List (TradeRow F)) → Result (List (TradeRow F))
  after_row t raised = raised
  after_row none (ok ts) = ok ts
  after_row (some t) (ok ts) = ok (t ∷ ts)

  -- The loop over the rows that were read before it began.
  unfoldable pub settle_rows :
      ℕ
      → ℕ
      → (Text → Text)
      → List (Text × PositionRow F)
      → Store F
      → Result (List (TradeRow F)) × Store F
  settle_rows today now fresh [] s = (ok [], s)
  settle_rows today now fresh (row ∷ rows) s =
      let (r, s₁) = settle_row today now (fresh row.0) row s in
      elim r [
        | raised ↦ (raised, s₁)
        | ok t ↦ let (ts, s₂) = settle_rows today now fresh rows s₁ in (after_row t ts, s₂)
      ]

  unfoldable pub settle_expired_positions :
      ℕ → ℕ → (Text → Text) → Store F → Result (List (TradeRow F)) × Store F
  settle_expired_positions today now fresh s = settle_rows today now fresh (list_positions s) s

  -- The initial balance of an account that does not exist is 0.
  unfoldable pub reset_account : ℕ → Store F → Store F
  reset_account now s = reset (elim s.account [ none ↦ of_ℕ 0 | some a ↦ a.initial_balance ]) now s
