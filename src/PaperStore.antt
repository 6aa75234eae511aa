-- ===== src/PaperStore.antt =====
-- storage/paper_trading_store.py: the four tables of the paper account. A table with a text key is
-- a dictionary; closed trades, which have fresh keys and are only appended, are a list. Amounts are
-- numbers of any kind `F`, times are seconds. Commits are not modelled: each statement is one.
pub mod Rows
use garnet_trader.Prelude.{
  ℕ, ◌≤◌, Bool, true, false, not, ◌&&◌, ◌||◌, Option, none, some, List, [], ◌∷◌, ◌++◌, ltb, leb,
  ◌==◌, if◌then◌else◌,
}
use garnet_trader.Prelude.Dict.{Dict, lookup, insert, erase}
use garnet_trader.Prelude.Int.{ℤ, pos, pos_part, leb_ℤ}
use garnet_trader.Prelude.Sort.{sort}
use garnet_trader.Prelude.Text.{Text}

pub record Account (F : Type 0) : Type 0 where
  pub cash : F
  pub initial_balance : F
  pub created_at : ℕ
  pub reset_at : Option ℕ

pub data OrderStatus : Type 0 where
  pending open' partially_filled filled cancelled rejected : OrderStatus

-- Why `PaperBroker` refuses an order.
pub data Reason : Type 0 where
  bad_quantity bad_side not_held no_contract no_book no_depth : Reason

-- The metadata of an order of `PaperBroker`.
pub data Metadata (F : Type 0) : Type 0 where
  because : Reason → Metadata F
  paid : Text → F → Metadata F

pub record OrderRow (F : Type 0) : Type 0 where
  pub order_id : Text
  pub symbol : Text
  pub side : Text
  pub quantity : ℤ
  pub filled_quantity : ℕ
  pub avg_fill_price : F
  pub status : OrderStatus
  pub fee_paid : F
  pub signal_id : Option Text
  pub created_at : ℕ
  pub metadata : Metadata F

pub record PositionRow (F : Type 0) : Type 0 where
  pub quantity : ℕ
  pub average_price : F
  pub opened_at : ℕ
  pub updated_at : ℕ

pub data CloseReason : Type 0 where
  manual expiry_settlement : CloseReason

pub record TradeRow (F : Type 0) : Type 0 where
  pub trade_id : Text
  pub symbol : Text
  pub quantity : ℕ
  pub entry_price : F
  pub exit_price : F
  pub fee_paid : F
  pub pnl_absolute : F
  pub pnl_pct : F
  pub opened_at : ℕ
  pub closed_at : ℕ
  pub signal_id : Option Text
  pub close_reason : CloseReason

pub record Store (F : Type 0) : Type 0 where
  pub account : Option (Account F)
  pub orders : Dict (OrderRow F)
  pub positions : Dict (PositionRow F)
  pub trades : List (TradeRow F)

-- `ORDER BY symbol`: by code points.
unfoldable pub text_leb : Text → Text → Bool
text_leb [] t = true
text_leb (a ∷ s) [] = false
text_leb (a ∷ s) (b ∷ t) = ltb a b || ((a == b) && text_leb s t)

module _ {F : Type 0} where
  unfoldable pub init_account : F → ℕ → Store F → Store F
  init_account initial_balance now s = elim s.account [
    | some existing ↦ s
    | none ↦ record s {
      account = some (record {
        cash = initial_balance;
        initial_balance = initial_balance;
        created_at = now;
        reset_at = none;
      });
    }
  ]

  -- Without an account the statement changes no row.
  unfoldable pub update_cash : F → Store F → Store F
  update_cash cash s = elim s.account [
    | none ↦ s
    | some a ↦ record s { account = some (record a { cash = cash }) }
  ]

  unfoldable pub save_order : OrderRow F → Store F → Store F
  save_order row s = record s { orders = insert row.order_id row s.orders }

  unfoldable pub get_order : Text → Store F → Option (OrderRow F)
  get_order order_id s = lookup order_id s.orders

  unfoldable pub get_position : Text → Store F → Option (PositionRow F)
  get_position symbol s = lookup symbol s.positions

  unfoldable pub delete_position : Text → Store F → Store F
  delete_position symbol s = record s { positions = erase symbol s.positions }

  -- A conflict leaves the time of opening as it was.
  opened : Text → ℕ → Store F → ℕ
  opened symbol opened_at s = elim (lookup symbol s.positions) [
    | none ↦ opened_at
    | some row ↦ row.opened_at
  ]

  unfoldable pub upsert_position : Text → ℤ → F → ℕ → ℕ → Store F → Store F
  unfolding delete_position opened
  upsert_position symbol quantity average_price opened_at now s =
      if leb_ℤ quantity (pos 0) then delete_position symbol s else record s {
        positions =
            insert symbol
              (record {
                quantity = pos_part quantity;
                average_price = average_price;
                opened_at = opened symbol opened_at s;
                updated_at = now;
              })
              s.positions;
      }

  unfoldable pub list_positions : Store F → List (Text × PositionRow F)
  unfolding text_leb
  list_positions s = sort (λ x y. text_leb x.0 y.0) s.positions

  unfoldable pub record_trade : TradeRow F → Store F → Store F
  record_trade row s = record s { trades = s.trades ++ row ∷ [] }

  -- `ON CONFLICT` keeps the time of creation.
  unfoldable pub reset : F → ℕ → Store F → Store F
  reset initial_balance now s = record {
    account = some (record {
      cash = initial_balance;
      initial_balance = initial_balance;
      created_at = elim s.account [ none ↦ now | some a ↦ a.created_at ];
      reset_at = some now;
    });
    orders = [];
    positions = [];
    trades = [];
  }
