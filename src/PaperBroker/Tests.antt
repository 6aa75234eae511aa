-- ===== src/PaperBroker/Tests.antt =====
-- An account that buys three contracts of an option and sees them expire.
use garnet_trader.Prelude.{
  ℕ, ◌+◌, ◌/◌, ◌≤◌, ◌≡◌, refl, true, false, none, some, [], ◌∷◌, arith, leb, if◌then◌else◌,
}
use garnet_trader.Prelude.Dict.{lookup, insert}
use garnet_trader.Prelude.Int.{ℤ, pos, pos_part, neg_part, ◌+ℤ◌, ◌-ℤ◌, ◌*ℤ◌}
use garnet_trader.Prelude.Number.{Number}
use garnet_trader.Prelude.Result.{ok, raised}
use garnet_trader.Prelude.Text.{Text, codes, text_eq, lower}
use garnet_trader.Fees.{exit_cost}
use garnet_trader.Prelude.Sort.{sort, place}
use garnet_trader.OrderBook.{OrderBook, fill_price, fill_loop, fill_of, levels}
use garnet_trader.PaperStore.{Store, OrderRow, rejected, init_account, TradeRow, list_positions}
use garnet_trader.PaperStore.Rows.{held_of, closed}
use garnet_trader.PaperBroker.{
  Contract, Broker, Request, place_order, decide_order, on_contract, on_fill, run_decision,
  filled_order, settle_rows, settle_row, settle_at, expiry_trade, value, settle_expired_positions,
  apply_fill, apply_buy, save_filled,
}
use garnet_trader.PaperBroker.Placing.{place_order-unfilled, place_order-filled, Bought, Sold}
use garnet_trader.PaperBroker.Settling.{due, settle_expired_positions_lem}
use garnet_trader.PaperBroker.Keys.{Keyed}
use garnet_trader.PaperBroker.Ledger.{
  Step, start, empty, Reachable, fresh_store, after, Reconciles, Reachable-Reconciles,
}

abbrev number : Number ℤ
number = record {
  of_ℕ = pos;
  add = ◌+ℤ◌;
  sub = ◌-ℤ◌;
  mul = ◌*ℤ◌;
  div = λ a b'. pos (pos_part a / pos_part b');
  magnitude = λ a. pos (pos_part a + neg_part a);
  is_zero = λ a. leb (pos_part a + neg_part a) 0;
  is_positive = λ a. leb 1 (pos_part a);
}

abbrev option_contract : Contract ℤ
option_contract = record {
  ins_code = codes "17";
  contract_size = 10;
  expiry = 50;
  last_price = some (pos 120);
}

abbrev book : OrderBook
book = record {
  symbol = codes "opt";
  bids = [];
  asks = record { price = 100; quantity = 5; orders = 1 } ∷ [];
}

abbrev broker : Broker ℤ
broker = record {
  fees = record { buy_rate = pos 0; sell_rate = pos 0; sell_tax_rate = pos 0; per_order = pos 5 };
  resolve_contract = λ symbol. some option_contract;
  order_book = λ code symbol. some book;
}

abbrev request : Text → ℕ → Request
request side quantity = record {
  symbol = codes "opt";
  side = side;
  quantity = pos quantity;
  signal_id = none;
  now = 7;
  order_id = codes "o1";
  trade_id = codes "t1";
}

abbrev opening : Store ℤ
opening = init_account (pos 9000) 1 empty

abbrev bought_three : OrderRow ℤ
bought_three = filled_order number broker (request (codes "BUY") 3) option_contract (pos 100) 3

abbrev buy : Request
buy = request (codes "BUY") 3

abbrev invested : Store ℤ
invested = (place_order number broker buy opening).1

place_order-unfilled_example :
    let r = request (codes "sell") 1 in
    let s' = (place_order number broker r opening).1 in
    ((place_order number broker r opening).0 ≡ raised → s' ≡ opening)
    × ((order : OrderRow ℤ)
        → (place_order number broker r opening).0 ≡ ok order
        → order.filled_quantity ≡ 0
        → (order.status ≡ rejected)
          × (s'.orders ≡ insert r.order_id order opening.orders)
          × (s'.account ≡ opening.account)
          × (s'.positions ≡ opening.positions)
          × (s'.trades ≡ opening.trades))
place_order-unfilled_example = place_order-unfilled number broker (request (codes "sell") 1) opening

place_order-filled_example :
    (3 ≤ 3)
    × (bought_three.symbol ≡ codes "opt")
    × (bought_three.side ≡ codes "buy")
    × (false ≡ false)
    × (invested.orders ≡ insert (codes "o1") bought_three [])
    × (true ≡ true → Bought number broker buy bought_three opening invested)
    × (true ≡ false → Sold number broker buy bought_three opening invested)
unfolding init_account place_order decide_order on_contract on_fill run_decision apply_fill
    apply_buy save_filled filled_order fill_price fill_loop fill_of levels lower text_eq
place_order-filled_example =
    place_order-filled number broker buy opening bought_three refl (omega arith)

reached : Reachable number invested
unfolding init_account lookup
reached = after (after fresh_store (start (pos 9000) 1 empty)) (Step.place broker buy opening refl)

Reachable-Reconciles_example : Keyed invested × Reconciles invested
Reachable-Reconciles_example = Reachable-Reconciles number invested reached

abbrev holding : Store ℤ
holding = record {
  account =
      some (record { cash = pos 500; initial_balance = pos 9000; created_at = 1; reset_at = none });
  orders = [];
  positions =
      (codes "opt", record { quantity = 3; average_price = pos 100; opened_at = 7; updated_at = 7 })
      ∷ [];
  trades = [];
}

abbrev settlement : TradeRow ℤ
settlement =
    expiry_trade number broker (codes "opt")
      (record { quantity = 3; average_price = pos 100; opened_at = 7; updated_at = 7 })
      option_contract (pos 120)
      (exit_cost number broker.fees (value number broker (pos 120) 3 10) true) 9 (codes "t2")

settle_expired_positions_lem_example :
    let s' = (settle_expired_positions number broker 50 9 (λ symbol. codes "t2") holding).1 in
    (s'.orders ≡ [])
    × (s'.trades ≡ settlement ∷ [])
    × ((k : Text)
        → (lookup k s'.positions
            ≡ (if due number broker 50 k then none else lookup k holding.positions))
          × (held_of k holding.positions ≡ held_of k s'.positions + closed k (settlement ∷ [])))
unfolding settle_expired_positions settle_rows settle_row settle_at list_positions sort place lookup
settle_expired_positions_lem_example =
    settle_expired_positions_lem number broker 50 9 (λ symbol. codes "t2") holding (settlement ∷ [])
      (refl, tt) refl
