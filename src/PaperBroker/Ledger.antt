-- ===== src/PaperBroker/Ledger.antt =====
-- The books of the paper account, over any sequence of its operations: what the orders bought is what
-- is held or closed.
use garnet_trader.Prelude.{
  ◌∙◌, ℕ, ◌+◌, ◌≡◌, refl, inl, inr, false, none, List, [], arith, ltb, Bool-cases,
}
use garnet_trader.Prelude.Dict.{lookup, insert, lookup-insert}
use garnet_trader.Prelude.Number.{Number}
use garnet_trader.Prelude.Result.{Result-cases, ok}
use garnet_trader.Prelude.Text.{Text, codes, text_eq, lower, text_eq_iff}
use garnet_trader.PaperStore.{init_account, reset, Store, TradeRow, OrderRow, get_order}
use garnet_trader.PaperStore.Rows.{
  held_of, bought, bought_by, closed, closed-append, closed_append, bought-insert,
}
use garnet_trader.PaperBroker.{
  cancel_order, is_open_status, Broker, Request, place_order, settle_expired_positions,
  reset_account,
}
use garnet_trader.PaperBroker.Keys.{Keyed, place_order-Keyed, settle_expired_positions-Keyed}
use garnet_trader.PaperBroker.Settling.{settle_expired_positions_lem}
use garnet_trader.PaperBroker.Placing.{place_order-unfilled, place_order-filled}

module _ {F : Type 0} where
  -- What the orders bought of each symbol is what is held of it and what was closed.
  abbrev pub Reconciles : Store F → Type 0
  Reconciles s = (k : Text) → bought k s.orders ≡ held_of k s.positions + closed k s.trades

  -- The tables as they are created.
  abbrev pub empty : Store F
  empty = record { account = none; orders = []; positions = []; trades = [] }

module _ {F : Type 0} (n : Number F) (b : Broker F) where
  -- An order under a fresh identifier keeps the books, whatever becomes of it.
  pub place_order-Reconciles :
      (r : Request) (s : Store F)
      → lookup r.order_id s.orders ≡ none
      → Reconciles s
      → Reconciles (place_order n b r s).1
  unfolding bought_by
  place_order-Reconciles r s fresh books k =
      let s' = (place_order n b r s).1 in
      let (unchanged, unfilled) = place_order-unfilled n b r s in
      elim (Result-cases (place_order n b r s).0) [
        | inl e ↦ rw (unchanged e) (books k)
        | inr (order, e) ↦
            let now_bought = bought-insert k r.order_id order s.orders fresh in
            elim (Bool-cases (ltb 0 order.filled_quantity)) [
              | inl some_filled ↦
                  let (le, symbol, side, closed_status, orders, buy, sell) =
                    place_order-filled n b r s order e (ground arith) in
                  elim (Bool-cases (text_eq (lower r.side) (codes "buy"))) [
                    | inl is_buy ↦
                        let (cash, trades, moved) = buy is_buy in
                        ground (arith, books k, now_bought, moved k, text_eq_iff r.symbol k)
                    | inr is_sell ↦
                        let (enough, cash, (t, trades, same, size), moved) = sell is_sell in
                        ground (
                          arith,
                          books k,
                          now_bought,
                          moved k,
                          text_eq_iff r.symbol k,
                          closed-append k s.trades t,
                        )
                  ]
              | inr none_filled ↦
                  ground (arith, books k, now_bought, unfilled order e (ground arith))
            ]
      ]

  -- A settlement that returns keeps the books.
  settle_expired_positions-Reconciles :
      (today now : ℕ) (fresh : Text → Text) (s : Store F) (ts : List (TradeRow F))
      → Keyed s
      → (settle_expired_positions n b today now fresh s).0 ≡ ok ts
      → Reconciles s
      → Reconciles (settle_expired_positions n b today now fresh s).1
  settle_expired_positions-Reconciles today now fresh s ts keyed e books k =
      let (orders, trades, closes) =
        settle_expired_positions_lem n b today now fresh s ts keyed e in
      ground (arith, books k, orders, trades, closes k, closed_append k s.trades ts)

module _ {F : Type 0} (n : Number F) where
  -- One call on the account, each with what the market data answers to it: the books and the
  -- contracts of a call are a broker's of its own. An order comes with a fresh identifier; a
  -- settlement returns.
  pub data Step : Store F → Store F → Type 0 where
    start : (amount : F) (now : ℕ) (s : Store F) → Step s (init_account amount now s)
    place :
        (b : Broker F) (r : Request) (s : Store F)
        → lookup r.order_id s.orders ≡ none
        → Step s (place_order n b r s).1
    settle :
        (b : Broker F) (today now : ℕ) (fresh : Text → Text) (s : Store F) (ts : List (TradeRow F))
        → (settle_expired_positions n b today now fresh s).0 ≡ ok ts
        → Step s (settle_expired_positions n b today now fresh s).1
    restart : (b : Broker F) (now : ℕ) (s : Store F) → Step s (reset_account n b now s)

  pub data Reachable : Store F → Type 0 where
    fresh_store : Reachable empty
    after : {s s' : Store F} → Reachable s → Step s s' → Reachable s'

  init_account-tables :
      (amount : F) (now : ℕ) (s : Store F)
      → ((init_account amount now s).orders ≡ s.orders)
        × ((init_account amount now s).positions ≡ s.positions)
        × ((init_account amount now s).trades ≡ s.trades)
  unfolding init_account
  init_account-tables amount now s = ground arith

  empty-Books :
      (s : Store F)
      → (s.orders ≡ []) × (s.positions ≡ []) × (s.trades ≡ [])
      → Keyed s × Reconciles s
  unfolding bought held_of closed lookup
  empty-Books s (orders, positions, trades) =
      (rw positions tt, λ k. rw (orders, positions, trades) refl)

  reset_account-tables :
      (b : Broker F) (now : ℕ) (s : Store F)
      → let s' = reset_account n b now s in
        (s'.orders ≡ []) × (s'.positions ≡ []) × (s'.trades ≡ [])
  unfolding reset_account reset
  reset_account-tables b now s = (refl, refl, refl)

  step_keeps : (s s' : Store F) → Step s s' → Keyed s × Reconciles s → Keyed s' × Reconciles s'
  step_keeps _ _ (start amount now s) (keyed, books) =
      let (orders, positions, trades) = init_account-tables amount now s in
      (rw positions keyed, λ k. rw (orders, positions, trades) (books k))
  step_keeps _ _ (place b r s fresh) (keyed, books) =
      (place_order-Keyed n b r s keyed, place_order-Reconciles n b r s fresh books)
  step_keeps _ _ (settle b today now fresh s ts e) (keyed, books) = (
    settle_expired_positions-Keyed n b today now fresh s keyed,
    settle_expired_positions-Reconciles n b today now fresh s ts keyed e books,
  )
  step_keeps _ _ (restart b now s) books =
      empty-Books (reset_account n b now s) (reset_account-tables b now s)

  -- After any sequence of new accounts, orders under fresh identifiers, resets and settlements that
  -- return, whatever the market data answers to each call, the contracts that the orders bought of a
  -- symbol are those held of it and those closed, and no symbol has two positions. A settlement that
  -- raises is no part of such a sequence.
  pub Reachable-Reconciles : (s : Store F) → Reachable s → Keyed s × Reconciles s
  Reachable-Reconciles _ fresh_store = empty-Books empty (refl, refl, refl)
  Reachable-Reconciles _ (after reached step) = step_keeps _ _ step (Reachable-Reconciles _ reached)

module _ {F : Type 0} (n : Number F) (b : Broker F) where
  -- No saved order is open.
  abbrev NoneOpen : Store F → Type 0
  NoneOpen s = (id : Text) → cancel_order n b id s ≡ false

  cancel_order-insert :
      (id k : Text) (o : OrderRow F) (s s' : Store F)
      → s'.orders ≡ insert id o s.orders
      → is_open_status o.status ≡ false
      → cancel_order n b k s ≡ false
      → cancel_order n b k s' ≡ false
  unfolding cancel_order get_order
  cancel_order-insert id k o s s' orders not_open h =
      ground (arith, lookup-insert {V = OrderRow F} id k o s.orders)

  cancel_order-orders :
      (k : Text) (s s' : Store F)
      → s'.orders ≡ s.orders
      → cancel_order n b k s' ≡ cancel_order n b k s
  unfolding cancel_order get_order
  cancel_order-orders k s s' same = ground arith

  cancel_order-empty : (k : Text) (s : Store F) → s.orders ≡ [] → cancel_order n b k s ≡ false
  unfolding cancel_order get_order lookup
  cancel_order-empty k s none_saved = ground arith

  place_order-NoneOpen :
      (b' : Broker F) (r : Request) (s : Store F) → NoneOpen s → NoneOpen (place_order n b' r s).1
  place_order-NoneOpen b' r s h k =
      let s' = (place_order n b' r s).1 in
      let (unchanged, unfilled) = place_order-unfilled n b' r s in
      elim (Result-cases (place_order n b' r s).0) [
        | inl e ↦ rw (unchanged e) (h k)
        | inr (order, e) ↦ elim (Bool-cases (ltb 0 order.filled_quantity)) [
          | inl some_filled ↦
              let (le, symbol, side, status, orders, buy, sell) =
                place_order-filled n b' r s order e (ground arith) in
              cancel_order-insert r.order_id k order s s' orders status (h k)
          | inr none_filled ↦
              let (status, orders, account, positions, trades) = unfilled order e (ground arith) in
              cancel_order-insert r.order_id k order s s' orders (ground arith) (h k)
        ]
      ]

  -- In every such state no order is left to cancel.
  pub cancel_order-Reachable :
      (s : Store F) → Reachable n s → (id : Text) → cancel_order n b id s ≡ false
  cancel_order-Reachable _ fresh_store id = cancel_order-empty id empty refl
  cancel_order-Reachable _ (after reached (start amount now s)) id =
      cancel_order-orders id s _ (init_account-tables n amount now s).0
      ∙ cancel_order-Reachable s reached id
  cancel_order-Reachable _ (after reached (place b' r s fresh)) id =
      place_order-NoneOpen b' r s (cancel_order-Reachable s reached) id
  cancel_order-Reachable _ (after reached (settle b' today now fresh s ts e)) id =
      let keyed = (Reachable-Reconciles n s reached).0 in
      cancel_order-orders id s _ (settle_expired_positions_lem n b' today now fresh s ts keyed e).0
      ∙ cancel_order-Reachable s reached id
  cancel_order-Reachable _ (after reached (restart b' now s)) id =
      cancel_order-empty id (reset_account n b' now s) (reset_account-tables n b' now s).0
