-- ===== src/PaperBroker/Placing.antt =====
-- `place_order` as a whole, by what the order that it returns says.
use garnet_trader.Prelude.{
  ℕ, ◌+◌, ◌-◌, ◌≤◌, ◌<◌, ◌≡◌, refl, sym, ◌⊎◌, inl, inr, true, false, some, [], ◌∷◌, ◌++◌, arith,
  if◌then◌else◌,
}
use garnet_trader.Prelude.Dict.{insert}
use garnet_trader.Prelude.Int.{pos_part}
use garnet_trader.Prelude.Number.{Number}
use garnet_trader.Prelude.Result.{Result, ok, raised}
use garnet_trader.Prelude.Text.{Text, codes, text_eq, lower}
use garnet_trader.PaperStore.{Account, Store, TradeRow, OrderRow, rejected, save_order, Reason}
use garnet_trader.PaperStore.Rows.{held_of}
use garnet_trader.PaperBroker.{
  Contract, Broker, Request, Decision, refuse_for, fails, execute, refuse, decide_order,
  close_trade, value, contract_size, run_decision, is_open_status, apply_fill, save_filled,
  filled_order, place_order,
}
use garnet_trader.PaperBroker.Orders.{decide_order-execute}
use garnet_trader.PaperBroker.Positions.{held-eq, apply_buy_lem, apply_sell_lem}

module _ {F : Type 0} (n : Number F) (b : Broker F) where
  open n use {add, sub}

  save_filled-ok :
      (filled_one order : OrderRow F) (s : Store F) (applied : Result (Store F))
      → (save_filled n b filled_one s applied).0 ≡ ok order
      → (filled_one ≡ order)
        × ((s₁ : Store F) × (applied ≡ ok s₁)
            × ((save_filled n b filled_one s applied).1 ≡ save_order order s₁))
  unfolding save_filled
  save_filled-ok filled_one order s raised e = cc
  save_filled-ok filled_one order s (ok s₁) e = (cc, (s₁, refl, ground arith))

  -- The two ways in which a decision returns an order.
  run_decision-cases :
      (r : Request) (d : Decision F) (s : Store F) (order : OrderRow F)
      → (run_decision n b r d s).0 ≡ ok order
      → ((reason : Reason) × (d ≡ refuse_for reason)
          × (order ≡ (refuse n b r reason s).0)
          × ((run_decision n b r d s).1 ≡ save_order order s))
        ⊎ ((c : Contract F) × (avg : F) × (f : ℕ) × (s₁ : Store F) × (d ≡ execute c avg f)
            × (order ≡ filled_order n b r c avg f)
            × (apply_fill n b r c f avg order.fee_paid s ≡ ok s₁)
            × ((run_decision n b r d s).1 ≡ save_order order s₁))
  unfolding run_decision refuse
  run_decision-cases r (refuse_for reason) s order e =
      inl (reason, refl, ground arith, ground arith)
  run_decision-cases r fails s order e = cc
  run_decision-cases r (execute c avg f) s order e =
      let placed = filled_order n b r c avg f in
      let (same, (s₁, done, next)) =
        save_filled-ok placed order s (apply_fill n b r c f avg placed.fee_paid s) e in
      inr (c, avg, f, s₁, refl, sym same, cc, next)

  save_filled-raised :
      (o : OrderRow F) (s : Store F) (applied : Result (Store F))
      → (save_filled n b o s applied).0 ≡ raised
      → (save_filled n b o s applied).1 ≡ s
  unfolding save_filled
  save_filled-raised o s raised e = refl
  save_filled-raised o s (ok s₁) e = cc

  run_decision-raised :
      (r : Request) (d : Decision F) (s : Store F)
      → (run_decision n b r d s).0 ≡ raised
      → (run_decision n b r d s).1 ≡ s
  unfolding run_decision
  run_decision-raised r (refuse_for reason) s e = cc
  run_decision-raised r fails s e = refl
  run_decision-raised r (execute c avg f) s e =
      save_filled-raised (filled_order n b r c avg f) s
        (apply_fill n b r c f avg (filled_order n b r c avg f).fee_paid s) e

  filled_order_fields :
      (r : Request) (c : Contract F) (avg : F) (f : ℕ)
      → let o = filled_order n b r c avg f in
        (o.order_id ≡ r.order_id)
        × (o.symbol ≡ r.symbol)
        × (o.side ≡ lower r.side)
        × (o.filled_quantity ≡ f)
        × (o.avg_fill_price ≡ avg)
        × (is_open_status o.status ≡ false)
  unfolding filled_order
  filled_order_fields r c avg f = ground arith

  refuse_fields :
      (r : Request) (reason : Reason) (s : Store F)
      → let o = (refuse n b r reason s).0 in
        (o.order_id ≡ r.order_id) × (o.filled_quantity ≡ 0) × (o.status ≡ rejected)
  unfolding refuse
  refuse_fields r reason s = ground arith

  save_order-tables :
      (o : OrderRow F) (s : Store F)
      → ((save_order o s).account ≡ s.account)
        × ((save_order o s).positions ≡ s.positions)
        × ((save_order o s).trades ≡ s.trades)
        × ((save_order o s).orders ≡ insert o.order_id o s.orders)
  unfolding save_order
  save_order-tables o s = ground arith

  -- An order that fills nothing is rejected and saved, and the account, the positions and the closed
  -- trades stay as they were. A call that raises changes nothing.
  pub place_order-unfilled :
      (r : Request) (s : Store F)
      → ((place_order n b r s).0 ≡ raised → (place_order n b r s).1 ≡ s)
        × ((order : OrderRow F)
            → (place_order n b r s).0 ≡ ok order
            → order.filled_quantity ≡ 0
            → let s' = (place_order n b r s).1 in
              (order.status ≡ rejected)
              × (s'.orders ≡ insert r.order_id order s.orders)
              × (s'.account ≡ s.account)
              × (s'.positions ≡ s.positions)
              × (s'.trades ≡ s.trades))
  unfolding place_order
  place_order-unfilled r s = (
    run_decision-raised r (decide_order n b r s) s,
    λ order e none_filled. elim (run_decision-cases r (decide_order n b r s) s order e) [
      | inl (reason, h, same, next) ↦
          ground (arith, refuse_fields r reason s, save_order-tables order s)
      | inr (c, avg, f, s₁, h, same, done, next) ↦
          ground (arith, decide_order-execute n b r s c avg f h, filled_order_fields r c avg f)
    ],
  )

  -- What an order that fills something does, a buy or a sale.
  abbrev pub Bought : Request → OrderRow F → Store F → Store F → Type 0
  Bought r o s s' =
      ((a : Account F) × (s.account ≡ some a)
        × (s'.account
            ≡ some (record a {
              cash =
                  sub
                    (sub a.cash
                      (value n b o.avg_fill_price o.filled_quantity (contract_size n b r.symbol)))
                    o.fee_paid;
            })))
      × (s'.trades ≡ s.trades)
      × ((k : Text)
          → held_of k s'.positions ≡ (
              if text_eq r.symbol k
              then held_of r.symbol s.positions + o.filled_quantity
              else held_of k s.positions))

  abbrev pub Sold : Request → OrderRow F → Store F → Store F → Type 0
  Sold r o s s' =
      (o.filled_quantity ≤ held_of r.symbol s.positions)
      × ((c : Contract F) × (a : Account F) × (b.resolve_contract r.symbol ≡ some c)
          × (s.account ≡ some a)
          × (s'.account
              ≡ some (record a {
                cash =
                    sub (add a.cash (value n b o.avg_fill_price o.filled_quantity c.contract_size))
                      o.fee_paid;
              })))
      × ((t : TradeRow F) × (s'.trades ≡ s.trades ++ t ∷ [])
          × (t.symbol ≡ r.symbol)
          × (t.quantity ≡ o.filled_quantity))
      × ((k : Text)
          → held_of k s'.positions ≡ (
              if text_eq r.symbol k
              then held_of r.symbol s.positions - o.filled_quantity
              else held_of k s.positions))

  apply_fill-buy :
      (r : Request) (c : Contract F) (s s₁ : Store F) (o : OrderRow F)
      → text_eq (lower r.side) (codes "buy") ≡ true
      → apply_fill n b r c o.filled_quantity o.avg_fill_price o.fee_paid s ≡ ok s₁
      → (s₁.orders ≡ s.orders) × Bought r o s (save_order o s₁)
  unfolding apply_fill save_order
  apply_fill-buy r c s s₁ o buy done =
      let (orders, trades, cash, moved) =
        apply_buy_lem n b r.symbol o.filled_quantity o.avg_fill_price o.fee_paid r.now s s₁ (cc) in
      (orders, (cash, trades, moved))

  apply_fill-sell :
      (r : Request) (c : Contract F) (s s₁ : Store F) (o : OrderRow F)
      → text_eq (lower r.side) (codes "buy") ≡ false
      → b.resolve_contract r.symbol ≡ some c
      → o.filled_quantity ≤ held_of r.symbol s.positions
      → apply_fill n b r c o.filled_quantity o.avg_fill_price o.fee_paid s ≡ ok s₁
      → (s₁.orders ≡ s.orders) × Sold r o s (save_order o s₁)
  unfolding apply_fill save_order close_trade
  apply_fill-sell r c s s₁ o sell resolved le done =
      let (orders, (row, here, trade), (a, account, cash), moved) =
        apply_sell_lem n b r c o.filled_quantity o.avg_fill_price o.fee_paid s s₁ le (cc) in
      (
        orders,
        (
          le,
          (c, a, resolved, account, cash),
          (
            close_trade n b r c row o.filled_quantity o.avg_fill_price o.fee_paid,
            trade,
            refl,
            refl,
          ),
          moved,
        ),
      )

  -- An order that fills something fills no more than was asked for, is saved under the request's
  -- identifier with its symbol and side, and is not open. A buy pays its value
  -- and its fee from the cash and adds what it filled to the symbol's position; a sale fills no more
  -- than is held, adds its value less its fee to the cash, takes what it filled from the position and
  -- appends one closed trade of that size. No other position changes, and no other order.
  pub place_order-filled :
      (r : Request) (s : Store F) (order : OrderRow F)
      → (place_order n b r s).0 ≡ ok order
      → 0 < order.filled_quantity
      → let s' = (place_order n b r s).1 in
        (order.filled_quantity ≤ pos_part r.quantity)
        × (order.symbol ≡ r.symbol)
        × (order.side ≡ lower r.side)
        × (is_open_status order.status ≡ false)
        × (s'.orders ≡ insert r.order_id order s.orders)
        × (text_eq (lower r.side) (codes "buy") ≡ true → Bought r order s s')
        × (text_eq (lower r.side) (codes "buy") ≡ false → Sold r order s s')
  unfolding place_order
  place_order-filled r s order e some_filled =
      elim (run_decision-cases r (decide_order n b r s) s order e) [
        | inl (reason, h, same, next) ↦ ground (arith, refuse_fields r reason s)
        | inr (c, avg, f, s₁, h, same, done, next) ↦
            let fields = filled_order_fields r c avg f in
            let (resolved, some_f, le, side) = decide_order-execute n b r s c avg f h in
            let applied : apply_fill n b r c order.filled_quantity order.avg_fill_price
                  order.fee_paid s
                ≡ ok s₁ =
              ground (arith, fields) in
            elim side [
              | inl buy ↦
                  let (same_orders, effect) = apply_fill-buy r c s s₁ order buy applied in
                  rw next (
                    ground (arith, fields),
                    ground (arith, fields),
                    ground (arith, fields),
                    ground (arith, fields),
                    ground (arith, fields, save_order-tables order s₁),
                    λ _. effect,
                    λ sell. cc,
                  )
              | inr (sell, enough) ↦
                  let (same_orders, effect) =
                    apply_fill-sell r c s s₁ order sell resolved
                      (ground (arith, fields, held-eq n b r.symbol s)) applied in
                  rw next (
                    ground (arith, fields),
                    ground (arith, fields),
                    ground (arith, fields),
                    ground (arith, fields),
                    ground (arith, fields, save_order-tables order s₁),
                    λ buy. cc,
                    λ _. effect,
                  )
            ]
      ]
