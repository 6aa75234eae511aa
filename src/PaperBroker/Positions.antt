-- ===== src/PaperBroker/Positions.antt =====
-- What a fill does to each table of the account.
use garnet_trader.Prelude.{
  ℕ, ◌+◌, ◌-◌, ◌≤◌, ◌≡◌, refl, inl, inr, some, [], ◌∷◌, ◌++◌, arith, if◌then◌else◌, Option-cases,
}
use garnet_trader.Prelude.Int.{pos, ◌-ℤ◌, -ℤ_parts}
use garnet_trader.Prelude.Number.{Number}
use garnet_trader.Prelude.Result.{ok}
use garnet_trader.Prelude.Text.{Text, text_eq}
use garnet_trader.PaperStore.{Account, Store, PositionRow, get_position, update_cash, record_trade}
use garnet_trader.PaperStore.Rows.{
  quantity_of, held_of, held-upsert, update_cash-tables, upsert_position-tables,
}
use garnet_trader.PaperBroker.{
  Contract, Broker, Request, held, add_position, apply_buy, apply_sell, close_trade, value,
  contract_size,
}

module _ {F : Type 0} (n : Number F) (b : Broker F) where
  open n use {add, sub}

  pub held-eq : (symbol : Text) (s : Store F) → held n b symbol s ≡ held_of symbol s.positions
  unfolding held held_of get_position
  held-eq symbol s = ground arith

  held_of-get_position :
      (symbol : Text) (s : Store F)
      → held_of symbol s.positions ≡ quantity_of (get_position symbol s)
  unfolding held_of get_position
  held_of-get_position symbol s = refl

  update_cash_account :
      (cash : F) (s : Store F) (a : Account F)
      → s.account ≡ some a
      → (update_cash cash s).account ≡ some (record a { cash = cash })
  unfolding update_cash
  update_cash_account cash s a h = ground arith

  add_position_lem :
      (symbol : Text) (f : ℕ) (avg : F) (now : ℕ) (s : Store F) (k : Text)
      → let s' = add_position n b symbol f avg now s in
        (s'.orders ≡ s.orders)
        × (s'.trades ≡ s.trades)
        × (s'.account ≡ s.account)
        × (held_of k s'.positions
            ≡ (if text_eq symbol k then held_of symbol s.positions + f else held_of k s.positions))
  unfolding add_position get_position held_of
  add_position_lem symbol f avg now s k = elim (Option-cases (get_position symbol s)) [
    | inl h ↦ rw h ground (
      arith,
      held_of-get_position symbol s,
      upsert_position-tables symbol (pos f) avg now now s,
      held-upsert symbol k (pos f) avg now now s,
    )
    | inr (row, h) ↦ rw h (
        let p =
          n.div (add (n.mul (n.of_ℕ row.quantity) row.average_price) (n.mul (n.of_ℕ f) avg))
            (n.of_ℕ (row.quantity + f)) in
        ground (
          arith,
          held_of-get_position symbol s,
          upsert_position-tables symbol (pos (row.quantity + f)) p row.opened_at now s,
          held-upsert symbol k (pos (row.quantity + f)) p row.opened_at now s,
        ))
  ]

  -- A buy leaves the orders and the closed trades alone, pays the value and the fee from the cash and
  -- adds what was filled to the symbol's position, and to no other.
  pub apply_buy_lem :
      (symbol : Text) (f : ℕ) (avg fee : F) (now : ℕ) (s s' : Store F)
      → apply_buy n b symbol f avg fee now s ≡ ok s'
      → (s'.orders ≡ s.orders)
        × (s'.trades ≡ s.trades)
        × ((a : Account F) × (s.account ≡ some a)
            × (s'.account
                ≡ some (record a {
                  cash = sub (sub a.cash (value n b avg f (contract_size n b symbol))) fee;
                })))
        × ((k : Text)
            → held_of k s'.positions ≡ (
                if text_eq symbol k then held_of symbol s.positions + f else held_of k s.positions))
  unfolding apply_buy
  apply_buy_lem symbol f avg fee now s s' e = elim (Option-cases s.account) [
    | inl h ↦ ground arith
    | inr (a, h) ↦
        let cash = sub (sub a.cash (value n b avg f (contract_size n b symbol))) fee in
        let s₁ = update_cash cash s in
        let tables = update_cash-tables cash s in
        let row = add_position_lem symbol f avg now s₁ in
        (
          ground (arith, tables, row symbol),
          ground (arith, tables, row symbol),
          (a, h, ground (arith, update_cash_account cash s a h, row symbol)),
          λ k. ground (arith, tables, row k),
        )
  ]

  -- A sale of no more than is held leaves the orders alone, adds the value less the fee to the cash,
  -- takes what was filled from the symbol's position and from no other, and appends one trade.
  pub apply_sell_lem :
      (r : Request) (c : Contract F) (f : ℕ) (avg fee : F) (s s' : Store F)
      → f ≤ held_of r.symbol s.positions
      → apply_sell n b r c f avg fee s ≡ ok s'
      → (s'.orders ≡ s.orders)
        × ((row : PositionRow F) × (get_position r.symbol s ≡ some row)
            × (s'.trades ≡ s.trades ++ close_trade n b r c row f avg fee ∷ []))
        × ((a : Account F) × (s.account ≡ some a)
            × (s'.account
                ≡ some
                    (record a { cash = sub (add a.cash (value n b avg f c.contract_size)) fee })))
        × ((k : Text)
            → held_of k s'.positions ≡ (
                if text_eq r.symbol k
                then held_of r.symbol s.positions - f
                else held_of k s.positions))
  unfolding apply_sell record_trade
  apply_sell_lem r c f avg fee s s' le e = elim (Option-cases (get_position r.symbol s)) [
    | inl h ↦ ground arith
    | inr (row, h) ↦ elim (Option-cases s.account) [
      | inl g ↦ ground arith
      | inr (a, g) ↦
          let cash = sub (add a.cash (value n b avg f c.contract_size)) fee in
          let s₁ = update_cash cash s in
          let left = pos row.quantity -ℤ pos f in
          let tables = update_cash-tables cash s in
          let rest =
            upsert_position-tables r.symbol left row.average_price row.opened_at r.now s₁ in
          (
            ground (arith, tables, rest),
            (row, h, ground (arith, tables, rest)),
            (a, g, ground (arith, update_cash_account cash s a g, rest)),
            λ k. ground (
              arith,
              tables,
              le,
              held_of-get_position r.symbol s,
              -ℤ_parts (pos row.quantity) (pos f),
              held-upsert r.symbol k left row.average_price row.opened_at r.now s₁,
            ),
          )
    ]
  ]
