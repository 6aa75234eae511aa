-- ===== src/PaperBroker/Orders.antt =====
-- What the checks of `place_order` let through.
use garnet_trader.Prelude.{
  ℕ, ◌≤◌, ◌<◌, ◌≡◌, refl, ◌⊎◌, inl, inr, true, false, Option, none, some, arith, Option-cases,
}
use garnet_trader.Prelude.Int.{pos, pos_part}
use garnet_trader.Prelude.Number.{Number}
use garnet_trader.Prelude.Text.{Text, codes, text_eq, lower}
use garnet_trader.OrderBook.{OrderBook, Fill, fill_price, fill_of}
use garnet_trader.PaperStore.{Store}
use garnet_trader.PaperBroker.{
  Contract, Broker, Request, fails, execute, on_fill, on_contract, held, decide_order,
}

-- A fill is no larger than the order.
fill_price-le :
    (side : Text) (q : ℕ) (book : OrderBook) (fill : Fill)
    → fill_price side (pos q) book ≡ some fill
    → fill.filled ≤ q
unfolding fill_price fill_of
fill_price-le side q book fill e = ground arith

module _ {F : Type 0} (n : Number F) (b : Broker F) where
  on_fill-execute :
      (c c' : Contract F) (fill : Fill) (avg : F) (f : ℕ)
      → on_fill n b c (some fill) ≡ execute c' avg f
      → (c ≡ c') × (0 < f) × (fill.filled ≡ f)
  unfolding on_fill
  on_fill-execute c c' fill avg f e = elim (Option-cases fill.average) [
    | inl h ↦ cc
    | inr (a, h) ↦ ground arith
  ]

  on_fill-none : (c : Contract F) → on_fill n b c none ≡ fails
  unfolding on_fill
  on_fill-none c = refl

  on_contract-execute :
      (side symbol : Text) (q : ℕ) (o : Option (Contract F)) (c : Contract F) (avg : F) (f : ℕ)
      → on_contract n b side symbol q o ≡ execute c avg f
      → (o ≡ some c) × (0 < f) × (f ≤ q)
  unfolding on_contract
  on_contract-execute side symbol q none c avg f e = cc
  on_contract-execute side symbol q (some c') c avg f e =
      elim (Option-cases (b.order_book c'.ins_code symbol)) [
        | inl h ↦ ground arith
        | inr (book, h) ↦ elim (Option-cases (fill_price side (pos q) book)) [
          | inl g ↦ ground (arith, on_fill-none c')
          | inr (fill, g) ↦
              ground (arith, fill_price-le side q book fill g, on_fill-execute c' c fill avg f)
        ]
      ]

  -- An order that reaches its fill: for contracts of the symbol's contract, no more than asked for
  -- and, in a sale, than held.
  pub decide_order-execute :
      (r : Request) (s : Store F) (c : Contract F) (avg : F) (f : ℕ)
      → decide_order n b r s ≡ execute c avg f
      → (b.resolve_contract r.symbol ≡ some c)
        × (0 < f)
        × (f ≤ pos_part r.quantity)
        × ((text_eq (lower r.side) (codes "buy") ≡ true)
            ⊎ ((text_eq (lower r.side) (codes "buy") ≡ false) × (f ≤ held n b r.symbol s)))
  unfolding decide_order
  decide_order-execute r s c avg f e = ground (
    arith,
    on_contract-execute (lower r.side) r.symbol (pos_part r.quantity) (b.resolve_contract r.symbol)
        c avg f,
  )
