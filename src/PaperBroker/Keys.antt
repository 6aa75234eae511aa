-- ===== src/PaperBroker/Keys.antt =====
-- One position for each symbol: the primary key of `positions`.
use mathlib.Core.Path.{subst}
use garnet_trader.Fees.{exit_cost}
use garnet_trader.Prelude.{
  ℕ, ◌+◌, ◌≡◌, refl, sym, ◌⊎◌, inl, inr, true, [], ◌∷◌, arith, Option-cases, Bool-cases,
}
use garnet_trader.Prelude.Dict.{Dict, erase, Distinct, insert-Distinct, erase-Distinct}
use garnet_trader.Prelude.Int.{ℤ, pos, leb_ℤ, ◌-ℤ◌}
use garnet_trader.Prelude.Number.{Number}
use garnet_trader.Prelude.Result.{Result, Result-cases, ok, raised}
use garnet_trader.Prelude.Text.{Text, codes, text_eq, lower}
use garnet_trader.PaperStore.{
  Store, PositionRow, OrderRow, get_position, save_order, delete_position, record_trade,
  update_cash, upsert_position,
}
use garnet_trader.PaperStore.Rows.{update_cash-tables}
use garnet_trader.PaperBroker.{
  Contract, Broker, Request, Decision, place_order, settle_at, settle_row, settle_rows,
  settle_expired_positions, refuse, add_position, apply_buy, apply_sell, apply_fill, save_filled,
  run_decision, decide_order, execute, refuse_for, fails, value, contract_size,
}

module _ {F : Type 0} where
  abbrev pub Keyed : Store F → Type 0
  Keyed s = Distinct s.positions

  upsert_position-Keyed :
      (symbol : Text) (q : ℤ) (price : F) (at now : ℕ) (s : Store F)
      → Keyed s
      → Keyed (upsert_position symbol q price at now s)
  unfolding upsert_position delete_position
  upsert_position-Keyed symbol q price at now s h = elim (Bool-cases (leb_ℤ q (pos 0))) [
    | inl closes ↦ rw closes (erase-Distinct symbol s.positions h)
    | inr stays ↦ rw stays (insert-Distinct symbol _ s.positions h)
  ]

  update_cash-Keyed : (cash : F) (s : Store F) → Keyed s → Keyed (update_cash cash s)
  update_cash-Keyed cash s h = rw ((update_cash-tables cash s).1) h

module _ {F : Type 0} (n : Number F) (b : Broker F) where
  add_position-upsert :
      (symbol : Text) (f : ℕ) (avg : F) (now : ℕ) (s : Store F)
      → (q : ℤ) × (p : F) × (at : ℕ) × (add_position n b symbol f avg now s
          ≡ upsert_position symbol q p at now s)
  unfolding add_position
  add_position-upsert symbol f avg now s = elim (Option-cases (get_position symbol s)) [
    | inl g ↦ (pos f, avg, now, ground arith)
    | inr (row, g) ↦
        let new_qty = row.quantity + f in
        let cost = n.add (n.mul (n.of_ℕ row.quantity) row.average_price) (n.mul (n.of_ℕ f) avg) in
        (pos new_qty, n.div cost (n.of_ℕ new_qty), row.opened_at, ground arith)
  ]

  apply_buy-Keyed :
      (symbol : Text) (f : ℕ) (avg fee : F) (now : ℕ) (s s' : Store F)
      → apply_buy n b symbol f avg fee now s ≡ ok s'
      → Keyed s
      → Keyed s'
  unfolding apply_buy
  apply_buy-Keyed symbol f avg fee now s s' e h = elim (Option-cases s.account) [
    | inl g ↦ ground arith
    | inr (a, g) ↦
        let s₁ =
          update_cash (n.sub (n.sub a.cash (value n b avg f (contract_size n b symbol))) fee) s in
        let (q, p, at, placed) = add_position-upsert symbol f avg now s₁ in
        let same : s' ≡ upsert_position symbol q p at now s₁ = ground (arith, placed) in
        rw same (upsert_position-Keyed symbol q p at now s₁ (update_cash-Keyed _ s h))
  ]

  apply_sell-Keyed :
      (r : Request) (c : Contract F) (f : ℕ) (avg fee : F) (s s' : Store F)
      → apply_sell n b r c f avg fee s ≡ ok s'
      → Keyed s
      → Keyed s'
  unfolding apply_sell record_trade
  apply_sell-Keyed r c f avg fee s s' e h = elim (Option-cases (get_position r.symbol s)) [
    | inl g ↦ ground arith
    | inr (row, g) ↦ elim (Option-cases s.account) [
      | inl g' ↦ ground arith
      | inr (a, g') ↦
          let s₁ = update_cash (n.sub (n.add a.cash (value n b avg f c.contract_size)) fee) s in
          let left = pos row.quantity -ℤ pos f in
          let same : s'.positions
              ≡ (upsert_position r.symbol left row.average_price row.opened_at r.now s₁).positions =
            ground arith in
          rw same (
            upsert_position-Keyed r.symbol left row.average_price row.opened_at r.now s₁
              (update_cash-Keyed _ s h))
    ]
  ]

  apply_fill-Keyed :
      (r : Request) (c : Contract F) (f : ℕ) (avg fee : F) (s s' : Store F)
      → apply_fill n b r c f avg fee s ≡ ok s'
      → Keyed s
      → Keyed s'
  unfolding apply_fill
  apply_fill-Keyed r c f avg fee s s' e h =
      elim (Bool-cases (text_eq (lower r.side) (codes "buy"))) [
        | inl buy ↦ apply_buy-Keyed r.symbol f avg fee r.now s s' (cc) h
        | inr sell ↦ apply_sell-Keyed r c f avg fee s s' (cc) h
      ]

  save_filled-Keyed :
      (o : OrderRow F) (s : Store F) (applied : Result (Store F))
      → ((s' : Store F) → applied ≡ ok s' → Keyed s')
      → Keyed s
      → Keyed (save_filled n b o s applied).1
  unfolding save_filled save_order
  save_filled-Keyed o s raised keep h = h
  save_filled-Keyed o s (ok s') keep h = keep s' refl

  run_decision-Keyed :
      (r : Request) (d : Decision F) (s : Store F) → Keyed s → Keyed (run_decision n b r d s).1
  unfolding run_decision refuse save_order
  run_decision-Keyed r (refuse_for reason) s h = h
  run_decision-Keyed r fails s h = h
  run_decision-Keyed r (execute c avg f) s h =
      save_filled-Keyed _ s _ (λ s' e. apply_fill-Keyed r c f avg _ s s' e h) h

  pub place_order-Keyed : (r : Request) (s : Store F) → Keyed s → Keyed (place_order n b r s).1
  unfolding place_order
  place_order-Keyed r s h = run_decision-Keyed r (decide_order n b r s) s h

  settle_at-positions :
      (symbol : Text) (row : PositionRow F) (c : Contract F) (price : F) (now : ℕ) (id : Text)
      (s : Store F)
      → let s' = (settle_at n b symbol row c price now id s).1 in
        (s'.positions ≡ s.positions) ⊎ (s'.positions ≡ erase symbol s.positions)
  unfolding settle_at delete_position record_trade
  settle_at-positions symbol row c price now id s = elim (Option-cases s.account) [
    | inl g ↦ inl (ground arith)
    | inr (a, g) ↦
        let fee = exit_cost n b.fees (value n b price row.quantity c.contract_size) true in
        let cash = n.sub (n.add a.cash (value n b price row.quantity c.contract_size)) fee in
        let tables = update_cash-tables cash s in
        elim (Bool-cases (n.is_zero row.average_price)) [
          | inl zero ↦ inr (ground (arith, tables))
          | inr entry ↦ inr (ground (arith, tables))
        ]
  ]

  settle_row-positions :
      (today now : ℕ) (id symbol : Text) (row : PositionRow F) (s : Store F)
      → let s' = (settle_row n b today now id (symbol, row) s).1 in
        (s'.positions ≡ s.positions) ⊎ (s'.positions ≡ erase symbol s.positions)
  unfolding settle_row
  settle_row-positions today now id symbol row s = elim (Option-cases (b.resolve_contract symbol)) [
    | inl g ↦ inl (ground arith)
    | inr (c, g) ↦ elim (Option-cases c.last_price) [
      | inl g' ↦ inl (ground arith)
      | inr (price, g') ↦ ground (arith, settle_at-positions symbol row c price now id s)
    ]
  ]

  settle_row-Keyed :
      (today now : ℕ) (id symbol : Text) (row : PositionRow F) (s : Store F)
      → Keyed s
      → Keyed (settle_row n b today now id (symbol, row) s).1
  settle_row-Keyed today now id symbol row s h =
      elim (settle_row-positions today now id symbol row s) [
        | inl same ↦ rw same h
        | inr erased ↦ rw erased (erase-Distinct symbol s.positions h)
      ]

  settle_rows-Keyed :
      (today now : ℕ) (fresh : Text → Text) (rows : Dict (PositionRow F)) (s : Store F)
      → Keyed s
      → Keyed (settle_rows n b today now fresh rows s).1
  unfolding settle_rows
  settle_rows-Keyed today now fresh [] s h = h
  settle_rows-Keyed today now fresh ((symbol, row) ∷ rows) s h =
      let s₁ = (settle_row n b today now (fresh symbol) (symbol, row) s).1 in
      let first = settle_row-Keyed today now (fresh symbol) symbol row s h in
      elim (Result-cases (settle_row n b today now (fresh symbol) (symbol, row) s).0) [
        | inl g ↦
            let same : (settle_rows n b today now fresh ((symbol, row) ∷ rows) s).1 ≡ s₁ =
              ground arith in
            subst Keyed (sym same) first
        | inr (o, g) ↦
            let same : (settle_rows n b today now fresh ((symbol, row) ∷ rows) s).1
                ≡ (settle_rows n b today now fresh rows s₁).1 =
              ground arith in
            subst Keyed (sym same) (settle_rows-Keyed today now fresh rows s₁ first)
      ]

  pub settle_expired_positions-Keyed :
      (today now : ℕ) (fresh : Text → Text) (s : Store F)
      → Keyed s
      → Keyed (settle_expired_positions n b today now fresh s).1
  unfolding settle_expired_positions
  settle_expired_positions-Keyed today now fresh s h = settle_rows-Keyed today now fresh _ s h
