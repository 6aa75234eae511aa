-- ===== src/PaperBroker/Settling.antt =====
-- The settlement of expired positions: which it closes, and what the trades then say.
use mathlib.Core.Path.{subst}
use garnet_trader.Prelude.{
  ◌∙◌, ℕ, ◌+◌, ◌≡◌, refl, sym, append_nil, append_cons, ap, ◌⊎◌, inl, inr, Bool, true, false, not,
  Option, none, some, List, [], ◌∷◌, ◌++◌, arith, ltb, if◌then◌else◌, Option-cases, Bool-cases,
}
use garnet_trader.Prelude.Dict.{
  Dict, lookup, erase, lookup-erase, Distinct, lookup-sort, lookup-rest,
}
use garnet_trader.Prelude.Number.{Number}
use garnet_trader.Prelude.Result.{Result, Result-cases, ok, raised}
use garnet_trader.Prelude.Text.{Text, text_eq_refl, text_eq_iff}
use garnet_trader.PaperStore.{
  text_leb, Store, TradeRow, PositionRow, list_positions, delete_position, record_trade,
}
use garnet_trader.PaperStore.Rows.{held_of, closed, update_cash-tables}
use garnet_trader.PaperBroker.{
  Contract, Broker, settle_at, settle_row, settle_rows, after_row, settle_expired_positions, value,
  expiry_trade,
}
use garnet_trader.Fees.{exit_cost}

module _ {F : Type 0} (n : Number F) (b : Broker F) where
  -- A symbol whose contract is known, has a price and has expired.
  pub due : ℕ → Text → Bool
  due today symbol = elim (b.resolve_contract symbol) [
    | none ↦ false
    | some c ↦ elim c.last_price [ none ↦ false | some price ↦ not (ltb today c.expiry) ]
  ]

  abbrev Settled : Text → PositionRow F → Option (TradeRow F) → Store F → Store F → Type 0
  Settled symbol row o s s' =
      (s'.orders ≡ s.orders)
      × (s'.positions ≡ erase symbol s.positions)
      × ((t : TradeRow F) × (o ≡ some t)
          × (s'.trades ≡ s.trades ++ t ∷ [])
          × (t.symbol ≡ symbol)
          × (t.quantity ≡ row.quantity))

  settle_at-ok :
      (symbol : Text) (row : PositionRow F) (c : Contract F) (price : F) (now : ℕ) (id : Text)
      (s : Store F) (o : Option (TradeRow F))
      → (settle_at n b symbol row c price now id s).0 ≡ ok o
      → Settled symbol row o s (settle_at n b symbol row c price now id s).1
  unfolding settle_at delete_position record_trade expiry_trade
  settle_at-ok symbol row c price now id s o e = elim (Option-cases s.account) [
    | inl h ↦ ground arith
    | inr (a, h) ↦ elim (Bool-cases (n.is_zero row.average_price)) [
      | inl zero ↦ ground arith
      | inr entry ↦
          let notional = value n b price row.quantity c.contract_size in
          let fee = exit_cost n b.fees notional true in
          let t = expiry_trade n b symbol row c price fee now id in
          let tables = update_cash-tables (n.sub (n.add a.cash notional) fee) s in
          (
            ground (arith, tables),
            ground (arith, tables),
            (t, ground arith, ground (arith, tables), refl, refl),
          )
    ]
  ]

  settle_row-ok :
      (today now : ℕ) (id symbol : Text) (row : PositionRow F) (s : Store F)
      (o : Option (TradeRow F))
      → (settle_row n b today now id (symbol, row) s).0 ≡ ok o
      → let s' = (settle_row n b today now id (symbol, row) s).1 in
        ((due today symbol ≡ false) × (o ≡ none) × (s' ≡ s))
        ⊎ ((due today symbol ≡ true) × Settled symbol row o s s')
  unfolding settle_row due
  settle_row-ok today now id symbol row s o e = elim (Option-cases (b.resolve_contract symbol)) [
    | inl h ↦ inl (ground arith)
    | inr (c, h) ↦ elim (Option-cases c.last_price) [
      | inl g ↦ inl (ground arith)
      | inr (price, g) ↦ elim (Bool-cases (ltb today c.expiry)) [
        | inl early ↦ inl (ground arith)
        | inr late ↦
            let same : settle_row n b today now id (symbol, row) s
                ≡ settle_at n b symbol row c price now id s =
              ground arith in
            let settled : (settle_at n b symbol row c price now id s).0 ≡ ok o = ground arith in
            inr (ground arith, rw same (settle_at-ok symbol row c price now id s o settled))
      ]
    ]
  ]

  abbrev pub Closes : ℕ → Dict (PositionRow F) → List (TradeRow F) → Store F → Store F → Type 0
  Closes today rows ts s s' =
      (s'.orders ≡ s.orders)
      × (s'.trades ≡ s.trades ++ ts)
      × ((k : Text)
          → (lookup k s'.positions ≡ (
              if due today k
              then elim (lookup k rows) [ none ↦ lookup k s.positions | some row ↦ none ]
              else lookup k s.positions))
            × (held_of k s.positions ≡ held_of k s'.positions + closed k ts))

  -- The trades of a round before those of the rest.
  abbrev with_rest : Option (TradeRow F) → List (TradeRow F) → List (TradeRow F)
  with_rest none ts = ts
  with_rest (some t) ts = t ∷ ts

  after_row-ok :
      (o : Option (TradeRow F)) (rest : Result (List (TradeRow F))) (ts : List (TradeRow F))
      → after_row n b o rest ≡ ok ts
      → (us : List (TradeRow F)) × (rest ≡ ok us) × (ts ≡ with_rest o us)
  after_row-ok o raised ts e = cc
  after_row-ok none (ok us) ts e = (us, refl, cc)
  after_row-ok (some t) (ok us) ts e = (us, refl, cc)

  settle_rows-cons :
      (today now : ℕ) (fresh : Text → Text) (symbol : Text) (row : PositionRow F)
      (rows : Dict (PositionRow F)) (s : Store F) (ts : List (TradeRow F))
      → (settle_rows n b today now fresh ((symbol, row) ∷ rows) s).0 ≡ ok ts
      → let (first, s₁) = settle_row n b today now (fresh symbol) (symbol, row) s in
        (o : Option (TradeRow F)) × (us : List (TradeRow F)) × (first ≡ ok o)
        × ((settle_rows n b today now fresh rows s₁).0 ≡ ok us)
        × (ts ≡ with_rest o us)
        × ((settle_rows n b today now fresh ((symbol, row) ∷ rows) s).1
            ≡ (settle_rows n b today now fresh rows s₁).1)
  unfolding settle_rows
  settle_rows-cons today now fresh symbol row rows s ts e =
      let (first, s₁) = settle_row n b today now (fresh symbol) (symbol, row) s in
      elim (Result-cases (settle_row n b today now (fresh symbol) (symbol, row) s).0) [
        | inl h ↦ ground arith
        | inr (o, h) ↦
            let rest = (settle_rows n b today now fresh rows s₁).0 in
            let joined : after_row n b o rest ≡ ok ts = ground arith in
            let (us, later, parts) = after_row-ok o rest ts joined in
            (o, us, h, later, parts, ground arith)
      ]

  Closes-nil : (today : ℕ) (s : Store F) → Closes today [] [] s s
  unfolding lookup closed
  Closes-nil today s = (refl, sym (append_nil s.trades), λ k. ground arith)

  Closes-skip :
      (today : ℕ) (symbol : Text) (row : PositionRow F) (rows : Dict (PositionRow F))
      (ts : List (TradeRow F)) (s s' : Store F)
      → due today symbol ≡ false
      → Closes today rows ts s s'
      → Closes today ((symbol, row) ∷ rows) ts s s'
  unfolding lookup
  Closes-skip today symbol row rows ts s s' not_due (orders, trades, closes) =
      (orders, trades, λ k. ground (arith, closes k, text_eq_iff symbol k))

  Closes-done :
      (today : ℕ) (symbol : Text) (row : PositionRow F) (rows : Dict (PositionRow F))
      (t : TradeRow F) (ts : List (TradeRow F)) (s s₁ s' : Store F)
      → due today symbol ≡ true
      → Settled symbol row (some t) s s₁
      → lookup symbol s.positions ≡ some row
      → lookup symbol rows ≡ none
      → Closes today rows ts s₁ s'
      → Closes today ((symbol, row) ∷ rows) (t ∷ ts) s s'
  unfolding lookup closed held_of
  Closes-done today symbol row rows t ts s s₁ s' is_due settled here away (orders, trades, closes) =
      let (orders₁, erased, (u, same, closing₁, of_symbol, size)) = settled in
      let closing : s₁.trades ≡ s.trades ++ t ∷ [] = cc in
      (
        orders ∙ orders₁,
        trades ∙ ap (λ us. us ++ ts) closing ∙ append_cons s.trades t ts,
        λ k. ground (
          arith,
          same,
          erased,
          of_symbol,
          size,
          closes k,
          here,
          away,
          text_eq_iff symbol k,
          lookup-erase symbol k s.positions,
        ),
      )

  settle_rows-nil :
      (today now : ℕ) (fresh : Text → Text) (s : Store F) (ts : List (TradeRow F))
      → (settle_rows n b today now fresh [] s).0 ≡ ok ts
      → (ts ≡ []) × ((settle_rows n b today now fresh [] s).1 ≡ s)
  unfolding settle_rows
  settle_rows-nil today now fresh s ts e = ground arith

  list_positions-lookup :
      (s : Store F)
      → Distinct s.positions
      → Distinct (list_positions s)
        × ((k : Text) → lookup k (list_positions s) ≡ lookup k s.positions)
  unfolding list_positions
  list_positions-lookup s distinct = lookup-sort (λ x y. text_leb x.0 y.0) s.positions distinct

  settle_rows-Closes :
      (today now : ℕ) (fresh : Text → Text) (rows : Dict (PositionRow F)) (s : Store F)
      (ts : List (TradeRow F))
      → Distinct rows
      → ((k : Text) (row : PositionRow F)
          → lookup k rows ≡ some row
          → lookup k s.positions ≡ some row)
      → (settle_rows n b today now fresh rows s).0 ≡ ok ts
      → Closes today rows ts s (settle_rows n b today now fresh rows s).1
  unfolding lookup
  settle_rows-Closes today now fresh [] s ts distinct here e =
      let (none_closed, same) = settle_rows-nil today now fresh s ts e in
      rw (none_closed, same) (Closes-nil today s)
  settle_rows-Closes today now fresh ((symbol, row) ∷ rows) s ts distinct here e =
      let (o, us, first, later, parts, last) =
        settle_rows-cons today now fresh symbol row rows s ts e in
      let s₁ = (settle_row n b today now (fresh symbol) (symbol, row) s).1 in
      let s' = (settle_rows n b today now fresh rows s₁).1 in
      elim (settle_row-ok today now (fresh symbol) symbol row s o first) [
        | inl (not_due, nothing, same) ↦
            let here₁ : (k : Text) (row' : PositionRow F)
                → lookup k rows ≡ some row'
                → lookup k s₁.positions ≡ some row' =
              λ k row' h.
                rw same (here k row' (lookup-rest symbol k row row' rows distinct.0 h).1) in
            let rest : Closes today rows us s₁ s' =
              settle_rows-Closes today now fresh rows s₁ us distinct.1 here₁ later in
            rw (parts, last, nothing)
              (Closes-skip today symbol row rows us s s' not_due
                (subst (λ x. Closes today rows us x s') same rest))
        | inr (is_due, settled) ↦
            let (orders₁, erased, (t, one, closing, of_symbol, size)) = settled in
            let here₁ : (k : Text) (row' : PositionRow F)
                → lookup k rows ≡ some row'
                → lookup k s₁.positions ≡ some row' =
              λ k row' h. ground (
                arith,
                erased,
                lookup-erase symbol k s.positions,
                lookup-rest symbol k row row' rows distinct.0 h,
                here k row',
              ) in
            let rest : Closes today rows us s₁ s' =
              settle_rows-Closes today now fresh rows s₁ us distinct.1 here₁ later in
            rw (parts, last, one)
              (Closes-done today symbol row rows t us s s₁ s' is_due
                (orders₁, erased, (t, refl, closing, of_symbol, size))
                (here symbol row (ground (arith, text_eq_refl symbol))) distinct.0 rest)
      ]

  -- A settlement that returns closes exactly the positions whose contract is known, has a price and has
  -- expired, leaves every other position and all orders alone, appends the trades that it returns, and
  -- those trades account for what is no longer held of each symbol.
  pub settle_expired_positions_lem :
      (today now : ℕ) (fresh : Text → Text) (s : Store F) (ts : List (TradeRow F))
      → Distinct s.positions
      → (settle_expired_positions n b today now fresh s).0 ≡ ok ts
      → let s' = (settle_expired_positions n b today now fresh s).1 in
        (s'.orders ≡ s.orders)
        × (s'.trades ≡ s.trades ++ ts)
        × ((k : Text)
            → (lookup k s'.positions ≡ (if due today k then none else lookup k s.positions))
              × (held_of k s.positions ≡ held_of k s'.positions + closed k ts))
  unfolding settle_expired_positions
  settle_expired_positions_lem today now fresh s ts distinct e =
      let (sorted_distinct, sorted_same) = list_positions-lookup s distinct in
      let (orders, trades, closes) =
        settle_rows-Closes today now fresh (list_positions s) s ts sorted_distinct
          (λ k row h. sym (sorted_same k) ∙ h) e in
      (orders, trades, λ k. ground (arith, closes k, sorted_same k))
