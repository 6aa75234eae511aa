-- ===== src/OrderBook.antt =====
-- data/order_book.py: the order book of one instrument, and what an order of a given size costs.
-- Prices are whole rials and volumes whole contracts, as the exchange sends them, so both are
-- naturals and the sums of the fill loop are exact; a missing number is 0. The requested quantity
-- is Python's signed integer. `none` in place of a result is a ValueError.
pub mod Filling
pub mod Best
pub mod Build
pub mod Client
mod Tests
use garnet_trader.Prelude.{
  ℕ, zero, suc, ◌+◌, ◌-◌, ◌*◌, min, Bool, true, false, not, ◌&&◌, ◌||◌, Option, none, some, List,
  [], ◌∷◌, ltb, leb, ◌==◌, if◌then◌else◌,
}
use garnet_trader.Prelude.Int.{ℤ, pos, pos_part, ◌-ℤ◌, leb_ℤ, ltb_ℤ}
use garnet_trader.Prelude.Ratio.{Ratio, ratio, ratio_ℕ}
use garnet_trader.Prelude.Text.{Text, codes, text_eq, lower}

pub record BookLevel : Type 0 where
  pub price : ℕ
  pub quantity : ℕ
  pub orders : ℕ

unfoldable pub is_real : BookLevel → Bool
is_real l = ltb 0 l.price && ltb 0 l.quantity

pub record OrderBook : Type 0 where
  pub symbol : Text
  pub bids : List BookLevel
  pub asks : List BookLevel

best_price : List BookLevel → Option ℕ
best_price [] = none
best_price (l ∷ ls) = some l.price

pub best_bid : OrderBook → Option ℕ
unfolding best_price
best_bid b = best_price b.bids

pub best_ask : OrderBook → Option ℕ
unfolding best_price
best_ask b = best_price b.asks

-- Both quotes, if both sides have one.
abbrev with_quotes {ℓ} : {A : Type ℓ} → OrderBook → (ℕ → ℕ → Option A) → Option A
with_quotes b f = elim (best_bid b) [
  | none ↦ none
  | some bid ↦ elim (best_ask b) [ none ↦ none | some ask ↦ f bid ask ]
]

pub spread : OrderBook → Option ℤ
unfolding best_bid best_ask
spread b = with_quotes b (λ bid ask. some (pos ask -ℤ pos bid))

-- (ask - bid) / ((bid + ask) / 2), where the middle is positive.
pub relative_spread : OrderBook → Option Ratio
unfolding best_bid best_ask
relative_spread b = with_quotes b (λ bid ask.
    if leb (bid + ask) 0
    then none
    else some (ratio ((pos ask -ℤ pos bid) -ℤ (pos bid -ℤ pos ask)) (bid + ask)))

-- The Persian words for buying and selling.
abbrev pub kharid : Text
kharid = 0x062e ∷ 0x0631 ∷ 0x06cc ∷ 0x062f ∷ []

abbrev pub forush : Text
forush = 0x0641 ∷ 0x0631 ∷ 0x0648 ∷ 0x0634 ∷ []

-- An order to buy is filled from the asks, and one to sell from the bids.
unfoldable pub levels : Text → OrderBook → Option (List BookLevel)
levels side b =
    let normalized = lower side in
    if text_eq normalized (codes "buy") || text_eq normalized (kharid)
    then some b.asks
    else if text_eq normalized (codes "sell") || text_eq normalized (forush)
    then some b.bids
    else none

abbrev pub total_quantity : List BookLevel → ℕ
total_quantity [] = 0
total_quantity (l ∷ ls) = l.quantity + total_quantity ls

pub depth : Text → OrderBook → Option ℕ
depth side b = elim (levels side b) [ none ↦ none | some ls ↦ some (total_quantity ls) ]

-- One round of the loop of `fill_price`, on the contracts still to fill and the cost so far.
unfoldable pub fill_level : BookLevel → ℕ × ℕ → ℕ × ℕ
unfolding is_real
fill_level l (remaining, cost) =
    if not (is_real l) || leb remaining 0
    then (remaining, cost)
    else let taken = min remaining l.quantity in (remaining - taken, cost + taken * l.price)

unfoldable pub fill_loop : List BookLevel → ℕ × ℕ → ℕ × ℕ
unfolding fill_level
fill_loop [] acc = acc
fill_loop (l ∷ ls) acc = fill_loop ls (fill_level l acc)

pub record Fill : Type 0 where
  pub average : Option Ratio
  pub filled : ℕ

unfoldable pub fill_of : ℕ → ℕ × ℕ → Fill
fill_of quantity (remaining, cost) =
    let filled = quantity - remaining in
    record { average = if filled == 0 then none else some (ratio_ℕ cost filled); filled = filled }

-- The test of the quantity stands before that of the side.
unfoldable pub fill_price : Text → ℤ → OrderBook → Option Fill
fill_price side quantity b =
    if leb_ℤ quantity (pos 0)
    then some (record { average = none; filled = 0 })
    else elim (levels side b) [
      | none ↦ none
      | some ls ↦ some (fill_of (pos_part quantity) (fill_loop ls (pos_part quantity, 0)))
    ]

unfoldable pub first_real : List BookLevel → Option ℕ
unfolding is_real
first_real [] = none
first_real (l ∷ ls) = if is_real l then some l.price else first_real ls

-- |cost / filled - best| / best, as one quotient.
abbrev pub distance : Ratio → ℕ → Ratio
distance avg best =
    let paid = pos_part avg.num in
    ratio_ℕ ((paid - best * avg.den) + (best * avg.den - paid)) (avg.den * best)

-- The inner `none` is the source's `None`.
unfoldable pub slippage : Text → ℤ → OrderBook → Option (Option Ratio)
slippage side quantity b = elim (fill_price side quantity b) [
  | none ↦ none
  | some fill ↦ elim fill.average [
    | none ↦ some none
    | some avg ↦ if ltb_ℤ (pos fill.filled) quantity then some none else elim (levels side b) [
      | none ↦ none
      | some ls ↦ elim (first_real ls) [
        | none ↦ some none
        | some best ↦ some (if best == 0 then none else some (distance avg best))
      ]
    ]
  ]
]

unfoldable pub can_fill : Text → ℤ → OrderBook → Option Bool
can_fill side quantity b = elim (fill_price side quantity b) [
  | none ↦ none
  | some fill ↦ some (leb_ℤ quantity (pos fill.filled))
]
