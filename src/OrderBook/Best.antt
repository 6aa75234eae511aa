-- ===== src/OrderBook/Best.antt =====
-- What the order of the levels gives: a fill is the best that the book offers, and a well-formed
-- book fills an order exactly when its depth reaches.
use garnet_trader.Prelude.{
  ℕ, zero, suc, ◌+◌, ◌≤◌, ◌<◌, ◌≡◌, refl, Bool, true, none, some, List, [], ◌∷◌, ◌++◌, arith, leb,
  All, length, take, replicate, sum, Bool-cases, Option-cases, ◌⊎◌, inl, inr,
}
use garnet_trader.Prelude.Int.{pos}
use garnet_trader.Prelude.Sort.{IsSorted}
use garnet_trader.Prelude.Ratio.{ratio_ℕ}
use garnet_trader.Prelude.Text.{Text, codes, lower, text_eq}
use garnet_trader.OrderBook.{
  BookLevel, OrderBook, is_real, levels, total_quantity, depth, fill_price, can_fill, first_real,
  distance, slippage,
}
use garnet_trader.OrderBook.Filling.{units, fill_price-eq-units}
use garnet_trader.OrderBook.Build.{IsBook, cheaper, dearer, length-units}

-- A choice of some of the contracts on offer.
pub data Pick : List ℕ → List ℕ → Type 0 where
  done : Pick [] []
  skip : {u : ℕ} {vs us : List ℕ} → Pick vs us → Pick vs (u ∷ us)
  keep : {u : ℕ} {vs us : List ℕ} → Pick vs us → Pick (u ∷ vs) (u ∷ us)

Pick-length-le : {vs us : List ℕ} → Pick vs us → length vs ≤ length us
Pick-length-le done = omega arith
Pick-length-le (skip p) = omega (arith, Pick-length-le p)
Pick-length-le (keep p) = omega (arith, Pick-length-le p)

abbrev Rises : List ℕ → Type 0
Rises = IsSorted leb

abbrev Falls : List ℕ → Type 0
Falls = IsSorted (λ x y. leb y x)

-- One more contract of a rising list costs as much as the first, or more.
take-suc-Rises :
    (u n : ℕ) (us : List ℕ)
    → All (λ y. leb u y ≡ true) us
    → Rises us
    → n < length us
    → u + sum (take n us) ≤ sum (take (suc n) us)
take-suc-Rises u n [] h s lt = elim lt [ ]
take-suc-Rises u zero (x ∷ us) h s lt = ground arith
take-suc-Rises u (suc n) (x ∷ us) h s lt =
    ground (arith, take-suc-Rises x n us s.0 s.1 (omega arith))

take-suc-Falls :
    (u n : ℕ) (us : List ℕ)
    → All (λ y. leb y u ≡ true) us
    → Falls us
    → n < length us
    → sum (take (suc n) us) ≤ u + sum (take n us)
take-suc-Falls u n [] h s lt = elim lt [ ]
take-suc-Falls u zero (x ∷ us) h s lt = ground arith
take-suc-Falls u (suc n) (x ∷ us) h s lt =
    ground (arith, take-suc-Falls x n us s.0 s.1 (omega arith))

cheapest : {vs us : List ℕ} → Pick vs us → Rises us → sum (take (length vs) us) ≤ sum vs
cheapest done s = omega arith
cheapest {vs = []} (skip p) s = omega arith
cheapest {vs = v ∷ vs} (skip {u = u} {us = us} p) s =
    omega (arith, cheapest p s.1, take-suc-Rises u (length vs) us s.0 s.1 (Pick-length-le p))
cheapest (keep p) s = omega (arith, cheapest p s.1)

dearest : {vs us : List ℕ} → Pick vs us → Falls us → sum vs ≤ sum (take (length vs) us)
dearest done s = omega arith
dearest {vs = []} (skip p) s = omega arith
dearest {vs = v ∷ vs} (skip {u = u} {us = us} p) s =
    omega (arith, dearest p s.1, take-suc-Falls u (length vs) us s.0 s.1 (Pick-length-le p))
dearest (keep p) s = omega (arith, dearest p s.1)

All-replicate {κ} :
    (P : ℕ → Type κ) (n p : ℕ) (us : List ℕ) → P p → All P us → All P (replicate n p ++ us)
All-replicate P zero p us h hs = hs
All-replicate P (suc n) p us h hs = (h, All-replicate P n p us h hs)

replicate-IsSorted :
    (before : ℕ → ℕ → Bool) (n p : ℕ) (us : List ℕ)
    → before p p ≡ true
    → All (λ y. before p y ≡ true) us
    → IsSorted before us
    → IsSorted before (replicate n p ++ us)
replicate-IsSorted before zero p us r h s = s
replicate-IsSorted before (suc n) p us r h s =
    (All-replicate (λ y. before p y ≡ true) n p us r h, replicate-IsSorted before n p us r h s)

-- The order of the levels is that of the contracts.
module _ (before : ℕ → ℕ → Bool) (same : (p : ℕ) → before p p ≡ true) where
  All-units :
      (p : ℕ) (ls : List BookLevel)
      → All (λ l. before p l.price ≡ true) ls
      → All (λ y. before p y ≡ true) (units ls)
  unfolding units
  All-units p [] h = tt
  All-units p (l ∷ ls) h = elim (Bool-cases (is_real l)) [
    | inl real ↦ rw real (
        All-replicate (λ y. before p y ≡ true) l.quantity l.price (units ls) h.0
          (All-units p ls h.1))
    | inr empty ↦ rw empty (All-units p ls h.1)
  ]

  units-IsSorted :
      (ls : List BookLevel)
      → IsSorted (λ x y. before x.price y.price) ls
      → IsSorted before (units ls)
  unfolding units
  units-IsSorted [] h = tt
  units-IsSorted (l ∷ ls) h = elim (Bool-cases (is_real l)) [
    | inl real ↦ rw real (
        replicate-IsSorted before l.quantity l.price (units ls) (same l.price)
          (All-units l.price ls h.0) (units-IsSorted ls h.1))
    | inr empty ↦ rw empty (units-IsSorted ls h.1)
  ]

module _ (b : OrderBook) (vs : List ℕ) (h : IsBook b) (some_wanted : 0 < length vs) where
  -- A well-formed book fills an order to buy, of as many contracts as some choice of its asks, in
  -- full, and at a total price no higher than that of the choice.
  pub buy_fill-is_best :
      Pick vs (units b.asks)
      → (cost : ℕ) × (fill_price (codes "buy") (pos (length vs)) b
          ≡ some (record { average = some (ratio_ℕ cost (length vs)); filled = length vs }))
        × (cost ≤ sum vs)
  unfolding levels lower text_eq cheaper
  buy_fill-is_best p = (
    sum (take (length vs) (units b.asks)),
    ground (
      arith,
      fill_price-eq-units (codes "buy") (length vs) b b.asks refl some_wanted,
      Pick-length-le p,
    ),
    cheapest p (units-IsSorted leb (λ k. ground arith) b.asks h.asks_sorted),
  )

  -- It fills an order to sell, of as many contracts as some choice of its bids, in full, and at a
  -- total price no lower than that of the choice.
  pub sell_fill-is_best :
      Pick vs (units b.bids)
      → (proceeds : ℕ) × (fill_price (codes "sell") (pos (length vs)) b
          ≡ some (record { average = some (ratio_ℕ proceeds (length vs)); filled = length vs }))
        × (sum vs ≤ proceeds)
  unfolding levels lower text_eq dearer
  sell_fill-is_best p = (
    sum (take (length vs) (units b.bids)),
    ground (
      arith,
      fill_price-eq-units (codes "sell") (length vs) b b.bids refl some_wanted,
      Pick-length-le p,
    ),
    dearest p (units-IsSorted (λ x y. leb y x) (λ k. ground arith) b.bids h.bids_sorted),
  )

levels-cases :
    (side : Text) (b : OrderBook) (ls : List BookLevel)
    → levels side b ≡ some ls
    → (b.asks ≡ ls) ⊎ (b.bids ≡ ls)
unfolding levels
levels-cases side b ls e = ground arith

levels-real :
    (side : Text) (b : OrderBook) (ls : List BookLevel)
    → IsBook b
    → levels side b ≡ some ls
    → All (λ l. is_real l ≡ true) ls
levels-real side b ls h e = elim (levels-cases side b ls e) [
  | inl same ↦ rw (← same) h.asks_real
  | inr same ↦ rw (← same) h.bids_real
]

-- On a well-formed book an order of any positive size can be filled exactly when the depth of its
-- side reaches that size.
pub can_fill-eq-depth :
    (side : Text) (q n : ℕ) (b : OrderBook)
    → IsBook b
    → 0 < q
    → depth side b ≡ some n
    → can_fill side (pos q) b ≡ some (leb q n)
unfolding can_fill depth
can_fill-eq-depth side q n b h lt e = elim (Option-cases (levels side b)) [
  | inl wrong ↦ absurd (ground arith)
  | inr (ls, found) ↦ ground (
    arith,
    fill_price-eq-units side q b ls found lt,
    length-units ls (levels-real side b ls h found),
  )
]

first_real_lem :
    (ls : List BookLevel)
    → All (λ l. is_real l ≡ true) ls
    → 0 < total_quantity ls
    → (best : ℕ) × (first_real ls ≡ some best) × (0 < best)
unfolding first_real is_real
first_real_lem [] h lt = elim lt [ ]
first_real_lem (l ∷ ls) h lt = (l.price, rw h.0, ground arith)

-- The slippage on a well-formed book: there is none when the order cannot be filled in full, and
-- otherwise it compares the price of the contracts that the order takes with the best quote.
pub slippage_lem :
    (side : Text) (q : ℕ) (b : OrderBook) (ls : List BookLevel)
    → IsBook b
    → 0 < q
    → levels side b ≡ some ls
    → (total_quantity ls < q → slippage side (pos q) b ≡ some none)
      × (q ≤ total_quantity ls
          → (best : ℕ) × (first_real ls ≡ some best)
            × (slippage side (pos q) b
                ≡ some (some (distance (ratio_ℕ (sum (take q (units ls))) q) best))))
unfolding slippage
slippage_lem side q b ls h lt found = (short, reached)
  where
    real : All (λ l. is_real l ≡ true) ls
    real = levels-real side b ls h found

    short : total_quantity ls < q → slippage side (pos q) b ≡ some none
    short k = ground (arith, fill_price-eq-units side q b ls found lt, length-units ls real)

    reached :
        q ≤ total_quantity ls
        → (best : ℕ) × (first_real ls ≡ some best)
          × (slippage side (pos q) b
              ≡ some (some (distance (ratio_ℕ (sum (take q (units ls))) q) best)))
    reached k =
        let (best, e, up) = first_real_lem ls real (omega arith) in
        (best, e, ground (arith, fill_price-eq-units side q b ls found lt, length-units ls real))
