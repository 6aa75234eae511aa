-- ===== src/OrderBook/Filling.antt =====
-- The fill loop against the book read contract by contract.
use garnet_trader.Prelude.{
  ℕ, zero, suc, ◌+◌, ◌-◌, ◌*◌, ◌<◌, min, ◌≡◌, true, false, none, some, List, [], ◌∷◌, ◌++◌, arith,
  ◌==◌, if◌then◌else◌, length, take, replicate, sum, length-append, length-replicate, Bool-cases,
  inl, inr,
}
use garnet_trader.Prelude.Int.{pos}
use garnet_trader.Prelude.Ratio.{ratio_ℕ}
use garnet_trader.Prelude.Text.{Text}
use garnet_trader.OrderBook.{
  BookLevel, OrderBook, is_real, levels, fill_level, fill_loop, fill_of, fill_price,
}

-- The price of each contract on offer, in the order in which the book lists them.
unfoldable pub units : List BookLevel → List ℕ
units [] = []
units (l ∷ ls) = (if is_real l then replicate l.quantity l.price else []) ++ units ls

pub sum-take-replicate :
    (r n p k : ℕ) (us : List ℕ)
    → k ≡ r - n
    → sum (take r (replicate n p ++ us)) ≡ min r n * p + sum (take k us)
sum-take-replicate r zero p k us e = let e' : k ≡ r = omega arith in rw e' (grind arith)
sum-take-replicate zero (suc n) p k us e = let e' : k ≡ 0 = omega arith in rw e' (grind arith)
sum-take-replicate (suc r) (suc n) p k us e =
    let e' : min (suc r) (suc n) ≡ suc (min r n) = omega arith in
    rw e' (omega (arith, sum-take-replicate r n p k us (omega arith)))

fill_level_real :
    (l : BookLevel) (r c : ℕ)
    → is_real l ≡ true
    → fill_level l (r, c) ≡ (r - min r l.quantity, c + min r l.quantity * l.price)
unfolding fill_level
fill_level_real l zero c real = rw real (grind arith)
fill_level_real l (suc r) c real = rw real (ground arith)

fill_level_empty : (l : BookLevel) (r c : ℕ) → is_real l ≡ false → fill_level l (r, c) ≡ (r, c)
unfolding fill_level
fill_level_empty l r c empty = rw empty

-- The loop takes contracts in the order of the book until it has enough.
pub fill_loop_lem :
    (ls : List BookLevel) (r c : ℕ)
    → fill_loop ls (r, c) ≡ (r - length (units ls), c + sum (take r (units ls)))
unfolding fill_loop units
fill_loop_lem [] zero c = ground arith
fill_loop_lem [] (suc r) c = ground arith
fill_loop_lem (l ∷ ls) r c = elim (Bool-cases (is_real l)) [
  | inl real ↦ rw (fill_level_real l r c real) (
      rw (real, fill_loop_lem ls)
        (ground (
          arith,
          length-append (replicate l.quantity l.price) (units ls),
          length-replicate l.quantity l.price,
          sum-take-replicate r l.quantity l.price (r - min r l.quantity) (units ls) (omega arith),
        )))
  | inr empty ↦ rw (fill_level_empty l r c empty) (rw (empty, fill_loop_lem ls))
]

-- An order of one contract or more fills the first contracts of its side of the book, as many as
-- are asked for and on offer; the average is their total price over their number, and there is
-- none if nothing fills.
pub fill_price-eq-units :
    (side : Text) (q : ℕ) (b : OrderBook) (ls : List BookLevel)
    → levels side b ≡ some ls
    → 0 < q
    → let n = min q (length (units ls)) in
      fill_price side (pos q) b
      ≡ some (record {
        average = if n == 0 then none else some (ratio_ℕ (sum (take q (units ls))) n);
        filled = n;
      })
unfolding fill_price fill_of
fill_price-eq-units side zero b ls found h = elim h [ ]
fill_price-eq-units side (suc q) b ls found h =
    rw found (ground (arith, fill_loop_lem ls (suc q) 0))
