-- ===== src/OrderBook/Build.antt =====
-- The construction of a book: `parse_best_limits` of data/tsetmc_quote_client.py, which reads the
-- rows of the exchange's answer, and `OrderBook.from_depth`.
use mathlib.Core.List.{Perm}
use mathlib.Core.Path.{subst}
use garnet_trader.Prelude.{
  ℕ, ◌≤◌, ◌&&◌, ltb, All-imp, ◌≡◌, refl, Bool, true, Option, none, some, List, [], ◌∷◌, arith, leb,
  if◌then◌else◌, All, length, replicate, length-append, length-replicate, Bool-cases, inl, inr,
}
use garnet_trader.Prelude.Sort.{sort, IsSorted, sort-perm, All-sort, sort-IsSorted}
use garnet_trader.Prelude.Text.{Text}
use garnet_trader.OrderBook.{BookLevel, OrderBook, is_real, total_quantity}
use garnet_trader.OrderBook.Filling.{units}

-- A field of a row: a number, `null` or nothing, or what `float` and `int` refuse.
pub data Field : Type 0 where
  num : ℕ → Field
  missing : Field
  garbled : Field

-- `float(row.get(key) or 0)`, where `none` is the exception.
read : Field → Option ℕ
read (num n) = some n
read missing = some 0
read garbled = none

pub record Row : Type 0 where
  pub number : Field
  pub pmedem : Field
  pub qtitmedem : Field
  pub zordmedem : Field
  pub pmeof : Field
  pub qtitmeof : Field
  pub zordmeof : Field

pub record DepthLevel : Type 0 where
  pub level : ℕ
  pub bid_price : ℕ
  pub bid_quantity : ℕ
  pub bid_orders : ℕ
  pub ask_price : ℕ
  pub ask_quantity : ℕ
  pub ask_orders : ℕ

infixl 5 ◌>>=◌
abbrev ◌>>=◌ {ℓ κ} : {A : Type ℓ} {B : Type κ} → Option A → (A → Option B) → Option B
none >>= f = none
some a >>= f = f a

read_row : Row → Option DepthLevel
unfolding read
read_row r = do
  n ← read r.number
  bp ← read r.pmedem
  bq ← read r.qtitmedem
  bo ← read r.zordmedem
  op ← read r.pmeof
  oq ← read r.qtitmeof
  oo ← read r.zordmeof
  some (record {
    level = n;
    bid_price = bp;
    bid_quantity = bq;
    bid_orders = bo;
    ask_price = op;
    ask_quantity = oq;
    ask_orders = oo;
  })

-- A row that is no object is passed over, as is one with a garbled field.
read_rows : List (Option Row) → List DepthLevel
unfolding read_row
read_rows [] = []
read_rows (none ∷ rows) = read_rows rows
read_rows (some r ∷ rows) =
    let rest = read_rows rows in elim (read_row r) [ none ↦ rest | some d ↦ d ∷ rest ]

by_level : DepthLevel → DepthLevel → Bool
by_level x y = leb x.level y.level

-- What the answer holds under `bestLimits`; `none` if that is no list.
abbrev pub Payload : Type 0
Payload = Option (List (Option Row))

unfoldable pub parse_best_limits : Payload → List DepthLevel
unfolding read_rows by_level
parse_best_limits none = []
parse_best_limits (some rows) = sort by_level (read_rows rows)

pub bid_of : DepthLevel → BookLevel
bid_of d = record { price = d.bid_price; quantity = d.bid_quantity; orders = d.bid_orders }

pub ask_of : DepthLevel → BookLevel
ask_of d = record { price = d.ask_price; quantity = d.ask_quantity; orders = d.ask_orders }

-- The levels of one side, without the empty ones.
unfoldable pub side_levels : (DepthLevel → BookLevel) → List DepthLevel → List BookLevel
side_levels of [] = []
side_levels of (d ∷ ds) =
    let rest = side_levels of ds in if is_real (of d) then of d ∷ rest else rest

unfoldable pub dearer : BookLevel → BookLevel → Bool
dearer x y = leb y.price x.price

unfoldable pub cheaper : BookLevel → BookLevel → Bool
cheaper x y = leb x.price y.price

unfoldable pub from_depth : Text → List DepthLevel → OrderBook
unfolding dearer cheaper bid_of ask_of side_levels
from_depth symbol ds = record {
  symbol = symbol;
  bids = sort dearer (side_levels bid_of ds);
  asks = sort cheaper (side_levels ask_of ds);
}

unfoldable pub from_tsetmc : Text → Payload → OrderBook
unfolding from_depth parse_best_limits
from_tsetmc symbol payload = from_depth symbol (parse_best_limits payload)

side_levels-real :
    (of : DepthLevel → BookLevel) (ds : List DepthLevel)
    → All (λ l. is_real l ≡ true) (side_levels of ds)
unfolding side_levels
side_levels-real of [] = tt
side_levels-real of (d ∷ ds) = elim (Bool-cases (is_real (of d))) [
  | inl real ↦ rw real (real, side_levels-real of ds)
  | inr empty ↦ rw empty (side_levels-real of ds)
]

dearer-IsSorted : (ls : List BookLevel) → IsSorted dearer (sort dearer ls)
unfolding dearer
dearer-IsSorted = sort-IsSorted dearer (λ x y z p q. ground arith) (λ x y p. ground arith)

cheaper-IsSorted : (ls : List BookLevel) → IsSorted cheaper (sort cheaper ls)
unfolding cheaper
cheaper-IsSorted = sort-IsSorted cheaper (λ x y z p q. ground arith) (λ x y p. ground arith)

-- A side holds real levels only, its best quote first.
pub record IsBook (b : OrderBook) : Type 0 where
  pub bids_real : All (λ l. is_real l ≡ true) b.bids
  pub asks_real : All (λ l. is_real l ≡ true) b.asks
  pub bids_sorted : IsSorted dearer b.bids
  pub asks_sorted : IsSorted cheaper b.asks

-- Prices that fall, and prices that rise.
abbrev pub Falls : List BookLevel → Type 0
Falls [] = Unit
Falls (l ∷ ls) = All (λ (k : BookLevel). k.price ≤ l.price) ls × Falls ls

abbrev pub Rises : List BookLevel → Type 0
Rises [] = Unit
Rises (l ∷ ls) = All (λ (k : BookLevel). l.price ≤ k.price) ls × Rises ls

dearer-Falls : (ls : List BookLevel) → IsSorted dearer ls → Falls ls
unfolding dearer
dearer-Falls [] h = tt
dearer-Falls (l ∷ ls) h = (
  All-imp (λ k. dearer l k ≡ true) (λ k. k.price ≤ l.price) (λ k e. ground (arith, e)) ls h.0,
  dearer-Falls ls h.1,
)

cheaper-Rises : (ls : List BookLevel) → IsSorted cheaper ls → Rises ls
unfolding cheaper
cheaper-Rises [] h = tt
cheaper-Rises (l ∷ ls) h = (
  All-imp (λ k. cheaper l k ≡ true) (λ k. l.price ≤ k.price) (λ k e. ground (arith, e)) ls h.0,
  cheaper-Rises ls h.1,
)

-- The bids and the asks of the exchange that have a price and a quantity, as they arrive.
unfoldable pub given_bids : List DepthLevel → List BookLevel
given_bids [] = []
given_bids (d ∷ ds) =
    let rest = given_bids ds in
    if ltb 0 d.bid_price && ltb 0 d.bid_quantity
    then record { price = d.bid_price; quantity = d.bid_quantity; orders = d.bid_orders } ∷ rest
    else rest

unfoldable pub given_asks : List DepthLevel → List BookLevel
given_asks [] = []
given_asks (d ∷ ds) =
    let rest = given_asks ds in
    if ltb 0 d.ask_price && ltb 0 d.ask_quantity
    then record { price = d.ask_price; quantity = d.ask_quantity; orders = d.ask_orders } ∷ rest
    else rest

side_levels-bids : (ds : List DepthLevel) → side_levels bid_of ds ≡ given_bids ds
unfolding side_levels given_bids bid_of is_real
side_levels-bids [] = refl
side_levels-bids (d ∷ ds) = rw (side_levels-bids ds) refl

side_levels-asks : (ds : List DepthLevel) → side_levels ask_of ds ≡ given_asks ds
unfolding side_levels given_asks ask_of is_real
side_levels-asks [] = refl
side_levels-asks (d ∷ ds) = rw (side_levels-asks ds) refl

-- However the levels arrive, the bids of the book that is built from them fall in price and its asks
-- rise, and each side holds those levels of that side which have a price and a quantity, each as
-- often as it arrived, and no other.
pub from_depth-IsBook :
    (symbol : Text) (ds : List DepthLevel)
    → let b = from_depth symbol ds in
      IsBook b
      × Falls b.bids
      × Rises b.asks
      × Perm b.bids (given_bids ds)
      × Perm b.asks (given_asks ds)
unfolding from_depth
from_depth-IsBook symbol ds =
    let b = from_depth symbol ds in
    (
      record {
        bids_real = All-sort dearer (λ l. is_real l ≡ true) _ (side_levels-real bid_of ds);
        asks_real = All-sort cheaper (λ l. is_real l ≡ true) _ (side_levels-real ask_of ds);
        bids_sorted = dearer-IsSorted _;
        asks_sorted = cheaper-IsSorted _;
      },
      dearer-Falls b.bids (dearer-IsSorted _),
      cheaper-Rises b.asks (cheaper-IsSorted _),
      subst (Perm b.bids) (side_levels-bids ds) (sort-perm dearer _),
      subst (Perm b.asks) (side_levels-asks ds) (sort-perm cheaper _),
    )

-- Where all levels are real, the total quantity is the number of contracts on offer.
pub length-units :
    (ls : List BookLevel) → All (λ l. is_real l ≡ true) ls → length (units ls) ≡ total_quantity ls
unfolding units
length-units [] h = refl
length-units (l ∷ ls) h = rw (h.0) (
    omega (
      arith,
      length-append (replicate l.quantity l.price) (units ls),
      length-replicate l.quantity l.price,
      length-units ls h.1,
    ))
