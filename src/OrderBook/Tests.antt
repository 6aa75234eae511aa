-- ===== src/OrderBook/Tests.antt =====
-- A thin book: one contract at the best ask, and the next much dearer.
use mathlib.Core.List.{Perm}
use garnet_trader.Prelude.{◌≡◌, refl, ◌≤◌, some, List, [], ◌∷◌, arith, ℕ, ◌+◌, ◌≢◌, false}
use garnet_trader.Prelude.Int.{pos}
use garnet_trader.Prelude.Ratio.{ratio_ℕ}
use garnet_trader.Prelude.Result.{ok, raised}
use garnet_trader.Prelude.Sort.{sort}
use garnet_trader.Prelude.Dict.{lookup}
use garnet_trader.Prelude.Text.{Text, codes, lower, text_eq, text_ne}
use garnet_trader.OrderBook.{
  BookLevel, OrderBook, is_real, levels, fill_price, fill_loop, fill_of, can_fill, depth,
}
use garnet_trader.OrderBook.Filling.{units, fill_price-eq-units}
use garnet_trader.OrderBook.Best.{
  done, skip, keep, buy_fill-is_best, sell_fill-is_best, can_fill-eq-depth,
}
use garnet_trader.OrderBook.Build.{
  DepthLevel, IsBook, from_depth, from_depth-IsBook, Falls, Rises, given_bids, given_asks, cheaper,
  dearer,
}
use garnet_trader.OrderBook.Client.{Client, Call, get_order_book, run_calls, get_order_book-cached}

abbrev level : ℕ → ℕ → BookLevel
level p q = record { price = p; quantity = q; orders = 1 }

abbrev book : OrderBook
book = record {
  symbol = codes "opt";
  bids = level 26000 4 ∷ level 25500 2 ∷ [];
  asks = level 26500 1 ∷ level 31999 2 ∷ [];
}

book-IsBook : IsBook book
unfolding is_real cheaper dearer
book-IsBook = ground arith

fill_price-eq-units_example :
    fill_price (codes "BUY") (pos 3) book
    ≡ some (record { average = some (ratio_ℕ 90498 3); filled = 3 })
unfolding levels lower text_eq units is_real
fill_price-eq-units_example = fill_price-eq-units (codes "BUY") 3 book book.asks refl (omega arith)

partial_fill :
    fill_price (codes "sell") (pos 9) book
    ≡ some (record { average = some (ratio_ℕ 155000 6); filled = 6 })
unfolding fill_price fill_loop fill_of levels lower text_eq
partial_fill = refl

-- A choice that passes over the best ask, and one that takes the worse bid.
buy_fill-is_best_example :
    (cost : ℕ) × (fill_price (codes "buy") (pos 1) book
      ≡ some (record { average = some (ratio_ℕ cost 1); filled = 1 }))
    × (cost ≤ 31999)
unfolding units is_real
buy_fill-is_best_example =
    buy_fill-is_best book (31999 ∷ []) book-IsBook (omega arith) (skip (keep (skip done)))

sell_fill-is_best_example :
    (proceeds : ℕ) × (fill_price (codes "sell") (pos 1) book
      ≡ some (record { average = some (ratio_ℕ proceeds 1); filled = 1 }))
    × (25500 ≤ proceeds)
unfolding units is_real
sell_fill-is_best_example =
    sell_fill-is_best book (25500 ∷ []) book-IsBook (omega arith)
      (skip (skip (skip (skip (keep (skip done))))))

can_fill-eq-depth_example : can_fill (codes "buy") (pos 4) book ≡ some false
unfolding depth levels lower text_eq
can_fill-eq-depth_example = can_fill-eq-depth (codes "buy") 4 3 book book-IsBook (omega arith) refl

abbrev depth_level : ℕ → ℕ → ℕ → ℕ → ℕ → DepthLevel
depth_level n bp bq op oq = record {
  level = n;
  bid_price = bp;
  bid_quantity = bq;
  bid_orders = 1;
  ask_price = op;
  ask_quantity = oq;
  ask_orders = 1;
}

-- Out of order, and with an empty ask.
abbrev raw : List DepthLevel
raw = depth_level 1 25500 2 31999 2 ∷ depth_level 2 26000 4 26500 1 ∷ depth_level 3 25000 1 0 7 ∷ []

from_depth-raw :
    from_depth (codes "opt") raw
    ≡ record book { bids = level 26000 4 ∷ level 25500 2 ∷ level 25000 1 ∷ [] }
unfolding from_depth sort is_real
from_depth-raw = refl

from_depth-IsBook_example :
    let b = from_depth (codes "opt") raw in
    IsBook b
    × Falls b.bids
    × Rises b.asks
    × Perm b.bids (given_bids raw)
    × Perm b.asks (given_asks raw)
from_depth-IsBook_example = from_depth-IsBook (codes "opt") raw

abbrev empty_client : Client
empty_client = record { ttl_seconds = 10; cache = [] }

abbrev call_at : Text → ℕ → Call
call_at code now = record {
  ins_code = code;
  symbol = codes "opt";
  checked_at = now;
  stored_at = now + 1;
  answer = ok (some []);
}

ab-ne : codes "b" ≢ codes "a"
unfolding text_eq
ab-ne = text_ne (codes "b") (codes "a") refl

-- The answer that the second call for `a` would get is a failure; it is not asked for.
get_order_book-cached_example :
    let s' =
      run_calls
        (call_at (codes "b") 5 ∷ [])
        (get_order_book (call_at (codes "a") 0) empty_client).1 in
    get_order_book (record (call_at (codes "a") 10) { answer = raised }) s'
    ≡ ((get_order_book (call_at (codes "a") 0) empty_client).0, s')
unfolding lookup
get_order_book-cached_example =
    get_order_book-cached (call_at (codes "a") 0) empty_client (λ stored b e. cc)
      (record (call_at (codes "a") 10) { answer = raised }) (call_at (codes "b") 5 ∷ []) refl
      (ab-ne, tt) refl (omega arith)
