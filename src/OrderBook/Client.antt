-- ===== src/OrderBook/Client.antt =====
-- `OrderBookClient` of data/order_book.py, a cache of books by instrument code, and
-- `try_get_order_book` of data/quote_source.py. The request over the network is a parameter: its
-- answer for a call, or that it raises. Clock readings are in ticks since the client began.
use garnet_trader.Prelude.{
  ℕ, ◌+◌, ◌≤◌, ◌<◌, ◌≡◌, ◌∙◌, refl, ◌≢◌, Option, none, some, List, [], ◌∷◌, arith, ltb,
  if◌then◌else◌, All, Option-cases, inl, inr,
}
use garnet_trader.Prelude.Dict.{Dict, lookup, insert, lookup-insert}
use garnet_trader.Prelude.Result.{Result, ok, raised, or_none}
use garnet_trader.Prelude.Text.{Text, text_eq_iff, text_eq_refl}
use garnet_trader.OrderBook.{OrderBook}
use garnet_trader.OrderBook.Build.{Payload, from_tsetmc}

pub record Client : Type 0 where
  pub ttl_seconds : ℕ
  pub cache : Dict (ℕ × OrderBook)

-- One call: what it asks for, the two readings of the clock, and what the network would answer.
pub record Call : Type 0 where
  pub ins_code : Text
  pub symbol : Text
  pub checked_at : ℕ
  pub stored_at : ℕ
  pub answer : Result Payload

-- `symbol or ins_code`
label : Call → Text
label c = elim c.symbol [ [] ↦ c.ins_code | _ ∷ _ ↦ c.symbol ]

-- The part of the method below the cache.
on_answer : Call → Result Payload → Client → Result OrderBook × Client
unfolding label
on_answer c raised s = (raised, s)
on_answer c (ok payload) s =
    let book = from_tsetmc (label c) payload in
    (ok book, record s { cache = insert c.ins_code (c.stored_at, book) s.cache })

fetch_book : Call → Client → Result OrderBook × Client
unfolding on_answer
fetch_book c s = on_answer c c.answer s

-- The age `checked_at - stored` may be compared as a sum.
pub get_order_book : Call → Client → Result OrderBook × Client
unfolding fetch_book
get_order_book c s = elim (lookup c.ins_code s.cache) [
  | none ↦ fetch_book c s
  | some (stored, book) ↦
      if ltb c.checked_at (stored + s.ttl_seconds) then (ok book, s) else fetch_book c s
]

pub try_get_order_book : Call → Client → Option OrderBook × Client
unfolding get_order_book
try_get_order_book c s = let (r, s') = get_order_book c s in (or_none r, s')

pub run_calls : List Call → Client → Client
run_calls [] s = s
run_calls (c ∷ cs) s = run_calls cs (get_order_book c s).1

fetch_book-other :
    (c : Call) (r : Result Payload) (s : Client) (k : Text)
    → c.ins_code ≢ k
    → (lookup k (on_answer c r s).1.cache ≡ lookup k s.cache)
      × ((on_answer c r s).1.ttl_seconds ≡ s.ttl_seconds)
unfolding on_answer
fetch_book-other c raised s k ne = (refl, refl)
fetch_book-other c (ok payload) s k ne =
    let entry : ℕ × OrderBook = (c.stored_at, from_tsetmc (label c) payload) in
    (ground (arith, text_eq_iff c.ins_code k, lookup-insert c.ins_code k entry s.cache), refl)

-- A call for another code leaves an entry and the time to live alone.
get_order_book-other :
    (c : Call) (s : Client) (k : Text)
    → c.ins_code ≢ k
    → (lookup k (get_order_book c s).1.cache ≡ lookup k s.cache)
      × ((get_order_book c s).1.ttl_seconds ≡ s.ttl_seconds)
unfolding get_order_book fetch_book
get_order_book-other c s k ne = ground (arith, fetch_book-other c c.answer s k ne)

run_calls-other :
    (cs : List Call) (s : Client) (k : Text)
    → All (λ c. c.ins_code ≢ k) cs
    → (lookup k (run_calls cs s).cache ≡ lookup k s.cache)
      × ((run_calls cs s).ttl_seconds ≡ s.ttl_seconds)
unfolding run_calls
run_calls-other [] s k h = (refl, refl)
run_calls-other (c ∷ cs) s k h =
    ground (arith, run_calls-other cs (get_order_book c s).1 k h.1, get_order_book-other c s k h.0)

-- No cached book is young enough.
get_order_book-stale :
    (c : Call) (s : Client)
    → ((stored : ℕ) (book : OrderBook)
        → lookup c.ins_code s.cache ≡ some (stored, book)
        → stored + s.ttl_seconds ≤ c.checked_at)
    → get_order_book c s ≡ fetch_book c s
unfolding get_order_book
get_order_book-stale c s old = elim (Option-cases (lookup c.ins_code s.cache)) [
  | inl missing ↦ ground arith
  | inr ((stored, book), e) ↦ ground (arith, old stored book e)
]

get_order_book-hit :
    (c : Call) (s : Client) {stored : ℕ} {book : OrderBook}
    → lookup c.ins_code s.cache ≡ some (stored, book)
    → c.checked_at < stored + s.ttl_seconds
    → get_order_book c s ≡ (ok book, s)
unfolding get_order_book
get_order_book-hit c s e young = ground arith

module _ (c : Call) (s : Client)
    (old : (stored : ℕ) (book : OrderBook)
      → lookup c.ins_code s.cache ≡ some (stored, book)
      → stored + s.ttl_seconds ≤ c.checked_at) where
  -- One successful request of a code pays for all: when no young book of the code is cached and
  -- the request succeeds, then as long as the new book is younger than the time to live a call for
  -- the code answers with that book, whatever the network would say, and changes nothing, however
  -- many calls for other codes came between.
  pub get_order_book-cached :
      (later : Call) (between : List Call) {payload : Payload}
      → c.answer ≡ ok payload
      → All (λ d. d.ins_code ≢ c.ins_code) between
      → later.ins_code ≡ c.ins_code
      → later.checked_at < c.stored_at + s.ttl_seconds
      → let s' = run_calls between (get_order_book c s).1 in
        get_order_book later s' ≡ ((get_order_book c s).0, s')
  unfolding fetch_book
  get_order_book-cached later between {payload} answered others same young =
      let book = from_tsetmc (label c) payload in
      let s₁ = record s { cache = insert c.ins_code (c.stored_at, book) s.cache } in
      let e : get_order_book c s ≡ (ok book, s₁) =
        get_order_book-stale c s old ∙ rw answered refl in
      let kept = run_calls-other between s₁ c.ins_code others in
      rw e (
        get_order_book-hit later (run_calls between s₁) {stored = c.stored_at} {book = book}
          (rw (same, kept.0, lookup-insert, text_eq_refl) refl) (omega (arith, kept.1)))

  -- A failed request, when no young book of the code is cached, leaves the client as it was, and
  -- `try_get_order_book` turns it into a missing book.
  pub try_get_order_book-failed : c.answer ≡ raised → try_get_order_book c s ≡ (none, s)
  unfolding try_get_order_book fetch_book
  try_get_order_book-failed failed = rw (get_order_book-stale c s old, failed)
