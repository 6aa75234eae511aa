-- ===== src/Calendar/Ranges.antt =====
-- The loops over days: the next trading day, and the count of trading days in a range.
use garnet_trader.Prelude.{
  ℕ, zero, suc, ◌+◌, ◌-◌, ◌≤◌, ◌<◌, ◌≡◌, refl, sym, ap, ◌∙◌, ◌↔◌, ◌⊎◌, inl, inr, Bool, true, false,
  arith, if◌then◌else◌,
}
use mathlib.Core.Path.{fun_ext}
use native.Mathlib.Decide.{dec_lt}
use native.Mathlib.Nat.{zero-add, add-zero, suc-add}
use garnet_trader.Prelude.Result.{Result, ok, raised}
use garnet_trader.Calendar.{
  Calendar, negate, is_trading_day, search_day, next_trading_day, count_days, trading_days_between,
}
use garnet_trader.Calendar.Queries.{answer, is_holiday_lem, answer-is_holiday}

is_trading_day_lem : (day : ℕ) (c : Calendar) → (is_trading_day day c).0 ≡ negate (answer c day)
unfolding is_trading_day
is_trading_day_lem day c = rw ((is_holiday_lem day c).0)

answer-is_trading_day :
    (c : Calendar) (d day : ℕ) → answer (is_trading_day d c).1 day ≡ answer c day
unfolding is_trading_day
answer-is_trading_day c d day = answer-is_holiday c d day

ok-injective {ℓ} : {A : Type ℓ} {a b : A} → ok a ≡ ok b → a ≡ b
ok-injective e = cc

known : (r : Result Bool) → (r ≡ raised) ⊎ ((b : Bool) × (r ≡ ok b))
known raised = inl refl
known (ok b) = inr (b, refl)

answer-cases : (r : Result Bool) → (r ≡ ok false) ⊎ (r ≡ ok true) ⊎ (r ≡ raised)
answer-cases raised = inr (inr refl)
answer-cases (ok true) = inr (inl refl)
answer-cases (ok false) = inl refl

module _ (left cursor : ℕ) (c : Calendar) where
  search_day-open : answer c cursor ≡ ok false → (search_day (suc left) cursor c).0 ≡ ok cursor
  unfolding search_day
  search_day-open e = ground (arith, is_trading_day_lem cursor c)

  search_day-closed :
      answer c cursor ≡ ok true
      → search_day (suc left) cursor c ≡ search_day left (cursor + 1) (is_trading_day cursor c).1
  unfolding search_day
  search_day-closed e = ground (arith, is_trading_day_lem cursor c)

  search_day-raised : answer c cursor ≡ raised → (search_day (suc left) cursor c).0 ≡ raised
  unfolding search_day
  search_day-raised e = ground (arith, is_trading_day_lem cursor c)

-- The search stops at the first day that is no holiday.
search_day_found :
    (left cursor d : ℕ) (c : Calendar)
    → cursor ≤ d
    → d < cursor + left
    → ((e : ℕ) → cursor ≤ e → e < d → answer c e ≡ ok true)
    → answer c d ≡ ok false
    → (search_day left cursor c).0 ≡ ok d
search_day_found zero cursor d c lo hi closed found = absurd (omega arith)
search_day_found (suc left) cursor d c lo hi closed found = elim (dec_lt cursor d) [
  | yes before ↦
      let c' = (is_trading_day cursor c).1 in
      rw (search_day-closed left cursor c (closed cursor (omega arith) before)) (
        search_day_found left (cursor + 1) d c' (omega arith) (omega arith)
          (λ e p q. answer-is_trading_day c cursor e ∙ closed e (omega arith) q)
          (answer-is_trading_day c cursor d ∙ found))
  | no here ↦
      let same : d ≡ cursor = omega arith in
      rw same (search_day-open left cursor c (rw same at found))
]

search_day_sound :
    (left cursor d : ℕ) (c : Calendar)
    → (search_day left cursor c).0 ≡ ok d
    → (cursor ≤ d)
      × (d < cursor + left)
      × (answer c d ≡ ok false)
      × ((e : ℕ) → cursor ≤ e → e < d → answer c e ≡ ok true)
search_day_sound zero cursor d c e = absurd (unfold search_day in cc)
search_day_sound (suc left) cursor d c e = elim (answer-cases (answer c cursor)) [
  | inl free ↦
      let same : cursor ≡ d = ok-injective (sym (search_day-open left cursor c free) ∙ e) in
      (omega arith, omega arith, rw same at free, λ k p q. absurd (omega arith))
  | inr (inr fails) ↦ cc (search_day-raised left cursor c fails)
  | inr (inl shut) ↦
      let c' = (is_trading_day cursor c).1 in
      let (lo, hi, found, closed) =
        search_day_sound left (cursor + 1) d c'
          (ap (λ r. r.0) (sym (search_day-closed left cursor c shut)) ∙ e) in
      (
        omega arith,
        omega arith,
        sym (answer-is_trading_day c cursor d) ∙ found,
        λ k p q. elim (dec_lt cursor k) [
          | yes later ↦ sym (answer-is_trading_day c cursor k) ∙ closed k (omega arith) q
          | no here ↦ let same : k ≡ cursor = omega arith in rw same shut
        ],
      )
]

-- `next_trading_day` returns `d` exactly when `d` is one of the 60 days after the given one, is no
-- holiday, and all days between are holidays.
pub next_trading_day_lem :
    (day d : ℕ) (c : Calendar)
    → ((next_trading_day day c).0 ≡ ok d) ↔ (
        (day < d)
        × (d ≤ day + 60)
        × (answer c d ≡ ok false)
        × ((e : ℕ) → day < e → e < d → answer c e ≡ ok true))
unfolding next_trading_day
next_trading_day_lem day d c = (
  λ e.
      let (lo, hi, found, closed) = search_day_sound 60 (day + 1) d c e in
      (omega arith, omega arith, found, λ k p q. closed k (omega arith) q),
  λ h.
      search_day_found 60 (day + 1) d c (omega arith) (omega arith) (λ e p q. h.3 e (omega arith) q)
        h.2,
)

module _ (left cursor n : ℕ) (c : Calendar) where
  count_days-ok :
      (closed : Bool)
      → answer c cursor ≡ ok closed
      → count_days (suc left) cursor n c
        ≡ count_days left (cursor + 1) (if closed then n else n + 1) (is_trading_day cursor c).1
  unfolding count_days
  count_days-ok closed e = ground (arith, is_trading_day_lem cursor c)

  count_days-raised : answer c cursor ≡ raised → (count_days (suc left) cursor n c).0 ≡ raised
  unfolding count_days
  count_days-raised e = ground (arith, is_trading_day_lem cursor c)

pub add_counts : Result ℕ → Result ℕ → Result ℕ
add_counts raised r = raised
add_counts (ok a) raised = raised
add_counts (ok a) (ok b) = ok (a + b)

abbrev one_day : Result Bool → Result ℕ
one_day raised = raised
one_day (ok closed) = ok (if closed then 0 else 1)

-- The trading days among `left` days, by the answers alone.
tally : (ℕ → Result Bool) → ℕ → ℕ → Result ℕ
tally ans zero cursor = ok 0
tally ans (suc left) cursor = add_counts (one_day (ans cursor)) (tally ans left (cursor + 1))

add_counts_zero : (r : Result ℕ) → add_counts (ok 0) r ≡ r
unfolding add_counts
add_counts_zero raised = refl
add_counts_zero (ok a) = ap ok (omega arith)

add_counts_assoc :
    (r s t : Result ℕ) → add_counts (add_counts r s) t ≡ add_counts r (add_counts s t)
unfolding add_counts
add_counts_assoc raised s t = refl
add_counts_assoc (ok a) raised t = refl
add_counts_assoc (ok a) (ok b) raised = refl
add_counts_assoc (ok a) (ok b) (ok d) = ap ok (omega arith)

count_one : (closed : Bool) (n : ℕ) → (if closed then n else n + 1) ≡ n + (if closed then 0 else 1)
count_one true n = omega arith
count_one false n = refl

tally-suc :
    (ans : ℕ → Result Bool) (left cursor : ℕ)
    → tally ans (suc left) cursor ≡ add_counts (one_day (ans cursor)) (tally ans left (cursor + 1))
unfolding tally
tally-suc ans left cursor = refl

ok-+ : (a b : ℕ) → ok (a + b) ≡ add_counts (ok a) (ok b)
unfolding add_counts
ok-+ a b = refl

count_days-eq-tally :
    (left cursor n : ℕ) (c : Calendar)
    → (count_days left cursor n c).0 ≡ add_counts (ok n) (tally (answer c) left cursor)
count_days-eq-tally zero cursor n c = unfold count_days tally add_counts in ap ok (sym (add-zero n))
count_days-eq-tally (suc left) cursor n c = elim (known (answer c cursor)) [
  | inl fails ↦
      rw (count_days-raised left cursor n c fails, tally-suc (answer c) left cursor, fails)
        (unfold add_counts in refl)
  | inr (closed, e) ↦
      let c' = (is_trading_day cursor c).1 in
      rw
        (
          count_days-ok left cursor n c closed e,
          count_days-eq-tally left (cursor + 1) _ c',
          fun_ext (answer-is_trading_day c cursor),
          tally-suc (answer c) left cursor,
          e,
          count_one closed n,
          ok-+ n (if closed then 0 else 1),
        )
        (add_counts_assoc (ok n) _ _)
]

tally-split :
    (ans : ℕ → Result Bool) (left right cursor : ℕ)
    → tally ans (left + right) cursor
      ≡ add_counts (tally ans left cursor) (tally ans right (cursor + left))
tally-split ans zero right cursor =
    rw (zero-add right, add-zero cursor)
      (sym (unfold tally in add_counts_zero (tally ans right cursor)))
tally-split ans (suc left) right cursor =
    let e : cursor + 1 + left ≡ cursor + suc left = omega arith in
    rw
      (
        suc-add left right,
        tally-suc ans (left + right) cursor,
        tally-suc ans left cursor,
        tally-split ans left right (cursor + 1),
        e,
      )
      (sym (add_counts_assoc _ _ _))

range_of :
    (start end : ℕ) (c : Calendar)
    → start ≤ end
    → (trading_days_between start end c).0 ≡ (count_days (end + 1 - start) start 0 c).0
unfolding trading_days_between
range_of start end c h = ground arith

trading_days_between-eq-tally :
    (start end : ℕ) (c : Calendar)
    → start ≤ end + 1
    → (trading_days_between start end c).0 ≡ tally (answer c) (end + 1 - start) start
trading_days_between-eq-tally start end c h = elim (dec_lt end start) [
  | yes past ↦
      let e : end + 1 - start ≡ 0 = omega arith in
      rw e (unfold trading_days_between tally in ground arith)
  | no within ↦
      range_of start end c (omega arith)
      ∙ count_days-eq-tally (end + 1 - start) start 0 c
      ∙ add_counts_zero _
]

-- The trading days of a range are those of its first part and those of the rest, whatever the
-- calendar has still to learn; if either count raises, so does the whole.
pub trading_days_between-split :
    (start mid end : ℕ) (c : Calendar)
    → start ≤ mid
    → mid ≤ end
    → (trading_days_between start end c).0
      ≡ add_counts (trading_days_between start mid c).0 (trading_days_between (mid + 1) end c).0
trading_days_between-split start mid end c lo hi =
    let e : end + 1 - start ≡ (mid + 1 - start) + (end + 1 - (mid + 1)) = omega arith in
    let e' : start + (mid + 1 - start) ≡ mid + 1 = omega arith in
    rw (
      trading_days_between-eq-tally start end c (omega arith),
      trading_days_between-eq-tally start mid c (omega arith),
      trading_days_between-eq-tally (mid + 1) end c (omega arith),
      e,
      tally-split (answer c) (mid + 1 - start) (end + 1 - (mid + 1)) start,
      e',
    )
