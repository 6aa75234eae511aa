-- ===== src/Calendar/Questions.antt =====
-- The questions about days that market/trading_calendar.py answers, in any order, and why it cannot
-- be told from the answers when the calendar learnt.
use mathlib.Core.Path.{subst}
use garnet_trader.Prelude.{
  ℕ, zero, suc, ◌+◌, ◌-◌, ◌≡◌, refl, sym, ap, ◌∙◌, inl, inr, Bool, true, false, none, List, [], ◌∷◌,
  ltb, ◌&&◌, if◌then◌else◌, arith, Bool-cases,
}
use garnet_trader.Prelude.Result.{Result, ok, raised, Result-cases}
use garnet_trader.Calendar.{
  Calendar, MarketSession, is_holiday, is_trading_day, is_open, session_contains, negate,
  search_day, next_trading_day, count_days, trading_days_between, defer_learning, learn_from_client,
}
use garnet_trader.Calendar.Queries.{answer, is_holiday_lem, answer-is_holiday, answers_agree}

pub data Question : Type 0 where
  holiday : ℕ → Question
  trading_day : ℕ → Question
  opened : MarketSession → ℕ → ℕ → Question
  next_day : ℕ → Question
  days_between : ℕ → ℕ → Question

pub data Reply : Type 0 where
  yes_no : Result Bool → Reply
  number : Result ℕ → Reply

-- What a method answers, and the calendar after it.
pub reply : Question → Calendar → Reply × Calendar
reply (holiday d) c = let (r, c') = is_holiday d c in (yes_no r, c')
reply (trading_day d) c = let (r, c') = is_trading_day d c in (yes_no r, c')
reply (opened s d moment) c = let (r, c') = is_open s d moment c in (yes_no r, c')
reply (next_day d) c = let (r, c') = next_trading_day d c in (number r, c')
reply (days_between start end) c = let (r, c') = trading_days_between start end c in (number r, c')

-- Questions in a row.
pub ask : List Question → Calendar → List Reply
unfolding reply
ask [] c = []
ask (q ∷ qs) c = let (r, c') = reply q c in r ∷ ask qs c'

-- Two calendars that give the same answer about every day.
abbrev AreAlike : Calendar → Calendar → Type 0
AreAlike c k = (d : ℕ) → answer c d ≡ answer k d

-- The same result, and calendars that are alike after it.
abbrev SameAfter {ℓ} : {A : Type ℓ} → A × Calendar → A × Calendar → Type ℓ
SameAfter r t = (r.0 ≡ t.0) × AreAlike r.1 t.1

is_holiday-SameAfter :
    (d : ℕ) (c k : Calendar) → AreAlike c k → SameAfter (is_holiday d c) (is_holiday d k)
is_holiday-SameAfter d c k alike = (
  (is_holiday_lem d c).0 ∙ alike d ∙ sym ((is_holiday_lem d k).0),
  λ e. answer-is_holiday c d e ∙ alike e ∙ sym (answer-is_holiday k d e),
)

is_trading_day-SameAfter :
    (d : ℕ) (c k : Calendar) → AreAlike c k → SameAfter (is_trading_day d c) (is_trading_day d k)
unfolding is_trading_day
is_trading_day-SameAfter d c k alike =
    let same = is_holiday-SameAfter d c k alike in (ap negate same.0, same.1)

-- How is_open, and the two loops, go on from the answer about a day.
during : MarketSession → ℕ → Result Bool → Result Bool
during s moment raised = raised
during s moment (ok b) = ok (b && session_contains s moment)

search_from : ℕ → ℕ → Result Bool → Calendar → Result ℕ × Calendar
search_from left cursor raised c = (raised, c)
search_from left cursor (ok true) c = (ok cursor, c)
search_from left cursor (ok false) c = search_day left (cursor + 1) c

count_from : ℕ → ℕ → ℕ → Result Bool → Calendar → Result ℕ × Calendar
count_from left cursor count raised c = (raised, c)
count_from left cursor count (ok b) c =
    count_days left (cursor + 1) (if b then count + 1 else count) c

is_open-SameAfter :
    (s : MarketSession) (d moment : ℕ) (c k : Calendar)
    → AreAlike c k
    → SameAfter (is_open s d moment c) (is_open s d moment k)
unfolding is_open during
is_open-SameAfter s d moment c k alike =
    let same = is_trading_day-SameAfter d c k alike in (ap (during s moment) same.0, same.1)

search_day-suc :
    (left cursor : ℕ) (c : Calendar)
    → search_day (suc left) cursor c
      ≡ search_from left cursor (is_trading_day cursor c).0 (is_trading_day cursor c).1
unfolding search_day search_from
search_day-suc left cursor c = elim (Result-cases (is_trading_day cursor c).0) [
  | inl failed ↦ ground (arith, failed)
  | inr (true, e) ↦ ground (arith, e)
  | inr (false, e) ↦ ground (arith, e)
]

count_days-suc :
    (left cursor count : ℕ) (c : Calendar)
    → count_days (suc left) cursor count c
      ≡ count_from left cursor count (is_trading_day cursor c).0 (is_trading_day cursor c).1
unfolding count_days count_from
count_days-suc left cursor count c = elim (Result-cases (is_trading_day cursor c).0) [
  | inl failed ↦ ground (arith, failed)
  | inr (b, e) ↦ ground (arith, e)
]

search_from-SameAfter :
    (left cursor : ℕ) (r t : Result Bool) (c k : Calendar)
    → r ≡ t
    → AreAlike c k
    → ((c k : Calendar)
        → AreAlike c k
        → SameAfter (search_day left (cursor + 1) c) (search_day left (cursor + 1) k))
    → SameAfter (search_from left cursor r c) (search_from left cursor t k)
unfolding search_from
search_from-SameAfter left cursor r t c k same alike rest =
    subst (λ t. SameAfter (search_from left cursor r c) (search_from left cursor t k)) same (go r)
  where
    go : (r : Result Bool) → SameAfter (search_from left cursor r c) (search_from left cursor r k)
    go raised = (refl, alike)
    go (ok true) = (refl, alike)
    go (ok false) = rest c k alike

count_from-SameAfter :
    (left cursor count : ℕ) (r t : Result Bool) (c k : Calendar)
    → r ≡ t
    → AreAlike c k
    → ((count : ℕ) (c k : Calendar)
        → AreAlike c k
        → SameAfter (count_days left (cursor + 1) count c) (count_days left (cursor + 1) count k))
    → SameAfter (count_from left cursor count r c) (count_from left cursor count t k)
unfolding count_from
count_from-SameAfter left cursor count r t c k same alike rest =
    subst (λ t. SameAfter (count_from left cursor count r c) (count_from left cursor count t k))
      same (go r)
  where
    go :
        (r : Result Bool)
        → SameAfter (count_from left cursor count r c) (count_from left cursor count r k)
    go raised = (refl, alike)
    go (ok b) = rest (if b then count + 1 else count) c k alike

search_day-SameAfter :
    (left cursor : ℕ) (c k : Calendar)
    → AreAlike c k
    → SameAfter (search_day left cursor c) (search_day left cursor k)
unfolding search_day
search_day-SameAfter zero cursor c k alike = (refl, alike)
search_day-SameAfter (suc left) cursor c k alike =
    let same = is_trading_day-SameAfter cursor c k alike in
    let step =
      search_from-SameAfter left cursor (is_trading_day cursor c).0 (is_trading_day cursor k).0
        (is_trading_day cursor c).1 (is_trading_day cursor k).1 same.0 same.1
        (search_day-SameAfter left (cursor + 1)) in
    subst (λ p. SameAfter p (search_day (suc left) cursor k)) (sym (search_day-suc left cursor c))
      (subst
        (λ p.
          SameAfter
            (search_from left cursor (is_trading_day cursor c).0 (is_trading_day cursor c).1) p)
        (sym (search_day-suc left cursor k)) step)

count_days-SameAfter :
    (left cursor count : ℕ) (c k : Calendar)
    → AreAlike c k
    → SameAfter (count_days left cursor count c) (count_days left cursor count k)
unfolding count_days
count_days-SameAfter zero cursor count c k alike = (refl, alike)
count_days-SameAfter (suc left) cursor count c k alike =
    let same = is_trading_day-SameAfter cursor c k alike in
    let step =
      count_from-SameAfter left cursor count (is_trading_day cursor c).0 (is_trading_day cursor k).0
        (is_trading_day cursor c).1 (is_trading_day cursor k).1 same.0 same.1
        (count_days-SameAfter left (cursor + 1)) in
    subst (λ p. SameAfter p (count_days (suc left) cursor count k))
      (sym (count_days-suc left cursor count c))
      (subst
        (λ p.
          SameAfter
            (count_from left cursor count (is_trading_day cursor c).0 (is_trading_day cursor c).1)
            p)
        (sym (count_days-suc left cursor count k)) step)

reply-SameAfter : (q : Question) (c k : Calendar) → AreAlike c k → SameAfter (reply q c) (reply q k)
unfolding reply next_trading_day trading_days_between
reply-SameAfter (holiday d) c k alike =
    let same = is_holiday-SameAfter d c k alike in (ap yes_no same.0, same.1)
reply-SameAfter (trading_day d) c k alike =
    let same = is_trading_day-SameAfter d c k alike in (ap yes_no same.0, same.1)
reply-SameAfter (opened s d moment) c k alike =
    let same = is_open-SameAfter s d moment c k alike in (ap yes_no same.0, same.1)
reply-SameAfter (next_day d) c k alike =
    let same = search_day-SameAfter 60 (d + 1) c k alike in (ap number same.0, same.1)
reply-SameAfter (days_between start end) c k alike = elim (Bool-cases (ltb end start)) [
  | inl empty ↦ rw empty (refl, alike)
  | inr days ↦
      let same = count_days-SameAfter (end + 1 - start) start 0 c k alike in
      rw days (ap number same.0, same.1)
]

ask-AreAlike : (qs : List Question) (c k : Calendar) → AreAlike c k → ask qs c ≡ ask qs k
unfolding ask
ask-AreAlike [] c k alike = refl
ask-AreAlike (q ∷ qs) c k alike =
    let same = reply-SameAfter q c k alike in
    rw (same.0) (ap (λ rs. (reply q k).0 ∷ rs) (ask-AreAlike qs (reply q c).1 (reply q k).1 same.1))

-- Whether learning is put off to the first question that needs it, or done at once, cannot be told
-- from the answers of is_holiday, is_trading_day, is_open, next_trading_day and
-- trading_days_between, asked in any order. The properties `holidays` and `observed_range`, which
-- show what has been learnt so far, are not among these questions.
pub defer_learning-unobservable :
    (questions : List Question) (history : Result (List ℕ)) (c : Calendar)
    → c.learner ≡ none
    → ask questions (defer_learning history c) ≡ ask questions (learn_from_client history c).1
defer_learning-unobservable questions history c e =
    ask-AreAlike questions (defer_learning history c) (learn_from_client history c).1
      (answers_agree history c e)
