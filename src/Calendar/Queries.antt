-- ===== src/Calendar/Queries.antt =====
-- What a calendar answers, whether it has learnt already or learns at the first question.
use garnet_trader.Prelude.{
  ℕ, ◌≤◌, ◌<◌, max, ◌≡◌, refl, sym, ap, ◌∙◌, inl, inr, Bool, true, false, not, ◌&&◌, ◌||◌, Option,
  none, some, List, [], ◌∷◌, arith, if◌then◌else◌, Option-cases,
}
use garnet_trader.Prelude.Result.{Result, ok, raised}
use garnet_trader.Jalali.{is_weekend}
use garnet_trader.Calendar.{
  contains, Calendar, learn_from_sorted, learn_between, learn_from_history, learn_from_client,
  learn_if_needed, is_known_holiday, is_holiday, is_trading_day, defer_learning, or_else,
}
use garnet_trader.Calendar.Learning.{learn_from_history_lem}

learner-learn_from_sorted :
    (days : List ℕ) (c : Calendar) → (learn_from_sorted days c).1.learner ≡ c.learner
unfolding learn_from_sorted learn_between
learner-learn_from_sorted [] c = refl
learner-learn_from_sorted (d ∷ []) c = refl
learner-learn_from_sorted (d ∷ e ∷ es) c = refl

learner-learn_from_client :
    (r : Result (List ℕ)) (c : Calendar) → (learn_from_client r c).1.learner ≡ c.learner
unfolding learn_from_client learn_from_history
learner-learn_from_client raised c = refl
learner-learn_from_client (ok days) c = learner-learn_from_sorted _ c

learner-learn_if_needed : (c : Calendar) → (learn_if_needed c).learner ≡ none
unfolding learn_if_needed
learner-learn_if_needed c = elim (Option-cases c.learner) [
  | inl e ↦ ground arith
  | inr (r, e) ↦ ground (arith, learner-learn_from_client r (record c { learner = none }))
]

learn_if_needed-none : (c : Calendar) → c.learner ≡ none → learn_if_needed c ≡ c
unfolding learn_if_needed
learn_if_needed-none c e = ground arith

-- Learning is done once: a second time changes nothing.
pub learn_if_needed_idem : (c : Calendar) → learn_if_needed (learn_if_needed c) ≡ learn_if_needed c
learn_if_needed_idem c = learn_if_needed-none (learn_if_needed c) (learner-learn_if_needed c)

-- The answer about a day, as a function of the day and the calendar.
unfoldable pub answer : Calendar → ℕ → Result Bool
answer c day = if is_weekend day then ok true else is_known_holiday (learn_if_needed c) day

-- A question is answered so, and what the calendar has learnt afterwards is what it would have
-- learnt before.
pub is_holiday_lem :
    (day : ℕ) (c : Calendar)
    → ((is_holiday day c).0 ≡ answer c day)
      × (learn_if_needed (is_holiday day c).1 ≡ learn_if_needed c)
unfolding is_holiday answer
is_holiday_lem day c = ground (arith, learn_if_needed_idem c)

pub answer-learn_if_needed :
    (c : Calendar) (day : ℕ) → answer (learn_if_needed c) day ≡ answer c day
unfolding answer
answer-learn_if_needed c day = rw (learn_if_needed_idem c)

pub answer-is_holiday : (c : Calendar) (d day : ℕ) → answer (is_holiday d c).1 day ≡ answer c day
unfolding answer
answer-is_holiday c d day = rw ((is_holiday_lem d c).1)

learn_if_needed-deferred :
    (history : Result (List ℕ)) (c : Calendar)
    → learn_if_needed (defer_learning history c)
      ≡ (learn_from_client history (record c { learner = none })).1
unfolding learn_if_needed defer_learning
learn_if_needed-deferred history c = refl

learn_if_needed-defer_learning :
    (history : Result (List ℕ)) (c : Calendar)
    → c.learner ≡ none
    → learn_if_needed (defer_learning history c) ≡ learn_if_needed (learn_from_client history c).1
learn_if_needed-defer_learning history c e =
    let same : record c { learner = none } ≡ c = λ i. record c { learner = sym e i } in
    let done =
      learn_if_needed-none (learn_from_client history c).1
        (learner-learn_from_client history c ∙ e) in
    learn_if_needed-deferred history c ∙ ap (λ k. (learn_from_client history k).1) same ∙ sym done

pub answers_agree :
    (history : Result (List ℕ)) (c : Calendar)
    → c.learner ≡ none
    → (d : ℕ) → answer (defer_learning history c) d ≡ answer (learn_from_client history c).1 d
unfolding answer
answers_agree history c e d = rw (learn_if_needed-defer_learning history c e)

le-or_else : (o : Option ℕ) (last : ℕ) → last ≤ or_else o (λ k. max k last) last
le-or_else none last = omega arith
le-or_else (some o) last = omega arith

-- Up to the last day observed only the weekend and the known holidays are holidays.
is_holiday-observed :
    (c : Calendar) (to d : ℕ)
    → c.learner ≡ none
    → c.observed_to ≡ some to
    → d ≤ to
    → (is_holiday d c).0 ≡ ok (is_weekend d || contains c.holidays d)
unfolding is_holiday is_known_holiday
is_holiday-observed c to d fresh seen h = ground (arith, learn_if_needed-none c fresh)

-- A calendar that has learnt from a history follows the market: of the days from the first to the
-- last of the history, other than holidays that were known before, those are trading days that are
-- in the history and on no weekend.
pub is_trading_day-learn_from_history :
    (days : List ℕ) (c : Calendar) (first last d : ℕ)
    → c.learner ≡ none
    → contains days first ≡ true
    → contains days last ≡ true
    → first < last
    → ((e : ℕ) → contains days e ≡ true → (first ≤ e) × (e ≤ last))
    → first ≤ d
    → d ≤ last
    → contains c.holidays d ≡ false
    → (is_trading_day d (learn_from_history days c).1).0
      ≡ ok (not (is_weekend d) && contains days d)
unfolding is_trading_day
is_trading_day-learn_from_history days c first last d fresh f l lt within lo hi unknown =
    let (same, _, _, to, learner) = learn_from_history_lem days c first last f l lt within in
    ground (
      arith,
      is_holiday-observed (learn_from_history days c).1
          (or_else c.observed_to (λ k. max k last) last) d (learner ∙ fresh) to,
      le-or_else c.observed_to last,
      same d,
    )

-- The table of fixed holidays is silent about every day before the first one observed too: such a
-- day, if it is on no weekend and was not a known holiday, counts as no holiday whatever the table
-- says of it.
pub is_holiday-unobserved_past :
    (days : List ℕ) (c : Calendar) (first last d : ℕ)
    → c.learner ≡ none
    → contains days first ≡ true
    → contains days last ≡ true
    → first < last
    → ((e : ℕ) → contains days e ≡ true → (first ≤ e) × (e ≤ last))
    → d < first
    → is_weekend d ≡ false
    → contains c.holidays d ≡ false
    → (is_holiday d (learn_from_history days c).1).0 ≡ ok false
is_holiday-unobserved_past days c first last d fresh f l lt within before working unknown =
    let (same, _, _, to, learner) = learn_from_history_lem days c first last f l lt within in
    ground (
      arith,
      is_holiday-observed (learn_from_history days c).1
          (or_else c.observed_to (λ k. max k last) last) d (learner ∙ fresh) to,
      le-or_else c.observed_to last,
      same d,
    )
