-- ===== src/Calendar/Learning.antt =====
-- What `learn_from_history` adds to a calendar.
use garnet_trader.Prelude.{
  ℕ, zero, suc, ◌+◌, ◌-◌, ◌≤◌, ◌<◌, min, max, ◌≡◌, ◌≢◌, refl, sym, ◌∙◌, ◌⊎◌, inl, inr, Bool, true,
  not, ◌&&◌, ◌||◌, some, List, [], ◌∷◌, arith, ltb, leb, ◌==◌, All, length,
}
use garnet_trader.Prelude.Sort.{place, sort, IsSorted, sort-IsSorted}
use garnet_trader.Jalali.{is_weekend}
use garnet_trader.Calendar.{
  contains, Calendar, dedup, last_of, learn_day, learn_loop, or_else, learn_between,
  learn_from_sorted, learn_from_history,
}

ℕ-cases : (a b : ℕ) → (a ≡ b) ⊎ (a ≢ b)
ℕ-cases a b = ground arith

contains-dedup : (ds : List ℕ) (d : ℕ) → contains (dedup ds) d ≡ contains ds d
unfolding dedup
contains-dedup [] d = refl
contains-dedup (e ∷ es) d = ground (arith, contains-dedup es d)

contains-place :
    (x : ℕ) (ys : List ℕ) (d : ℕ) → contains (place leb x ys) d ≡ (x == d) || contains ys d
unfolding place contains
contains-place x [] d = refl
contains-place x (y ∷ ys) d = ground (arith, contains-place x ys d)

contains-sort : (xs : List ℕ) (d : ℕ) → contains (sort leb xs) d ≡ contains xs d
unfolding sort contains
contains-sort [] d = refl
contains-sort (x ∷ xs) d = ground (arith, contains-place x (sort leb xs) d, contains-sort xs d)

-- The days, once each and in order.
in_order : List ℕ → List ℕ
in_order days = sort leb (dedup days)

contains-in_order : (days : List ℕ) (d : ℕ) → contains (in_order days) d ≡ contains days d
unfolding in_order
contains-in_order days d = contains-sort (dedup days) d ∙ contains-dedup days d

in_order-IsSorted : (days : List ℕ) → IsSorted leb (in_order days)
unfolding in_order
in_order-IsSorted days =
    sort-IsSorted leb (λ x y z p q. ground arith) (λ x y p. ground arith) (dedup days)

All-contains :
    (P : ℕ → Bool) (xs : List ℕ) (d : ℕ)
    → All (λ x. P x ≡ true) xs
    → contains xs d ≡ true
    → P d ≡ true
unfolding contains
All-contains P [] d h e = cc
All-contains P (x ∷ xs) d h e = ground (arith, All-contains P xs d h.1)

-- The last of a sorted list is in it, and no element is greater.
contains-last_of : (x : ℕ) (xs : List ℕ) → contains (x ∷ xs) (last_of x xs) ≡ true
unfolding contains last_of
contains-last_of x [] = ground arith
contains-last_of x (y ∷ ys) = ground (arith, contains-last_of y ys)

le-last_of :
    (x : ℕ) (xs : List ℕ) (d : ℕ)
    → IsSorted leb (x ∷ xs)
    → contains (x ∷ xs) d ≡ true
    → d ≤ last_of x xs
unfolding contains last_of
le-last_of x [] d s e = ground arith
le-last_of x (y ∷ ys) d s e = ground (arith, le-last_of y ys d s.1, le-last_of y ys y s.1)

contains-learn_day :
    (known : List ℕ) (cursor : ℕ) (hs : List ℕ) (n d : ℕ)
    → contains (learn_day known cursor (hs, n)).0 d
      ≡ contains hs d || ((cursor == d) && not (is_weekend d) && not (contains known d))
unfolding learn_day contains
contains-learn_day known cursor hs n d = elim (ℕ-cases cursor d) [
  | inl same ↦ rw same (ground arith)
  | inr other ↦ ground arith
]

-- The loop adds the working days on which there was no trade, and no other.
contains-learn_loop :
    (known : List ℕ) (left cursor : ℕ) (hs : List ℕ) (n d : ℕ)
    → contains (learn_loop known left cursor (hs, n)).0 d
      ≡ contains hs d
        || (leb cursor d && ltb d (cursor + left) && not (is_weekend d) && not (contains known d))
unfolding learn_loop contains
contains-learn_loop known zero cursor hs n d = ground arith
contains-learn_loop known (suc left) cursor hs n d =
    let (hs', n') = learn_day known cursor (hs, n) in
    ground (
      arith,
      contains-learn_loop known left (cursor + 1) hs' n' d,
      contains-learn_day known cursor hs n d,
    )

length-learn_loop :
    (known : List ℕ) (left cursor : ℕ) (hs : List ℕ) (n : ℕ)
    → let (hs', n') = learn_loop known left cursor (hs, n) in n' + length hs ≡ n + length hs'
unfolding learn_loop learn_day
length-learn_loop known zero cursor hs n = refl
length-learn_loop known (suc left) cursor hs n =
    let (hs', n') = learn_day known cursor (hs, n) in
    ground (arith, length-learn_loop known left (cursor + 1) hs' n')

head-le : (x : ℕ) (xs : List ℕ) (d : ℕ) → IsSorted leb (x ∷ xs) → contains (x ∷ xs) d ≡ true → x ≤ d
unfolding contains
head-le x xs d s e = ground (arith, All-contains (leb x) xs d s.0)

contains_self : (x : ℕ) (xs : List ℕ) → contains (x ∷ xs) x ≡ true
unfolding contains
contains_self x xs = ground arith

le-last-one : (x d : ℕ) → contains (x ∷ []) d ≡ true → d ≡ x
unfolding contains
le-last-one x d e = ground arith

-- Two different days are there, so the sorted days are at least two.
learn_from_sorted_lem :
    (days : List ℕ) (c : Calendar) (first last : ℕ)
    → IsSorted leb days
    → contains days first ≡ true
    → contains days last ≡ true
    → first < last
    → ((d : ℕ) → contains days d ≡ true → (first ≤ d) × (d ≤ last))
    → learn_from_sorted days c ≡ learn_between days first last c
unfolding learn_from_sorted last_of
learn_from_sorted_lem [] c first last s f l lt within = absurd (unfold contains in cc)
learn_from_sorted_lem (x ∷ []) c first last s f l lt within =
    absurd (omega (arith, head-le x [] first s f, le-last-one x last l))
learn_from_sorted_lem (x ∷ y ∷ ys) c first last s f l lt within =
    let end = last_of y ys in
    let a : x ≡ first =
      omega (arith, head-le x (y ∷ ys) first s f, (within x (contains_self x (y ∷ ys))).0) in
    let b : end ≡ last =
      omega (arith, le-last_of x (y ∷ ys) last s l, (within end (contains-last_of x (y ∷ ys))).1) in
    λ i. learn_between (x ∷ y ∷ ys) (a i) (b i) c

-- What a history with at least two different days teaches, if `first` and `last` are its ends. The
-- holidays become exactly those known before and the days from the first to the last that are no
-- weekend and saw no trade; the result counts the new ones; the observed range grows to hold both
-- ends.
pub learn_from_history_lem :
    (days : List ℕ) (c : Calendar) (first last : ℕ)
    → contains days first ≡ true
    → contains days last ≡ true
    → first < last
    → ((d : ℕ) → contains days d ≡ true → (first ≤ d) × (d ≤ last))
    → let (learned, c') = learn_from_history days c in
      ((d : ℕ)
        → contains c'.holidays d
          ≡ contains c.holidays d
            || (leb first d && leb d last && not (is_weekend d) && not (contains days d)))
      × (learned + length c.holidays ≡ length c'.holidays)
      × (c'.observed_from ≡ some (or_else c.observed_from (λ o. min o first) first))
      × (c'.observed_to ≡ some (or_else c.observed_to (λ o. max o last) last))
      × (c'.learner ≡ c.learner)
unfolding learn_from_history
learn_from_history_lem days c first last f l lt within =
    let days' = in_order days in
    let same = contains-in_order days in
    let e : learn_from_history days c ≡ learn_between days' first last c =
      unfold in_order in
      learn_from_sorted_lem days' c first last (in_order-IsSorted days) (same first ∙ f)
        (same last ∙ l) lt (λ d p. within d (sym (same d) ∙ p)) in
    rw e (
      unfold learn_between in
      (
        λ d.
            ground
              (arith, contains-learn_loop days' (last + 1 - first) first c.holidays 0 d, same d),
        omega (arith, length-learn_loop days' (last + 1 - first) first c.holidays 0),
        refl,
        refl,
        refl,
      ))
