-- ===== src/WalkForward/Best.antt =====
-- The result that is chosen, among those of every combination of parameters.
use mathlib.Core.Path.{subst}
use mathlib.Core.List.{Mem, mem-cons_self, mem-cons_of_mem}
use mathlib.Core.List.Perm
use native.Mathlib.Nat.{mul-le-mul_right, le_of_mul-le-mul_left}
use garnet_trader.Prelude.{
  ℕ, suc, ◌+◌, ◌*◌, ◌≤◌, ◌≡◌, ◌↔◌, ◌⊎◌, refl, sym, All-imp, inl, inr, true, false, length, Option,
  none, some, List, [], ◌∷◌, map, arith, Bool-cases, All,
}
use garnet_trader.Prelude.Dict.{Dict}
use garnet_trader.Prelude.Int.{ℤ, pos_part, neg_part, scaled_positive, scaled_negative}
use garnet_trader.Prelude.Sort.{sort, sort-perm, IsSorted, sort-IsSorted, All-sort_back}
use garnet_trader.Metrics.{total}
use garnet_trader.WalkForward.{Fold, Mean, mean_leb, mean_of}
use garnet_trader.WalkForward.Robust.{tested, tested_lem, IsRobust, is_robust_lem, fails-IsRobust}
use garnet_trader.WalkForward.Optimizer.{
  WalkForwardResult, WalkForwardOptimizer, mean_test_expectancy, is_robust, mean_at_least,
  ranks_before, first_robust, evaluate, rank,
}

-- b / q ≤ a / p and c / r ≤ b / q give c / r ≤ a / p, for numbers given by their two parts.
cross :
    (a a' b b' c c' p q r : ℕ)
    → b * p + a' * q ≤ a * q + b' * p
    → c * q + b' * r ≤ b * r + c' * q
    → 1 ≤ q
    → c * p + a' * r ≤ a * r + c' * p
cross a a' b b' c c' p q r h k positive =
    let first = mul-le-mul_right r h in
    let second = mul-le-mul_right p k in
    le_of_mul-le-mul_left {k = q} (grind (arith, first, second)) positive

mean_leb_lem :
    (m n : Mean)
    → (mean_leb m n ≡ true) ↔ (
        pos_part m.sum * suc n.more + neg_part n.sum * suc m.more
        ≤ pos_part n.sum * suc m.more + neg_part m.sum * suc n.more)
mean_leb_lem m n = ground (
  arith,
  scaled_positive m.sum (suc n.more),
  scaled_negative m.sum (suc n.more),
  scaled_positive n.sum (suc m.more),
  scaled_negative n.sum (suc m.more),
)

mean_at_least_trans :
    (x y z : Option Mean)
    → mean_at_least x y ≡ true
    → mean_at_least y z ≡ true
    → mean_at_least x z ≡ true
unfolding mean_at_least
mean_at_least_trans none none none h k = refl
mean_at_least_trans none none (some c) h k = k
mean_at_least_trans none (some b) z h k = absurd (ground (arith, h))
mean_at_least_trans (some a) y none h k = refl
mean_at_least_trans (some a) none (some c) h k = absurd (ground (arith, k))
mean_at_least_trans (some a) (some b) (some c) h k = (mean_leb_lem c a).1 (
    cross (pos_part a.sum) (neg_part a.sum) (pos_part b.sum) (neg_part b.sum) (pos_part c.sum)
      (neg_part c.sum) (suc a.more) (suc b.more) (suc c.more) ((mean_leb_lem b a).0 h)
      ((mean_leb_lem c b).0 k) (omega arith))

mean_at_least_total : (x y : Option Mean) → mean_at_least x y ≡ false → mean_at_least y x ≡ true
unfolding mean_at_least
mean_at_least_total none none h = refl
mean_at_least_total none (some b) h = refl
mean_at_least_total (some a) none h = absurd (ground (arith, h))
mean_at_least_total (some a) (some b) h = ground (arith, h)

mean_at_least_refl : (x : Option Mean) → mean_at_least x x ≡ true
mean_at_least_refl x = elim (Bool-cases (mean_at_least x x)) [
  | inl at_least ↦ at_least
  | inr less ↦ mean_at_least_total x x less
]

-- The mean of some numbers is at least that of others: each sum times the other count.
abbrev pub HasMeanAtLeast : List ℤ → List ℤ → Type 0
HasMeanAtLeast vs ws =
    pos_part (total ws) * length vs + neg_part (total vs) * length ws
    ≤ pos_part (total vs) * length ws + neg_part (total ws) * length vs

mean_at_least_lem :
    (vs ws : List ℤ) → mean_at_least (mean_of vs) (mean_of ws) ≡ true → HasMeanAtLeast vs ws
unfolding mean_at_least mean_of total
mean_at_least_lem [] [] h = omega arith
mean_at_least_lem [] (w ∷ ws) h = absurd (ground (arith, h))
mean_at_least_lem (v ∷ vs) [] h = omega arith
mean_at_least_lem (v ∷ vs) (w ∷ ws) h =
    (mean_leb_lem (record { sum = total (w ∷ ws); more = length ws })
        (record { sum = total (v ∷ vs); more = length vs })).0
      h

module _ {V : Type 0} where
  -- As the code compares: a result of which none that is robust has a better mean.
  abbrev IsAhead : WalkForwardResult V → WalkForwardResult V → Type 0
  IsAhead r x = (is_robust x ≡ false) ⊎ (ranks_before r x ≡ true)

  -- As the code compares, what is chosen.
  abbrev IsFirst : List (WalkForwardResult V) → Option (WalkForwardResult V) → Type 0
  IsFirst rs none = All (λ x. is_robust x ≡ false) rs
  IsFirst rs (some r) = (is_robust r ≡ true) × Mem r rs × All (IsAhead r) rs

  sorted-IsAhead :
      (r : WalkForwardResult V) (rs : List (WalkForwardResult V))
      → All (λ x. ranks_before r x ≡ true) rs
      → All (IsAhead r) rs
  sorted-IsAhead r [] h = tt
  sorted-IsAhead r (x ∷ rs) h = (inr h.0, sorted-IsAhead r rs h.1)

  keep-IsFirst :
      (r : WalkForwardResult V) (rs : List (WalkForwardResult V)) (o : Option (WalkForwardResult V))
      → is_robust r ≡ false
      → IsFirst rs o
      → IsFirst (r ∷ rs) o
  keep-IsFirst r rs none weak h = (weak, h)
  keep-IsFirst r rs (some x) weak h = (h.0, mem-cons_of_mem r h.1, (inl weak, h.2))

  first_robust-IsFirst :
      (rs : List (WalkForwardResult V)) → IsSorted ranks_before rs → IsFirst rs (first_robust rs)
  unfolding first_robust
  first_robust-IsFirst [] sorted = tt
  first_robust-IsFirst (r ∷ rs) sorted = elim (Bool-cases (is_robust r)) [
    | inl robust ↦
        let same : first_robust (r ∷ rs) ≡ some r = ground (arith, robust) in
        subst (IsFirst (r ∷ rs)) (sym same) (
          robust,
          mem-cons_self,
          (inr (mean_at_least_refl (mean_test_expectancy r)), sorted-IsAhead r rs sorted.0),
        )
    | inr weak ↦
        let same : first_robust (r ∷ rs) ≡ first_robust rs = ground (arith, weak) in
        subst (IsFirst (r ∷ rs)) (sym same)
          (keep-IsFirst r rs (first_robust rs) weak (first_robust-IsFirst rs sorted.1))
  ]

  All-IsFirst :
      (rs ts : List (WalkForwardResult V)) (o : Option (WalkForwardResult V))
      → ((P : WalkForwardResult V → Type 0) → All P rs → All P ts)
      → ((x : WalkForwardResult V) → Mem x rs → Mem x ts)
      → IsFirst rs o
      → IsFirst ts o
  All-IsFirst rs ts none move move_mem h = move (λ x. is_robust x ≡ false) h
  All-IsFirst rs ts (some r) move move_mem h = (h.0, move_mem r h.1, move (IsAhead r) h.2)

  -- No robust result has a better mean expectancy on the tests.
  abbrev IsLeader : WalkForwardResult V → WalkForwardResult V → Type 0
  IsLeader r x = (¬ IsRobust x) ⊎ HasMeanAtLeast (tested r.folds) (tested x.folds)

  -- What is chosen among some results: nothing when none is robust, and otherwise a robust one, of
  -- them, whose mean is at least that of each robust one.
  abbrev pub IsChoice : List (WalkForwardResult V) → Option (WalkForwardResult V) → Type 0
  IsChoice rs none = All (λ x. ¬ IsRobust x) rs
  IsChoice rs (some r) = IsRobust r × Mem r rs × All (IsLeader r) rs

  IsAhead-IsLeader : (r x : WalkForwardResult V) → IsAhead r x → IsLeader r x
  IsAhead-IsLeader r x (inl weak) = inl (fails-IsRobust x weak)
  IsAhead-IsLeader r x (inr first) = inr (
      mean_at_least_lem (tested r.folds) (tested x.folds) (
        subst (λ vs. mean_at_least (mean_of (tested r.folds)) (mean_of vs) ≡ true)
          (tested_lem x.folds)
          (subst (λ vs. mean_at_least (mean_of vs) (mean_test_expectancy x) ≡ true)
            (tested_lem r.folds) first)))

  IsFirst-IsChoice :
      (rs : List (WalkForwardResult V)) (o : Option (WalkForwardResult V))
      → IsFirst rs o
      → IsChoice rs o
  IsFirst-IsChoice rs none h =
      All-imp (λ x. is_robust x ≡ false) (λ x. ¬ IsRobust x) fails-IsRobust rs h
  IsFirst-IsChoice rs (some r) h =
      ((is_robust_lem r).0 h.0, h.1, All-imp (IsAhead r) (IsLeader r) (IsAhead-IsLeader r) rs h.2)

module _ {V X O : Type 0} (w : WalkForwardOptimizer V X O) where
  -- The first robust result of the ranking is none when no combination of parameters is robust, and
  -- otherwise the result of a robust combination whose mean expectancy on the tests is at least that
  -- of every robust combination. A result is robust that has at least two folds with ten signals in
  -- training and in test each, and expectancies on the tests of these with a positive sum, of which
  -- more than half are positive; the mean is taken over the same expectancies.
  pub rank-IsChoice :
      (folds : List Fold) (histories : Dict (List X)) (combos : List (Dict V))
      → IsChoice
          (map (λ params. evaluate w params folds histories) combos)
          (first_robust (rank w folds histories combos))
  unfolding rank
  rank-IsChoice folds histories combos =
      let all = map (λ params. evaluate w params folds histories) combos in
      IsFirst-IsChoice all (first_robust (sort ranks_before all)) (
        All-IsFirst (sort ranks_before all) all (first_robust (sort ranks_before all))
          (λ P. All-sort_back ranks_before P all)
          (λ x. (Perm.mem_iff (sort-perm ranks_before all)).0)
          (first_robust-IsFirst (sort ranks_before all) (
            sort-IsSorted ranks_before
              (λ x y z.
                mean_at_least_trans (mean_test_expectancy x) (mean_test_expectancy y)
                  (mean_test_expectancy z))
              (λ x y. mean_at_least_total (mean_test_expectancy x) (mean_test_expectancy y)) all)))
