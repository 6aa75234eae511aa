-- ===== src/Scanner/Ranking.antt =====
-- strategies/scanner.py: rank_strategies, which puts structures in the order of one measure. How a
-- measure is read from a structure, and what its values are, is a parameter.
use mathlib.Core.List.{Perm, perm_middle}
use mathlib.Core.Path.{subst}
use mathlib.Core.List.Perm
use garnet_trader.Prelude.{
  ◌≡◌, refl, sym, ap, inl, inr, Bool, true, false, Option, none, some, List, [], ◌∷◌, ◌++◌, All,
  Option-cases, arith,
}
use garnet_trader.Prelude.Text.{Text, codes}
use garnet_trader.Prelude.Dict.{Dict, lookup}
use garnet_trader.Prelude.Sort.{sort, IsSorted, sort-IsSorted, sort-perm, All-sort}

-- Whether more of a measure is better.
abbrev pub rank_keys : Dict Bool
rank_keys =
    (codes "roi", true)
    ∷ (codes "max_profit", true)
    ∷ (codes "max_loss", true)
    ∷ (codes "risk_reward", true)
    ∷ (codes "liquidity_score", true)
    ∷ (codes "min_open_interest", true)
    ∷ (codes "max_relative_spread", false)
    ∷ (codes "distance_to_breakeven", false)
    ∷ (codes "net_credit", true)
    ∷ (codes "required_capital", false)
    ∷ []

unfoldable pub direction : Option Bool → Bool → Bool
direction none default = default
direction (some descending) default = descending

-- Only values that are known are compared; a missing one is the least here.
unfoldable pub value_at_most {κ} : {V : Type κ} → (V → V → Bool) → Option V → Option V → Bool
value_at_most at_most none w = true
value_at_most at_most (some v) none = false
value_at_most at_most (some v) (some w) = at_most v w

module _ {ℓ κ} {S : Type ℓ} {V : Type κ} where
  -- Which structure may stand before which: `sort` with `reverse` keeps the order of equals.
  unfoldable pub goes_before : (V → V → Bool) → (S → Option V) → Bool → S → S → Bool
  unfolding value_at_most
  goes_before at_most value true s t = value_at_most at_most (value t) (value s)
  goes_before at_most value false s t = value_at_most at_most (value s) (value t)

  unfoldable pub add_known : Option V → S → List S → List S
  add_known none s rest = rest
  add_known (some v) s rest = s ∷ rest

  unfoldable pub add_unknown : Option V → S → List S → List S
  add_unknown none s rest = s ∷ rest
  add_unknown (some v) s rest = rest

  unfoldable pub with_value : (S → Option V) → List S → List S
  unfolding add_known
  with_value value [] = []
  with_value value (s ∷ ss) = add_known (value s) s (with_value value ss)

  unfoldable pub without_value : (S → Option V) → List S → List S
  unfolding add_unknown
  without_value value [] = []
  without_value value (s ∷ ss) = add_unknown (value s) s (without_value value ss)

  unfoldable pub in_rank : (V → V → Bool) → (S → Option V) → Bool → List S → List S
  unfolding sort goes_before with_value without_value
  in_rank at_most value bigger_is_better ss =
      sort (goes_before at_most value bigger_is_better) (with_value value ss)
      ++ without_value value ss

  unfoldable pub rank_by :
      (V → V → Bool) → (S → Option V) → List S → Option Bool → Option Bool → Option (List S)
  unfolding in_rank direction
  rank_by at_most value ss descending none = none
  rank_by at_most value ss descending (some default) =
      some (in_rank at_most value (direction descending default) ss)

  -- `value` reads the attribute of a name; a name that is not a key is an error.
  unfoldable pub rank_strategies :
      (V → V → Bool) → (Text → S → Option V) → List S → Text → Option Bool → Option (List S)
  unfolding lookup rank_by
  rank_strategies at_most value ss key descending =
      rank_by at_most (value key) ss descending (lookup key rank_keys)

module _ {ℓ κ} {S : Type ℓ} {V : Type κ} (value : S → Option V) where
  split-perm : (ss : List S) → Perm (with_value value ss ++ without_value value ss) ss
  unfolding with_value without_value add_known add_unknown
  split-perm [] = Perm.nil
  split-perm (s ∷ ss) = elim (Option-cases (value s)) [
    | inl missing ↦ rw missing (
        Perm.trans (perm_middle (with_value value ss) (without_value value ss))
          (Perm.cons s (split-perm ss)))
    | inr (v, given) ↦ rw given (Perm.cons s (split-perm ss))
  ]

  without_value-All : (ss : List S) → All (λ s. value s ≡ none) (without_value value ss)
  unfolding without_value add_unknown
  without_value-All [] = tt
  without_value-All (s ∷ ss) = elim (Option-cases (value s)) [
    | inl missing ↦ rw missing (missing, without_value-All ss)
    | inr (v, given) ↦ rw given (without_value-All ss)
  ]

  with_value-All : (ss : List S) → All (λ s. (v : V) × (value s ≡ some v)) (with_value value ss)
  unfolding with_value add_known
  with_value-All [] = tt
  with_value-All (s ∷ ss) = elim (Option-cases (value s)) [
    | inl missing ↦ rw missing (with_value-All ss)
    | inr (v, given) ↦ rw given ((v, given), with_value-All ss)
  ]

-- Both values are known, and they stand in the order asked for: falling or rising.
abbrev pub StandsBefore {κ} : {V : Type κ} → (V → V → Bool) → Bool → Option V → Option V → Type 0
StandsBefore at_most descending none w = ⊥
StandsBefore at_most descending (some v) none = ⊥
StandsBefore at_most true (some v) (some w) = at_most w v ≡ true
StandsBefore at_most false (some v) (some w) = at_most v w ≡ true

-- Every structure stands before all that follow it.
abbrev pub InOrder {ℓ κ} :
    {S : Type ℓ} {V : Type κ} → (V → V → Bool) → (S → Option V) → Bool → List S → Type 0
InOrder at_most value descending [] = Unit
InOrder at_most value descending (s ∷ ss) =
    All (λ t. StandsBefore at_most descending (value s) (value t)) ss
    × InOrder at_most value descending ss

-- The direction that is asked for, and otherwise that of the key.
abbrev pub falling : Option Bool → Bool → Bool
falling descending default = elim descending [ none ↦ default | some asked ↦ asked ]

direction-falling :
    (descending : Option Bool) (default : Bool)
    → direction descending default ≡ falling descending default
unfolding direction
direction-falling none default = refl
direction-falling (some asked) default = refl

module _ {κ} {V : Type κ} (at_most : V → V → Bool)
    (trans : (u v w : V) → at_most u v ≡ true → at_most v w ≡ true → at_most u w ≡ true)
    (total : (v w : V) → at_most v w ≡ false → at_most w v ≡ true) where
  value_trans :
      (u v w : Option V)
      → value_at_most at_most u v ≡ true
      → value_at_most at_most v w ≡ true
      → value_at_most at_most u w ≡ true
  unfolding value_at_most
  value_trans none v w h k = refl
  value_trans (some u) none w h k = absurd (ground (arith, h))
  value_trans (some u) (some v) none h k = k
  value_trans (some u) (some v) (some w) h k = trans u v w h k

  value_total :
      (v w : Option V) → value_at_most at_most v w ≡ false → value_at_most at_most w v ≡ true
  unfolding value_at_most
  value_total none w h = absurd (ground (arith, h))
  value_total (some v) none h = refl
  value_total (some v) (some w) h = total v w h

  ranked-IsSorted {ℓ} :
      {S : Type ℓ} (value : S → Option V) (bigger : Bool) (ss : List S)
      → IsSorted (goes_before at_most value bigger) (sort (goes_before at_most value bigger) ss)
  unfolding goes_before
  ranked-IsSorted value true ss =
      sort-IsSorted (goes_before at_most value true)
        (λ s t r h k. value_trans (value r) (value t) (value s) k h)
        (λ s t h. value_total (value t) (value s) h) ss
  ranked-IsSorted value false ss =
      sort-IsSorted (goes_before at_most value false)
        (λ s t r h k. value_trans (value s) (value t) (value r) h k)
        (λ s t h. value_total (value s) (value t) h) ss

  goes_before-StandsBefore {ℓ} :
      {S : Type ℓ} (value : S → Option V) (descending : Bool) (s t : S)
      → (v : V) × (value s ≡ some v)
      → (w : V) × (value t ≡ some w)
      → goes_before at_most value descending s t ≡ true
      → StandsBefore at_most descending (value s) (value t)
  unfolding goes_before value_at_most
  goes_before-StandsBefore value true s t (v, p) (w, q) h =
      let known : value_at_most at_most (some w) (some v) ≡ true =
        subst (λ o. value_at_most at_most o (some v) ≡ true) q
          (subst (λ o. value_at_most at_most (value t) o ≡ true) p h) in
      subst (λ o. StandsBefore at_most true o (value t)) (sym p)
        (subst (λ o. StandsBefore at_most true (some v) o) (sym q) known)
  goes_before-StandsBefore value false s t (v, p) (w, q) h =
      let known : value_at_most at_most (some v) (some w) ≡ true =
        subst (λ o. value_at_most at_most o (some w) ≡ true) p
          (subst (λ o. value_at_most at_most (value s) o ≡ true) q h) in
      subst (λ o. StandsBefore at_most false o (value t)) (sym p)
        (subst (λ o. StandsBefore at_most false (some v) o) (sym q) known)

  each-StandsBefore {ℓ} :
      {S : Type ℓ} (value : S → Option V) (descending : Bool) (s : S) (ts : List S)
      → (v : V) × (value s ≡ some v)
      → All (λ t. (w : V) × (value t ≡ some w)) ts
      → All (λ t. goes_before at_most value descending s t ≡ true) ts
      → All (λ t. StandsBefore at_most descending (value s) (value t)) ts
  each-StandsBefore value descending s [] given all h = tt
  each-StandsBefore value descending s (t ∷ ts) given all h = (
    goes_before-StandsBefore value descending s t given all.0 h.0,
    each-StandsBefore value descending s ts given all.1 h.1,
  )

  sorted-InOrder {ℓ} :
      {S : Type ℓ} (value : S → Option V) (descending : Bool) (ss : List S)
      → All (λ t. (w : V) × (value t ≡ some w)) ss
      → IsSorted (goes_before at_most value descending) ss
      → InOrder at_most value descending ss
  sorted-InOrder value descending [] all h = tt
  sorted-InOrder value descending (s ∷ ss) all h = (
    each-StandsBefore value descending s ss all.0 all.1 h.0,
    sorted-InOrder value descending ss all.1 h.1,
  )

  -- For a measure that is a key, over values whose comparison is transitive and total, the ranking
  -- gives the same structures in another order: first those whose value is known, then those whose
  -- value is missing. The known values fall where the direction asked for, or that of the table of
  -- keys where none is, is the descending one, and rise where it is the other.
  pub rank_strategies-IsSorted {ℓ} :
      {S : Type ℓ} (value : Text → S → Option V) (ss : List S) (key : Text)
      (descending : Option Bool) (default : Bool)
      → lookup key rank_keys ≡ some default
      → (ranked : List S) × (missing : List S) × (rank_strategies at_most value ss key descending
          ≡ some (ranked ++ missing))
        × InOrder at_most (value key) (falling descending default) ranked
        × All (λ s. (v : V) × (value key s ≡ some v)) ranked
        × All (λ s. value key s ≡ none) missing
        × Perm (ranked ++ missing) ss
  unfolding rank_strategies rank_by in_rank
  rank_strategies-IsSorted value ss key descending default h =
      let v = value key in
      let way = direction descending default in
      let before = goes_before at_most v way in
      let ranked = sort before (with_value v ss) in
      let all =
        All-sort before (λ s. (w : V) × (v s ≡ some w)) (with_value v ss) (with_value-All v ss) in
      (
        ranked,
        without_value v ss,
        ap (rank_by at_most v ss descending) h,
        subst (λ d. InOrder at_most v d ranked) (direction-falling descending default)
            (sorted-InOrder v way ranked all (ranked-IsSorted v way (with_value v ss))),
        all,
        without_value-All v ss,
        Perm.trans (Perm.append_right (without_value v ss) (sort-perm before (with_value v ss)))
            (split-perm v ss),
      )
