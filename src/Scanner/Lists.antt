-- ===== src/Scanner/Lists.antt =====
-- What holds of every contract and what the loops of strategies/scanner.py make of it.
use mathlib.Core.Path.{subst}
use garnet_trader.Prelude.{
  ℕ, zero, suc, ◌≡◌, refl, sym, inl, inr, Bool, true, Option, some, List, [], ◌∷◌, ◌++◌, map, take,
  All, Bool-cases, Option-cases, ==_iff, ◌==◌,
}
use garnet_trader.Payoff.Contracts.{OptionContract, keep_contracts}
use garnet_trader.Scanner.{
  Group, add_contract, group_by, combinations, add_found, found_by, for_each,
}

module _ {ℓ κ} {A : Type ℓ} (P : A → Type κ) where
  pub All-append : (xs ys : List A) → All P xs → All P ys → All P (xs ++ ys)
  All-append [] ys h k = k
  All-append (x ∷ xs) ys h k = (h.0, All-append xs ys h.1 k)

  pub All-take : (n : ℕ) (xs : List A) → All P xs → All P (take n xs)
  All-take zero xs h = tt
  All-take (suc n) [] h = tt
  All-take (suc n) (x ∷ xs) h = (h.0, All-take n xs h.1)

pub All-for_each {ℓ κ μ ν} :
    {A : Type ℓ} {B : Type κ} (P : A → Type μ) (Q : B → Type ν) (f : A → List B)
    → ((a : A) → P a → All Q (f a))
    → (xs : List A) → All P xs
    → All Q (for_each f xs)
unfolding for_each
All-for_each P Q f step [] h = tt
All-for_each P Q f step (x ∷ xs) h =
    All-append Q (f x) (for_each f xs) (step x h.0) (All-for_each P Q f step xs h.1)

pub All-found_by {ℓ κ μ ν} :
    {A : Type ℓ} {B : Type κ} (P : A → Type μ) (Q : B → Type ν) (f : A → Option B)
    → ((a : A) → P a → (b : B) → f a ≡ some b → Q b)
    → (xs : List A) → All P xs
    → All Q (found_by f xs)
unfolding found_by add_found
All-found_by P Q f step [] h = tt
All-found_by P Q f step (x ∷ xs) h = elim (Option-cases (f x)) [
  | inl nothing ↦
      subst (λ o. All Q (add_found o (found_by f xs))) (sym nothing)
        (All-found_by P Q f step xs h.1)
  | inr (y, same) ↦
      let all : All Q (y ∷ found_by f xs) = (step x h.0 y same, All-found_by P Q f step xs h.1) in
      subst (λ o. All Q (add_found o (found_by f xs))) (sym same) all
]

module _ {κ} (P : OptionContract → Type κ) where
  pub All-keep_contracts :
      (test : OptionContract → Bool) (cs : List OptionContract)
      → All P cs
      → All (λ c. P c × (test c ≡ true)) (keep_contracts test cs)
  unfolding keep_contracts
  All-keep_contracts test [] h = tt
  All-keep_contracts test (c ∷ cs) h = elim (Bool-cases (test c)) [
    | inl kept ↦ rw kept ((h.0, kept), All-keep_contracts test cs h.1)
    | inr dropped ↦ rw dropped (All-keep_contracts test cs h.1)
  ]

  All-pairs :
      (c : OptionContract) (cs : List OptionContract)
      → P c
      → All P cs
      → All (λ (p : OptionContract × OptionContract). P p.0 × P p.1) (map (λ d. (c, d)) cs)
  All-pairs c [] p h = tt
  All-pairs c (d ∷ ds) p h = ((p, h.0), All-pairs c ds p h.1)

  pub All-combinations :
      (cs : List OptionContract)
      → All P cs
      → All (λ (p : OptionContract × OptionContract). P p.0 × P p.1) (combinations cs)
  unfolding combinations
  All-combinations [] h = tt
  All-combinations (c ∷ cs) h =
      All-append (λ (p : OptionContract × OptionContract). P p.0 × P p.1) (map (λ d. (c, d)) cs)
        (combinations cs) (All-pairs c cs h.0 h.1) (All-combinations cs h.1)

  -- Every contract of a group has the key of the group.
  abbrev pub InGroup : (OptionContract → ℕ) → Group → Type κ
  InGroup key (k, cs) = All (λ c. P c × (key c ≡ k)) cs

  add_contract-InGroup :
      (key : OptionContract → ℕ) (c : OptionContract) (groups : List Group)
      → P c
      → All (InGroup key) groups
      → All (InGroup key) (add_contract (key c) c groups)
  unfolding add_contract
  add_contract-InGroup key c [] p h = (((p, refl), tt), tt)
  add_contract-InGroup key c ((k, cs) ∷ groups) p h = elim (Bool-cases (k == key c)) [
    | inl same ↦ rw same (
      All-append (λ d. P d × (key d ≡ k)) cs (c ∷ []) h.0
          ((p, sym ((==_iff k (key c)).0 same)), tt),
      h.1,
    )
    | inr other ↦ rw other (h.0, add_contract-InGroup key c groups p h.1)
  ]

  pub group_by-InGroup :
      (key : OptionContract → ℕ) (groups : List Group) (cs : List OptionContract)
      → All P cs
      → All (InGroup key) groups
      → All (InGroup key) (group_by key groups cs)
  unfolding group_by
  group_by-InGroup key groups [] h k = k
  group_by-InGroup key groups (c ∷ cs) h k =
      group_by-InGroup key (add_contract (key c) c groups) cs h.1
        (add_contract-InGroup key c groups h.0 k)
