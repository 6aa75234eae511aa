-- ===== src/CorporateActions/Splitting.antt =====
-- Adjusting a contract over a period, and over its two parts.
use garnet_trader.Prelude.{
  ℕ, ◌≤◌, ◌<◌, ◌≡◌, refl, sym, inl, inr, true, some, List, [], ◌∷◌, ◌++◌, leb, arith, Bool-cases,
  All,
}
use garnet_trader.Prelude.Number.{Number}
use garnet_trader.Prelude.Sort.{sort, IsSorted, sort-IsSorted}
use garnet_trader.CorporateActions.{
  CorporateAction, AdjustedContract, is_earlier, make_log, add, since, apply_all, adjust,
}

module _ {F : Type 0} where
  sort_by_date-IsSorted :
      (log : List (CorporateAction F)) → IsSorted is_earlier (sort is_earlier log)
  sort_by_date-IsSorted =
      sort-IsSorted is_earlier (λ x y z h k. ground (arith, h, k)) (λ x y h. ground (arith, h))

  -- What a log holds after further actions are added to it.
  unfoldable pub add_all :
      List (CorporateAction F) → List (CorporateAction F) → List (CorporateAction F)
  unfolding add
  add_all [] log = log
  add_all (a ∷ more) log = add_all more (add a log)

  add_all-IsSorted :
      (more log : List (CorporateAction F))
      → IsSorted is_earlier log
      → IsSorted is_earlier (add_all more log)
  unfolding add_all add
  add_all-IsSorted [] log sorted = sorted
  add_all-IsSorted (a ∷ more) log sorted =
      add_all-IsSorted more (add a log) (sort_by_date-IsSorted (log ++ a ∷ []))

  since_none :
      (log : List (CorporateAction F)) (x : CorporateAction F) (a b : ℕ)
      → b < x.effective_date
      → All (λ y. is_earlier x y ≡ true) log
      → since log a (some b) ≡ []
  unfolding since
  since_none [] x a b late h = refl
  since_none (y ∷ log) x a b late h =
      let rest = since_none log x a b late h.1 in ground (arith, rest, late, h.0)

  since-split :
      (log : List (CorporateAction F)) (a b c : ℕ)
      → IsSorted is_earlier log
      → a ≤ b
      → b ≤ c
      → since log a (some c) ≡ since log a (some b) ++ since log b (some c)
  unfolding since
  since-split [] a b c sorted le le' = refl
  since-split (x ∷ log) a b c sorted le le' =
      let rest = since-split log a b c sorted.1 le le' in
      elim (Bool-cases (leb x.effective_date b)) [
        | inl early ↦ ground (arith, rest, early)
        | inr late ↦
            let nothing : since log a (some b) ≡ [] =
              since_none log x a b (ground (arith, late)) sorted.0 in
            ground (arith, rest, late, nothing)
      ]

module _ {F : Type 0} (n : Number F) (round : F → ℕ) where
  apply_all-append :
      (xs ys : List (CorporateAction F)) (contract : AdjustedContract F)
      → apply_all n round (xs ++ ys) contract ≡ apply_all n round ys (apply_all n round xs contract)
  unfolding apply_all
  apply_all-append [] ys contract = refl
  apply_all-append (x ∷ xs) ys contract = apply_all-append xs ys _

  -- A log, whatever actions it was made from and were added to it in whatever order: adjusting a
  -- contract up to a day, and the result from that day up to a later one, is adjusting it up to the
  -- later one. No action is lost and none is applied twice.
  pub adjust-split :
      (actions more : List (CorporateAction F)) (contract : AdjustedContract F) (a b c : ℕ)
      → a ≤ b
      → b ≤ c
      → let log = add_all more (make_log actions) in
        adjust n round log (adjust n round log contract a b) b c ≡ adjust n round log contract a c
  unfolding adjust make_log
  adjust-split actions more contract a b c le le' =
      let log = add_all more (make_log actions) in
      let sorted = add_all-IsSorted more (make_log actions) (sort_by_date-IsSorted actions) in
      rw (since-split log a b c sorted le le')
        (sym (apply_all-append (since log a (some b)) (since log b (some c)) contract))
