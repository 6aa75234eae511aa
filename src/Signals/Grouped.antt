-- ===== src/Signals/Grouped.antt =====
-- The legs of structures, as a step that publishes them.
use mathlib.Core.Path.{subst}
use garnet_trader.Prelude.{
  ℕ, ◌≡◌, refl, sym, ◌∙◌, inl, inr, false, some, List, [], ◌∷◌, map, arith, Bool-cases,
  Option-cases, All,
}
use garnet_trader.Prelude.Dict.{Dict}
use garnet_trader.Prelude.Text.{Text}
use garnet_trader.Signals.{Signal, with_risk, post_init}
use garnet_trader.Risk.{
  FeeRules, RiskLimits, RiskSuggestion, is_tradable, evaluate, apply, enriched,
}
use garnet_trader.Signals.Generator.{
  GeneratorConfig, Generator, is_duplicate_key, emit, is_unsure, size_of, valid_for, checked,
  size_legs, resized, base_qty, group_dedupe_key, process_leg_group,
}
use garnet_trader.Signals.Groups.{process_leg_group-cases}
use garnet_trader.Signals.Spacing.{
  is_single, repeats, IsSpaced, IsRecorded, IsClear, IsStep, IsStep-none, emit-Raises,
}

just : {a b : List Signal} → some a ≡ some b → a ≡ b
just e = cc

-- The checks keep the group of a signal.
enriched-is_single :
    (r : RiskSuggestion) (size : ℕ) (s : Signal) → is_single (enriched r size s) ≡ is_single s
unfolding enriched with_risk post_init
enriched-is_single r size s = refl

apply-is_single :
    (f : FeeRules) (l : RiskLimits) (s t : Signal) (size : ℕ)
    → apply f l s size ≡ some t
    → is_single t ≡ is_single s
unfolding apply
apply-is_single f l s t size e = elim (Bool-cases (is_tradable (evaluate f l s size))) [
  | inr small ↦ absurd (ground (arith, small, e))
  | inl large ↦
      let same : enriched (evaluate f l s size) size s ≡ t = ground (arith, large, e) in
      subst (λ t'. is_single t' ≡ is_single s) same
        (enriched-is_single (evaluate f l s size) size s)
]

checked-is_single :
    (c : GeneratorConfig) (s t : Signal) → checked c s ≡ some t → is_single t ≡ is_single s
unfolding checked
checked-is_single c s t e = elim (Bool-cases (is_unsure c s)) [
  | inl unsure ↦ absurd (ground (arith, unsure, e))
  | inr sure ↦ elim (Option-cases (apply c.fees c.limits s (size_of s))) [
    | inl refused ↦ absurd (ground (arith, sure, refused, e))
    | inr (sized, f) ↦
        let same : valid_for c.signal_validity sized ≡ t = ground (arith, sure, f, e) in
        subst (λ t'. is_single t' ≡ is_single s) same
          (apply-is_single c.fees c.limits s sized (size_of s) f)
  ]
]

abbrev pub IsGrouped : List Signal → Type 0
IsGrouped = All (λ s. is_single s ≡ false)

size_legs-IsGrouped :
    (c : GeneratorConfig) (legs sized : List Signal)
    → size_legs c legs ≡ some sized
    → IsGrouped legs
    → IsGrouped sized
unfolding size_legs
size_legs-IsGrouped c [] sized e h = subst IsGrouped (just e) tt
size_legs-IsGrouped c (leg ∷ legs) sized e h = elim (Option-cases (checked c leg)) [
  | inl refused ↦ absurd (ground (arith, refused, e))
  | inr (s, f) ↦ elim (Option-cases (size_legs c legs)) [
    | inl lost ↦ absurd (ground (arith, lost, f, e))
    | inr (ss, k) ↦
        let same : s ∷ ss ≡ sized = ground (arith, f, k, e) in
        subst IsGrouped same
          (checked-is_single c leg s f ∙ h.0, size_legs-IsGrouped c legs ss k h.1)
  ]
]

resized-IsGrouped :
    (base : ℕ) (legs : List Signal) → IsGrouped legs → IsGrouped (map (resized base) legs)
resized-IsGrouped base [] h = tt
resized-IsGrouped base (s ∷ ss) h = (h.0, resized-IsGrouped base ss h.1)

module _ (c : GeneratorConfig) where
  grouped-IsRecorded :
      (d : Dict ℕ) (legs : List Signal) → IsGrouped legs → All (IsRecorded c d) legs
  grouped-IsRecorded d [] h = tt
  grouped-IsRecorded d (s ∷ ss) h = (inl h.0, grouped-IsRecorded d ss h.1)

  grouped-IsClear : (d : Dict ℕ) (legs : List Signal) → IsGrouped legs → All (IsClear c d) legs
  grouped-IsClear d [] h = tt
  grouped-IsClear d (s ∷ ss) h = (inl h.0, grouped-IsClear d ss h.1)

  no_repeat :
      (s : Signal) (ss : List Signal) → is_single s ≡ false → All (λ b. repeats c s b ≡ false) ss
  unfolding repeats
  no_repeat s [] h = tt
  no_repeat s (b ∷ ss) h = (ground (arith, h), no_repeat s ss h)

  grouped-IsSpaced : (legs : List Signal) → IsGrouped legs → IsSpaced c legs
  grouped-IsSpaced [] h = tt
  grouped-IsSpaced (s ∷ ss) h = (no_repeat s ss h.0, grouped-IsSpaced ss h.1)

  IsStep-grouped :
      (key : Text) (now : ℕ) (legs : List Signal) (g : Generator)
      → is_duplicate_key c key now g ≡ false
      → IsGrouped legs
      → IsStep c (legs, emit key now g) g
  IsStep-grouped key now legs g new h = (
    emit-Raises c key now g new,
    grouped-IsRecorded (emit key now g).last_emitted legs h,
    grouped-IsClear g.last_emitted legs h,
    grouped-IsSpaced legs h,
  )

  pub process_leg_group-IsStep :
      (legs : List Signal) (g : Generator)
      → IsGrouped legs
      → IsStep c (process_leg_group c legs g) g
  unfolding process_leg_group
  process_leg_group-IsStep [] g h = IsStep-none c g g refl
  process_leg_group-IsStep (leg ∷ legs) g h = elim (process_leg_group-cases c leg legs g) [
    | inl (nothing, why) ↦ subst (λ r. IsStep c r g) (sym nothing) (IsStep-none c g g refl)
    | inr (s, ss, full, e, all, some_is, new, f) ↦
        subst (λ r. IsStep c r g) (sym f)
          (IsStep-grouped (group_dedupe_key c s ss) s.created_at
            (map (resized (base_qty (s ∷ ss))) (s ∷ ss)) g new
            (resized-IsGrouped (base_qty (s ∷ ss)) (s ∷ ss)
              (size_legs-IsGrouped c (leg ∷ legs) (s ∷ ss) e h)))
  ]
