-- ===== src/Signals/Groups.antt =====
-- What becomes of the legs of one structure.
use native.Mathlib.Nat.{le-div_iff_mul-le, mul-le-mul_right, mul-le-mul_left}
use mathlib.Core.Path.{subst}
use garnet_trader.Prelude.{
  ℕ, ◌*◌, ◌/◌, ◌≤◌, ◌≡◌, ◌≢◌, ◌<◌, ltb, true, ◌↔◌, refl, sym, ap, ◌⊎◌, inl, inr, max, false, none,
  some, List, [], ◌∷◌, map, length, ◌==◌, arith, Bool-cases, Option-cases, All, ==_iff, ◌∙◌,
}
use garnet_trader.Payoff.{smallest}
use garnet_trader.Risk.{apply, enriched}
use garnet_trader.Signals.{Signal, with_risk}
use garnet_trader.Signals.Generator.{
  GeneratorConfig, Generator, checked, size_legs, leg_ratio, base_qty, resized, group_dedupe_key,
  is_duplicate_key, emit, release, expected_legs, process_leg_group,
}

-- The ratio of a leg in its structure, which is 1 where none is given.
abbrev pub ratio_of : Signal → ℕ
ratio_of s = elim s.metadata.leg_ratio [ none ↦ 1 | some ratio ↦ ratio ]

-- Each leg passed the checks, and what is published of it is what they left of it but for the
-- quantity: the base quantity times the ratio of the leg, which is no more than they allowed it.
unfoldable pub IsStructure : GeneratorConfig → ℕ → List Signal → List Signal → Type 0
IsStructure c base [] [] = Unit
IsStructure c base [] (out ∷ outs) = ⊥
IsStructure c base (leg ∷ legs) [] = ⊥
IsStructure c base (leg ∷ legs) (out ∷ outs) =
    ((sized : Signal) × (checked c leg ≡ some sized)
      × (out ≡ record sized { suggested_qty = out.suggested_qty })
      × (out.suggested_qty ≡ base * ratio_of leg)
      × (out.suggested_qty ≤ sized.suggested_qty))
    × IsStructure c base legs outs

-- The legs as the checks leave them.
unfoldable pub AreChecked : GeneratorConfig → List Signal → List Signal → Type 0
AreChecked c [] [] = Unit
AreChecked c [] (s ∷ ss) = ⊥
AreChecked c (leg ∷ legs) [] = ⊥
AreChecked c (leg ∷ legs) (s ∷ ss) = (checked c leg ≡ some s) × AreChecked c legs ss

-- The checks refuse some leg.
unfoldable pub HasRefused : GeneratorConfig → List Signal → Type 0
HasRefused c [] = ⊥
HasRefused c (leg ∷ legs) = (checked c leg ≡ none) ⊎ HasRefused c legs

-- The quantity that is allowed of some leg is less than its ratio.
unfoldable pub HasShort : List Signal → Type 0
HasShort [] = ⊥
HasShort (s ∷ ss) = (s.suggested_qty < max (ratio_of s) 1) ⊎ HasShort ss

-- Why a group is held back: a leg is missing, the checks refuse one, they leave one too little for
-- its ratio, or the same structure was published within the window.
abbrev pub IsHeld : GeneratorConfig → Signal → List Signal → Generator → Type 0
IsHeld c leg legs g =
    (length (leg ∷ legs) ≢ expected_legs leg legs)
    ⊎ (HasRefused c (leg ∷ legs)
        ⊎ ((s : Signal) × (ss : List Signal) × AreChecked c (leg ∷ legs) (s ∷ ss)
            × (HasShort (s ∷ ss)
                ⊎ (is_duplicate_key c (group_dedupe_key c s ss) s.created_at g ≡ true))))

size_legs-cases :
    (c : GeneratorConfig) (legs : List Signal)
    → ((size_legs c legs ≡ none) × HasRefused c legs)
      ⊎ ((sized : List Signal) × (size_legs c legs ≡ some sized) × AreChecked c legs sized)
unfolding size_legs AreChecked HasRefused
size_legs-cases c [] = inr ([], refl, tt)
size_legs-cases c (leg ∷ legs) = elim (Option-cases (checked c leg)) [
  | inl refused ↦ inl (ground (arith, refused), inl refused)
  | inr (s, e) ↦ elim (size_legs-cases c legs) [
    | inl (lost, some_leg) ↦ inl (ground (arith, e, lost), inr some_leg)
    | inr (ss, f, all) ↦ inr (s ∷ ss, ground (arith, e, f), (e, all))
  ]
]

-- The quantity of the structure fits every leg.
abbrev IsFitting : ℕ → List Signal → Type 0
IsFitting base legs = All (λ s. base * max (leg_ratio s) 1 ≤ s.suggested_qty) legs

All-smaller : (base q : ℕ) (legs : List Signal) → q ≤ base → IsFitting base legs → IsFitting q legs
All-smaller base q [] le h = tt
All-smaller base q (s ∷ ss) le h =
    let less : q * max (leg_ratio s) 1 ≤ base * max (leg_ratio s) 1 = mul-le-mul_right _ le in
    (omega (arith, less, h.0), All-smaller base q ss le h.1)

share_fits :
    (s : Signal) (q : ℕ)
    → q ≤ s.suggested_qty / max (leg_ratio s) 1
    → q * max (leg_ratio s) 1 ≤ s.suggested_qty
share_fits s q le =
    let two : (q ≤ s.suggested_qty / max (leg_ratio s) 1)
        ↔ (q * max (leg_ratio s) 1 ≤ s.suggested_qty) =
      le-div_iff_mul-le (omega arith) in
    two.0 le

base_qty-IsFitting : (legs : List Signal) → IsFitting (base_qty legs) legs
unfolding base_qty smallest
base_qty-IsFitting [] = tt
base_qty-IsFitting (s ∷ []) = (share_fits s _ (omega arith), tt)
base_qty-IsFitting (s ∷ t ∷ ss) = (
  share_fits s _ (omega arith),
  All-smaller (base_qty (t ∷ ss)) (base_qty (s ∷ t ∷ ss)) (t ∷ ss) (omega arith)
      (base_qty-IsFitting (t ∷ ss)),
)

-- The checks keep the ratio of a leg.
ratio_of-checked :
    (c : GeneratorConfig) (leg sized : Signal)
    → checked c leg ≡ some sized
    → ratio_of sized ≡ ratio_of leg
unfolding checked apply enriched with_risk
ratio_of-checked c leg sized passed = ground (arith, passed)

resized-IsStructure :
    (c : GeneratorConfig) (base : ℕ) (legs sized : List Signal)
    → AreChecked c legs sized
    → IsFitting base sized
    → IsStructure c base legs (map (resized base) sized)
unfolding AreChecked IsStructure
resized-IsStructure c base [] [] all fit = tt
resized-IsStructure c base [] (s ∷ ss) all fit = absurd all
resized-IsStructure c base (leg ∷ legs) [] all fit = absurd all
resized-IsStructure c base (leg ∷ legs) (s ∷ ss) all fit =
    let ratio : ratio_of s ≤ max (leg_ratio s) 1 = omega arith in
    let less : base * ratio_of s ≤ base * max (leg_ratio s) 1 = mul-le-mul_left base ratio in
    (
      (
        s,
        all.0,
        refl,
        ap (λ r. base * r) (ratio_of-checked c leg s all.0),
        omega (arith, less, fit.0),
      ),
      resized-IsStructure c base legs ss all.1 fit.1,
    )

no_share :
    (s : Signal) → s.suggested_qty / max (leg_ratio s) 1 ≡ 0 → s.suggested_qty < max (ratio_of s) 1
no_share s none_left =
    let two : (1 ≤ s.suggested_qty / max (leg_ratio s) 1)
        ↔ (1 * max (leg_ratio s) 1 ≤ s.suggested_qty) =
      le-div_iff_mul-le (omega arith) in
    elim (Bool-cases (ltb s.suggested_qty (max (ratio_of s) 1))) [
      | inl short ↦ ground (arith, short)
      | inr enough ↦
          let share = two.1 (ground (arith, enough)) in absurd (omega (arith, share, none_left))
    ]

base_qty-HasShort : (s : Signal) (ss : List Signal) → base_qty (s ∷ ss) ≡ 0 → HasShort (s ∷ ss)
unfolding base_qty smallest HasShort
base_qty-HasShort s [] empty = inl (no_share s empty)
base_qty-HasShort s (t ∷ ss) empty =
    elim (Bool-cases (s.suggested_qty / max (leg_ratio s) 1 == 0)) [
      | inl short ↦ inl (no_share s ((==_iff _ _).0 short))
      | inr enough ↦ inr (base_qty-HasShort t ss (ground (arith, enough, empty)))
    ]

release-cases :
    (c : GeneratorConfig) (leg : Signal) (legs : List Signal) (g : Generator)
    → ((release c (leg ∷ legs) g ≡ ([], g))
        × (HasShort (leg ∷ legs)
            ⊎ (is_duplicate_key c (group_dedupe_key c leg legs) leg.created_at g ≡ true)))
      ⊎ ((1 ≤ base_qty (leg ∷ legs))
          × (release c (leg ∷ legs) g ≡ (
            map (resized (base_qty (leg ∷ legs))) (leg ∷ legs),
            emit (group_dedupe_key c leg legs) leg.created_at g,
          ))
          × (is_duplicate_key c (group_dedupe_key c leg legs) leg.created_at g ≡ false))
unfolding release
release-cases c leg legs g = elim (Bool-cases (base_qty (leg ∷ legs) == 0)) [
  | inl empty ↦ inl (ground (arith, empty), inl (base_qty-HasShort leg legs ((==_iff _ _).0 empty)))
  | inr some_is ↦
      elim (Bool-cases (is_duplicate_key c (group_dedupe_key c leg legs) leg.created_at g)) [
        | inl again ↦ inl (ground (arith, some_is, again), inr again)
        | inr new ↦ inr (ground (arith, some_is), ground (arith, some_is, new), new)
      ]
]

-- The two ends that a group comes to.
pub process_leg_group-cases :
    (c : GeneratorConfig) (leg : Signal) (legs : List Signal) (g : Generator)
    → ((process_leg_group c (leg ∷ legs) g ≡ ([], g)) × IsHeld c leg legs g)
      ⊎ ((s : Signal) × (ss : List Signal) × (length (leg ∷ legs) ≡ expected_legs leg legs)
          × (size_legs c (leg ∷ legs) ≡ some (s ∷ ss))
          × AreChecked c (leg ∷ legs) (s ∷ ss)
          × (1 ≤ base_qty (s ∷ ss))
          × (is_duplicate_key c (group_dedupe_key c s ss) s.created_at g ≡ false)
          × (process_leg_group c (leg ∷ legs) g ≡ (
            map (resized (base_qty (s ∷ ss))) (s ∷ ss),
            emit (group_dedupe_key c s ss) s.created_at g,
          )))
unfolding process_leg_group AreChecked
process_leg_group-cases c leg legs g =
    elim (Bool-cases (length (leg ∷ legs) == expected_legs leg legs)) [
      | inr short ↦ inl (ground (arith, short), inl (λ e. ground (arith, short, e)))
      | inl full ↦ elim (size_legs-cases c (leg ∷ legs)) [
        | inl (lost, some_leg) ↦ inl (ground (arith, full, lost), inr (inl some_leg))
        | inr ([], e, all) ↦ absurd all
        | inr (s ∷ ss, e, all) ↦
            let same : process_leg_group c (leg ∷ legs) g ≡ release c (s ∷ ss) g =
              ground (arith, full, e) in
            elim (release-cases c s ss g) [
              | inl (held, why) ↦ inl (same ∙ held, inr (inr (s, ss, all, why)))
              | inr (some_is, f, new) ↦
                  inr (s, ss, (==_iff _ _).0 full, e, all, some_is, new, same ∙ f)
            ]
      ]
    ]

-- A group is published whole or not at all. Either nothing is published and nothing remembered, and a
-- leg is missing, or the checks refuse one or leave one less than its ratio, or the structure was
-- published within the window before. Or all the legs that were expected are published, each as the
-- checks left it, with the same base of at least one contract times its ratio for its quantity, and
-- no more than they allowed it.
pub process_leg_group-IsStructure :
    (c : GeneratorConfig) (leg : Signal) (legs : List Signal) (g : Generator)
    → let (outs, g') = process_leg_group c (leg ∷ legs) g in
      ((outs ≡ []) × (g' ≡ g) × IsHeld c leg legs g)
      ⊎ ((base : ℕ) × (1 ≤ base)
          × (length (leg ∷ legs) ≡ expected_legs leg legs)
          × IsStructure c base (leg ∷ legs) outs)
process_leg_group-IsStructure c leg legs g = elim (process_leg_group-cases c leg legs g) [
  | inl (nothing, why) ↦ inl (ap (λ r. r.0) nothing, ap (λ r. r.1) nothing, why)
  | inr (s, ss, full, e, all, some_is, new, f) ↦ inr (
    base_qty (s ∷ ss),
    some_is,
    full,
    subst (IsStructure c (base_qty (s ∷ ss)) (leg ∷ legs)) (sym (ap (λ r. r.0) f)) (
        resized-IsStructure c (base_qty (s ∷ ss)) (leg ∷ legs) (s ∷ ss) all
          (base_qty-IsFitting (s ∷ ss))),
  )
]
