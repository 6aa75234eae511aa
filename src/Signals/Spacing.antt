-- ===== src/Signals/Spacing.antt =====
-- The memory of what was published, and the signals that stand clear of it.
use mathlib.Core.Path.{subst}
use garnet_trader.Prelude.{
  ℕ, ◌+◌, ◌≤◌, ◌≡◌, sym, ap, ◌∙◌, ◌⊎◌, inl, inr, Bool, true, false, ◌&&◌, none, some, List, [], ◌∷◌,
  ◌++◌, ltb, arith, Bool-cases, Option-cases, All,
}
use garnet_trader.Prelude.Dict.{Dict, lookup, lookup-insert}
use garnet_trader.Prelude.Text.{Text, text_eq, text_eq_iff}
use garnet_trader.Signals.{Signal}
use garnet_trader.Signals.Generator.{
  GeneratorConfig, Generator, dedupe_key, is_duplicate_key, emit, group_of,
}

abbrev pub is_single : Signal → Bool
is_single s = elim (group_of s) [ none ↦ true | some id ↦ false ]

none-some : {n : ℕ} → none ≡ some n → ⊥
none-some e = ground (arith, e)

some-injective : {m n : ℕ} → some m ≡ some n → m ≡ n
some-injective e = cc

All-append {ℓ} :
    (P : Signal → Type ℓ) (xs ys : List Signal) → All P xs → All P ys → All P (xs ++ ys)
All-append P [] ys h k = k
All-append P (x ∷ xs) ys h k = (h.0, All-append P xs ys h.1 k)

-- What is remembered only grows.
abbrev pub Raises : Dict ℕ → Dict ℕ → Type 0
Raises d d' =
    (key : Text) (p : ℕ) → lookup key d ≡ some p → (p' : ℕ) × (lookup key d' ≡ some p') × (p ≤ p')

Raises-trans : (d e f : Dict ℕ) → Raises d e → Raises e f → Raises d f
Raises-trans d e f up more key p at =
    let (q, at_q, le) = up key p at in
    let (r, at_r, le') = more key q at_q in (r, at_r, omega (arith, le, le'))

module _ (c : GeneratorConfig) where
  -- The second of two single signals repeats the first within the window.
  unfoldable pub repeats : Signal → Signal → Bool
  repeats a b =
      is_single a
      && is_single b
      && text_eq (dedupe_key c a) (dedupe_key c b)
      && ltb b.created_at (a.created_at + c.dedupe_window)

  -- No signal repeats an earlier one.
  abbrev pub IsSpaced : List Signal → Type 0
  IsSpaced [] = Unit
  IsSpaced (a ∷ rest) = All (λ b. repeats a b ≡ false) rest × IsSpaced rest

  -- A single signal is remembered.
  abbrev pub IsRecorded : Dict ℕ → Signal → Type 0
  IsRecorded d a =
      (is_single a ≡ false) ⊎ ((p : ℕ) × (lookup (dedupe_key c a) d ≡ some p) × (a.created_at ≤ p))

  -- A single signal stands clear of what is remembered.
  abbrev pub IsClear : Dict ℕ → Signal → Type 0
  IsClear d b =
      (is_single b ≡ false)
      ⊎ (lookup (dedupe_key c b) d ≡ none)
      ⊎ ((p : ℕ) × (lookup (dedupe_key c b) d ≡ some p) × (p + c.dedupe_window ≤ b.created_at))

  -- A step that publishes some signals: what it keeps of the memory, and how the signals stand to it.
  abbrev pub IsStep : List Signal × Generator → Generator → Type 0
  IsStep r g =
      Raises g.last_emitted r.1.last_emitted
      × All (IsRecorded r.1.last_emitted) r.0
      × All (IsClear g.last_emitted) r.0
      × IsSpaced r.0

  clear_pair : (d : Dict ℕ) (a b : Signal) → IsRecorded d a → IsClear d b → repeats a b ≡ false
  unfolding repeats
  clear_pair d a b recorded clear =
      ground (arith, recorded, clear, text_eq_iff (dedupe_key c a) (dedupe_key c b))

  IsRecorded-after :
      (d e : Dict ℕ) (as' : List Signal)
      → Raises d e
      → All (IsRecorded d) as'
      → All (IsRecorded e) as'
  IsRecorded-after d e [] up h = tt
  IsRecorded-after d e (a ∷ as') up (inl group, rest) =
      (inl group, IsRecorded-after d e as' up rest)
  IsRecorded-after d e (a ∷ as') up (inr (p, at, le), rest) =
      let (q, at_q, le') = up (dedupe_key c a) p at in
      (inr (q, at_q, omega (arith, le, le')), IsRecorded-after d e as' up rest)

  IsClear-one : (d e : Dict ℕ) (b : Signal) → Raises d e → IsClear e b → IsClear d b
  IsClear-one d e b up (inl group) = inl group
  IsClear-one d e b up (inr clear) = elim (Option-cases (lookup (dedupe_key c b) d)) [
    | inl never ↦ inr (inl never)
    | inr (p, at) ↦
        let (q, at_q, le) = up (dedupe_key c b) p at in
        elim clear [
          | inl never ↦ absurd (none-some (sym never ∙ at_q))
          | inr (r, at_r, far) ↦
              let same : q ≡ r = some-injective (sym at_q ∙ at_r) in
              inr (inr (p, at, omega (arith, le, same, far)))
        ]
  ]

  IsClear-before :
      (d e : Dict ℕ) (bs : List Signal) → Raises d e → All (IsClear e) bs → All (IsClear d) bs
  IsClear-before d e [] up h = tt
  IsClear-before d e (b ∷ bs) up h = (IsClear-one d e b up h.0, IsClear-before d e bs up h.1)

  clear_pairs :
      (d : Dict ℕ) (a : Signal) (bs : List Signal)
      → IsRecorded d a
      → All (IsClear d) bs
      → All (λ b. repeats a b ≡ false) bs
  clear_pairs d a [] recorded h = tt
  clear_pairs d a (b ∷ bs) recorded h =
      (clear_pair d a b recorded h.0, clear_pairs d a bs recorded h.1)

  IsSpaced-append :
      (d : Dict ℕ) (xs ys : List Signal)
      → All (IsRecorded d) xs
      → All (IsClear d) ys
      → IsSpaced xs
      → IsSpaced ys
      → IsSpaced (xs ++ ys)
  IsSpaced-append d [] ys recorded clear apart apart' = apart'
  IsSpaced-append d (x ∷ xs) ys recorded clear apart apart' = (
    All-append (λ b. repeats x b ≡ false) xs ys apart.0 (clear_pairs d x ys recorded.0 clear),
    IsSpaced-append d xs ys recorded.1 clear apart.1 apart',
  )

  -- Two steps in a row are one.
  pub IsStep-append :
      (o o' : List Signal) (g g' g'' : Generator)
      → IsStep (o, g') g
      → IsStep (o', g'') g'
      → IsStep (o ++ o', g'') g
  IsStep-append o o' g g' g'' first second =
      let d = g.last_emitted in
      let d' = g'.last_emitted in
      let d'' = g''.last_emitted in
      (
        Raises-trans d d' d'' first.0 second.0,
        All-append (IsRecorded d'') o o' (IsRecorded-after d' d'' o second.0 first.1) second.1,
        All-append (IsClear d) o o' first.2 (IsClear-before d d' o' first.0 second.2),
        IsSpaced-append d' o o' first.1 second.2 first.3 second.3,
      )

  pub IsStep-none : (g g' : Generator) → g'.last_emitted ≡ g.last_emitted → IsStep ([], g') g
  IsStep-none g g' same = ((λ key p at. (p, ap (lookup key) same ∙ at, omega arith)), tt, tt, tt)

  pub emit-Raises :
      (key : Text) (now : ℕ) (g : Generator)
      → is_duplicate_key c key now g ≡ false
      → Raises g.last_emitted (emit key now g).last_emitted
  unfolding is_duplicate_key emit
  emit-Raises key now g new k p at = elim (Bool-cases (text_eq key k)) [
    | inl same ↦ (
      now,
      ground (arith, same, lookup-insert {V = ℕ} key k now g.last_emitted),
      ground (arith, text_eq_iff key k, same, at, new),
    )
    | inr other ↦
        (p, ground (arith, other, at, lookup-insert {V = ℕ} key k now g.last_emitted), omega arith)
  ]

  -- What a step means does not depend on the rest of the state.
  pub IsStep-from :
      (r : List Signal × Generator) (g g' : Generator)
      → g'.last_emitted ≡ g.last_emitted
      → IsStep r g'
      → IsStep r g
  IsStep-from r g g' same step =
      subst
        (λ d.
          Raises d r.1.last_emitted
          × All (IsRecorded r.1.last_emitted) r.0
          × All (IsClear d) r.0
          × IsSpaced r.0)
        same step
