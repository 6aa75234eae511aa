-- ===== src/Prelude/Dict.antt =====
-- A Python `dict` with `str` keys, in insertion order. A table with a text primary key is one too.
use garnet_trader.Prelude.Sort.{place, sort}
use garnet_trader.Prelude.{
  Bool, false, Bool-cases, inl, inr, ◌≡◌, refl, Option, none, some, List, [], ◌∷◌, arith,
  if◌then◌else◌,
}
use garnet_trader.Prelude.Text.{Text, text_eq, text_eq_iff}

abbrev pub Dict {ℓ} : Type ℓ → Type ℓ
Dict V = List (Text × V)

module _ {ℓ} {V : Type ℓ} where
  -- `d.get(k)`
  unfoldable pub lookup : Text → Dict V → Option V
  lookup k [] = none
  lookup k ((j, v) ∷ d) = if text_eq j k then some v else lookup k d

  -- `d[k] = v`
  unfoldable pub insert : Text → V → Dict V → Dict V
  insert k v [] = (k, v) ∷ []
  insert k v ((j, w) ∷ d) = if text_eq j k then (j, v) ∷ d else (j, w) ∷ insert k v d

  -- `d.pop(k, None)`
  unfoldable pub erase : Text → Dict V → Dict V
  erase k [] = []
  erase k ((j, w) ∷ d) = let rest = erase k d in if text_eq j k then rest else (j, w) ∷ rest

  pub lookup-insert :
      (k j : Text) (v : V) (d : Dict V)
      → lookup j (insert k v d) ≡ (if text_eq k j then some v else lookup j d)
  unfolding lookup insert
  lookup-insert k j v [] = refl
  lookup-insert k j v ((i, w) ∷ d) =
      ground (arith, text_eq_iff k j, text_eq_iff i k, text_eq_iff i j, lookup-insert k j v d)

  pub lookup-erase :
      (k j : Text) (d : Dict V) → lookup j (erase k d) ≡ (if text_eq k j then none else lookup j d)
  unfolding lookup erase
  lookup-erase k j [] = ground arith
  lookup-erase k j ((i, w) ∷ d) =
      ground (arith, text_eq_iff k j, text_eq_iff i k, text_eq_iff i j, lookup-erase k j d)

  -- No key twice.
  abbrev pub Distinct : Dict V → Type ℓ
  Distinct [] = Unit
  Distinct ((k, v) ∷ d) = (lookup k d ≡ none) × Distinct d

  pub insert-Distinct : (k : Text) (v : V) (d : Dict V) → Distinct d → Distinct (insert k v d)
  unfolding insert lookup
  insert-Distinct k v [] h = (refl, tt)
  insert-Distinct k v ((j, w) ∷ d) h = elim (Bool-cases (text_eq j k)) [
    | inl same ↦ rw same h
    | inr other ↦ rw other (
      ground (arith, text_eq_iff k j, text_eq_iff j k, lookup-insert k j v d),
      insert-Distinct k v d h.1,
    )
  ]

  pub erase-Distinct : (k : Text) (d : Dict V) → Distinct d → Distinct (erase k d)
  unfolding erase lookup
  erase-Distinct k [] h = tt
  erase-Distinct k ((j, w) ∷ d) h = elim (Bool-cases (text_eq j k)) [
    | inl same ↦ rw same (erase-Distinct k d h.1)
    | inr other ↦ rw other (ground (arith, lookup-erase k j d), erase-Distinct k d h.1)
  ]

  lookup-place :
      (before : Text × V → Text × V → Bool) (k j : Text) (v : V) (d : Dict V)
      → lookup k d ≡ none
      → lookup j (place before (k, v) d) ≡ lookup j ((k, v) ∷ d)
  unfolding lookup place
  lookup-place before k j v [] h = refl
  lookup-place before k j v ((i, w) ∷ d) h =
      ground (arith, text_eq_iff i j, text_eq_iff k j, text_eq_iff i k, lookup-place before k j v d)

  place-Distinct :
      (before : Text × V → Text × V → Bool) (k : Text) (v : V) (d : Dict V)
      → lookup k d ≡ none
      → Distinct d
      → Distinct (place before (k, v) d)
  unfolding lookup place
  place-Distinct before k v [] h distinct = (refl, tt)
  place-Distinct before k v ((i, w) ∷ d) h distinct = elim (Bool-cases (before (k, v) (i, w))) [
    | inl first ↦ rw first (h, distinct)
    | inr later ↦ rw later (
      ground (arith, text_eq_iff i k, text_eq_iff k i, lookup-place before k i v d),
      place-Distinct before k v d (ground arith) distinct.1,
    )
  ]

  -- Sorting distinct rows changes no lookup.
  pub lookup-sort :
      (before : Text × V → Text × V → Bool) (d : Dict V)
      → Distinct d
      → Distinct (sort before d) × ((j : Text) → lookup j (sort before d) ≡ lookup j d)
  unfolding sort lookup
  lookup-sort before [] h = (tt, λ j. refl)
  lookup-sort before ((k, v) ∷ d) h =
      let (distinct, same) = lookup-sort before d h.1 in
      let fresh : lookup k (sort before d) ≡ none = ground (arith, same k) in
      (
        place-Distinct before k v (sort before d) fresh distinct,
        λ j. ground (arith, same j, lookup-place before k j v (sort before d) fresh),
      )

  -- A key of the rest is not the key of a distinct first row.
  pub lookup-rest :
      (k j : Text) (v w : V) (d : Dict V)
      → lookup k d ≡ none
      → lookup j d ≡ some w
      → (text_eq k j ≡ false) × (lookup j ((k, v) ∷ d) ≡ some w)
  unfolding lookup
  lookup-rest k j v w d h g = ground (arith, text_eq_iff k j)
