-- ===== src/Prelude/Sort.antt =====
-- Python's stable sort by a key: an element goes before the first one that it may stand before.
use mathlib.Core.List.{Perm}
use mathlib.Core.List.Perm
use mathlib.Core.Path.{subst}
use garnet_trader.Prelude.{
  ◌≡◌, inl, inr, Bool, true, false, List, [], ◌∷◌, if◌then◌else◌, All, Bool-cases,
}

module _ {ℓ} {A : Type ℓ} (before : A → A → Bool) where
  unfoldable pub place : A → List A → List A
  place x [] = x ∷ []
  place x (y ∷ ys) = if before x y then x ∷ y ∷ ys else y ∷ place x ys

  unfoldable pub sort : List A → List A
  unfolding place
  sort [] = []
  sort (x ∷ xs) = place x (sort xs)

  -- Every element may stand before all that follow it.
  abbrev pub IsSorted : List A → Type ℓ
  IsSorted [] = Unit
  IsSorted (x ∷ xs) = All (λ y. before x y ≡ true) xs × IsSorted xs

module _ {ℓ} {A : Type ℓ} (before : A → A → Bool) where
  pub place-perm : (x : A) (ys : List A) → Perm (place before x ys) (x ∷ ys)
  unfolding place
  place-perm x [] = Perm.refl _
  place-perm x (y ∷ ys) = elim (Bool-cases (before x y)) [
    | inl first ↦ rw first (Perm.refl _)
    | inr later ↦ rw later (Perm.trans (Perm.cons y (place-perm x ys)) (Perm.swap x y ys))
  ]

  pub sort-perm : (xs : List A) → Perm (sort before xs) xs
  unfolding sort
  sort-perm [] = Perm.refl _
  sort-perm (x ∷ xs) = Perm.trans (place-perm x (sort before xs)) (Perm.cons x (sort-perm xs))

  pub All-place {κ} :
      (P : A → Type κ) (x : A) (ys : List A) → P x → All P ys → All P (place before x ys)
  unfolding place
  All-place P x [] p h = (p, tt)
  All-place P x (y ∷ ys) p h = elim (Bool-cases (before x y)) [
    | inl first ↦ rw first (p, h)
    | inr later ↦ rw later (h.0, All-place P x ys p h.1)
  ]

  pub All-sort {κ} : (P : A → Type κ) (xs : List A) → All P xs → All P (sort before xs)
  unfolding sort
  All-sort P [] h = tt
  All-sort P (x ∷ xs) h = All-place P x (sort before xs) h.0 (All-sort P xs h.1)

module _ {ℓ} {A : Type ℓ} (before : A → A → Bool) where
  pub All-place_back {κ} :
      (P : A → Type κ) (x : A) (ys : List A) → All P (place before x ys) → P x × All P ys
  unfolding place
  All-place_back P x [] h = h
  All-place_back P x (y ∷ ys) h = elim (Bool-cases (before x y)) [
    | inl first ↦
        let all : All P (x ∷ y ∷ ys) =
          subst (λ b. All P (if b then x ∷ y ∷ ys else y ∷ place before x ys)) first h in
        all
    | inr later ↦
        let all : All P (y ∷ place before x ys) =
          subst (λ b. All P (if b then x ∷ y ∷ ys else y ∷ place before x ys)) later h in
        let rest = All-place_back P x ys all.1 in (rest.0, (all.0, rest.1))
  ]

  pub All-sort_back {κ} : (P : A → Type κ) (xs : List A) → All P (sort before xs) → All P xs
  unfolding sort
  All-sort_back P [] h = tt
  All-sort_back P (x ∷ xs) h =
      let two = All-place_back P x (sort before xs) h in (two.0, All-sort_back P xs two.1)

module _ {ℓ} {A : Type ℓ} (before : A → A → Bool)
    (trans : (x y z : A) → before x y ≡ true → before y z ≡ true → before x z ≡ true)
    (total : (x y : A) → before x y ≡ false → before y x ≡ true) where
  All-before :
      (x y : A) (zs : List A)
      → before x y ≡ true
      → All (λ z. before y z ≡ true) zs
      → All (λ z. before x z ≡ true) zs
  All-before x y [] e h = tt
  All-before x y (z ∷ zs) e h = (trans x y z e h.0, All-before x y zs e h.1)

  place-IsSorted : (x : A) (ys : List A) → IsSorted before ys → IsSorted before (place before x ys)
  unfolding place
  place-IsSorted x [] h = (tt, tt)
  place-IsSorted x (y ∷ ys) h = elim (Bool-cases (before x y)) [
    | inl first ↦ rw first ((first, All-before x y ys first h.0), h)
    | inr later ↦ rw later (
      All-place before (λ z. before y z ≡ true) x ys (total x y later) h.0,
      place-IsSorted x ys h.1,
    )
  ]

  pub sort-IsSorted : (xs : List A) → IsSorted before (sort before xs)
  unfolding sort
  sort-IsSorted [] = tt
  sort-IsSorted (x ∷ xs) = place-IsSorted x (sort before xs) (sort-IsSorted xs)
