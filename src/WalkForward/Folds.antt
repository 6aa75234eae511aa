-- ===== src/WalkForward/Folds.antt =====
-- The folds that fit a history, and that the loop which makes them ends.
use native.Mathlib.Nat.{suc-mul}
use garnet_trader.Prelude.Int.{ℤ, pos, negsuc, ◌+ℤ◌, leb_ℤ, pos_part, int_laws, +ℤ_parts}
use garnet_trader.Prelude.{
  ap, refl, sym, ℕ, zero, suc, ◌+◌, ◌*◌, ◌≤◌, ◌<◌, ◌≡◌, ◌↔◌, inl, inr, true, false, Option, none,
  some, List, [], ◌∷◌, leb, arith, Bool-cases,
}
use garnet_trader.Prelude.Result.{ok}
use garnet_trader.WalkForward.{Fold, fold_at, fold_loop, step_of, build_folds}

pos_sum : (a b : ℕ) → pos a +ℤ pos b ≡ pos (a + b)
pos_sum a b = omega int_laws

-- The fold that starts at a day.
abbrev pub nth_fold : ℕ → ℕ → ℕ → ℕ → Fold
nth_fold train test start index = record {
  index = index;
  train_start = pos start;
  train_end = pos (start + train);
  test_end = pos (start + train + test);
}

-- A number of folds, each starting a step after the one before, its test right after its training.
unfoldable pub steps : ℕ → ℕ → ℕ → ℕ → ℕ → ℕ → List Fold
steps zero train test step start index = []
steps (suc n) train test step start index =
    nth_fold train test start index ∷ steps n train test step (start + step) (index + 1)

fold_at-pos :
    (train test start index : ℕ)
    → fold_at train test (pos start) index ≡ nth_fold train test start index
fold_at-pos train test start index =
    let same : start + (train + test) ≡ start + train + test = omega arith in
    rw (pos_sum start train, pos_sum start (train + test), same) refl

module _ (total train test step : ℕ) (forward : 1 ≤ step) (trained : 1 ≤ train) where
  fold_loop-full :
      (fuel start index : ℕ)
      → leb (start + (train + test)) total ≡ false
      → fold_loop (suc fuel) total train test (pos step) (pos start) index ≡ some []
  unfolding fold_loop
  fold_loop-full fuel start index full =
      let over : leb_ℤ (pos start +ℤ pos (train + test)) (pos total) ≡ false =
        rw (pos_sum start (train + test)) (ground (arith, full)) in
      rw over refl

  fold_loop-room :
      (fuel start index : ℕ) (folds : List Fold)
      → leb (start + (train + test)) total ≡ true
      → fold_loop fuel total train test (pos step) (pos (start + step)) (index + 1) ≡ some folds
      → fold_loop (suc fuel) total train test (pos step) (pos start) index
        ≡ some (nth_fold train test start index ∷ folds)
  unfolding fold_loop
  fold_loop-room fuel start index folds room rest =
      let fits : leb_ℤ (pos start +ℤ pos (train + test)) (pos total) ≡ true =
        rw (pos_sum start (train + test)) (ground (arith, room)) in
      rw (fits, pos_sum start step, rest, fold_at-pos train test start index) refl

  fold_loop_lem :
      (fuel start index : ℕ)
      → 1 ≤ fuel
      → total < fuel + start
      → (n : ℕ) × (fold_loop fuel total train test (pos step) (pos start) index
          ≡ some (steps n train test step start index))
        × ((i : ℕ) → (i < n) ↔ (start + i * step + train + test ≤ total))
  unfolding steps
  fold_loop_lem zero start index some_is enough = absurd (omega arith)
  fold_loop_lem (suc fuel) start index some_is enough =
      elim (Bool-cases (leb (start + (train + test)) total)) [
        | inr full ↦ (
          0,
          fold_loop-full fuel start index full,
          λ i. ((λ lt. absurd (omega arith)), (λ fits. absurd (ground (arith, full)))),
        )
        | inl room ↦
            let (n, e, fits) =
              fold_loop_lem fuel (start + step) (index + 1) (ground (arith, room))
                (ground (arith, room)) in
            (
              suc n,
              fold_loop-room fuel start index (steps n train test step (start + step) (index + 1))
                  room e,
              count room n fits,
            )
      ]
    where
      count :
          leb (start + (train + test)) total ≡ true
          → (n : ℕ) → ((i : ℕ) → (i < n) ↔ (start + step + i * step + train + test ≤ total))
          → (i : ℕ) → (i < suc n) ↔ (start + i * step + train + test ≤ total)
      count room n fits zero = ((λ lt. ground (arith, room)), (λ le. omega arith))
      count room n fits (suc i) = (
        (λ lt. omega (arith, suc-mul i step, (fits i).0 (omega (arith, lt)))),
        (λ le. omega (arith, (fits i).1 (omega (arith, suc-mul i step, le)))),
      )

-- The step of the folds: the one that is given, and the length of the test where none or 0 is. A
-- step that is negative is none.
abbrev pub IsStep : Option ℤ → ℕ → ℕ → Type 0
IsStep none test step = step ≡ test
IsStep (some (pos zero)) test step = step ≡ test
IsStep (some (pos (suc n))) test step = step ≡ suc n
IsStep (some (negsuc n)) test step = ⊥

IsStep-step_of :
    (step_days : Option ℤ) (test step : ℕ)
    → IsStep step_days test step
    → 1 ≤ test
    → (step_of step_days test ≡ pos step) × (1 ≤ step)
IsStep-step_of none test step h tested = (ap pos (sym h), omega (arith, h))
IsStep-step_of (some (pos zero)) test step h tested = (ap pos (sym h), omega (arith, h))
IsStep-step_of (some (pos (suc n))) test step h tested = (ap pos (sym h), omega (arith, h))
IsStep-step_of (some (negsuc n)) test step h tested = absurd h

-- For periods that are not empty and a step that is not negative, where 0 or none stands for the
-- length of the test, the loop ends, with every fold whose test ends within the history and no other:
-- each starts a step after the one before, and its test follows its training. Of a negative step,
-- with which the loop does not end, this says nothing.
pub build_folds_lem :
    (total train test step : ℕ) (step_days : Option ℤ)
    → 1 ≤ train
    → 1 ≤ test
    → IsStep step_days test step
    → (n : ℕ) × (build_folds total train test step_days ≡ ok (some (steps n train test step 0 0)))
      × ((i : ℕ) → (i < n) ↔ (i * step + train + test ≤ total))
unfolding build_folds
build_folds_lem total train test step step_days trained tested given =
    let (same, forward) = IsStep-step_of step_days test step given tested in
    let (n, e, fits) =
      fold_loop_lem total train test step forward trained (suc total) 0 0 (omega arith)
        (omega arith) in
    let looped : fold_loop (suc total) total train test (step_of step_days test) (pos 0) 0
        ≡ some (steps n train test step 0 0) =
      rw same e in
    (
      n,
      ground (arith, looped),
      λ i. ((λ lt. omega (arith, (fits i).0 lt)), (λ le. (fits i).1 (omega (arith, le)))),
    )

low_sum : (a b : ℤ) → pos_part a ≡ 0 → pos_part b ≡ 0 → pos_part (a +ℤ b) ≡ 0
unfolding ◌+ℤ◌
low_sum a b low lower = ground (arith, low, lower)

-- A step that is negative spends any fuel: the start falls, and the condition of the loop stays true.
fold_loop-backward :
    (total train test n fuel index : ℕ) (start : ℤ)
    → train + test ≤ total
    → pos_part start ≡ 0
    → fold_loop fuel total train test (negsuc n) start index ≡ none
unfolding fold_loop
fold_loop-backward total train test n zero index start short low = refl
fold_loop-backward total train test n (suc fuel) index start short low =
    let next =
      fold_loop-backward total train test n fuel (index + 1) (start +ℤ negsuc n) short
        (low_sum start (negsuc n) low refl) in
    let sum = +ℤ_parts start (pos (train + test)) in
    let fits : leb_ℤ (start +ℤ pos (train + test)) (pos total) ≡ true =
      ground (arith, sum, low, short) in
    rw (fits, next) refl
