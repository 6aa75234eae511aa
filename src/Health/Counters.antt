-- ===== src/Health/Counters.antt =====
-- The counters of the monitor, over any events, and the checks that read them.
use garnet_trader.Prelude.{
  ℕ, ◌+◌, ◌<◌, ◌≡◌, refl, inl, inr, ◌↔◌, Bool, true, false, List, [], ◌∷◌, leb, if◌then◌else◌,
  arith, Bool-cases,
}
use garnet_trader.Prelude.Dict.{Dict, lookup, insert, erase, lookup-insert, lookup-erase, Distinct}
use garnet_trader.Prelude.Text.{Text, codes, text_eq, text_eq_iff, text_eq_refl}
use garnet_trader.Health.{
  HealthMonitor, record_data_failure, record_data_success, record_strategy_error,
  record_strategy_success, errors_of, check_strategy_errors, broken, broken_status,
}

pub data Event : Type 0 where
  data_failure : Event
  data_success : Event
  strategy_error : Text → Event
  strategy_success : Text → Event

-- The hits since the last stop, in a history that has its latest event first.
unfoldable pub count_since : (Event → Bool) → (Event → Bool) → List Event → ℕ
count_since stop hit [] = 0
count_since stop hit (e ∷ es) =
    let earlier = count_since stop hit es in
    if stop e then 0 else if hit e then earlier + 1 else earlier

abbrev pub is_failure : Event → Bool
is_failure data_failure = true
is_failure _ = false

abbrev pub is_success : Event → Bool
is_success data_success = true
is_success _ = false

abbrev pub is_error_of : Text → Event → Bool
is_error_of name (strategy_error other) = text_eq other name
is_error_of name _ = false

abbrev pub is_success_of : Text → Event → Bool
is_success_of name (strategy_success other) = text_eq other name
is_success_of name _ = false

errors_of-insert :
    (name other : Text) (n : ℕ) (d : Dict ℕ)
    → errors_of name (insert other n d) ≡ (if text_eq other name then n else errors_of name d)
unfolding errors_of
errors_of-insert name other n d = ground (arith, lookup-insert {V = ℕ} other name n d)

errors_of-erase :
    (name other : Text) (d : Dict ℕ)
    → errors_of name (erase other d) ≡ (if text_eq other name then 0 else errors_of name d)
unfolding errors_of
errors_of-erase name other d = ground (arith, lookup-erase {V = ℕ} other name d)

module _ {F : Type 0} where
  pub apply : Event → HealthMonitor F → HealthMonitor F
  apply data_failure m = record_data_failure m
  apply data_success m = record_data_success m
  apply (strategy_error name) m = record_strategy_error name m
  apply (strategy_success name) m = record_strategy_success name m

  -- The monitor after a history, its latest event first.
  pub replay : List Event → HealthMonitor F → HealthMonitor F
  replay [] m = m
  replay (e ∷ es) m = apply e (replay es m)

  apply-counts :
      (e : Event) (m : HealthMonitor F)
      → ((apply e m).consecutive_data_failures ≡ (
          if is_success e
          then 0
          else if is_failure e
          then m.consecutive_data_failures + 1
          else m.consecutive_data_failures))
        × ((name : Text)
            → errors_of name (apply e m).strategy_errors ≡ (
                if is_success_of name e
                then 0
                else if is_error_of name e
                then errors_of name m.strategy_errors + 1
                else errors_of name m.strategy_errors))
  unfolding apply record_data_failure record_data_success record_strategy_error
      record_strategy_success
  apply-counts data_failure m = (refl, λ name. refl)
  apply-counts data_success m = (refl, λ name. refl)
  apply-counts (strategy_error other) m = (
    refl,
    λ name. ground (
      arith,
      text_eq_iff other name,
      errors_of-insert name other (errors_of other m.strategy_errors + 1) m.strategy_errors,
    ),
  )
  apply-counts (strategy_success other) m =
      (refl, λ name. ground (arith, errors_of-erase name other m.strategy_errors))

  errors_of-empty :
      (name : Text) (m : HealthMonitor F)
      → m.strategy_errors ≡ []
      → errors_of name m.strategy_errors ≡ 0
  unfolding errors_of lookup
  errors_of-empty name m g = rw g refl

  -- From a new monitor, the failures counted are those since the last success of the data source, and
  -- the errors counted of a strategy are those since its own last success.
  pub replay-counts :
      (es : List Event) (m : HealthMonitor F)
      → m.consecutive_data_failures ≡ 0
      → m.strategy_errors ≡ []
      → let m' = replay es m in
        (m'.consecutive_data_failures ≡ count_since is_success is_failure es)
        × ((name : Text)
            → errors_of name m'.strategy_errors
              ≡ count_since (is_success_of name) (is_error_of name) es)
  unfolding replay count_since
  replay-counts [] m h g = (h, λ name. errors_of-empty name m g)
  replay-counts (e ∷ es) m h g =
      let (failures, errors) = replay-counts es m h g in
      let (failures₁, errors₁) = apply-counts e (replay es m) in
      (ground (arith, failures, failures₁), λ name. ground (arith, errors name, errors₁ name))

broken-empty :
    (threshold : ℕ) (counts : Dict ℕ)
    → 0 < threshold
    → Distinct counts
    → (broken threshold counts ≡ []) ↔ ((name : Text) → errors_of name counts < threshold)
unfolding broken errors_of lookup
broken-empty threshold [] above distinct = (λ _ name. above, λ _. refl)
broken-empty threshold ((other, n) ∷ counts) above distinct =
    let rest = broken-empty threshold counts above distinct.1 in
    (
      λ e name. elim (Bool-cases (leb threshold n)) [
        | inl many ↦ ground (arith, many)
        | inr few ↦ let below = rest.0 (ground (arith, few)) name in ground (arith, few)
      ],
      λ each.
          let few : n < threshold = ground (arith, each other, text_eq_refl other) in
          let fewer : (name : Text) → errors_of name counts < threshold =
            λ name. ground (arith, each name, above, distinct.0, text_eq_iff other name) in
          let none_broken = rest.1 fewer in ground (arith, few),
    )

broken_status-ok : (d : Dict ℕ) → (broken_status d ≡ codes "ok") ↔ (d ≡ [])
broken_status-ok [] = (λ _. refl, λ _. refl)
broken_status-ok (x ∷ []) = (λ e. cc, λ e. cc)
broken_status-ok (x ∷ y ∷ d) = (λ e. cc, λ e. cc)

-- With one error count for each strategy and a positive threshold, the check of the strategies is in
-- order exactly if every strategy has fewer errors than the threshold.
pub check_strategy_errors_lem :
    (counts : Dict ℕ) (threshold : ℕ)
    → 0 < threshold
    → Distinct counts
    → ((check_strategy_errors counts threshold).status ≡ codes "ok")
      ↔ ((name : Text) → errors_of name counts < threshold)
unfolding check_strategy_errors
check_strategy_errors_lem counts threshold above distinct =
    let (to_none, to_each) = broken-empty threshold counts above distinct in
    let (ok_none, none_ok) = broken_status-ok (broken threshold counts) in
    (λ e. to_none (ok_none e), λ each. none_ok (to_each each))
