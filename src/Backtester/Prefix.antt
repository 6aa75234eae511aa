-- ===== src/Backtester/Prefix.antt =====
-- A backtest looks at no day after the one that settles its signals.
use mathlib.Core.Path.{subst}
use mathlib.Core.List.{append_assoc}
use native.Mathlib.Nat.{add-zero, add-suc}
use garnet_trader.Prelude.{
  ℕ, zero, suc, ◌+◌, ◌-◌, ◌≤◌, ◌<◌, ◌≡◌, refl, sym, ap, ◌∙◌, inl, inr, List, [], ◌∷◌, ◌++◌, length,
  take, length-append, arith, Bool-cases, ◌==◌, if◌then◌else◌, append_nil,
}
use garnet_trader.Prelude.Result.{Result, ok, raised}
use garnet_trader.Prelude.Text.{Text}
use garnet_trader.CorporateActions.{Candle}
use garnet_trader.Payoff.Contracts.{OptionChain}
use garnet_trader.Backtester.{SignalOutcome}
use garnet_trader.Backtester.Days.{
  SignalBacktester, bar_at, on_bars, run_day, then_day, is_step, run_days, run_symbol,
}

bar_at-append :
    (i : ℕ) (h more : List (Candle ℕ)) → i < length h → bar_at i (h ++ more) ≡ bar_at i h
unfolding bar_at
bar_at-append i [] more lt = absurd (omega arith)
bar_at-append zero (x ∷ h) more lt = refl
bar_at-append (suc i) (x ∷ h) more lt = bar_at-append i h more (omega arith)

take-append : (i : ℕ) (h more : List (Candle ℕ)) → i ≤ length h → take i (h ++ more) ≡ take i h
take-append zero h more le = refl
take-append (suc i) [] more le = absurd (omega arith)
take-append (suc i) (x ∷ h) more le = ap (λ t. x ∷ t) (take-append i h more (omega arith))

-- The outcomes of some days are those that come first over more days; where more days raise,
-- nothing is said.
abbrev pub IsBeginning : Result (List SignalOutcome) → Result (List SignalOutcome) → Type 0
IsBeginning firsts raised = Unit
IsBeginning raised (ok outs) = ⊥
IsBeginning (ok firsts) (ok outs) = (rest : List SignalOutcome) × (outs ≡ firsts ++ rest)

then_day-IsBeginning :
    (firsts before day : Result (List SignalOutcome))
    → IsBeginning firsts before
    → IsBeginning firsts (then_day before day)
unfolding then_day
then_day-IsBeginning firsts raised day h = tt
then_day-IsBeginning firsts (ok outs) raised h = tt
then_day-IsBeginning raised (ok outs) (ok more) h = absurd h
then_day-IsBeginning (ok firsts) (ok outs) (ok more) (rest, e) =
    (rest ++ more, ap (λ os. os ++ more) e ∙ append_assoc firsts rest more)

module _ (b : SignalBacktester) (symbol : Text) (chain : OptionChain) where
  run_day-append :
      (i : ℕ) (h more : List (Candle ℕ))
      → i + b.horizon_days < length h
      → run_day b symbol chain (h ++ more) i ≡ run_day b symbol chain h i
  unfolding run_day
  run_day-append i h more lt =
      let day = on_bars b symbol chain in
      ap (λ t. day t (bar_at i (h ++ more)) (bar_at (i + b.horizon_days) (h ++ more)))
        (take-append (suc i) h more (omega arith))
      ∙ ap (λ e. day (take (suc i) h) e (bar_at (i + b.horizon_days) (h ++ more)))
          (bar_at-append i h more (omega arith))
      ∙ ap (day (take (suc i) h) (bar_at i h)) (bar_at-append (i + b.horizon_days) h more lt)

  run_days-append :
      (n : ℕ) (h more : List (Candle ℕ))
      → n ≤ length h - b.horizon_days
      → run_days b symbol chain (h ++ more) n ≡ run_days b symbol chain h n
  unfolding run_days
  run_days-append zero h more le = refl
  run_days-append (suc n) h more le =
      let choose : Result (List SignalOutcome)
          → Result (List SignalOutcome)
          → Result (List SignalOutcome) =
        λ before day. if is_step b n then then_day before day else before in
      ap (λ before. choose before (run_day b symbol chain (h ++ more) n))
        (run_days-append n h more (omega arith))
      ∙ ap (choose (run_days b symbol chain h n)) (run_day-append n h more (omega arith))

  run_days-IsBeginning :
      (n k : ℕ) (h : List (Candle ℕ))
      → IsBeginning (run_days b symbol chain h n) (run_days b symbol chain h (n + k))
  unfolding run_days
  run_days-IsBeginning n zero h = rw add-zero (itself (run_days b symbol chain h n))
    where
      itself : (r : Result (List SignalOutcome)) → IsBeginning r r
      itself raised = tt
      itself (ok outs) = ([], sym (append_nil outs))
  run_days-IsBeginning n (suc k) h = elim (Bool-cases (is_step b (n + k))) [
    | inl step ↦
        let same : run_days b symbol chain h (n + suc k)
            ≡ then_day (run_days b symbol chain h (n + k)) (run_day b symbol chain h (n + k)) =
          rw add-suc (ground (arith, step)) in
        subst (IsBeginning (run_days b symbol chain h n)) (sym same) (
          then_day-IsBeginning (run_days b symbol chain h n) (run_days b symbol chain h (n + k))
            (run_day b symbol chain h (n + k)) (run_days-IsBeginning n k h))
    | inr between ↦
        let same : run_days b symbol chain h (n + suc k) ≡ run_days b symbol chain h (n + k) =
          rw add-suc (ground (arith, between)) in
        subst (IsBeginning (run_days b symbol chain h n)) (sym same) (run_days-IsBeginning n k h)
  ]

  -- A backtest over a longer history, where no strategy raises in it, begins with the outcomes over
  -- the shorter one: what a strategy sees and how its signals are settled on a day depends on no bar
  -- after the horizon of that day.
  pub run_symbol-IsBeginning :
      (h more : List (Candle ℕ))
      → IsBeginning (run_symbol b symbol chain h) (run_symbol b symbol chain (h ++ more))
  unfolding run_symbol
  run_symbol-IsBeginning h more = elim (Bool-cases (b.step_days == 0)) [
    | inl still ↦
        let same : run_symbol b symbol chain (h ++ more) ≡ raised = ground (arith, still) in
        subst (IsBeginning (run_symbol b symbol chain h)) (sym same) tt
    | inr moving ↦
        let n = length h - b.horizon_days in
        let n' = length (h ++ more) - b.horizon_days in
        let short : run_symbol b symbol chain h ≡ run_days b symbol chain h n =
          ground (arith, moving) in
        let long : run_symbol b symbol chain (h ++ more) ≡ run_days b symbol chain (h ++ more) n' =
          ground (arith, moving) in
        let sum : n + (n' - n) ≡ n' = omega (arith, length-append h more) in
        let begins = run_days-IsBeginning n (n' - n) (h ++ more) in
        let first : run_days b symbol chain (h ++ more) n ≡ run_symbol b symbol chain h =
          run_days-append n h more (omega arith) ∙ sym short in
        let all : run_days b symbol chain (h ++ more) (n + (n' - n))
            ≡ run_symbol b symbol chain (h ++ more) =
          ap (run_days b symbol chain (h ++ more)) sum ∙ sym long in
        subst (λ r. IsBeginning r (run_symbol b symbol chain (h ++ more))) first
          (subst (IsBeginning (run_days b symbol chain (h ++ more) n)) all begins)
  ]
