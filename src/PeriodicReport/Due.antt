-- ===== src/PeriodicReport/Due.antt =====
-- When reports are sent.
use mathlib.Core.Path.{subst}
use garnet_trader.Prelude.{
  ℕ, ◌+◌, ◌*◌, ◌≤◌, ◌≡◌, refl, sym, inl, inr, Bool, true, false, Option, some, List, [], ◌∷◌, leb,
  arith, if◌then◌else◌, Bool-cases, ◌&&◌,
}
use garnet_trader.Prelude.Dict.{lookup, lookup-insert}
use garnet_trader.Prelude.Text.{Text, text_eq_refl}
use garnet_trader.PeriodicReport.{
  ReportSchedule, period_days, last_sent, mark_sent, is_due_after, is_due, send_report,
  send_reports,
}

last_sent-mark_sent :
    (period : Text) (now : ℕ) (s : ReportSchedule)
    → last_sent period (mark_sent period now s) ≡ some now
unfolding last_sent mark_sent
last_sent-mark_sent period now s =
    ground (arith, text_eq_refl period, lookup-insert {V = Option ℕ} period period (some now) s)

-- A known period that has been reported on.
send_report-known :
    (period : Text) (days a now : ℕ) (announced : Bool) (s : ReportSchedule)
    → lookup period period_days ≡ some days
    → last_sent period s ≡ some a
    → send_report period (now, announced) s ≡ (
        if leb (a + days * 86400) now && announced
        then (true, mark_sent period now s)
        else (false, s))
unfolding send_report is_due is_due_after
send_report-known period days a now announced s known last =
    elim (Bool-cases (leb (a + days * 86400) now)) [
      | inl late ↦ elim (Bool-cases announced) [
        | inl told ↦ ground arith
        | inr failed ↦ ground arith
      ]
      | inr early ↦ ground arith
    ]

-- Each time is at least the gap after the one before, the first after the start.
abbrev pub Spaced : ℕ → ℕ → List ℕ → Type 0
Spaced gap a [] = Unit
Spaced gap a (b ∷ bs) = (a + gap ≤ b) × Spaced gap b bs

send_reports-nil : (period : Text) (s : ReportSchedule) → send_reports period [] s ≡ ([], s)
unfolding send_reports
send_reports-nil period s = refl

send_reports-sent :
    (period : Text) (pass : ℕ × Bool) (passes : List (ℕ × Bool)) (s s₁ : ReportSchedule)
    → send_report period pass s ≡ (true, s₁)
    → send_reports period (pass ∷ passes) s
      ≡ (pass.0 ∷ (send_reports period passes s₁).0, (send_reports period passes s₁).1)
unfolding send_reports
send_reports-sent period pass passes s s₁ e = ground (arith, e)

send_reports-held :
    (period : Text) (pass : ℕ × Bool) (passes : List (ℕ × Bool)) (s s₁ : ReportSchedule)
    → send_report period pass s ≡ (false, s₁)
    → send_reports period (pass ∷ passes) s ≡ send_reports period passes s₁
unfolding send_reports
send_reports-held period pass passes s s₁ e = ground (arith, e)

abbrev pub last_of : ℕ → List ℕ → ℕ
last_of a [] = a
last_of a (b ∷ bs) = last_of b bs

-- What `send_reports-Spaced` says of a result.
abbrev Regular : Text → ℕ → ℕ → List ℕ × ReportSchedule → Type 0
Regular period days a (sent, s') =
    Spaced (days * 86400) a sent
    × ((now : ℕ) (announced : Bool)
        → (send_report period (now, announced) s').0
          ≡ (leb (last_of a sent + days * 86400) now && announced))

-- After a report of a known period, whatever passes follow, its reports are at least a period apart; and
-- the next pass sends one exactly if a period has gone by since the last one that was sent and the
-- report is built and announced.
pub send_reports-Spaced :
    (period : Text) (days a : ℕ) (passes : List (ℕ × Bool)) (s : ReportSchedule)
    → lookup period period_days ≡ some days
    → last_sent period s ≡ some a
    → let (sent, s') = send_reports period passes s in
      Spaced (days * 86400) a sent
      × ((now : ℕ) (announced : Bool)
          → (send_report period (now, announced) s').0
            ≡ (leb (last_of a sent + days * 86400) now && announced))
send_reports-Spaced period days a [] s known last =
    subst (Regular period days a) (sym (send_reports-nil period s)) (
      tt,
      λ now announced. ground (arith, send_report-known period days a now announced s known last),
    )
send_reports-Spaced period days a ((now, announced) ∷ passes) s known last =
    let first = send_report-known period days a now announced s known last in
    elim (Bool-cases (leb (a + days * 86400) now && announced)) [
      | inl due ↦
          let s₁ = mark_sent period now s in
          let (spaced, next) =
            send_reports-Spaced period days now passes s₁ known
              (last_sent-mark_sent period now s) in
          let went : send_report period (now, announced) s ≡ (true, s₁) = ground arith in
          subst (Regular period days a)
            (sym (send_reports-sent period (now, announced) passes s s₁ went))
            ((ground arith, spaced), next)
      | inr held ↦
          let kept : send_report period (now, announced) s ≡ (false, s) = ground arith in
          subst (Regular period days a)
            (sym (send_reports-held period (now, announced) passes s s kept))
            (send_reports-Spaced period days a passes s known last)
    ]
