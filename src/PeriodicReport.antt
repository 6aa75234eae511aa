-- ===== src/PeriodicReport.antt =====
-- monitoring/periodic_report.py: when a report is due. Times are seconds. `none` stands for a time in
-- the file that is not readable; the file itself and the text of a report are left out.
pub mod Due
mod Tests
use garnet_trader.Prelude.{
  ℕ, ◌+◌, ◌*◌, Bool, true, false, Option, none, some, List, [], ◌∷◌, leb, if◌then◌else◌,
}
use garnet_trader.Prelude.Dict.{Dict, lookup, insert}
use garnet_trader.Prelude.Result.{Result, ok, raised}
use garnet_trader.Prelude.Text.{Text, codes}

abbrev pub ReportSchedule : Type 0
ReportSchedule = Dict (Option ℕ)

abbrev pub period_days : Dict ℕ
period_days = (codes "daily", 1) ∷ (codes "weekly", 7) ∷ []

unfoldable pub last_sent : Text → ReportSchedule → Option ℕ
last_sent period s = elim (lookup period s) [ none ↦ none | some sent ↦ sent ]

unfoldable pub mark_sent : Text → ℕ → ReportSchedule → ReportSchedule
mark_sent period now s = insert period (some now) s

unfoldable pub is_due_after : Text → ℕ → ℕ → ReportSchedule → Bool × ReportSchedule
is_due_after period days now s = elim (last_sent period s) [
  | none ↦ (false, mark_sent period now s)
  | some previous ↦ (leb (previous + days * 86400) now, s)
]

-- The first call is not due: it only notes the time.
unfoldable pub is_due : Text → ℕ → ReportSchedule → Result Bool × ReportSchedule
is_due period now s = elim (lookup period period_days) [
  | none ↦ (raised, s)
  | some days ↦ let (due, s') = is_due_after period days now s in (ok due, s')
]

-- One period of `_maybe_send_periodic_report` in main.py, at a time, and whether the report is built and
-- announced without an exception: whether it is sent, and the schedule. The clock stands still in a pass.
unfoldable pub send_report : Text → ℕ × Bool → ReportSchedule → Bool × ReportSchedule
send_report period (now, announced) s =
    let (due, s') = is_due period now s in
    elim due [
      | raised ↦ (false, s')
      | ok false ↦ (false, s')
      | ok true ↦ if announced then (true, mark_sent period now s') else (false, s')
    ]

-- The times at which a report is sent, of a sequence of passes.
unfoldable pub send_reports : Text → List (ℕ × Bool) → ReportSchedule → List ℕ × ReportSchedule
send_reports period [] s = ([], s)
send_reports period (pass ∷ passes) s =
    let (sent, s₁) = send_report period pass s in
    let (rest, s₂) = send_reports period passes s₁ in
    ((elim sent [ true ↦ pass.0 ∷ rest | false ↦ rest ]), s₂)
