-- ===== src/PeriodicReport/Tests.antt =====
-- Daily reports over three passes.
use garnet_trader.Prelude.{
  ℕ, ◌+◌, ◌*◌, ◌≡◌, refl, Bool, true, false, ◌&&◌, some, List, [], ◌∷◌, leb,
}
use garnet_trader.Prelude.Dict.{lookup}
use garnet_trader.Prelude.Text.{codes, text_eq}
use garnet_trader.PeriodicReport.{ReportSchedule, send_report, send_reports, last_sent}
use garnet_trader.PeriodicReport.Due.{Spaced, last_of, send_reports-Spaced}

abbrev noted : ReportSchedule
noted = (codes "daily", some 1000) ∷ []

abbrev passes : List (ℕ × Bool)
passes = (50000, true) ∷ (90000, false) ∷ (90300, true) ∷ []

send_reports-Spaced_example :
    let (sent, s') = send_reports (codes "daily") passes noted in
    Spaced (1 * 86400) 1000 sent
    × ((now : ℕ) (announced : Bool)
        → (send_report (codes "daily") (now, announced) s').0
          ≡ (leb (last_of 1000 sent + 1 * 86400) now && announced))
unfolding lookup text_eq last_sent
send_reports-Spaced_example = send_reports-Spaced (codes "daily") 1 1000 passes noted refl refl
