-- ===== src/Health/Tests.antt =====
-- A data source that fails, and the alerts of it.
use garnet_trader.Prelude.{
  ℕ, ◌+◌, ◌≡◌, refl, ◌&&◌, ◌||◌, true, false, List, [], ◌∷◌, arith, leb, ltb, All,
}
use garnet_trader.Prelude.Dict.{lookup}
use garnet_trader.Prelude.Text.{Text, codes, text_eq}
use garnet_trader.Health.{
  HealthCheck, HealthMonitor, AlertThrottle, errors_of, is_alert, severity, severity_of,
  should_send, record_alert, announce,
}
use garnet_trader.Health.Throttle.{announce-throttled, announce-resolved}
use garnet_trader.Health.Counters.{
  data_failure, data_success, strategy_error, replay, count_since, is_success_of, is_error_of,
  replay-counts,
}

abbrev alert : Text → HealthCheck
alert status = record { key = codes "data_source"; status = status }

abbrev other_alert : HealthCheck
other_alert = record { key = codes "stale_quotes"; status = codes "warning" }

abbrev silent : AlertThrottle
silent = record { cooldown = 21600; sent = [] }

abbrev noticed : List (HealthCheck × ℕ)
noticed = (alert (codes "warning"), 4600) ∷ (other_alert, 4600) ∷ []

-- The same warning an hour later is held back.
announce-throttled_example :
    let (sent, t') = announce noticed (record_alert (alert (codes "warning")) 1000 silent) in
    All (λ x. text_eq x.0.key (codes "data_source") ≡ false) sent
    × ((d : HealthCheck) (now : ℕ)
        → text_eq d.key (codes "data_source") ≡ true
        → should_send d now t' ≡ (
            is_alert d
            && (ltb (severity (alert (codes "warning"))) (severity d) || leb (1000 + 21600) now)))
unfolding text_eq is_alert severity_of lookup
announce-throttled_example =
    announce-throttled (alert (codes "warning")) 1000 silent noticed
      ((λ _. (refl, omega arith, omega arith)), ((λ e. cc), tt))

abbrev later : List (HealthCheck × ℕ)
later = (other_alert, 1200) ∷ []

announce-resolved_example :
    should_send
      (alert (codes "warning"))
      1300
      (announce
        ((alert (codes "ok"), 1100) ∷ later)
        (record_alert (alert (codes "warning")) 1000 silent)).1
    ≡ true
unfolding text_eq is_alert
announce-resolved_example =
    announce-resolved (alert (codes "ok")) 1100 (record_alert (alert (codes "warning")) 1000 silent)
      later refl (refl, tt) (alert (codes "warning")) 1300 refl

abbrev monitor : HealthMonitor ℕ
monitor = record {
  drought_warning_days = 3;
  drought_critical_days = 7;
  data_warning_failures = 2;
  data_critical_failures = 5;
  strategy_error_threshold = 3;
  missing_quote_ratio = 800;
  consecutive_data_failures = 0;
  strategy_errors = [];
}

replay-counts_example :
    let m' =
      replay
        (data_failure ∷ strategy_error (codes "a") ∷ data_failure ∷ data_success ∷ [])
        monitor in
    (m'.consecutive_data_failures ≡ 2)
    × ((name : Text)
        → errors_of name m'.strategy_errors
          ≡ count_since
              (is_success_of name)
              (is_error_of name)
              (data_failure ∷ strategy_error (codes "a") ∷ data_failure ∷ data_success ∷ []))
unfolding count_since
replay-counts_example =
    replay-counts (data_failure ∷ strategy_error (codes "a") ∷ data_failure ∷ data_success ∷ [])
      monitor refl refl
