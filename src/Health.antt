-- ===== src/Health.antt =====
-- monitoring/health.py: the checks, the throttle of their alerts and the counters of the monitor.
-- A message is for people and is left out, and with it the formatting of reports; a check keeps its
-- key, its status and its detail. Times are seconds. The file behind the throttle is left out: the
-- state that it loads is any.
pub mod Throttle
pub mod Counters
mod Tests
use garnet_trader.Prelude.{
  ℕ, suc, ◌+◌, ◌-◌, ◌*◌, ◌/◌, ◌≤◌, Bool, true, false, not, ◌&&◌, ◌||◌, Option, none, some, List, [],
  ◌∷◌, ltb, leb, if◌then◌else◌,
}
use garnet_trader.Prelude.Dict.{Dict, lookup, insert, erase}
use garnet_trader.Prelude.Text.{Text, codes, text_eq}

pub record HealthCheck : Type 0 where
  pub key : Text
  pub status : Text

abbrev pub severities : Dict ℕ
severities = (codes "ok", 0) ∷ (codes "warning", 1) ∷ (codes "critical", 2) ∷ []

-- `_SEVERITY.get(status, 0)`
unfoldable pub severity_of : Text → ℕ
severity_of status = elim (lookup status severities) [ none ↦ 0 | some n ↦ n ]

unfoldable pub is_alert : HealthCheck → Bool
is_alert c = not (text_eq c.status (codes "ok"))

abbrev pub severity : HealthCheck → ℕ
severity c = severity_of c.status

-- The status by two thresholds, the higher first.
abbrev graded : Text → ℕ → ℕ → ℕ → HealthCheck
graded key n warning critical =
    if leb critical n
    then record { key = key; status = codes "critical" }
    else if leb warning n
    then record { key = key; status = codes "warning" }
    else record { key = key; status = codes "ok" }

-- The days since the last signal, when the trading days are not given: whole days, and 0 for a
-- signal of the future.
abbrev days_since : ℕ → ℕ → Option ℕ → ℕ
days_since last now (some days) = days
days_since last now none = (now - last) / 86400

unfoldable pub check_signal_drought : Option ℕ → ℕ → ℕ → ℕ → Option ℕ → HealthCheck
check_signal_drought none now warning_days critical_days trading_days_only = record {
  key = codes "signal_drought";
  status = codes "warning";
}
check_signal_drought (some last) now warning_days critical_days trading_days_only =
    graded (codes "signal_drought") (days_since last now trading_days_only) warning_days
      critical_days

unfoldable pub check_data_source : ℕ → ℕ → ℕ → HealthCheck
check_data_source consecutive_failures warning_threshold critical_threshold =
    graded (codes "data_source") consecutive_failures warning_threshold critical_threshold

-- The strategies with as many errors as the threshold, or more.
unfoldable pub broken : ℕ → Dict ℕ → Dict ℕ
broken threshold [] = []
broken threshold ((name, n) ∷ counts) =
    let rest = broken threshold counts in if leb threshold n then (name, n) ∷ rest else rest

-- The status by the strategies that are broken.
abbrev pub broken_status : Dict ℕ → Text
broken_status [] = codes "ok"
broken_status (_ ∷ []) = codes "warning"
broken_status (_ ∷ _ ∷ _) = codes "critical"

unfoldable pub check_strategy_errors : Dict ℕ → ℕ → HealthCheck
check_strategy_errors error_counts threshold = record {
  key = codes "strategy_errors";
  status = broken_status (broken threshold error_counts);
}

-- Ratios are floats: any type with a test `at_least`.
unfoldable pub check_stale_quotes : {F : Type 0} → (F → F → Bool) → Option F → F → HealthCheck
check_stale_quotes at_least none warning_ratio = record {
  key = codes "stale_quotes";
  status = codes "ok";
}
check_stale_quotes at_least (some ratio) warning_ratio = record {
  key = codes "stale_quotes";
  status = if at_least ratio warning_ratio then codes "warning" else codes "ok";
}

-- What the throttle remembers of an alert. `sent_at` is `none` where the file holds no time.
pub record Sent : Type 0 where
  pub status : Text
  pub sent_at : Option ℕ

pub record AlertThrottle : Type 0 where
  pub cooldown : ℕ
  pub sent : Dict Sent

unfoldable pub should_send : HealthCheck → ℕ → AlertThrottle → Bool
should_send check now t = if not (is_alert check) then false else elim (lookup check.key t.sent) [
  | none ↦ true
  | some previous ↦
      if ltb (severity_of previous.status) (severity check)
      then true
      else elim previous.sent_at [ none ↦ true | some sent_at ↦ leb (sent_at + t.cooldown) now ]
]

unfoldable pub record_alert : HealthCheck → ℕ → AlertThrottle → AlertThrottle
record_alert check now t = record t {
  sent = insert check.key (record { status = check.status; sent_at = some now }) t.sent;
}

unfoldable pub clear : Text → AlertThrottle → AlertThrottle
clear key t = record t { sent = erase key t.sent }

pub record HealthMonitor (F : Type 0) : Type 0 where
  pub drought_warning_days : ℕ
  pub drought_critical_days : ℕ
  pub data_warning_failures : ℕ
  pub data_critical_failures : ℕ
  pub strategy_error_threshold : ℕ
  pub missing_quote_ratio : F
  pub consecutive_data_failures : ℕ
  pub strategy_errors : Dict ℕ

unfoldable pub errors_of : Text → Dict ℕ → ℕ
errors_of name counts = elim (lookup name counts) [ none ↦ 0 | some n ↦ n ]

module _ {F : Type 0} where
  unfoldable pub record_data_failure : HealthMonitor F → HealthMonitor F
  record_data_failure m = record m { consecutive_data_failures = m.consecutive_data_failures + 1 }

  unfoldable pub record_data_success : HealthMonitor F → HealthMonitor F
  record_data_success m = record m { consecutive_data_failures = 0 }

  unfoldable pub record_strategy_error : Text → HealthMonitor F → HealthMonitor F
  record_strategy_error name m = record m {
    strategy_errors = insert name (errors_of name m.strategy_errors + 1) m.strategy_errors;
  }

  unfoldable pub record_strategy_success : Text → HealthMonitor F → HealthMonitor F
  record_strategy_success name m = record m { strategy_errors = erase name m.strategy_errors }

  unfoldable pub run :
      (F → F → Bool) → Option ℕ → ℕ → Option ℕ → Option F → HealthMonitor F → List HealthCheck
  run at_least last_signal_at now trading_days_since_signal missing_quote_ratio m =
      check_signal_drought last_signal_at now m.drought_warning_days m.drought_critical_days
        trading_days_since_signal
      ∷ check_data_source m.consecutive_data_failures m.data_warning_failures
          m.data_critical_failures
      ∷ check_strategy_errors m.strategy_errors m.strategy_error_threshold
      ∷ check_stale_quotes at_least missing_quote_ratio m.missing_quote_ratio
      ∷ []

-- The loop over the checks in `_check_health` of main.py, each with its time: what is announced, and the
-- throttle after it.
unfoldable pub announce_one : HealthCheck × ℕ → AlertThrottle → Bool × AlertThrottle
announce_one (check, now) t =
    if should_send check now t
    then (true, record_alert check now t)
    else if not (is_alert check)
    then (false, clear check.key t)
    else (false, t)

unfoldable pub announce :
    List (HealthCheck × ℕ) → AlertThrottle → List (HealthCheck × ℕ) × AlertThrottle
announce [] t = ([], t)
announce (c ∷ checks) t =
    let (sent, t₁) = announce_one c t in
    let (rest, t₂) = announce checks t₁ in (if sent then c ∷ rest else rest, t₂)
