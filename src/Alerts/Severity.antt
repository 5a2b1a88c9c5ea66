-- ===== src/Alerts/Severity.antt =====
-- When packages/claims/src/ops/alerts.ts pages.
use ar_io_solana_attestor.Prelude.{
  ℕ, ◌≡◌, ◌↔◌, refl, String, Option, none, some, List, [], ◌∷◌, ◌++◌, Bool, true, false, not, ◌||◌,
  ◌&&◌, arith, ltb, leb,
}
use mathlib.Core.Option.{get_or}
use ar_io_solana_attestor.Alerts.{
  AlertSeverity, critical, Alert, AlertThresholds, ReservesMetrics, SolMetrics, FloatMetrics,
  MetricsSnapshot, alert_when, is_zero, near_empty, reserves_alerts, sol_alerts, float_alerts,
  age_alerts, anchor_alerts, evaluate_alerts, severity, has_severity, worst_severity, same_severity,
}

-- What is critical: dispatched and claimed amounts that differ, reserves that do not cover the
-- liabilities, a frozen claim, as many failed claims as the threshold, or a dispenser with less than a
-- tenth of its SOL threshold.
abbrev pub is_short : Option ReservesMetrics → Bool
is_short none = false
is_short (some r) = not r.token_vault_covered

abbrev pub is_drained : Option SolMetrics → Bool
is_drained none = false
is_drained (some sol) = near_empty sol

abbrev pub is_critical : MetricsSnapshot → AlertThresholds → Bool
is_critical s t =
    not (is_zero s.drift_mario)
    || is_short s.reserves
    || ltb 0 (get_or s.needs_operator 0)
    || leb t.dispatch_failure_critical s.failed
    || is_drained s.dispenser_sol

has_severity-append :
    (level : AlertSeverity) (xs ys : List Alert)
    → has_severity level (xs ++ ys) ≡ (has_severity level xs || has_severity level ys)
unfolding has_severity
has_severity-append level [] ys = refl
has_severity-append level (x ∷ xs) ys = ground (arith, has_severity-append level xs ys)

alert_when-severity :
    (level : AlertSeverity) (b : Bool) (a : Alert)
    → has_severity level (alert_when b a) ≡ (b && same_severity a.severity level)
unfolding has_severity
alert_when-severity level false a = refl
alert_when-severity level true a = ground arith

or_false : (b : Bool) → (b || false) ≡ b
or_false true = refl
or_false false = refl

and_true : (b : Bool) → (b && true) ≡ b
and_true true = refl
and_true false = refl

and_false : (b : Bool) → (b && false) ≡ false
and_false true = refl
and_false false = refl

-- The sections with a critical alert, and those without one.
reserves-critical :
    (o : Option ReservesMetrics) → has_severity critical (reserves_alerts o) ≡ is_short o
unfolding has_severity
reserves-critical none = refl
reserves-critical (some r) =
    ground (arith, alert_when-severity critical (not r.token_vault_covered))

sol-critical : (o : Option SolMetrics) → has_severity critical (sol_alerts o) ≡ is_drained o
unfolding has_severity
sol-critical none = refl
sol-critical (some sol) = ground arith

float-critical : (o : Option FloatMetrics) → has_severity critical (float_alerts o) ≡ false
unfolding has_severity
float-critical none = refl
float-critical (some f) = ground (arith)

age-critical :
    (name : String) (limit : ℕ) (o : Option ℕ)
    → has_severity critical (age_alerts name limit o) ≡ false
unfolding has_severity
age-critical name limit none = refl
age-critical name limit (some age) = ground arith

anchor-critical :
    (t : AlertThresholds) (s : MetricsSnapshot) → has_severity critical (anchor_alerts t s) ≡ false
unfolding has_severity
anchor-critical t s = ground arith

evaluate_alerts-critical :
    (s : MetricsSnapshot) (t : AlertThresholds)
    → has_severity critical (evaluate_alerts s t) ≡ is_critical s t
unfolding evaluate_alerts
evaluate_alerts-critical s t = simp (
  has_severity-append, alert_when-severity, reserves-critical, sol-critical, float-critical,
  age-critical, anchor-critical, and_true, and_false, or_false,
)

-- The worst severity is critical exactly when dispatched and claimed amounts differ, or the reserves do
-- not cover the liabilities, or a claim is frozen for an operator, or as many claims have failed as the
-- threshold says, or the dispenser has less than a tenth of its SOL threshold.
pub worst_severity-critical_iff :
    (s : MetricsSnapshot) (t : AlertThresholds)
    → (worst_severity (evaluate_alerts s t) ≡ severity critical) ↔ (is_critical s t ≡ true)
unfolding worst_severity
worst_severity-critical_iff s t = ground (arith, evaluate_alerts-critical s t)
