-- ===== src/Alerts.antt =====
-- packages/claims/src/ops/alerts.ts: evaluateAlerts and worstSeverity on the part of a MetricsSnapshot
-- that they read. Ages, depths and thresholds are whole numbers; the messages are left out.
pub mod Severity
use ar_io_solana_attestor.Prelude.{
  ℕ, ◌*◌, ◌/◌, String, Option, none, some, List, [], ◌∷◌, ◌++◌, Bool, true, false, not, ◌&&◌, ◌||◌,
  ltb, leb, if◌then◌else◌,
}
use mathlib.Core.Option.{get_or}
use ar_io_solana_attestor.Prelude.Int.{ℤ, pos, negsuc}

pub data AlertSeverity : Type 0 where
  critical warning info : AlertSeverity

-- A number, whether as such or in its decimal form, or a word.
pub data AlertValue : Type 0 where
  amount : ℤ → AlertValue
  word : String → AlertValue

pub record Alert : Type 0 where
  pub name : String
  pub severity : AlertSeverity
  pub value : AlertValue
  pub threshold : Option AlertValue

pub record AlertThresholds : Type 0 where
  pub review_queue_warn : ℕ
  pub review_sla_seconds : ℕ
  pub dispatch_stall_seconds : ℕ
  pub anchor_cadence_seconds : ℕ
  pub anchor_alerts_enabled : Bool
  pub dispatch_failure_critical : ℕ

abbrev pub default_thresholds : AlertThresholds
default_thresholds = record {
  review_queue_warn = 25;
  review_sla_seconds = 24 * 3600;
  dispatch_stall_seconds = 10 * 60;
  anchor_cadence_seconds = 24 * 3600;
  anchor_alerts_enabled = true;
  dispatch_failure_critical = 1;
}

pub record ReservesMetrics : Type 0 where
  pub surplus_mario : ℤ
  pub token_vault_covered : Bool

pub record FloatMetrics : Type 0 where
  pub balance_mario : ℕ
  pub available_mario : ℤ
  pub cap_mario : ℕ
  pub refill_threshold_mario : Option ℕ
  pub refill_needed : Bool
  pub over_cap : Bool

pub record SolMetrics : Type 0 where
  pub balance_lamports : ℕ
  pub threshold_lamports : ℕ

pub record MetricsSnapshot : Type 0 where
  -- `claims.byStatus` at two statuses.
  pub needs_operator : Option ℕ
  pub awaiting_manual_vault_delivery : Option ℕ
  pub review_queue_depth : ℕ
  pub oldest_review_age_sec : Option ℕ
  pub oldest_dispatching_age_sec : Option ℕ
  pub failed : ℕ
  pub drift_mario : ℤ
  pub head_seq : Option ℕ
  pub unsigned_rows : ℕ
  pub last_audit_head_anchor_age_sec : Option ℕ
  pub last_audit_head_anchor_confirmed : Option Bool
  pub float : Option FloatMetrics
  pub dispenser_sol : Option SolMetrics
  pub reserves : Option ReservesMetrics

abbrev pub number : ℕ → AlertValue
number n = amount (pos n)

abbrev pub alert_when : Bool → Alert → List Alert
alert_when true a = a ∷ []
alert_when false a = []

abbrev pub alert_of : String → AlertSeverity → AlertValue → Option AlertValue → Alert
alert_of name severity value threshold = record {
  name = name;
  severity = severity;
  value = value;
  threshold = threshold;
}

abbrev pub is_zero : ℤ → Bool
is_zero (pos ℕ.zero) = true
is_zero _ = false

abbrev pub drift_alerts : MetricsSnapshot → List Alert
drift_alerts s =
    alert_when (not (is_zero s.drift_mario))
      (alert_of "reconciliation-mismatch" critical (amount s.drift_mario) (some (number 0)))

abbrev pub reserves_alerts : Option ReservesMetrics → List Alert
reserves_alerts none = []
reserves_alerts (some r) =
    alert_when (not r.token_vault_covered)
      (alert_of "reserves-shortfall" critical (amount r.surplus_mario) (some (number 0)))

abbrev pub operator_alerts : ℕ → List Alert
operator_alerts n =
    alert_when (ltb 0 n) (alert_of "dispatch-needs-operator" critical (number n) none)

abbrev pub manual_vault_alerts : ℕ → List Alert
manual_vault_alerts n =
    alert_when (ltb 0 n) (alert_of "vault-manual-delivery-queue" warning (number n) none)

abbrev pub failure_alerts : AlertThresholds → MetricsSnapshot → List Alert
failure_alerts t s = alert_when (leb t.dispatch_failure_critical s.failed) (
    alert_of "dispatch-failure" critical (number s.failed)
      (some (number t.dispatch_failure_critical)))

abbrev pub near_empty : SolMetrics → Bool
near_empty sol = ltb sol.balance_lamports (sol.threshold_lamports / 10)

abbrev pub sol_alerts : Option SolMetrics → List Alert
sol_alerts none = []
sol_alerts (some sol) = alert_when (ltb sol.balance_lamports sol.threshold_lamports) (
    alert_of "dispenser-sol-low" (if near_empty sol then critical else warning)
      (number sol.balance_lamports) (some (number sol.threshold_lamports)))

abbrev pub threshold_of : Option ℕ → Option AlertValue
threshold_of none = none
threshold_of (some n) = some (number n)

abbrev pub float_alerts : Option FloatMetrics → List Alert
float_alerts none = []
float_alerts (some f) =
    alert_when f.refill_needed (
      alert_of "float-low" warning (amount f.available_mario)
        (threshold_of f.refill_threshold_mario))
    ++ alert_when f.over_cap
        (alert_of "float-over-cap" warning (number f.balance_mario) (some (number f.cap_mario)))

abbrev pub queue_alerts : AlertThresholds → MetricsSnapshot → List Alert
queue_alerts t s = alert_when (leb t.review_queue_warn s.review_queue_depth) (
    alert_of "big-claim-queue-growing" warning (number s.review_queue_depth)
      (some (number t.review_queue_warn)))

-- An age, if there is one, past a limit.
abbrev pub age_alerts : String → ℕ → Option ℕ → List Alert
age_alerts name limit none = []
age_alerts name limit (some age) =
    alert_when (ltb limit age) (alert_of name warning (number age) (some (number limit)))

abbrev pub unanchored_alerts : Option ℕ → List Alert
unanchored_alerts none = []
unanchored_alerts (some seq) = alert_of "anchor-failure" warning (word "none") none ∷ []

abbrev pub unconfirmed_alerts : Option Bool → List Alert
unconfirmed_alerts (some false) =
    alert_of "anchor-unconfirmed" warning (word "unconfirmed") none ∷ []
unconfirmed_alerts _ = []

abbrev pub anchored_alerts : ℕ → MetricsSnapshot → Option ℕ → List Alert
anchored_alerts warn_at s none = unanchored_alerts s.head_seq
anchored_alerts warn_at s (some age) =
    if ltb warn_at age
    then alert_of "anchor-failure" warning (number age) (some (number warn_at)) ∷ []
    else unconfirmed_alerts s.last_audit_head_anchor_confirmed

abbrev pub anchor_alerts : AlertThresholds → MetricsSnapshot → List Alert
anchor_alerts t s =
    if t.anchor_alerts_enabled
    then anchored_alerts (t.anchor_cadence_seconds * 2) s s.last_audit_head_anchor_age_sec
    else []

abbrev pub unsigned_alerts : MetricsSnapshot → List Alert
unsigned_alerts s =
    alert_when (ltb 0 s.unsigned_rows)
      (alert_of "audit-unsigned-backlog" warning (number s.unsigned_rows) none)

unfoldable pub evaluate_alerts : MetricsSnapshot → AlertThresholds → List Alert
evaluate_alerts s t =
    drift_alerts s
    ++ reserves_alerts s.reserves
    ++ operator_alerts (get_or s.needs_operator 0)
    ++ manual_vault_alerts (get_or s.awaiting_manual_vault_delivery 0)
    ++ failure_alerts t s
    ++ sol_alerts s.dispenser_sol
    ++ float_alerts s.float
    ++ queue_alerts t s
    ++ age_alerts "big-claim-queue-sla-breach" t.review_sla_seconds s.oldest_review_age_sec
    ++ age_alerts "dispatch-stalled" t.dispatch_stall_seconds s.oldest_dispatching_age_sec
    ++ anchor_alerts t s
    ++ unsigned_alerts s

pub data Worst : Type 0 where
  severity : AlertSeverity → Worst
  fine : Worst

abbrev pub same_severity : AlertSeverity → AlertSeverity → Bool
same_severity critical critical = true
same_severity warning warning = true
same_severity info info = true
same_severity _ _ = false

unfoldable pub has_severity : AlertSeverity → List Alert → Bool
has_severity level [] = false
has_severity level (a ∷ rest) = same_severity a.severity level || has_severity level rest

unfoldable pub worst_severity : List Alert → Worst
worst_severity alerts =
    if has_severity critical alerts
    then severity critical
    else if has_severity warning alerts
    then severity warning
    else if has_severity info alerts
    then severity info
    else fine
