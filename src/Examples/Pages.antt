-- ===== src/Examples/Pages.antt =====
-- A snapshot with a small drift.
use ar_io_solana_attestor.Prelude.{◌≡◌, ◌↔◌, none, true}
use ar_io_solana_attestor.Prelude.Int.{pos}
use ar_io_solana_attestor.Alerts.{
  MetricsSnapshot, default_thresholds, evaluate_alerts, worst_severity, severity, critical,
}
use ar_io_solana_attestor.Alerts.Severity.{is_critical, worst_severity-critical_iff}

abbrev drifting : MetricsSnapshot
drifting = record {
  needs_operator = none;
  awaiting_manual_vault_delivery = none;
  review_queue_depth = 3;
  oldest_review_age_sec = none;
  oldest_dispatching_age_sec = none;
  failed = 0;
  drift_mario = pos 1;
  head_seq = none;
  unsigned_rows = 0;
  last_audit_head_anchor_age_sec = none;
  last_audit_head_anchor_confirmed = none;
  float = none;
  dispenser_sol = none;
  reserves = none;
}

worst_severity-critical_iff_example :
    (worst_severity (evaluate_alerts drifting default_thresholds) ≡ severity critical)
    ↔ (is_critical drifting default_thresholds ≡ true)
worst_severity-critical_iff_example = worst_severity-critical_iff drifting default_thresholds
