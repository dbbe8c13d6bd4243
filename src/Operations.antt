-- ===== src/Operations.antt =====
-- The collector of AWS operations data (services/operations/src/aws-operations-collector.ts). What each
-- AWS command answers is a parameter; a number that AWS reports is any JSON value of it. The commands'
-- own arguments, the dates of a request and the sorted cost list are not modelled.
pub mod Sources
pub mod Metrics
pub mod Posture
mod Tests
use aws_architecture.Base.{
  ℕ, ◌+◌, String, Bool, true, false, ◌||◌, Option, none, some, List, [], ◌∷◌, map, ◌===◌, any,
  present, length, filter, if◌then◌else◌,
}
use aws_architecture.Base.Map.{get, set}
use aws_architecture.Base.Json.{
  Json, null, bool, num, str, arr, obj, Items, nil, cons, Fields, end, field,
}
use aws_architecture.Operations.Sources.{
  SourceState, healthy, degraded, unavailable, not_configured, answered, failed, SourceSummary,
  Answer, error_code, unavailable_source, guard_duty_findings, collect_guard_duty, Counts,
  add_label, count_labels, no_counts, collect_security_hub, collect_inspector, TrailEvent,
  collect_cloud_trail, or_null, or_text,
}
use aws_architecture.Operations.Metrics.{
  MetricResult, latest_value, by_id, collect_cloud_watch, BackupJob, is_failed, BackupSummary,
  collect_backup,
}

-- `sourceStates.includes(state)`.
abbrev pub same_state : SourceState → SourceState → Bool
same_state healthy healthy = true
same_state degraded degraded = true
same_state unavailable unavailable = true
same_state not_configured not_configured = true
same_state _ _ = false

-- What AWS answers to all commands of a collection.
pub record Answers : Type 0 where
  pub metrics : Answer (List MetricResult)
  pub detectors : Answer (List String)
  pub detector_findings : String → Answer (List String × Option String)
  pub hub_findings : Answer (List (Option String) × Option String)
  pub inspector_findings : Answer (List (Option String) × Option String)
  pub events : Answer (List TrailEvent)
  pub jobs : Answer (List BackupJob)

pub record SecuritySummary : Type 0 where
  pub posture : SourceState
  pub guard_duty : SourceSummary
  pub security_hub : SourceSummary
  pub inspector : SourceSummary
  pub cloud_trail : SourceSummary
  pub critical_findings : ℕ
  pub high_findings : ℕ

-- `v ?? 0`.
abbrev pub or_zero : Option ℕ → ℕ
or_zero none = 0
or_zero (some n) = n

unfoldable pub posture_of : List SourceState → SourceState
posture_of states = if any (same_state unavailable) states then degraded else healthy

-- The `security` part of `collect`.
unfoldable pub collect_security : Answers → SecuritySummary
unfolding collect_guard_duty collect_security_hub collect_inspector collect_cloud_trail posture_of
collect_security a =
    let guard_duty = collect_guard_duty a.detectors a.detector_findings in
    let security_hub = collect_security_hub a.hub_findings in
    let inspector = collect_inspector a.inspector_findings in
    record {
      posture = posture_of (guard_duty.state ∷ security_hub.state ∷ inspector.state ∷ []);
      guard_duty = guard_duty;
      security_hub = security_hub;
      inspector = inspector;
      cloud_trail = collect_cloud_trail a.events;
      critical_findings =
          or_zero guard_duty.critical + or_zero security_hub.critical + or_zero inspector.critical;
      high_findings = or_zero guard_duty.high + or_zero security_hub.high + or_zero inspector.high;
    }

pub record OperationsSnapshot : Type 0 where
  pub collected_at : String
  pub observability : Fields
  pub security : SecuritySummary
  pub backup_dr : BackupSummary

-- `collect`, without the costs.
unfoldable pub collect : (now : String) → Answers → OperationsSnapshot
unfolding collect_security collect_cloud_watch collect_backup
collect now a = record {
  collected_at = now;
  observability = collect_cloud_watch a.metrics;
  security = collect_security a;
  backup_dr = collect_backup a.jobs;
}
