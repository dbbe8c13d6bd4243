-- ===== src/Operations/Metrics.antt =====
-- The metrics of CloudWatch and the jobs of AWS Backup
-- (services/operations/src/aws-operations-collector.ts).
use aws_architecture.Base.{
  ℕ, String, Bool, false, ◌||◌, Option, none, some, List, [], ◌∷◌, ◌===◌, any, length, filter,
  if◌then◌else◌,
}
use aws_architecture.Base.Map.{get, set}
use aws_architecture.Base.Json.{Json, null, num, str, obj, Items, nil, cons, Fields, end, field}
use aws_architecture.Operations.Sources.{
  SourceState, healthy, degraded, unavailable, answered, failed, Answer, or_null, or_text,
}

pub record MetricResult : Type 0 where
  pub id : String
  pub values : List Json

-- `latestValue`.
abbrev pub latest_value : Option MetricResult → Json
latest_value none = null
latest_value (some r) = elim r.values [ [] ↦ null | ◌∷◌ v vs ↦ v ]

-- `new Map(results.map((item) => [item.Id, item]))`: the last result of an identifier counts.
unfoldable pub by_id :
    List MetricResult → List (String × MetricResult) → List (String × MetricResult)
unfolding set
by_id [] m = m
by_id (r ∷ rs) m = by_id rs (set r.id r m)

-- `collectCloudWatch`.
unfoldable pub collect_cloud_watch : Answer (List MetricResult) → Fields
unfolding by_id get
collect_cloud_watch (failed code) =
    field "state" (str "UNAVAILABLE")
      (field "source" (str "cloudwatch") (field "errorCode" (str code) end))
collect_cloud_watch (answered results) =
    let value = λ (id : String). latest_value (get id (by_id results [])) in
    field "state" (str "HEALTHY") (
      field "source" (str "cloudwatch") (
        field "windowMinutes" (num 5) (
          field "traffic" (obj (field "requests" (value "traffic") end)) (
            field "latency"
              (obj (field "p95Ms" (value "latencyP95") (field "p99Ms" (value "latencyP99") end)))
              (field "errors" (obj (field "rate" (value "errorRate") end)) (
                field "saturation" (obj (field "value" (value "saturation") end))
                  (field "securityEvents" (value "securityEvents") end)))))))

pub record BackupJob : Type 0 where
  pub job_id : Option String
  pub state : Option String
  pub resource_type : Option String
  pub creation_date : Option String
  pub completion_date : Option String

abbrev pub is_failed : BackupJob → Bool
is_failed job = elim job.state [ none ↦ false | some s ↦ s === "FAILED" || s === "ABORTED" ]

job_items : List BackupJob → Items
job_items [] = nil
job_items (j ∷ js) =
    cons
      (obj (
        field "jobId" (or_null j.job_id) (
          field "state" (or_text "UNKNOWN" j.state) (
            field "resourceType" (or_null j.resource_type) (
              field "creationDate" (or_null j.creation_date)
                (field "completionDate" (or_null j.completion_date) end))))))
      (job_items js)

pub record BackupSummary : Type 0 where
  pub state : SourceState
  pub backups : Items
  pub failed_jobs : Option ℕ
  pub error_code : Option String

-- `collectBackup`.
unfoldable pub collect_backup : Answer (List BackupJob) → BackupSummary
unfolding job_items
collect_backup (failed code) = record {
  state = unavailable;
  backups = nil;
  failed_jobs = none;
  error_code = some code;
}
collect_backup (answered jobs) = record {
  state = if any is_failed jobs then degraded else healthy;
  backups = job_items jobs;
  failed_jobs = some (length (filter is_failed jobs));
  error_code = none;
}
