-- ===== src/Services/Reporting.antt =====
-- The reporting service (services/reporting/src/index.ts).
use aws_architecture.Base.{String, not, ◌||◌, Option, none, some, ltb, length, truthy, ok, error}
use Prim.Native.String
use aws_architecture.Base.Json.{obj, Fields, entries}
use aws_architecture.Base.Text.{codes, is_blank}
use aws_architecture.Security.Context.{TenantContext, conflict, require}
use aws_architecture.Services.Ports.{
  ReportFormat, ReportJob, queued, report_content, Job, saves_report, enqueues, Ports, Stamp, Run,
  returns, fails, first, unless, call,
}

pub record ReportRequest : Type 0 where
  pub report_type : String
  pub format : ReportFormat
  pub filters : Fields
  pub correlation_id : String

unfoldable pub new_report : TenantContext → Stamp → ReportRequest → ReportJob
new_report context stamp input = record {
  report_id = stamp.uuid;
  tenant_id = context.tenant_id;
  workspace_id = context.workspace_id;
  report_type = input.report_type;
  format = input.format;
  state = queued;
  created_at = stamp.now;
}

unfoldable pub report_job : TenantContext → ReportRequest → ReportJob → Job
report_job context input job = record {
  queue = "report-generation";
  tenant_id = job.tenant_id;
  workspace_id = job.workspace_id;
  content = report_content job input.filters;
  idempotency_key =
      String.◌++◌ "report:" (String.◌++◌ context.tenant_id (String.◌++◌ ":" job.report_id));
  correlation_id = input.correlation_id;
  max_attempts = 3;
}

-- `ReportingService.request`.
unfoldable pub request_report : Ports → TenantContext → Stamp → ReportRequest → Run ReportJob
request_report ports context stamp input =
    let report = new_report context stamp input in
    let job = report_job context input report in
    first (require context "report:create") (λ granted.
      unless (is_blank (codes input.report_type) || not (truthy input.correlation_id))
        (error "INVALID_REPORT_REQUEST")
        (unless (ltb 50 (length (entries (obj input.filters))))
          (error "REPORT_FILTER_LIMIT_EXCEEDED")
          (call (saves_report report) (ports.answer (saves_report report)) (λ saved.
            call (enqueues job) (ports.answer (enqueues job)) (λ id. returns (ok report))))))

abbrev pub shown_report : TenantContext → Option ReportJob → Run ReportJob
shown_report context none = fails (error "REPORT_NOT_FOUND")
shown_report context (some report) =
    unless (conflict context.workspace_id report.workspace_id)
      (error "CROSS_WORKSPACE_ACCESS_DENIED") (returns (ok report))

-- `ReportingService.get`.
unfoldable pub get_report : Ports → TenantContext → (report_id : String) → Run ReportJob
get_report ports context report_id = first (require context "report:read") (λ granted.
    first (ports.get_report context.tenant_id report_id) (λ report. shown_report context report))
