-- ===== src/Services/Notification.antt =====
-- The notification service (services/notification/src/index.ts).
use aws_architecture.Base.{String, not, ◌||◌, ltb, length, truthy, ok, error}
use aws_architecture.Base.Json.{obj, Fields, entries}
use aws_architecture.Base.Text.{codes, is_blank}
use aws_architecture.Security.Context.{TenantContext, require}
use aws_architecture.Services.Ports.{
  NotificationChannel, notification_content, Job, enqueues, Ports, Run, returns, first, unless,
  call,
}

pub record NotificationRequest : Type 0 where
  pub channel : NotificationChannel
  pub destination : String
  pub template : String
  pub variables : Fields
  pub correlation_id : String
  pub idempotency_key : String

unfoldable pub notification_job : TenantContext → NotificationRequest → Job
notification_job context request = record {
  queue = "notifications";
  tenant_id = context.tenant_id;
  workspace_id = context.workspace_id;
  content =
      notification_content request.channel request.destination request.template request.variables;
  idempotency_key = request.idempotency_key;
  correlation_id = request.correlation_id;
  max_attempts = 5;
}

-- `NotificationService.queueDelivery`; its result is the queue's identifier of the job.
unfoldable pub queue_delivery : Ports → TenantContext → NotificationRequest → Run String
queue_delivery ports context request =
    let job = notification_job context request in
    first (require context "notification:send") (λ granted.
      unless
        (is_blank (codes request.destination)
          || is_blank (codes request.template)
          || not (truthy request.correlation_id)
          || not (truthy request.idempotency_key))
        (error "INVALID_NOTIFICATION_REQUEST")
        (unless (ltb 100 (length (entries (obj request.variables))))
          (error "NOTIFICATION_VARIABLE_LIMIT_EXCEEDED")
          (call (enqueues job) (ports.answer (enqueues job)) (λ id. returns (ok id)))))
