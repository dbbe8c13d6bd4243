-- ===== src/Services/Workflow.antt =====
-- The workflow service (services/workflow/src/index.ts).
use aws_architecture.Base.{String, not, Option, none, some, ok, error}
use aws_architecture.Base.Json.{Fields}
use aws_architecture.Security.Context.{TenantContext, conflict, require}
use aws_architecture.Services.Ports.{
  WorkflowDefinition, WorkflowRun, queued, run_content, Job, saves_run, enqueues, Ports, Stamp, Run,
  returns, fails, first, unless, call,
}

pub record WorkflowInput : Type 0 where
  pub workflow_id : String
  pub correlation_id : String
  pub payload : Fields
  pub idempotency_key : String

unfoldable pub new_run : TenantContext → Stamp → WorkflowInput → WorkflowDefinition → WorkflowRun
new_run context stamp input definition = record {
  run_id = stamp.uuid;
  workflow_id = definition.workflow_id;
  tenant_id = context.tenant_id;
  workspace_id = context.workspace_id;
  state = queued;
  correlation_id = input.correlation_id;
  created_at = stamp.now;
}

unfoldable pub run_job : WorkflowInput → WorkflowDefinition → WorkflowRun → Job
run_job input definition run = record {
  queue = "workflow-runs";
  tenant_id = run.tenant_id;
  workspace_id = run.workspace_id;
  content = run_content run.run_id run.workflow_id definition.version input.payload;
  idempotency_key = input.idempotency_key;
  correlation_id = input.correlation_id;
  max_attempts = 5;
}

-- What follows once the definition is read.
abbrev pub start_defined :
    Ports → TenantContext → Stamp → WorkflowInput → Option WorkflowDefinition → Run WorkflowRun
start_defined ports context stamp input none = fails (error "WORKFLOW_UNAVAILABLE")
start_defined ports context stamp input (some definition) =
    let run = new_run context stamp input definition in
    let job = run_job input definition run in
    unless (not definition.enabled) (error "WORKFLOW_UNAVAILABLE") (
      unless (conflict context.workspace_id definition.workspace_id)
        (error "CROSS_WORKSPACE_ACCESS_DENIED")
        (call (saves_run run) (ports.answer (saves_run run))
          (λ saved. call (enqueues job) (ports.answer (enqueues job)) (λ id. returns (ok run)))))

-- `WorkflowService.start`.
unfoldable pub start_workflow : Ports → TenantContext → Stamp → WorkflowInput → Run WorkflowRun
start_workflow ports context stamp input = first (require context "workflow:execute") (λ granted.
    first (ports.get_definition context.tenant_id input.workflow_id)
      (λ definition. start_defined ports context stamp input definition))
