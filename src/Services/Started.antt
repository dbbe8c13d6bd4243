-- ===== src/Services/Started.antt =====
-- What a started workflow run has left behind (services/workflow/src/index.ts).
use aws_architecture.Base.{String, true, false, some, List, [], ◌∷◌, ◌≡◌, ok}
use aws_architecture.Security.Context.{TenantContext, conflict, require}
use aws_architecture.Services.Ports.{
  queued, run_content, Job, WorkflowDefinition, WorkflowRun, Call, saves_run, enqueues, Ports,
  Stamp,
}
use aws_architecture.Services.Workflow.{WorkflowInput}

-- A run that was started: its definition is the caller's, is enabled and is of the caller's workspace;
-- the run was saved, then its job enqueued, and both calls were answered.
pub record IsStarted (ports : Ports) (context : TenantContext) (stamp : Stamp)
    (input : WorkflowInput) (run : WorkflowRun) (calls : List Call) (d : WorkflowDefinition)
    : Type 0 where
  pub granted : require context "workflow:execute" ≡ ok tt
  pub found : ports.get_definition context.tenant_id input.workflow_id ≡ ok (some d)
  pub enabled : d.enabled ≡ true
  pub agrees : conflict context.workspace_id d.workspace_id ≡ false
  pub owned : (run.tenant_id ≡ context.tenant_id) × (run.workspace_id ≡ context.workspace_id)
  pub fresh : (run.run_id ≡ stamp.uuid) × (run.state ≡ queued) × (run.created_at ≡ stamp.now)
  pub asked : (run.workflow_id ≡ d.workflow_id) × (run.correlation_id ≡ input.correlation_id)
  pub job : Job
  pub calls_made : calls ≡ saves_run run ∷ enqueues job ∷ []
  pub job_owned : (job.tenant_id ≡ context.tenant_id) × (job.workspace_id ≡ context.workspace_id)
  pub job_content : job.content ≡ run_content stamp.uuid d.workflow_id d.version input.payload
  pub job_keys :
      (job.idempotency_key ≡ input.idempotency_key) × (job.correlation_id ≡ input.correlation_id)
  pub job_queue : (job.queue ≡ "workflow-runs") × (job.max_attempts ≡ 5)
  pub saved : String
  pub save_answer : ports.answer (saves_run run) ≡ ok saved
  pub job_id : String
  pub taken : ports.answer (enqueues job) ≡ ok job_id
