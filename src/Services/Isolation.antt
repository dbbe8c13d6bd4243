-- ===== src/Services/Isolation.antt =====
-- Every write of the services is on behalf of the caller's tenant and with the permission it needs
-- (services/*/src/index.ts).
use aws_architecture.Base.{
  ℕ, String, Bool, true, false, Option, none, some, List, ◌≡◌, refl, Result, ok, throw, Failure,
  All,
}
use aws_architecture.Security.Context.{TenantContext, require}
use aws_architecture.Services.Ports.{
  WorkflowDefinition, IntegrationConnection, Workspace, Call, saves_run, saves_report,
  saves_connection, saves_workspace, appends, enqueues, Ports, Stamp, Run, first, unless, call,
  returns,
}
use aws_architecture.Services.Integration
use aws_architecture.Services.Tenant
use aws_architecture.Services.Workflow.{
  WorkflowInput, new_run, run_job, start_defined, start_workflow,
}
use aws_architecture.Services.Reporting.{ReportRequest, new_report, report_job, request_report}
use aws_architecture.Services.Integration.{ConnectionInput, new_connection, create_connection}
use aws_architecture.Services.Tenant.{WorkspaceInput, new_workspace, create_workspace}
use aws_architecture.Services.Notification.{NotificationRequest, notification_job, queue_delivery}
use aws_architecture.Services.Audit.{AuditInput, new_record, record_action}

-- The tenant on whose behalf a call is made.
abbrev pub tenant_of : Call → String
tenant_of (saves_run r) = r.tenant_id
tenant_of (saves_report r) = r.tenant_id
tenant_of (saves_connection c) = c.tenant_id
tenant_of (saves_workspace w) = w.tenant_id
tenant_of (appends r) = r.tenant_id
tenant_of (enqueues j) = j.tenant_id

-- The requests by which the services write.
pub data ServiceRequest : Type 0 where
  starts_workflow : WorkflowInput → ServiceRequest
  requests_report : ReportRequest → ServiceRequest
  creates_connection : ConnectionInput → ServiceRequest
  creates_workspace : WorkspaceInput → ServiceRequest
  notifies : NotificationRequest → ServiceRequest
  audits : AuditInput → ServiceRequest

-- The calls that a request makes.
unfoldable pub calls_of :
    (to_lower : List ℕ → List ℕ) → Ports → TenantContext → Stamp → ServiceRequest → List Call
calls_of to_lower ports context stamp (starts_workflow i) =
    (start_workflow ports context stamp i).calls
calls_of to_lower ports context stamp (requests_report i) =
    (request_report ports context stamp i).calls
calls_of to_lower ports context stamp (creates_connection i) =
    (create_connection to_lower ports context stamp i).calls
calls_of to_lower ports context stamp (creates_workspace i) =
    (create_workspace ports context stamp i).calls
calls_of to_lower ports context stamp (notifies i) = (queue_delivery ports context i).calls
calls_of to_lower ports context stamp (audits i) = (record_action ports context stamp i).calls

-- The permission that a request needs; anything is recorded.
abbrev pub Permitted : TenantContext → ServiceRequest → Type 0
Permitted context (starts_workflow i) = require context "workflow:execute" ≡ ok tt
Permitted context (requests_report i) = require context "report:create" ≡ ok tt
Permitted context (creates_connection i) = require context "integration:write" ≡ ok tt
Permitted context (creates_workspace i) = require context "workspace:create" ≡ ok tt
Permitted context (notifies i) = require context "notification:send" ≡ ok tt
Permitted context (audits i) = Unit

-- A property of all calls of a run.
unfoldable Each {ℓ} : {T : Type ℓ} → (Call → Type 0) → Run T → Type 0
Each P run = All P run.calls

module _ {ℓ} {T : Type ℓ} (P : Call → Type 0) where
  first-Each {κ} :
      {S : Type κ} (r : Result S) (rest : S → Run T)
      → ((x : S) → r ≡ ok x → Each P (rest x))
      → Each P (first r rest)
  unfolding Each first
  first-Each (throw e) rest h = tt
  first-Each (ok x) rest h = h x refl

  unless-Each : (b : Bool) (e : Failure) (rest : Run T) → Each P rest → Each P (unless b e rest)
  unfolding Each unless
  unless-Each true e rest h = tt
  unless-Each false e rest h = h

  call-Each :
      (c : Call) (r : Result String) (rest : String → Run T)
      → P c
      → ((x : String) → Each P (rest x))
      → Each P (call c r rest)
  unfolding Each call
  call-Each c (throw e) rest p h = (p, tt)
  call-Each c (ok x) rest p h = (p, h x)

  returns-Each : (r : Result T) → Each P (returns r)
  unfolding Each
  returns-Each r = tt

module _ (ports : Ports) (context : TenantContext) (stamp : Stamp) where
  -- What is asked of each call of a request.
  abbrev pub Own : ServiceRequest → Call → Type 0
  Own request c = (tenant_of c ≡ context.tenant_id) × Permitted context request

  start_defined-Own :
      (i : WorkflowInput) (d : Option WorkflowDefinition) {u : Unit {0}}
      → require context "workflow:execute" ≡ ok u
      → Each (Own (starts_workflow i)) (start_defined ports context stamp i d)
  unfolding start_workflow new_run run_job
  start_defined-Own i none granted = returns-Each (Own (starts_workflow i)) _
  start_defined-Own i (some d) granted =
      let P = Own (starts_workflow i) in
      unless-Each P _ _ _ (
        unless-Each P _ _ _ (
          call-Each P _ _ _ (refl, granted)
            (λ x. call-Each P _ _ _ (refl, granted) (λ y. returns-Each P _))))

  start_workflow-Own :
      (i : WorkflowInput) → Each (Own (starts_workflow i)) (start_workflow ports context stamp i)
  unfolding start_workflow new_run run_job
  start_workflow-Own i =
      let P = Own (starts_workflow i) in
      first-Each P _ _ (λ u granted. first-Each P _ _ (λ d found. start_defined-Own i d granted))

  request_report-Own :
      (i : ReportRequest) → Each (Own (requests_report i)) (request_report ports context stamp i)
  unfolding request_report new_report report_job
  request_report-Own i =
      let P = Own (requests_report i) in
      first-Each P _ _ (λ u granted. unless-Each P _ _ _ (
        unless-Each P _ _ _ (
          call-Each P _ _ _ (refl, granted)
            (λ x. call-Each P _ _ _ (refl, granted) (λ y. returns-Each P _)))))

  save_connection-Own :
      (i : ConnectionInput) (p n : List ℕ) (found : Option IntegrationConnection) {u : Unit {0}}
      → require context "integration:write" ≡ ok u
      → Each
          (Own (creates_connection i))
          (Integration.save_new ports (new_connection context stamp i p n) found)
  unfolding create_connection new_connection
  save_connection-Own i p n none granted =
      call-Each (Own (creates_connection i)) _ _ _ (refl, granted)
        (λ x. returns-Each (Own (creates_connection i)) _)
  save_connection-Own i p n (some taken) granted = returns-Each (Own (creates_connection i)) _

  create_connection-Own :
      (to_lower : List ℕ → List ℕ) (i : ConnectionInput)
      → Each (Own (creates_connection i)) (create_connection to_lower ports context stamp i)
  unfolding create_connection new_connection
  create_connection-Own to_lower i =
      let P = Own (creates_connection i) in
      first-Each P _ _ (λ u granted. unless-Each P _ _ _ (
        unless-Each P _ _ _
          (first-Each P _ _ (λ found read. save_connection-Own i _ _ found granted))))

  save_workspace-Own :
      (i : WorkspaceInput) (n s : List ℕ) (found : Option Workspace) {u : Unit {0}}
      → require context "workspace:create" ≡ ok u
      → Each
          (Own (creates_workspace i))
          (Tenant.save_new ports (new_workspace context stamp n s) found)
  unfolding create_workspace new_workspace
  save_workspace-Own i n s none granted =
      call-Each (Own (creates_workspace i)) _ _ _ (refl, granted)
        (λ x. returns-Each (Own (creates_workspace i)) _)
  save_workspace-Own i n s (some taken) granted = returns-Each (Own (creates_workspace i)) _

  create_workspace-Own :
      (i : WorkspaceInput)
      → Each (Own (creates_workspace i)) (create_workspace ports context stamp i)
  unfolding create_workspace new_workspace
  create_workspace-Own i =
      let P = Own (creates_workspace i) in
      first-Each P _ _ (λ u granted. first-Each P _ _ (λ t read. unless-Each P _ _ _ (
        unless-Each P _ _ _
          (first-Each P _ _ (λ found read'. save_workspace-Own i _ _ found granted)))))

  queue_delivery-Own :
      (i : NotificationRequest) → Each (Own (notifies i)) (queue_delivery ports context i)
  unfolding queue_delivery notification_job
  queue_delivery-Own i =
      let P = Own (notifies i) in
      first-Each P _ _ (λ u granted.
        unless-Each P _ _ _
          (unless-Each P _ _ _ (call-Each P _ _ _ (refl, granted) (λ x. returns-Each P _))))

  record_action-Own : (i : AuditInput) → Each (Own (audits i)) (record_action ports context stamp i)
  unfolding record_action new_record
  record_action-Own i =
      unless-Each (Own (audits i)) _ _ _
        (call-Each (Own (audits i)) _ _ _ (refl, tt) (λ x. returns-Each (Own (audits i)) _))

  -- Tenant isolation of all writes: whatever the repositories hold and answer, each record that a
  -- service saves and each job that it enqueues belongs to the caller's tenant, and without the
  -- permission that the request needs nothing is saved or enqueued.
  pub calls_of-Own :
      (to_lower : List ℕ → List ℕ) (request : ServiceRequest)
      → All (Own request) (calls_of to_lower ports context stamp request)
  unfolding calls_of Each
  calls_of-Own to_lower (starts_workflow i) = start_workflow-Own i
  calls_of-Own to_lower (requests_report i) = request_report-Own i
  calls_of-Own to_lower (creates_connection i) = create_connection-Own to_lower i
  calls_of-Own to_lower (creates_workspace i) = create_workspace-Own i
  calls_of-Own to_lower (notifies i) = queue_delivery-Own i
  calls_of-Own to_lower (audits i) = record_action-Own i
