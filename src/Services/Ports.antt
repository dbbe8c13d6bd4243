-- ===== src/Services/Ports.antt =====
-- What the services (services/*/src/index.ts) ask of their repositories and of the job queue. A call
-- that writes is a value; a service's run is the list of its calls, in order, and its result.
use aws_architecture.Base.{
  ℕ, String, Bool, true, false, Option, List, [], ◌∷◌, Result, ok, throw, Failure,
}
use aws_architecture.Base.Json.{Json, Fields}

pub data RunState : Type 0 where
  queued running completed failed : RunState

pub record WorkflowDefinition : Type 0 where
  pub workflow_id : String
  pub tenant_id : String
  pub workspace_id : Option String
  pub name : String
  pub enabled : Bool
  pub version : ℕ

pub record WorkflowRun : Type 0 where
  pub run_id : String
  pub workflow_id : String
  pub tenant_id : String
  pub workspace_id : Option String
  pub state : RunState
  pub correlation_id : String
  pub created_at : String

pub data ReportFormat : Type 0 where
  csv json pdf : ReportFormat

pub record ReportJob : Type 0 where
  pub report_id : String
  pub tenant_id : String
  pub workspace_id : Option String
  pub report_type : String
  pub format : ReportFormat
  pub state : RunState
  pub created_at : String

-- `'ACTIVE'`, `'SUSPENDED'` and `'DISABLED'`.
pub data Status : Type 0 where
  active suspended disabled : Status

abbrev pub is_active : Status → Bool
is_active active = true
is_active _ = false

-- The provider and the name are held by their code points.
pub record IntegrationConnection : Type 0 where
  pub connection_id : String
  pub tenant_id : String
  pub workspace_id : Option String
  pub provider : List ℕ
  pub display_name : List ℕ
  pub secret_reference : String
  pub configuration : Fields
  pub status : Status
  pub created_at : String

pub record Tenant : Type 0 where
  pub tenant_id : String
  pub name : String
  pub status : Status

pub record Workspace : Type 0 where
  pub workspace_id : String
  pub tenant_id : String
  pub name : List ℕ
  pub slug : List ℕ
  pub created_by : String
  pub created_at : String

pub data NotificationChannel : Type 0 where
  email webhook whatsapp : NotificationChannel

pub data AuditOutcome : Type 0 where
  success denied failure : AuditOutcome

pub record AuditRecord : Type 0 where
  pub id : String
  pub tenant_id : String
  pub workspace_id : Option String
  pub actor_id : String
  pub action : String
  pub resource : String
  pub result : AuditOutcome
  pub correlation_id : String
  pub occurred_at : String
  pub details : Json

pub record IdentityProfile : Type 0 where
  pub user_id : String
  pub tenant_id : String
  pub display_name : String
  pub email : Option String
  pub status : Status
  pub created_at : String
  pub updated_at : String

-- What a job holds beside its tenant and workspace.
pub data Content : Type 0 where
  run_content : (run_id workflow_id : String) → (version : ℕ) → (payload : Fields) → Content
  report_content : ReportJob → (filters : Fields) → Content
  notification_content :
      NotificationChannel → (destination template : String) → (variables : Fields) → Content

pub record Job : Type 0 where
  pub queue : String
  pub tenant_id : String
  pub workspace_id : Option String
  pub content : Content
  pub idempotency_key : String
  pub correlation_id : String
  pub max_attempts : ℕ

pub data Call : Type 0 where
  saves_run : WorkflowRun → Call
  saves_report : ReportJob → Call
  saves_connection : IntegrationConnection → Call
  saves_workspace : Workspace → Call
  appends : AuditRecord → Call
  enqueues : Job → Call

-- The repositories as they stand when a service reads them, and what each call that writes answers:
-- an identifier, which only the queue's is used, or an error.
pub record Ports : Type 0 where
  pub get_definition : (tenant_id workflow_id : String) → Result (Option WorkflowDefinition)
  pub get_report : (tenant_id report_id : String) → Result (Option ReportJob)
  pub find_connection :
      (tenant_id : String)
      → (workspace_id : Option String) → (provider display_name : List ℕ)
      → Result (Option IntegrationConnection)
  pub get_tenant : (tenant_id : String) → Result (Option Tenant)
  pub get_workspace : (workspace_id : String) → Result (Option Workspace)
  pub find_workspace_by_slug : (tenant_id : String) → (slug : List ℕ) → Result (Option Workspace)
  pub find_profile : (user_id : String) → Result (Option IdentityProfile)
  pub answer : Call → Result String

-- `randomUUID()` and `new Date().toISOString()`.
pub record Stamp : Type 0 where
  pub uuid : String
  pub now : String

pub record Run {ℓ} (T : Type ℓ) : Type ℓ where
  pub calls : List Call
  pub result : Result T

module _ {ℓ} {T : Type ℓ} where
  abbrev pub returns : Result T → Run T
  returns r = record { calls = []; result = r }

  abbrev pub fails : Failure → Run T
  fails e = returns (throw e)

  -- A check that throws, or a read, before the rest.
  unfoldable pub first {κ} : {S : Type κ} → Result S → (S → Run T) → Run T
  first (throw e) rest = fails e
  first (ok x) rest = rest x

  -- `if (bad) throw e`.
  unfoldable pub unless : Bool → Failure → Run T → Run T
  unless true e rest = fails e
  unless false e rest = rest

  -- A call that writes, before the rest.
  unfoldable pub call : Call → Result String → (String → Run T) → Run T
  call c (throw e) rest = record { calls = c ∷ []; result = throw e }
  call c (ok x) rest = record { calls = c ∷ (rest x).calls; result = (rest x).result }
