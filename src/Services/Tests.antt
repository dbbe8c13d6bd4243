-- ===== src/Services/Tests.antt =====
-- The services for one caller, over repositories that hold little.
use aws_architecture.Base.{length, ◌≤◌, true, none, some, [], ◌∷◌, ◌≡◌, refl, ok, All}
use aws_architecture.Base.Json.{str, obj, end, field}
use aws_architecture.Security.Context.{TenantContext}
use aws_architecture.Services.Ports.{WorkflowDefinition, active, success, Ports, Stamp}
use aws_architecture.Services.Workflow.{WorkflowInput}
use aws_architecture.Services.Audit.{AuditInput, redact, record_action}
use aws_architecture.Services.Sensitive.{is_sensitive, matches}
use aws_architecture.Services.Isolation.{starts_workflow, calls_of, Own, calls_of-Own}
use aws_architecture.Services.Redaction.{Attributed, record_action-Attributed}

abbrev caller : TenantContext
caller = record {
  user_id = "alice";
  tenant_id = "t1";
  workspace_id = some "w1";
  roles = [];
  permissions = "*" ∷ [];
  session_id = none;
  mfa = true;
}

abbrev definition : WorkflowDefinition
definition = record {
  workflow_id = "wf";
  tenant_id = "t1";
  workspace_id = none;
  name = "nightly";
  enabled = true;
  version = 3;
}

abbrev ports : Ports
ports = record {
  get_definition = λ t w. ok (some definition);
  get_report = λ t r. ok none;
  find_connection = λ t w p n. ok none;
  get_tenant = λ t. ok (some (record { tenant_id = t; name = "T"; status = active }));
  get_workspace = λ w. ok none;
  find_workspace_by_slug = λ t s. ok none;
  find_profile = λ u. ok none;
  answer = λ c. ok "job";
}

abbrev stamp : Stamp
stamp = record { uuid = "r1"; now = "t" }

abbrev input : WorkflowInput
input = record { workflow_id = "wf"; correlation_id = "c"; payload = end; idempotency_key = "k" }

calls_of-Own_example :
    All
      (Own ports caller stamp (starts_workflow input))
      (calls_of (λ cs. cs) ports caller stamp (starts_workflow input))
calls_of-Own_example = calls_of-Own ports caller stamp (λ cs. cs) (starts_workflow input)

abbrev entry : AuditInput
entry = record {
  action = "login";
  resource = "session";
  result = success;
  correlation_id = "c";
  details = some (field "Api-Key" (str "k") (field "ip" (str "10.0.0.1") end));
}

entry_redacted :
    redact (obj (field "Api-Key" (str "k") (field "ip" (str "10.0.0.1") end)))
    ≡ obj (field "Api-Key" (str "[REDACTED]") (field "ip" (str "10.0.0.1") end))
unfolding redact is_sensitive matches
entry_redacted = refl

record_action-Attributed_example :
    (length (record_action ports caller stamp entry).calls ≤ 1)
    × All (Attributed caller) (record_action ports caller stamp entry).calls
record_action-Attributed_example = record_action-Attributed ports caller stamp entry
