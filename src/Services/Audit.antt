-- ===== src/Services/Audit.antt =====
-- The audit service (services/audit/src/index.ts).
use aws_architecture.Base.{
  ℕ, String, not, ◌||◌, Option, none, some, min, max, truthy, if◌then◌else◌, ok, error,
}
use aws_architecture.Base.Json.{
  Json, null, bool, num, other_num, str, arr, obj, Items, nil, cons, Fields, end, field,
}
use aws_architecture.Security.Context.{TenantContext}
use aws_architecture.Services.Sensitive.{is_sensitive}
use aws_architecture.Services.Ports.{
  AuditOutcome, AuditRecord, appends, Ports, Stamp, Run, returns, unless, call,
}

-- `redact(value)`; the test of a nested key stands where the key is met, and no key is not sensitive.
unfoldable mutual
  pub redact : Json → Json
  redact (arr xs) = arr (redact_entries xs)
  redact (obj fs) = obj (redact_nested fs)
  redact null = null
  redact (bool b) = bool b
  redact (num n) = num n
  redact (other_num n f g) = other_num n f g
  redact (str s) = str s

  pub redact_entries : Items → Items
  redact_entries nil = nil
  redact_entries (cons x xs) = cons (redact x) (redact_entries xs)

  pub redact_nested : Fields → Fields
  redact_nested end = end
  redact_nested (field key nested fs) =
      field key (if is_sensitive key then str "[REDACTED]" else redact nested) (redact_nested fs)

pub record AuditInput : Type 0 where
  pub action : String
  pub resource : String
  pub result : AuditOutcome
  pub correlation_id : String
  pub details : Option Fields

-- `input.details ?? {}`.
abbrev pub given : Option Fields → Json
given none = obj end
given (some fs) = obj fs

unfoldable pub new_record : TenantContext → Stamp → AuditInput → AuditRecord
new_record context stamp input = record {
  id = stamp.uuid;
  tenant_id = context.tenant_id;
  workspace_id = context.workspace_id;
  actor_id = context.user_id;
  action = input.action;
  resource = input.resource;
  result = input.result;
  correlation_id = input.correlation_id;
  occurred_at = stamp.now;
  details = redact (given input.details);
}

-- `AuditService.record`.
unfoldable pub record_action : Ports → TenantContext → Stamp → AuditInput → Run AuditRecord
record_action ports context stamp input =
    let entry = new_record context stamp input in
    unless
      (not (truthy input.action)
        || not (truthy input.resource)
        || not (truthy input.correlation_id))
      (error "AUDIT_CONTEXT_REQUIRED")
      (call (appends entry) (ports.answer (appends entry)) (λ saved. returns (ok entry)))

-- How many records `AuditService.list` asks for.
unfoldable pub list_limit : (limit : ℕ) → ℕ
list_limit limit = max 1 (min 500 limit)
