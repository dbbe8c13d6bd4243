-- ===== src/Services/Integration.antt =====
-- The integration service (services/integration/src/index.ts). The runtime's `toLowerCase` is a
-- parameter.
use aws_architecture.Base.{
  ℕ, String, Bool, true, false, ◌||◌, Option, none, some, List, [], ◌∷◌, any, ok, error,
}
use aws_architecture.Base.Json.{obj, end, Fields, entries}
use aws_architecture.Base.Text.{codes, trim, is_blank}
use aws_architecture.Security.Context.{TenantContext, require}
use aws_architecture.Services.Sensitive.{is_sensitive_config}
use aws_architecture.Services.Ports.{
  IntegrationConnection, active, saves_connection, Ports, Stamp, Run, returns, fails, first, unless,
  call,
}

pub record ConnectionInput : Type 0 where
  pub provider : String
  pub display_name : String
  pub secret_reference : String
  pub configuration : Option Fields

abbrev pub is_empty : List ℕ → Bool
is_empty [] = true
is_empty (c ∷ cs) = false

-- `input.configuration ?? {}`.
abbrev pub given : Option Fields → Fields
given none = end
given (some fs) = fs

unfoldable pub new_connection :
    TenantContext
    → Stamp
    → ConnectionInput
    → (provider display_name : List ℕ) → IntegrationConnection
new_connection context stamp input provider display_name = record {
  connection_id = stamp.uuid;
  tenant_id = context.tenant_id;
  workspace_id = context.workspace_id;
  provider = provider;
  display_name = display_name;
  secret_reference = input.secret_reference;
  configuration = given input.configuration;
  status = active;
  created_at = stamp.now;
}

abbrev pub save_new :
    Ports → IntegrationConnection → Option IntegrationConnection → Run IntegrationConnection
save_new ports connection none =
    call (saves_connection connection) (ports.answer (saves_connection connection))
      (λ saved. returns (ok connection))
save_new ports connection (some existing) = fails (error "INTEGRATION_CONNECTION_ALREADY_EXISTS")

-- `IntegrationService.createConnection`.
unfoldable pub create_connection :
    (to_lower : List ℕ → List ℕ)
    → Ports
    → TenantContext
    → Stamp
    → ConnectionInput
    → Run IntegrationConnection
create_connection to_lower ports context stamp input =
    let provider = to_lower (trim (codes input.provider)) in
    let display_name = trim (codes input.display_name) in
    first (require context "integration:write") (λ granted.
      unless (is_empty provider || is_empty display_name || is_blank (codes input.secret_reference))
        (error "INVALID_INTEGRATION_CONNECTION")
        (unless (any (λ e. is_sensitive_config e.0) (entries (obj (given input.configuration))))
          (error "PLAINTEXT_INTEGRATION_SECRET_FORBIDDEN")
          (first
            (ports.find_connection context.tenant_id context.workspace_id provider display_name)
            (λ existing.
              save_new ports (new_connection context stamp input provider display_name) existing))))
