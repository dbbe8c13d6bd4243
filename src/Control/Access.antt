-- ===== src/Control/Access.antt =====
-- Who reaches the handlers of the control API, and the readers of the audit trail and of the secrets'
-- metadata (apps/platform-control-api/src/auth.ts, server.ts, store.ts). The token's verification is a
-- parameter.
pub mod Operators
use aws_architecture.Base.{
  String, Bool, true, false, not, Option, none, some, List, [], ◌∷◌, ◌≡◌, ◌⊎◌, inl, inr, refl,
  arith, Bool-cases, includes, any, if◌then◌else◌, Failure, error, coded, http, Result, ok, throw,
  reject_if, reject_if-ok, ◌>>=◌, ◌>>◌, >>=-eq-ok, >>-eq-ok,
}
use aws_architecture.Base.Json.{Json, Fields}
use aws_architecture.Security.Context.{TenantContext}
use aws_architecture.Api.Requests.{path_of}
use aws_architecture.Control.Pages.{secrets}
use aws_architecture.Control.Secrets.{redact_secret_material}
use aws_architecture.Control.Store.{Snapshot, Store, get_page}

unfoldable pub control_public_paths : List String
control_public_paths = "/health" ∷ "/health/live" ∷ "/health/ready" ∷ "/health/startup" ∷ []

unfoldable pub privileged_roles : List String
privileged_roles = "platform-admin" ∷ "sre" ∷ "security-admin" ∷ []

-- `catch`: an error with a status is thrown again, any other is an invalid token.
abbrev pub as_invalid : {A : Type 0} → Result A → Result A
as_invalid (ok x) = ok x
as_invalid (throw (http s c m)) = throw (http s c m)
as_invalid (throw _) = throw (
    http 401 "INVALID_TOKEN"
      "Authentication token is invalid or does not satisfy control-plane policy")

module _ (verify : String → Result TenantContext) where
  -- The body of the `try`.
  unfoldable pub privileged_context : (token : String) → Result TenantContext
  unfolding privileged_roles
  privileged_context token = do
    ctx ← verify token
    reject_if (not (any (includes privileged_roles) ctx.roles))
        (http 403 "PLATFORM_ROLE_REQUIRED" "Privileged platform role is required")
    reject_if (not ctx.mfa) (
        http 403 "MFA_REQUIRED_FOR_PRIVILEGED_ROLE"
          "Multi-factor authentication is required for privileged platform roles")
    ok ctx

  -- `authenticateControlOperator`, of the token behind `Bearer `.
  unfoldable pub authenticate_control_operator : (token : Option String) → Result TenantContext
  unfolding privileged_context
  authenticate_control_operator none =
      throw (http 401 "AUTHENTICATION_REQUIRED" "Bearer token is required")
  authenticate_control_operator (some token) = as_invalid (privileged_context token)

  -- The hook before each request: none is the operator of a public path.
  unfoldable pub control_on_request :
      (url : String) → (token : Option String) → Result (Option TenantContext)
  unfolding control_public_paths path_of authenticate_control_operator
  control_on_request url token =
      if includes control_public_paths (path_of url)
      then ok none
      else (do operator ← authenticate_control_operator token; ok (some operator))

-- GET /v1/control/audit, of the store in memory.
unfoldable pub show_audit : Store → List Fields
show_audit s = s.audit

-- GET /v1/control/secrets.
unfoldable pub show_secrets : Store → Snapshot
unfolding redact_secret_material get_page
show_secrets s =
    let page = get_page secrets s in record page { contents = redact_secret_material page.contents }
