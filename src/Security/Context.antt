-- ===== src/Security/Context.antt =====
-- The tenant context of a request, permission checks and resource isolation
-- (packages/security/src/tenant-context.ts, packages/security/src/authorization.ts).
use aws_architecture.Base.{
  String, Bool, false, not, ◌&&◌, Option, none, some, List, ◌!==◌, if◌then◌else◌, present, same,
  includes, Result, error, reject_if, ◌>>◌,
}
use aws_architecture.Base.Json.{bool, Fields, get_field}

pub record TenantContext : Type 0 where
  pub user_id : String
  pub tenant_id : String
  pub workspace_id : Option String
  pub roles : List String
  pub permissions : List String
  pub session_id : Option String
  pub mfa : Bool

pub record Resource : Type 0 where
  pub tenant_id : String
  pub workspace_id : Option String
  pub owner_user_id : Option String

pub record AuthorizationRequest : Type 0 where
  pub permission : String
  pub resource : Option Resource
  pub attributes : Option Fields

-- `a && b && a !== b` for two optional strings.
abbrev pub conflict : Option String → Option String → Bool
conflict a b = present a && present b && not (same b a)

unfoldable pub assert_tenant_resource :
    TenantContext → (tenant_id : String) → (workspace_id : Option String) → Result (Unit {0})
assert_tenant_resource ctx tenant_id workspace_id = do
  reject_if (tenant_id !== ctx.tenant_id) (error "CROSS_TENANT_ACCESS_DENIED")
  reject_if (conflict ctx.workspace_id workspace_id) (error "CROSS_WORKSPACE_ACCESS_DENIED")

-- `request.attributes?.ownerOnly === true`.
unfoldable pub owner_only : Option Fields → Bool
unfolding get_field
owner_only none = false
owner_only (some fs) = elim (get_field "ownerOnly" fs) [
  | none ↦ false
  | some v ↦ elim v [ bool b ↦ b | _ ↦ false ]
]

-- The tests of the request's resource; one that is absent has no tenant, workspace or owner.
unfoldable pub resource_allowed : TenantContext → Option Resource → (owner_only : Bool) → Bool
resource_allowed ctx none only = not only
resource_allowed ctx (some r) only =
    if r.tenant_id !== ctx.tenant_id
    then false
    else if conflict ctx.workspace_id r.workspace_id
    then false
    else not (only && not (same r.owner_user_id (some ctx.user_id)))

unfoldable pub authorize : TenantContext → AuthorizationRequest → Bool
unfolding resource_allowed owner_only
authorize ctx request =
    if not (includes ctx.permissions request.permission) && not (includes ctx.permissions "*")
    then false
    else resource_allowed ctx request.resource (owner_only request.attributes)

unfoldable pub require_permission : TenantContext → AuthorizationRequest → Result (Unit {0})
unfolding authorize
require_permission ctx request = reject_if (not (authorize ctx request)) (error "FORBIDDEN")

-- `requirePermission(context, { permission })`.
abbrev pub require : TenantContext → String → Result (Unit {0})
require ctx permission =
    require_permission ctx (record { permission = permission; resource = none; attributes = none })
