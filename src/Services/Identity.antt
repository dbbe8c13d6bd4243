-- ===== src/Services/Identity.antt =====
-- The identity service (services/identity/src/index.ts).
use aws_architecture.Base.{
  String, not, Option, none, some, List, ◌!==◌, any, includes, Result, ok, error, reject_if, ◌>>◌,
}
use aws_architecture.Security.Context.{TenantContext}
use aws_architecture.Services.Ports.{
  IdentityProfile, is_active, Ports, Run, returns, fails, first, unless,
}

abbrev pub shown_profile : TenantContext → Option IdentityProfile → Run IdentityProfile
shown_profile context none = fails (error "IDENTITY_PROFILE_NOT_FOUND")
shown_profile context (some profile) =
    unless (profile.tenant_id !== context.tenant_id) (error "IDENTITY_PROFILE_NOT_FOUND")
      (unless (not (is_active profile.status)) (error "IDENTITY_SUSPENDED") (returns (ok profile)))

-- `IdentityService.currentProfile`.
unfoldable pub current_profile : Ports → TenantContext → Run IdentityProfile
current_profile ports context =
    first (ports.find_profile context.user_id) (λ profile. shown_profile context profile)

-- `IdentityService.assertPrivilegedAccess`.
unfoldable pub assert_privileged_access :
    TenantContext → (allowed_roles : List String) → Result (Unit {0})
assert_privileged_access context allowed_roles = do
  reject_if (not (any (includes allowed_roles) context.roles)) (error "PRIVILEGED_ROLE_REQUIRED")
  reject_if (not context.mfa) (error "MFA_REQUIRED_FOR_PRIVILEGED_ROLE")
