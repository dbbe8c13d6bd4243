-- ===== src/Services/Tenant.antt =====
-- The tenant service (services/tenant/src/index.ts).
use aws_architecture.Base.{
  ℕ, ◌+◌, String, Bool, true, false, not, ◌&&◌, ◌||◌, Option, none, some, List, [], ◌∷◌, ltb, leb,
  ◌==◌, if◌then◌else◌, ok, error,
}
use aws_architecture.Base.Text.{codes, trim, lower}
use aws_architecture.Security.Context.{TenantContext, assert_tenant_resource, require}
use aws_architecture.Services.Ports.{
  Tenant, Workspace, is_active, saves_workspace, Ports, Stamp, Run, returns, fails, first, unless,
  call,
}

-- `length`, in UTF-16 units.
unfoldable pub unit_count : List ℕ → ℕ
unit_count [] = 0
unit_count (c ∷ cs) = (if ltb c 65536 then 1 else 2) + unit_count cs

abbrev is_word : ℕ → Bool
is_word c = (leb b'a' c && leb c b'z') || (leb b'0' c && leb c b'9')

-- `/^[a-z0-9]+(?:-[a-z0-9]+)*$/`: the flag says that a word has to begin.
unfoldable pub is_slug : Bool → List ℕ → Bool
is_slug begins [] = not begins
is_slug begins (c ∷ cs) =
    let inside = is_slug false cs in
    let next = is_slug true cs in if is_word c then inside else not begins && c == b'-' && next

pub record WorkspaceInput : Type 0 where
  pub name : String
  pub slug : String

unfoldable pub new_workspace : TenantContext → Stamp → (name slug : List ℕ) → Workspace
new_workspace context stamp name slug = record {
  workspace_id = stamp.uuid;
  tenant_id = context.tenant_id;
  name = name;
  slug = slug;
  created_by = context.user_id;
  created_at = stamp.now;
}

-- `!tenant || tenant.status !== 'ACTIVE'`.
abbrev pub is_inactive : Option Tenant → Bool
is_inactive none = true
is_inactive (some tenant) = not (is_active tenant.status)

abbrev pub save_new : Ports → Workspace → Option Workspace → Run Workspace
save_new ports workspace none =
    call (saves_workspace workspace) (ports.answer (saves_workspace workspace))
      (λ saved. returns (ok workspace))
save_new ports workspace (some taken) = fails (error "WORKSPACE_SLUG_ALREADY_EXISTS")

-- `TenantService.createWorkspace`.
unfoldable pub create_workspace : Ports → TenantContext → Stamp → WorkspaceInput → Run Workspace
create_workspace ports context stamp input =
    let name = trim (codes input.name) in
    let slug = lower (trim (codes input.slug)) in
    first (require context "workspace:create") (λ granted.
      first (ports.get_tenant context.tenant_id) (λ tenant.
        unless (is_inactive tenant) (error "TENANT_NOT_ACTIVE") (
          unless (ltb (unit_count name) 2 || ltb 120 (unit_count name) || not (is_slug true slug))
            (error "INVALID_WORKSPACE")
            (first (ports.find_workspace_by_slug context.tenant_id slug)
              (λ taken. save_new ports (new_workspace context stamp name slug) taken)))))

abbrev pub shown_workspace : TenantContext → Option Workspace → Run Workspace
shown_workspace context none = fails (error "WORKSPACE_NOT_FOUND")
shown_workspace context (some w) =
    first (assert_tenant_resource context w.tenant_id (some w.workspace_id)) (λ own. returns (ok w))

-- `TenantService.getWorkspace`.
unfoldable pub get_workspace : Ports → TenantContext → (workspace_id : String) → Run Workspace
get_workspace ports context workspace_id =
    first (ports.get_workspace workspace_id) (λ found. shown_workspace context found)
