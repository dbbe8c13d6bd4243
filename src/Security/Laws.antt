-- ===== src/Security/Laws.antt =====
-- What permission checks and resource isolation promise (packages/security/src/tenant-context.ts,
-- packages/security/src/authorization.ts).
use aws_architecture.Base.{
  String, Bool, true, false, not, ◌||◌, Option, none, some, ◌≡◌, ◌↔◌, inl, inr, ◌!==◌, same,
  includes, Failure, ok, reject_if, reject_if-ok, >>-eq-ok, arith, eq_iff, refl, Bool-cases, truthy,
}
use aws_architecture.Security.Context.{
  TenantContext, Resource, AuthorizationRequest, conflict, assert_tenant_resource, owner_only,
  resource_allowed, authorize, require_permission,
}

-- Two optional workspaces that are both named (an empty name counts as none) are one.
abbrev pub Agree : Option String → Option String → Type 0
Agree (some u) (some v) = truthy u ≡ true → truthy v ≡ true → u ≡ v
Agree _ _ = Unit

agree : (a b : Option String) → conflict a b ≡ false → Agree a b
agree none b h = tt
agree (some u) none h = tt
agree (some u) (some v) h = λ tu tv. ground (arith, eq_iff u v, eq_iff v u)

no_conflict : (a b : Option String) → Agree a b → conflict a b ≡ false
no_conflict none b h = refl
no_conflict (some u) none h = ground arith
no_conflict (some u) (some v) h = grind (arith, eq_iff u v, eq_iff v u, h)

reject_if-pass : (b : Bool) (e : Failure) → b ≡ false → reject_if b e ≡ ok tt
reject_if-pass b e h = rw h refl

-- A resource is reached exactly by the tenant that it belongs to, and in its workspace where it and
-- the caller both name one.
pub assert_tenant_resource_iff :
    (ctx : TenantContext) (tenant_id : String) (workspace_id : Option String)
    → (assert_tenant_resource ctx tenant_id workspace_id ≡ ok tt)
      ↔ ((tenant_id ≡ ctx.tenant_id) × Agree ctx.workspace_id workspace_id)
unfolding assert_tenant_resource
assert_tenant_resource_iff ctx t w = (
  λ h.
      let (first, rest) = >>-eq-ok _ _ h in
      let own : (t !== ctx.tenant_id) ≡ false = reject_if-ok _ _ first in
      (ground (arith, eq_iff t ctx.tenant_id, own), agree _ _ (reject_if-ok _ _ rest)),
  λ h.
      let same_tenant : (t !== ctx.tenant_id) ≡ false =
        ground (arith, eq_iff t ctx.tenant_id, h.0) in
      rw (same_tenant, no_conflict _ _ h.1) refl,
)

-- What a resource asks of who uses it.
abbrev pub Reaches : TenantContext → Option Resource → (owner_only : Bool) → Type 0
Reaches ctx none only = only ≡ false
Reaches ctx (some r) only =
    (r.tenant_id ≡ ctx.tenant_id)
    × Agree ctx.workspace_id r.workspace_id
    × (only ≡ true → r.owner_user_id ≡ some ctx.user_id)

-- Who is granted a permission, and what they may use with it.
pub record IsGranted (ctx : TenantContext) (q : AuthorizationRequest) : Type 0 where
  pub granted : (includes ctx.permissions q.permission || includes ctx.permissions "*") ≡ true
  pub reaches : Reaches ctx q.resource (owner_only q.attributes)

not-false : (b : Bool) → not b ≡ false → b ≡ true
not-false true h = refl
not-false false h = cc

same-some : (a : Option String) (u : String) → (same a (some u) ≡ true) ↔ (a ≡ some u)
same-some none u = ((λ h. cc), λ h. cc)
same-some (some v) u = ground (arith, eq_iff v u)

resource_allowed_iff :
    (ctx : TenantContext) (r : Option Resource) (only : Bool)
    → (resource_allowed ctx r only ≡ true) ↔ Reaches ctx r only
unfolding resource_allowed
resource_allowed_iff ctx none only = (λ h. ground arith, λ h. ground arith)
resource_allowed_iff ctx (some r) only =
    let own = same-some r.owner_user_id ctx.user_id in
    let no = no_conflict ctx.workspace_id r.workspace_id in
    let yes = agree ctx.workspace_id r.workspace_id in
    (
      λ h. (
        ground (arith, eq_iff r.tenant_id ctx.tenant_id),
        yes (ground (arith, eq_iff r.tenant_id ctx.tenant_id)),
        λ o. own.0 (ground (arith, eq_iff r.tenant_id ctx.tenant_id)),
      ),
      λ (t, a, o).
          let fits = no a in
          elim (Bool-cases only) [
            | inl e ↦ let mine = own.1 (o e) in ground (arith, eq_iff r.tenant_id ctx.tenant_id)
            | inr e ↦ ground (arith, eq_iff r.tenant_id ctx.tenant_id)
          ],
    )

-- A request is allowed exactly if its permission or `*` is among the caller's, and the resource, where
-- one is named, is of the caller's tenant, of the caller's workspace where both name one, and, for
-- owners only, the caller's own; a request for owners only that names no resource is refused.
pub require_permission_iff :
    (ctx : TenantContext) (q : AuthorizationRequest)
    → (require_permission ctx q ≡ ok tt) ↔ IsGranted ctx q
unfolding require_permission authorize
require_permission_iff ctx q =
    let reach = resource_allowed_iff ctx q.resource (owner_only q.attributes) in
    (
      λ h.
          let pass : authorize ctx q ≡ true = not-false _ (reject_if-ok _ _ h) in
          record { granted = ground arith; reaches = reach.0 (ground arith) },
      λ h.
          let fits = reach.1 h.reaches in
          let held = h.granted in let pass : authorize ctx q ≡ true = ground arith in rw pass refl,
    )
