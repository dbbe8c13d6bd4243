-- ===== src/Security/Oversight.antt =====
-- What production approval and emergency controls promise
-- (packages/security/src/control-governance.ts).
use aws_architecture.Base.{
  String, Bool, true, false, Option, none, some, ◌≡◌, ◌≢◌, ◌↔◌, refl, arith, eq_iff, truthy, ok,
  ok-injective, >>-eq-ok, subst, ap, sym, ◌⊎◌, inl, inr, not, ◌&&◌, present, reject_if-ok,
}
use aws_architecture.Security.Governance.{
  ScopeKind, platform, tenant, workspace, service, feature, is_platform, assert_maintenance_scope,
  MaintenanceScope, EmergencyControl, disable_signups, disable_file_uploads, disable_ai,
  disable_external_webhook_processing, disable_outbound_integrations, read_only, maintenance_mode,
  EmergencyState, assert_production_approval, maintain, apply_emergency_control,
}

-- An approval by a named user who is not the requestor.
abbrev pub IsApproval : String → Option String → Type 0
IsApproval requested_by none = ⊥
IsApproval requested_by (some a) = (truthy a ≡ true) × (requested_by ≢ a)

-- A production change passes exactly when a named user other than its requestor approved it.
pub assert_production_approval_iff :
    (requested_by : String) (approved_by : Option String)
    → (assert_production_approval requested_by approved_by ≡ ok tt)
      ↔ IsApproval requested_by approved_by
unfolding assert_production_approval
assert_production_approval_iff r none = ((λ h. cc), λ h. absurd h)
assert_production_approval_iff r (some a) = (
  λ h. (ground (arith, eq_iff r a), λ e. ground (arith, eq_iff r a)),
  λ h. grind (arith, eq_iff r a, h.0, h.1),
)

abbrev is_some {ℓ} : {A : Type ℓ} → Option A → Bool
is_some none = false
is_some (some x) = true

-- Whether a control is on.
abbrev pub is_on : EmergencyState → EmergencyControl → Bool
is_on s disable_signups = s.signups_disabled
is_on s disable_file_uploads = s.uploads_disabled
is_on s disable_ai = s.ai_disabled
is_on s disable_external_webhook_processing = s.inbound_webhooks_disabled
is_on s disable_outbound_integrations = s.outbound_integrations_disabled
is_on s read_only = s.is_read_only
is_on s maintenance_mode = is_some s.maintenance

-- The state after one control was set, and only that one.
abbrev pub OnlySets : EmergencyState → EmergencyControl → Bool → EmergencyState → Type 0
OnlySets before control enabled after =
    (is_on after control ≡ enabled)
    × ((other : EmergencyControl) → other ≢ control → is_on after other ≡ is_on before other)

maintain-OnlySets :
    (s : EmergencyState) (enabled : Bool) (scope : Option MaintenanceScope) {after : EmergencyState}
    → maintain s enabled scope ≡ ok after
    → OnlySets s maintenance_mode enabled after
maintain-OnlySets s false scope h = subst (OnlySets s maintenance_mode false) (ok-injective h) (
  refl,
  λ d n.
      elim d
          as (λ d. d ≢ maintenance_mode → is_on (record s { maintenance = none }) d ≡ is_on s d) [
            | maintenance_mode ↦ λ n. absurd (n refl)
            | _ ↦ λ n. refl
          ]
        n,
)
maintain-OnlySets s true none h = cc
maintain-OnlySets s true (some scope) h =
    subst (OnlySets s maintenance_mode true) (ok-injective (>>-eq-ok _ _ h).1) (
      refl,
      λ d n.
          elim d
              as (λ d.
                d ≢ maintenance_mode
                → is_on (record s { maintenance = some scope }) d ≡ is_on s d) [
                  | maintenance_mode ↦ λ n. absurd (n refl)
                  | _ ↦ λ n. refl
                ]
            n,
    )

switches :
    (s : EmergencyState) (control : EmergencyControl) (enabled : Bool)
    (scope : Option MaintenanceScope) {after : EmergencyState}
    → apply_emergency_control s control enabled scope ≡ ok after
    → OnlySets s control enabled after
unfolding apply_emergency_control
switches s maintenance_mode enabled scope h = maintain-OnlySets s enabled scope h
switches s disable_signups enabled scope h =
    subst (OnlySets s disable_signups enabled) (ok-injective h) (
      refl,
      λ d n.
          elim d
              as (λ d.
                d ≢ disable_signups
                → is_on (record s { signups_disabled = enabled }) d ≡ is_on s d) [
                  | disable_signups ↦ λ n. absurd (n refl)
                  | _ ↦ λ n. refl
                ]
            n,
    )
switches s disable_file_uploads enabled scope h =
    subst (OnlySets s disable_file_uploads enabled) (ok-injective h) (
      refl,
      λ d n.
          elim d
              as (λ d.
                d ≢ disable_file_uploads
                → is_on (record s { uploads_disabled = enabled }) d ≡ is_on s d) [
                  | disable_file_uploads ↦ λ n. absurd (n refl)
                  | _ ↦ λ n. refl
                ]
            n,
    )
switches s disable_ai enabled scope h = subst (OnlySets s disable_ai enabled) (ok-injective h) (
  refl,
  λ d n.
      elim d as (λ d. d ≢ disable_ai → is_on (record s { ai_disabled = enabled }) d ≡ is_on s d) [
        | disable_ai ↦ λ n. absurd (n refl)
        | _ ↦ λ n. refl
      ]
        n,
)
switches s disable_external_webhook_processing enabled scope h =
    subst (OnlySets s disable_external_webhook_processing enabled) (ok-injective h) (
      refl,
      λ d n.
          elim d
              as (λ d.
                d ≢ disable_external_webhook_processing
                → is_on (record s { inbound_webhooks_disabled = enabled }) d ≡ is_on s d) [
                  | disable_external_webhook_processing ↦ λ n. absurd (n refl)
                  | _ ↦ λ n. refl
                ]
            n,
    )
switches s disable_outbound_integrations enabled scope h =
    subst (OnlySets s disable_outbound_integrations enabled) (ok-injective h) (
      refl,
      λ d n.
          elim d
              as (λ d.
                d ≢ disable_outbound_integrations
                → is_on (record s { outbound_integrations_disabled = enabled }) d ≡ is_on s d) [
                  | disable_outbound_integrations ↦ λ n. absurd (n refl)
                  | _ ↦ λ n. refl
                ]
            n,
    )
switches s read_only enabled scope h = subst (OnlySets s read_only enabled) (ok-injective h) (
  refl,
  λ d n.
      elim d as (λ d. d ≢ read_only → is_on (record s { is_read_only = enabled }) d ≡ is_on s d) [
        | read_only ↦ λ n. absurd (n refl)
        | _ ↦ λ n. refl
      ]
        n,
)

-- A scope that maintenance may have: the whole platform, or what a given identifier names.
abbrev pub IsScope : MaintenanceScope → Type 0
IsScope x = (x.kind ≡ platform) ⊎ (present x.id ≡ true)

-- The maintenance after a control was set: exactly the scope that was asked for, none once it is
-- lifted, and as before where another control was set.
abbrev pub MaintainsAs :
    EmergencyState → EmergencyControl → Bool → Option MaintenanceScope → EmergencyState → Type 0
MaintainsAs before maintenance_mode true scope after =
    (x : MaintenanceScope) × (scope ≡ some x) × IsScope x × (after.maintenance ≡ some x)
MaintainsAs before maintenance_mode false scope after = after.maintenance ≡ none
MaintainsAs before _ enabled scope after = after.maintenance ≡ before.maintenance

assert_maintenance_scope-IsScope :
    (x : MaintenanceScope) → assert_maintenance_scope x ≡ ok tt → IsScope x
unfolding assert_maintenance_scope
assert_maintenance_scope-IsScope x h = scope_cases x.kind (present x.id) (reject_if-ok _ _ h)
  where
    scope_cases :
        (k : ScopeKind) (p : Bool)
        → (not (is_platform k) && not p) ≡ false
        → (k ≡ platform) ⊎ (p ≡ true)
    scope_cases k true e = inr refl
    scope_cases platform false e = inl refl
    scope_cases tenant false e = cc
    scope_cases workspace false e = cc
    scope_cases service false e = cc
    scope_cases feature false e = cc

maintained :
    (s : EmergencyState) (control : EmergencyControl) (enabled : Bool)
    (scope : Option MaintenanceScope) {after : EmergencyState}
    → apply_emergency_control s control enabled scope ≡ ok after
    → MaintainsAs s control enabled scope after
unfolding apply_emergency_control
maintained s maintenance_mode false scope h = ap (λ a. a.maintenance) (sym (ok-injective h))
maintained s maintenance_mode true none h = cc
maintained s maintenance_mode true (some x) h =
    let (scoped, made) = >>-eq-ok (assert_maintenance_scope x) _ h in
    (
      x,
      refl,
      assert_maintenance_scope-IsScope x scoped,
      ap (λ a. a.maintenance) (sym (ok-injective made)),
    )
maintained s disable_signups enabled scope h = ap (λ a. a.maintenance) (sym (ok-injective h))
maintained s disable_file_uploads enabled scope h = ap (λ a. a.maintenance) (sym (ok-injective h))
maintained s disable_ai enabled scope h = ap (λ a. a.maintenance) (sym (ok-injective h))
maintained s disable_external_webhook_processing enabled scope h =
    ap (λ a. a.maintenance) (sym (ok-injective h))
maintained s disable_outbound_integrations enabled scope h =
    ap (λ a. a.maintenance) (sym (ok-injective h))
maintained s read_only enabled scope h = ap (λ a. a.maintenance) (sym (ok-injective h))

-- Setting an emergency control sets that control to what was asked and leaves every other as it was.
-- Maintenance is entered with exactly the scope that was given, which is the platform or has an
-- identifier, and is lifted to none.
pub apply_emergency_control-OnlySets :
    (s : EmergencyState) (control : EmergencyControl) (enabled : Bool)
    (scope : Option MaintenanceScope) {after : EmergencyState}
    → apply_emergency_control s control enabled scope ≡ ok after
    → OnlySets s control enabled after × MaintainsAs s control enabled scope after
apply_emergency_control-OnlySets s control enabled scope h =
    (switches s control enabled scope h, maintained s control enabled scope h)
