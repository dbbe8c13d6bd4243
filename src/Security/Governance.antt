-- ===== src/Security/Governance.antt =====
-- Roles, production approval and emergency controls (packages/security/src/control-governance.ts).
use aws_architecture.Base.{
  String, Bool, true, false, not, ◌&&◌, Option, none, some, List, [], ◌∷◌, present, same, includes,
  Result, ok, throw, coded, reject_if, ◌>>◌,
}

pub data PlatformRole : Type 0 where
  viewer developer operator devops security_admin approver platform_admin : PlatformRole

unfoldable pub grants : PlatformRole → List String
grants viewer = "read:health" ∷ "read:config" ∷ "read:deployments" ∷ "read:costs" ∷ []
grants developer = "change:dev-safe" ∷ []
grants operator = "restart" ∷ "redeploy" ∷ []
grants devops = "change:infrastructure" ∷ []
grants security_admin = "manage:security" ∷ "read:security-findings" ∷ []
grants approver = "approve:production" ∷ []
grants platform_admin = "govern:platform" ∷ "change:platform-config" ∷ []

unfoldable pub can : PlatformRole → String → Bool
unfolding grants
can role permission = includes (grants role) permission

pub data ScopeKind : Type 0 where
  platform tenant workspace service feature : ScopeKind

pub record MaintenanceScope : Type 0 where
  pub kind : ScopeKind
  pub id : Option String

pub data EmergencyControl : Type 0 where
  disable_signups disable_file_uploads disable_ai disable_external_webhook_processing
        disable_outbound_integrations read_only maintenance_mode :
      EmergencyControl

pub record EmergencyState : Type 0 where
  pub signups_disabled : Bool
  pub uploads_disabled : Bool
  pub ai_disabled : Bool
  pub inbound_webhooks_disabled : Bool
  pub outbound_integrations_disabled : Bool
  pub is_read_only : Bool
  pub maintenance : Option MaintenanceScope

unfoldable pub assert_production_approval :
    (requested_by : String) → (approved_by : Option String) → Result (Unit {0})
assert_production_approval requested_by approved_by = do
  reject_if (not (present approved_by))
      (coded "PRODUCTION_APPROVAL_REQUIRED" "Production approval required")
  reject_if (same (some requested_by) approved_by) (
      coded "SEPARATION_OF_DUTIES"
        "Requestor and approver must differ for production-critical changes")

abbrev pub is_platform : ScopeKind → Bool
is_platform platform = true
is_platform _ = false

unfoldable pub assert_maintenance_scope : MaintenanceScope → Result (Unit {0})
assert_maintenance_scope scope =
    reject_if (not (is_platform scope.kind) && not (present scope.id))
      (coded "MAINTENANCE_SCOPE_REQUIRED" "maintenance requires a scope id")

-- The case of `maintenance_mode`.
abbrev pub maintain : EmergencyState → Bool → Option MaintenanceScope → Result EmergencyState
maintain state false scope = ok (record state { maintenance = none })
maintain state true none = throw (coded "MAINTENANCE_SCOPE_REQUIRED" "Maintenance scope required")
maintain state true (some scope) = do
  assert_maintenance_scope scope
  ok (record state { maintenance = some scope })

unfoldable pub apply_emergency_control :
    EmergencyState → EmergencyControl → Bool → Option MaintenanceScope → Result EmergencyState
apply_emergency_control state disable_signups enabled scope =
    ok (record state { signups_disabled = enabled })
apply_emergency_control state disable_file_uploads enabled scope =
    ok (record state { uploads_disabled = enabled })
apply_emergency_control state disable_ai enabled scope = ok (record state { ai_disabled = enabled })
apply_emergency_control state disable_external_webhook_processing enabled scope =
    ok (record state { inbound_webhooks_disabled = enabled })
apply_emergency_control state disable_outbound_integrations enabled scope =
    ok (record state { outbound_integrations_disabled = enabled })
apply_emergency_control state read_only enabled scope = ok (record state { is_read_only = enabled })
apply_emergency_control state maintenance_mode enabled scope = maintain state enabled scope
