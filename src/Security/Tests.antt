-- ===== src/Security/Tests.antt =====
-- Permission checks and resource isolation for one user.
use aws_architecture.Base.{refl, false, true, none, some, [], ◌∷◌, ◌≡◌, ◌↔◌, ok}
use aws_architecture.Base.Json.{bool, end, field}
use aws_architecture.Security.Context.{
  TenantContext, AuthorizationRequest, assert_tenant_resource, require_permission,
}
use aws_architecture.Security.Governance.{
  tenant, maintenance_mode, EmergencyState, assert_production_approval, assert_maintenance_scope,
  apply_emergency_control,
}
use aws_architecture.Security.Oversight.{
  IsApproval, OnlySets, MaintainsAs, assert_production_approval_iff,
  apply_emergency_control-OnlySets,
}
use aws_architecture.Security.Laws.{
  Agree, IsGranted, assert_tenant_resource_iff, require_permission_iff,
}

abbrev alice : TenantContext
alice = record {
  user_id = "alice";
  tenant_id = "t1";
  workspace_id = some "w1";
  roles = [];
  permissions = "report:read" ∷ [];
  session_id = none;
  mfa = true;
}

abbrev own_report : AuthorizationRequest
own_report = record {
  permission = "report:read";
  resource =
      some (record { tenant_id = "t1"; workspace_id = some "w1"; owner_user_id = some "alice" });
  attributes = some (field "ownerOnly" (bool true) end);
}

assert_tenant_resource_iff_example :
    (assert_tenant_resource alice "t1" (some "w2") ≡ ok tt)
    ↔ (("t1" ≡ alice.tenant_id) × Agree alice.workspace_id (some "w2"))
assert_tenant_resource_iff_example = assert_tenant_resource_iff alice "t1" (some "w2")

require_permission_iff_example :
    (require_permission alice own_report ≡ ok tt) ↔ IsGranted alice own_report
require_permission_iff_example = require_permission_iff alice own_report

assert_production_approval_iff_example :
    (assert_production_approval "alice" (some "bob") ≡ ok tt) ↔ IsApproval "alice" (some "bob")
assert_production_approval_iff_example = assert_production_approval_iff "alice" (some "bob")

abbrev calm : EmergencyState
calm = record {
  signups_disabled = false;
  uploads_disabled = false;
  ai_disabled = false;
  inbound_webhooks_disabled = false;
  outbound_integrations_disabled = false;
  is_read_only = false;
  maintenance = none;
}

maintained :
    apply_emergency_control calm maintenance_mode true
      (some (record { kind = tenant; id = some "t1" }))
    ≡ ok (record calm { maintenance = some (record { kind = tenant; id = some "t1" }) })
unfolding apply_emergency_control assert_maintenance_scope
maintained = refl

apply_emergency_control-OnlySets_example :
    OnlySets calm maintenance_mode true
      (record calm { maintenance = some (record { kind = tenant; id = some "t1" }) })
    × MaintainsAs calm maintenance_mode true
        (some (record { kind = tenant; id = some "t1" }))
        (record calm { maintenance = some (record { kind = tenant; id = some "t1" }) })
apply_emergency_control-OnlySets_example =
    apply_emergency_control-OnlySets calm maintenance_mode true
      (some (record { kind = tenant; id = some "t1" })) maintained
