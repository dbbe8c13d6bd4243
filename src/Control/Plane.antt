-- ===== src/Control/Plane.antt =====
-- The second change service and its repository in memory (apps/platform-control-api/src/section19:
-- service.ts, memory-repository.ts, types.ts). The handlers' clock and identifiers are arguments; the
-- calls of one method run one after the other. The input of a
-- creation may have, beyond its type, the other fields of a change, since a request's body is spread
-- into it.
pub mod Types
pub mod Moves
pub mod Oversight
pub mod Routes
pub mod Stages
pub mod Requests
mod Tests
use aws_architecture.Base.{
  ℕ, String, Bool, true, false, not, ◌&&◌, Option, none, some, List, [], ◌∷◌, ◌++◌, ◌===◌, ◌==◌,
  any, if◌then◌else◌, Failure, http, Result, ok, throw,
}
use Prim.Native.String
use aws_architecture.Base.Map.{get, set}
use aws_architecture.Base.Text.{decimal}
use aws_architecture.Base.Json.{Json}
use aws_architecture.Control.Machine.{
  ChangeState, draft, validating, impact_analysis, waiting_approval, approved, provisioning,
  deploying, verifying, stabilizing, completed, failed, rolling_back, rolled_back, is, has,
}
use aws_architecture.Control.Plane.Types.{
  RiskLevel, green, blue, amber, red, locked, PlatformChange, ConfigurationVersion, Shown,
  state_shown, change_shown, AuditEvent, Repository, Extra, PlatformInput,
}

unfoldable pub transitions : ChangeState → List ChangeState
transitions draft = validating ∷ []
transitions validating = impact_analysis ∷ failed ∷ []
transitions impact_analysis = waiting_approval ∷ approved ∷ failed ∷ []
transitions waiting_approval = approved ∷ failed ∷ []
transitions approved = provisioning ∷ deploying ∷ failed ∷ []
transitions provisioning = deploying ∷ failed ∷ []
transitions deploying = verifying ∷ failed ∷ []
transitions verifying = stabilizing ∷ failed ∷ []
transitions stabilizing = completed ∷ failed ∷ []
transitions failed = rolling_back ∷ []
transitions rolling_back = rolled_back ∷ []
transitions completed = []
transitions rolled_back = []

-- `next.toLowerCase()`.
abbrev pub action_name : ChangeState → String
action_name draft = "draft"
action_name validating = "validating"
action_name impact_analysis = "impact_analysis"
action_name waiting_approval = "waiting_approval"
action_name approved = "approved"
action_name provisioning = "provisioning"
action_name deploying = "deploying"
action_name verifying = "verifying"
action_name stabilizing = "stabilizing"
action_name completed = "completed"
action_name failed = "failed"
action_name rolling_back = "rolling_back"
action_name rolled_back = "rolled_back"

-- `saveChange` and `appendAudit` of the repository.
unfoldable pub save_platform_change : PlatformChange → Repository → Repository
save_platform_change change repo = record repo {
  changes = set change.change_id change repo.changes;
}

unfoldable pub append_audit : AuditEvent → Repository → Repository
append_audit event repo = record repo { audit = repo.audit ++ event ∷ [] }

-- `activateConfigVersion`.
unfoldable pub activate : String → ℕ → List ConfigurationVersion → List ConfigurationVersion
activate environment version [] = []
activate environment version (x ∷ xs) =
    let rest = activate environment version xs in
    (if x.environment === environment then record x { active = x.version == version } else x) ∷ rest

unfoldable pub activate_config_version : String → ℕ → Repository → Repository × Result (Unit {0})
activate_config_version environment version repo =
    let after = record repo { configs = activate environment version repo.configs } in
    if any (λ x. x.environment === environment && x.version == version) repo.configs
    then (after, ok tt)
    else (after, throw (http 404 "CONFIG_VERSION_NOT_FOUND" "Configuration version not found"))

-- A field of a later spread, where it has one.
abbrev pub given {ℓ} : {A : Type ℓ} → Option A → A → A
given none x = x
given (some y) x = y

abbrev is_locked : RiskLevel → Bool
is_locked locked = true
is_locked _ = false

unfoldable pub new_change : (uuid now : String) → PlatformInput → PlatformChange
new_change uuid now input = record {
  change_id = given input.extra.change_id uuid;
  environment = input.environment;
  requested_by = input.requested_by;
  requested_at = given input.extra.requested_at now;
  capability = input.capability;
  old_state = input.old_state;
  desired_state = input.desired_state;
  risk_level = input.risk_level;
  status = given input.extra.status draft;
  impact = input.extra.impact;
  approved_by = input.extra.approved_by;
  started_at = input.extra.started_at;
  completed_at = input.extra.completed_at;
  rollback_change_id = input.extra.rollback_change_id;
}

-- `createChange`.
unfoldable pub create_platform_change :
    (uuid now : String) → PlatformInput → Repository → Repository × Result PlatformChange
create_platform_change uuid now input repo =
    let change = new_change uuid now input in
    let event : AuditEvent = record {
      actor = input.requested_by;
      action = "change.create";
      resource = change.change_id;
      old_value = some (state_shown input.old_state);
      new_value = some (state_shown input.desired_state);
      environment = input.environment;
      correlation_id = input.correlation_id;
      timestamp = now;
      result = "SUCCESS";
    } in
    if is_locked input.risk_level
    then (repo, throw (http 409 "LOCKED_CAPABILITY" "Locked capabilities cannot be changed"))
    else (append_audit event (save_platform_change change repo), ok change)

unfoldable pub moved :
    (now : String) → PlatformChange → ChangeState → (actor : String) → PlatformChange
moved now change next actor = record change {
  status = next;
  approved_by = if is next approved then some actor else change.approved_by;
  started_at = if has (provisioning ∷ deploying ∷ []) next then some now else change.started_at;
  completed_at = if has (completed ∷ rolled_back ∷ []) next then some now else change.completed_at;
}

-- `transition`, for the change that was found.
abbrev pub move_found :
    (id now : String)
    → ChangeState
    → (actor correlation_id : String) → Repository
    → Option PlatformChange
    → Repository × Result PlatformChange
move_found id now next actor correlation_id repo none =
    (repo, throw (http 404 "CHANGE_NOT_FOUND" "Change not found"))
move_found id now next actor correlation_id repo (some change) =
    let updated = moved now change next actor in
    let event : AuditEvent = record {
      actor = actor;
      action = String.◌++◌ "change." (action_name next);
      resource = id;
      old_value = some (change_shown change);
      new_value = some (change_shown updated);
      environment = change.environment;
      correlation_id = correlation_id;
      timestamp = now;
      result = "SUCCESS";
    } in
    if not (has (transitions change.status) next)
    then (repo, throw (http 409 "INVALID_CHANGE_TRANSITION" "Invalid transition"))
    else if is next approved && change.environment === "production" && actor === change.requested_by
    then (repo, throw (http 403 "SEPARATION_OF_DUTIES" "Production requestor cannot self-approve"))
    else (append_audit event (save_platform_change updated repo), ok updated)

unfoldable pub move_change :
    (id now : String)
    → ChangeState
    → (actor correlation_id : String) → Repository
    → Repository × Result PlatformChange
move_change id now next actor correlation_id repo =
    move_found id now next actor correlation_id repo (get id repo.changes)

-- `activateConfig`.
abbrev pub audited : AuditEvent → Repository × Result (Unit {0}) → Repository × Result (Unit {0})
audited event (repo, throw e) = (repo, throw e)
audited event (repo, ok u) = (append_audit event repo, ok u)

unfoldable pub activate_config :
    (now environment : String)
    → (version : ℕ) → (actor correlation_id : String) → Repository
    → Repository × Result (Unit {0})
activate_config now environment version actor correlation_id repo =
    audited
      (record {
        actor = actor;
        action = "config.activate";
        resource = decimal version;
        old_value = none;
        new_value = none;
        environment = environment;
        correlation_id = correlation_id;
        timestamp = now;
        result = "SUCCESS";
      })
      (activate_config_version environment version repo)
