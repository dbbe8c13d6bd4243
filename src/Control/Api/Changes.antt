-- ===== src/Control/Api/Changes.antt =====
-- Change requests: creating them and moving them on (server.ts, `/v1/control/changes`).
use aws_architecture.Base.{
  ℕ, String, Bool, true, false, not, ◌&&◌, Option, none, some, ◌===◌, ◌!==◌, if◌then◌else◌,
  includes, present, Result, ok, throw, http, reject_if,
}
use Prim.Native.String
use aws_architecture.Base.Json.{Json}
use aws_architecture.Security.Context.{TenantContext}
use aws_architecture.Policy.{is_locked_production_capability}
use aws_architecture.Control.Reply.{Reply, sent, refused, thrown, guarded}
use aws_architecture.Control.Machine.{
  ChangeState, ControlOperation, disable_capability, stop_infrastructure, destroy_infrastructure,
  impact_analysis, approved, is, ChangeRequest, create, transition, Semantics, operation_semantics,
}
use aws_architecture.Control.Store.{Store, save_change, get_change}

-- A request: who makes it (the context that authentication has set) and the ambient values.
pub record Request : Type 0 where
  pub operator : TenantContext
  pub id : String
  pub clock : ℕ → String
  pub uuid : String

-- `requireControlWrite` of apps/platform-control-api/src/auth.ts.
unfoldable pub require_control_write : TenantContext → Result (Unit {0})
require_control_write ctx =
    reject_if
      (not (includes ctx.permissions "platform:write") && not (includes ctx.permissions "*"))
      (http 403 "PLATFORM_WRITE_PERMISSION_REQUIRED" "Platform write permission is required")

pub record NewChange : Type 0 where
  pub environment : Option String
  pub operation : ControlOperation
  pub capability : String
  pub desired : Json

abbrev pub is_destruction : ControlOperation → Bool
is_destruction destroy_infrastructure = true
is_destruction _ = false

abbrev pub is_shutdown : ControlOperation → Bool
is_shutdown disable_capability = true
is_shutdown stop_infrastructure = true
is_shutdown _ = false

-- `body.environment && body.environment !== environment`.
abbrev pub mismatched : Option String → String → Bool
mismatched none environment = false
mismatched (some e) environment = present (some e) && e !== environment

abbrev scope_message : String → Option String → String
scope_message environment none = ""
scope_message environment (some e) =
    String.◌++◌ "Control API is scoped to " (String.◌++◌ environment (String.◌++◌ "; requested " e))

abbrev pub created : (environment : String) → Request → NewChange → ChangeRequest
created environment r body = create r.uuid (r.clock 0) (record {
  environment = environment;
  actor_id = r.operator.user_id;
  operation = body.operation;
  capability = body.capability;
  desired = body.desired;
  impact_report = none;
  approved_by = none;
})

abbrev described : Option Semantics → String
described none = ""
described (some semantics) = semantics.description

-- The tests of a new change, in order.
abbrev pub create_checked :
    (environment : String) → Request → NewChange → Store → Store × Reply ChangeRequest
create_checked environment r body s =
    if mismatched body.environment environment
    then (
      s,
      refused 409 "ENVIRONMENT_SCOPE_MISMATCH" (scope_message environment body.environment) r.id,
    )
    else if is_destruction body.operation
    then (
      s,
      refused 409 "DESTRUCTIVE_ACTION_REQUIRES_ORCHESTRATOR"
          (described (operation_semantics body.operation)) r.id,
    )
    else if environment === "production"
        && is_shutdown body.operation
        && is_locked_production_capability body.capability
    then (
      s,
      refused 409 "LOCKED_PRODUCTION_CAPABILITY"
          (String.◌++◌ body.capability " cannot be disabled or stopped in production") r.id,
    )
    else (
      save_change (r.clock 1) (created environment r body) s,
      sent 201 (created environment r body),
    )

-- `POST /v1/control/changes`.
unfoldable pub create_change :
    (environment : String) → Request → NewChange → Store → Store × Reply ChangeRequest
create_change environment r body s =
    guarded (require_control_write r.operator) s (create_checked environment r body s)

-- The change as it is saved: an approval names its approver.
abbrev pub approve : ChangeRequest → ChangeState → (operator : String) → ChangeRequest
approve c next operator = if is next approved then record c { approved_by = some operator } else c

-- The decision on a transition, from the change that was read.
unfoldable pub decide :
    Request → (next : ChangeState) → (note : Option String) → ChangeRequest → Reply ChangeRequest
unfolding transition
decide r next note current =
    if current.environment === "production" && is current.state impact_analysis && is next approved
    then refused 409 "PRODUCTION_APPROVAL_STAGE_REQUIRED"
        "Production changes must enter WAITING_APPROVAL before APPROVED" r.id
    else if current.environment === "production"
        && is next approved
        && current.actor_id === r.operator.user_id
    then refused 403 "SEPARATION_OF_DUTIES"
        "The production change requestor cannot approve their own change." r.id
    else elim (transition (r.clock 0) current next r.operator.user_id note) [
      | ok moved ↦ sent 200 (approve moved next r.operator.user_id)
      | throw e ↦ thrown e
    ]

-- `await store.saveChange(next)`, if there is a change to save.
unfoldable pub commit : Request → Reply ChangeRequest → Store → Store × Reply ChangeRequest
commit r (sent status next) s = (save_change (r.clock 1) next s, sent status next)
commit r (refused status code message id) s = (s, refused status code message id)
commit r (thrown e) s = (s, thrown e)

abbrev pub decide_found :
    Request
    → (next : ChangeState) → (note : Option String) → Option ChangeRequest
    → Reply ChangeRequest
decide_found r next remark none = refused 404 "CHANGE_NOT_FOUND" "Change request not found" r.id
decide_found r next remark (some current) = decide r next remark current

-- `POST /v1/control/changes/:id/transition`, with nothing between its read and its write.
unfoldable pub transition_change :
    Request
    → (id : String) → (next : ChangeState) → (note : Option String) → Store
    → Store × Reply ChangeRequest
transition_change r id next note s =
    guarded (require_control_write r.operator) s
      (commit r (decide_found r next note (get_change id s)) s)
