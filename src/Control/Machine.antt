-- ===== src/Control/Machine.antt =====
-- The change state machine (apps/platform-control-api/src/change-machine.ts). The clock and the
-- random identifier are arguments.
pub mod Trail
pub mod History
pub mod Completion
use aws_architecture.Base.{
  String, Bool, true, false, Option, none, some, List, [], ◌∷◌, ◌++◌, if◌then◌else◌, ◌≡◌, Result,
  ok, throw, Failure, error, arith,
}
use aws_architecture.Base.Json.{Json}
use Prim.Native.String

pub data ChangeState : Type 0 where
  draft validating impact_analysis waiting_approval approved provisioning deploying verifying
        stabilizing completed failed rolling_back rolled_back :
      ChangeState

-- `unchecked` is what a body may hold in place of an operation: it is not tested.
pub data ControlOperation : Type 0 where
  disable_capability stop_infrastructure destroy_infrastructure change_provider compute_migration :
      ControlOperation
  unchecked : (value : Json) → ControlOperation

unfoldable pub state_name : ChangeState → String
state_name draft = "DRAFT"
state_name validating = "VALIDATING"
state_name impact_analysis = "IMPACT_ANALYSIS"
state_name waiting_approval = "WAITING_APPROVAL"
state_name approved = "APPROVED"
state_name provisioning = "PROVISIONING"
state_name deploying = "DEPLOYING"
state_name verifying = "VERIFYING"
state_name stabilizing = "STABILIZING"
state_name completed = "COMPLETED"
state_name failed = "FAILED"
state_name rolling_back = "ROLLING_BACK"
state_name rolled_back = "ROLLED_BACK"

unfoldable pub ChangeState-discrete : Discrete ChangeState
ChangeState-discrete = hlevel

-- `===` on states, and `includes` on a list of them.
abbrev pub is : ChangeState → ChangeState → Bool
is a b = elim (ChangeState-discrete a b) [ yes _ ↦ true | no _ ↦ false ]

abbrev pub has : List ChangeState → ChangeState → Bool
has [] s = false
has (x ∷ xs) s = if is x s then true else has xs s

-- `forward`: the states that may follow; a state without an entry has none.
unfoldable pub forward : ChangeState → List ChangeState
forward draft = validating ∷ []
forward validating = impact_analysis ∷ failed ∷ []
forward impact_analysis = waiting_approval ∷ approved ∷ failed ∷ []
forward waiting_approval = approved ∷ failed ∷ []
forward approved = provisioning ∷ deploying ∷ failed ∷ []
forward provisioning = deploying ∷ failed ∷ []
forward deploying = verifying ∷ failed ∷ []
forward verifying = stabilizing ∷ failed ∷ []
forward stabilizing = completed ∷ failed ∷ []
forward failed = rolling_back ∷ []
forward rolling_back = rolled_back ∷ []
forward completed = []
forward rolled_back = []

pub record AuditEntry : Type 0 where
  pub state : ChangeState
  pub at : String
  pub actor_id : String
  pub note : Option String

pub record ChangeRequest : Type 0 where
  pub id : String
  pub environment : String
  pub actor_id : String
  pub operation : ControlOperation
  pub capability : String
  pub desired : Json
  pub state : ChangeState
  pub impact_report : Option Json
  pub approved_by : Option String
  pub created_at : String
  pub updated_at : String
  pub audit : List AuditEntry

-- The argument of `create`.
pub record ChangeInput : Type 0 where
  pub environment : String
  pub actor_id : String
  pub operation : ControlOperation
  pub capability : String
  pub desired : Json
  pub impact_report : Option Json
  pub approved_by : Option String

unfoldable pub create : (uuid now : String) → ChangeInput → ChangeRequest
create uuid now input = record {
  id = uuid;
  environment = input.environment;
  actor_id = input.actor_id;
  operation = input.operation;
  capability = input.capability;
  desired = input.desired;
  state = draft;
  impact_report = input.impact_report;
  approved_by = input.approved_by;
  created_at = now;
  updated_at = now;
  audit = record { state = draft; at = now; actor_id = input.actor_id; note = none } ∷ [];
}

abbrev invalid_transition : ChangeState → ChangeState → Failure
invalid_transition a b = error (
    String.◌++◌ "Invalid change transition "
      (String.◌++◌ (state_name a) (String.◌++◌ " -> " (state_name b))))

-- The change with the next state; the note is optional.
abbrev pub advance :
    (now : String) → ChangeRequest → ChangeState → (actor : String) → Option String → ChangeRequest
advance now change next actor note = record change {
  state = next;
  updated_at = now;
  audit = change.audit ++ record { state = next; at = now; actor_id = actor; note = note } ∷ [];
}

unfoldable pub transition :
    (now : String)
    → ChangeRequest
    → ChangeState
    → (actor : String) → Option String
    → Result ChangeRequest
transition now change next actor note =
    if has (forward change.state) next
    then ok (advance now change next actor note)
    else throw (invalid_transition change.state next)

pub record Semantics : Type 0 where
  pub destructive : Bool
  pub description : String

unfoldable pub operation_semantics : ControlOperation → Option Semantics
operation_semantics disable_capability = some (record {
  destructive = false;
  description =
      "Stop application usage and activate fallback/degraded mode; infrastructure remains intact.";
})
operation_semantics stop_infrastructure = some (record {
  destructive = false;
  description = "Stop/deactivate a provider only if the provider safely supports it.";
})
operation_semantics destroy_infrastructure = some (record {
  destructive = true;
  description = "Remove via IaC only after stabilization, approval, backup and retention checks.";
})
operation_semantics change_provider = some (record {
  destructive = false;
  description = "Validated provider cutover with health verification and rollback.";
})
operation_semantics compute_migration = some (record {
  destructive = false;
  description = "Parallel environment migration with incremental traffic shift.";
})
operation_semantics (unchecked value) = none
