-- ===== src/Control/Plane/Types.antt =====
-- The data of the second change service and what its repository keeps
-- (apps/platform-control-api/src/section19: types.ts, memory-repository.ts, the input of service.ts).
use aws_architecture.Base.{ℕ, String, Bool, Option, List}
use aws_architecture.Base.Json.{Json}
use aws_architecture.Control.Machine.{ChangeState}

pub data RiskLevel : Type 0 where
  green blue amber red locked : RiskLevel

pub record PlatformChange : Type 0 where
  pub change_id : String
  pub environment : String
  pub requested_by : String
  pub requested_at : String
  pub capability : String
  pub old_state : Json
  pub desired_state : Json
  pub risk_level : RiskLevel
  pub status : ChangeState
  pub impact : Option Json
  pub approved_by : Option String
  pub started_at : Option String
  pub completed_at : Option String
  pub rollback_change_id : Option String

pub record ConfigurationVersion : Type 0 where
  pub version : ℕ
  pub environment : String
  pub configuration : Json
  pub created_by : String
  pub created_at : String
  pub active : Bool

-- What an audit event shows of before and after.
pub data Shown : Type 0 where
  state_shown : Json → Shown
  change_shown : PlatformChange → Shown

pub record AuditEvent : Type 0 where
  pub actor : String
  pub action : String
  pub resource : String
  pub old_value : Option Shown
  pub new_value : Option Shown
  pub environment : String
  pub correlation_id : String
  pub timestamp : String
  pub result : String

-- What the repository keeps and the service changes.
pub record Repository : Type 0 where
  pub changes : List (String × PlatformChange)
  pub configs : List ConfigurationVersion
  pub audit : List AuditEvent

-- Fields of a change that the input's type does not have.
pub record Extra : Type 0 where
  pub change_id : Option String
  pub requested_at : Option String
  pub status : Option ChangeState
  pub impact : Option Json
  pub approved_by : Option String
  pub started_at : Option String
  pub completed_at : Option String
  pub rollback_change_id : Option String

pub record PlatformInput : Type 0 where
  pub environment : String
  pub requested_by : String
  pub capability : String
  pub old_state : Json
  pub desired_state : Json
  pub risk_level : RiskLevel
  pub correlation_id : String
  pub extra : Extra
