-- ===== src/Control/Plane/Tests.antt =====
-- A change that is approved, and a configuration that is not there.
use aws_architecture.Base.{
  String, List, some, Failure, throw, true, false, none, [], ◌∷◌, ◌≡◌, ◌⊎◌, refl, ok, map,
}
use aws_architecture.Base.Json.{obj, end}
use aws_architecture.Base.Map.{get, set, Values}
use aws_architecture.Control.Machine.{waiting_approval, approved, ChangeState-discrete}
use aws_architecture.Control.Plane.Types.{
  amber, Extra, PlatformChange, ConfigurationVersion, Repository,
}
use aws_architecture.Control.Plane.{
  append_audit, save_platform_change, new_change, move_change, activate_config_version, activate,
  transitions, moved,
}
use aws_architecture.Control.Plane.Routes.{
  ControlActor, ChangeBody, post_rollback, post_change, post_validate, post_plan, post_approve,
}
use aws_architecture.Control.Plane.Stages.{IsStaged}
use aws_architecture.Control.Plane.Requests.{
  PlaneRequest, posts_change, posts_validate, posts_plan, posts_approve, PlaneTurn, all_served,
  fresh, all_served-IsStaged,
}
use aws_architecture.Control.Plane.Oversight.{IsMoved, IsRefused, move_change-outcome}

abbrev waiting : PlatformChange
waiting = record {
  change_id = "c1";
  environment = "production";
  requested_by = "alice";
  requested_at = "t";
  capability = "cache";
  old_state = obj end;
  desired_state = obj end;
  risk_level = amber;
  status = waiting_approval;
  impact = none;
  approved_by = none;
  started_at = none;
  completed_at = none;
  rollback_change_id = none;
}

abbrev version_one : ConfigurationVersion
version_one = record {
  version = 1;
  environment = "production";
  configuration = obj end;
  created_by = "alice";
  created_at = "t";
  active = true;
}

abbrev repository : Repository
repository = record { changes = ("c1", waiting) ∷ []; configs = version_one ∷ []; audit = [] }

approves :
    (move_change "c1" "t2" approved "bob" "r" repository).1 ≡ ok (moved "t2" waiting approved "bob")
unfolding move_change get transitions ChangeState-discrete
approves = refl

move_change-outcome_example :
    IsRefused repository (move_change "c1" "t2" approved "bob" "r" repository)
    ⊎ ((c : PlatformChange) × (m : PlatformChange) × IsMoved "c1" "t2" approved "bob" "r" repository
          (move_change "c1" "t2" approved "bob" "r" repository)
          c
          m)
move_change-outcome_example = move_change-outcome "c1" "t2" approved "bob" "r" repository

-- A version that is not there leaves the environment without an active one.
none_active :
    map (λ x. x.active) (activate_config_version "production" 2 repository).0.configs ≡ false ∷ []
unfolding activate_config_version activate
none_active = refl

abbrev no_extra : Extra
no_extra = record {
  change_id = none;
  requested_at = none;
  status = none;
  impact = none;
  approved_by = none;
  started_at = none;
  completed_at = none;
  rollback_change_id = none;
}

abbrev body : Extra → ChangeBody
body extra = record {
  capability = "cache";
  old_state = obj end;
  desired_state = obj end;
  risk_level = amber;
  environment = none;
  requested_by = none;
  correlation_id = none;
  extra = extra;
}

abbrev by : String → PlaneRequest → PlaneTurn
by user request = record {
  now = "t";
  request_id = "r";
  actor = record { user_id = user; roles = "sre" ∷ [] };
  request = request;
}

abbrev requests : List PlaneTurn
requests =
    by "alice" (posts_change "c2" (body no_extra))
    ∷ by "alice" (posts_validate "c2" none)
    ∷ by "alice" (posts_plan "c2")
    ∷ by "bob" (posts_approve "c2")
    ∷ []

bob_approved :
    map (λ (id, c). c.approved_by) (all_served "production" requests fresh).changes
    ≡ some "bob" ∷ []
unfolding all_served post_approve post_plan post_validate post_change append_audit
    save_platform_change set new_change transitions ChangeState-discrete moved
bob_approved = refl

-- A body that names a status makes an approved change that nobody approved.
abbrev claimed : List PlaneTurn
claimed = by "alice" (posts_change "c3" (body (record no_extra { status = some approved }))) ∷ []

nobody_approved :
    map (λ (id, c). c.approved_by) (all_served "production" claimed fresh).changes ≡ none ∷ []
unfolding all_served post_change append_audit save_platform_change set new_change
nobody_approved = refl

all_served-IsStaged_example :
    Values IsStaged (all_served "production" requests fresh).changes
    × ((id now rid : String) (actor : ControlActor)
        → (e : Failure) × ((post_rollback "production" now rid actor id
              (all_served "production" requests fresh)).1
            ≡ throw e))
all_served-IsStaged_example = all_served-IsStaged "production" requests (refl, (tt, (tt, (tt, tt))))
