-- ===== src/Control/Plane/Routes.antt =====
-- The routes of the second change service that write (apps/platform-control-api/src/section19/routes.ts).
-- The actor of a request, its identifier, the clock and the random identifiers are arguments.
use aws_architecture.Base.{
  ℕ, String, true, not, ◌&&◌, Option, none, some, List, if◌then◌else◌, http, Result, ok, throw,
}
use aws_architecture.Base.Map.{get}
use aws_architecture.Base.Json.{Json, is_truthy}
use aws_architecture.Policy.{
  Verdict, SwitchClass, application_provider, infrastructure, compute_migration, change_provider,
  evaluate_platform_policy,
}
use aws_architecture.Config.Locked.{validate_platform_state}
use aws_architecture.Control.Machine.{
  ChangeState, validating, impact_analysis, approved, provisioning, rolling_back,
}
use aws_architecture.Control.Plane.Types.{RiskLevel, amber, red, PlatformChange, Repository, Extra}
use aws_architecture.Control.Plane.{given, create_platform_change, move_change, activate_config}

-- `ControlActor`.
pub record ControlActor : Type 0 where
  pub user_id : String
  pub roles : List String

-- The body of POST /platform/changes: the declared fields, and others that it may have.
pub record ChangeBody : Type 0 where
  pub capability : String
  pub old_state : Json
  pub desired_state : Json
  pub risk_level : RiskLevel
  pub environment : Option String
  pub requested_by : Option String
  pub correlation_id : Option String
  pub extra : Extra

-- What is sent back: a change, or that a configuration is active.
pub data Sent : Type 0 where
  change_sent : PlatformChange → Sent
  active_sent : Sent

abbrev pub of_change : Repository × Result PlatformChange → Repository × Result Sent
of_change (repo, throw e) = (repo, throw e)
of_change (repo, ok c) = (repo, ok (change_sent c))

abbrev pub of_activation : Repository × Result (Unit {0}) → Repository × Result Sent
of_activation (repo, throw e) = (repo, throw e)
of_activation (repo, ok u) = (repo, ok active_sent)

-- The class that `approve` gives to the policy.
abbrev pub switch_class : RiskLevel → SwitchClass
switch_class red = compute_migration
switch_class amber = infrastructure
switch_class _ = application_provider

-- What the policy says of an approval.
unfoldable pub approval_verdict : (environment : String) → ControlActor → PlatformChange → Verdict
unfolding evaluate_platform_policy
approval_verdict environment actor change = evaluate_platform_policy (record {
  environment = environment;
  actor_roles = actor.roles;
  switch_class = switch_class change.risk_level;
  operation = change_provider;
  capability = change.capability;
  approved = true;
})

module _ (environment now request_id : String) (actor : ControlActor) where
  abbrev pub moved_to : String → ChangeState → Repository → Repository × Result Sent
  moved_to id next repo = of_change (move_change id now next actor.user_id request_id repo)

  -- POST /platform/changes: `{environment, requestedBy, correlationId, ...req.body}`.
  unfoldable pub post_change : (uuid : String) → ChangeBody → Repository → Repository × Result Sent
  unfolding create_platform_change
  post_change uuid body repo = of_change (
      create_platform_change uuid now
        (record {
          environment = given body.environment environment;
          requested_by = given body.requested_by actor.user_id;
          capability = body.capability;
          old_state = body.old_state;
          desired_state = body.desired_state;
          risk_level = body.risk_level;
          correlation_id = given body.correlation_id request_id;
          extra = body.extra;
        })
        repo)

  -- POST /platform/changes/:id/validate. A state that is not truthy is not validated.
  unfoldable pub post_validate : (id : String) → Option Json → Repository → Repository × Result Sent
  unfolding validate_platform_state move_change
  post_validate id none repo = moved_to id validating repo
  post_validate id (some state) repo =
      if is_truthy state && not (validate_platform_state state environment).valid
      then (repo, throw (http 409 "INVALID_DESIRED_STATE" "Desired state validation failed"))
      else moved_to id validating repo

  abbrev pub approve_found : String → Repository → Option PlatformChange → Repository × Result Sent
  unfolding approval_verdict move_change
  approve_found id repo none = (repo, throw (http 404 "CHANGE_NOT_FOUND" "Change not found"))
  approve_found id repo (some change) =
      if not (approval_verdict environment actor change).allowed
      then (repo, throw (http 403 "POLICY_REJECTED" ""))
      else moved_to id approved repo

  -- POST /platform/changes/:id/approve.
  unfoldable pub post_approve : (id : String) → Repository → Repository × Result Sent
  unfolding approval_verdict move_change get
  post_approve id repo = approve_found id repo (get id repo.changes)

  -- POST /platform/changes/:id/plan, apply and rollback.
  unfoldable pub post_plan : (id : String) → Repository → Repository × Result Sent
  unfolding move_change
  post_plan id repo = moved_to id impact_analysis repo

  unfoldable pub post_apply : (id : String) → Repository → Repository × Result Sent
  unfolding move_change
  post_apply id repo = moved_to id provisioning repo

  unfoldable pub post_rollback : (id : String) → Repository → Repository × Result Sent
  unfolding move_change
  post_rollback id repo = moved_to id rolling_back repo

  -- POST /platform/config/:version/activate.
  unfoldable pub post_activate : (version : ℕ) → Repository → Repository × Result Sent
  unfolding activate_config
  post_activate version repo =
      of_activation (activate_config now environment version actor.user_id request_id repo)
