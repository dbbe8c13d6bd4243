-- ===== src/Control/Plane/Requests.antt =====
-- Any requests to the routes of the second change service
-- (apps/platform-control-api/src/section19/routes.ts).
use aws_architecture.Base.{
  ℕ, String, not, ◌&&◌, Option, none, some, List, [], ◌∷◌, ◌≡◌, refl, sym, subst, ◌===◌, Bool-cases,
  inl, inr, All, Failure, Result, ok, throw, any, ◌==◌,
}
use aws_architecture.Base.Map.{get, Values, set-Values, get-Values}
use aws_architecture.Base.Json.{is_truthy, Json}
use aws_architecture.Control.Machine.{
  ChangeState, draft, validating, impact_analysis, approved, provisioning, rolling_back, is, has,
}
use aws_architecture.Control.Plane.Types.{PlatformChange, PlatformInput, Repository}
use aws_architecture.Control.Plane.{
  given, transitions, moved, move_change, move_found, new_change, create_platform_change, is_locked,
  activate_config, activate_config_version, append_audit, save_platform_change,
}
use aws_architecture.Control.Plane.Routes.{
  ControlActor, ChangeBody, approval_verdict, Sent, of_change, of_activation, moved_to, post_change,
  post_validate, post_plan, post_approve, approve_found, post_apply, post_rollback, post_activate,
}
use aws_architecture.Config.Locked.{validate_platform_state}
use aws_architecture.Control.Plane.Stages.{
  IsStaged, IsRouted, StagedAt, rolling_back-impossible, moved-IsStaged,
}

-- A request that writes.
pub data PlaneRequest : Type 0 where
  posts_change : (uuid : String) → ChangeBody → PlaneRequest
  posts_validate : (id : String) → Option Json → PlaneRequest
  posts_plan : (id : String) → PlaneRequest
  posts_approve : (id : String) → PlaneRequest
  posts_apply : (id : String) → PlaneRequest
  posts_rollback : (id : String) → PlaneRequest
  posts_activate : (version : ℕ) → PlaneRequest

pub record PlaneTurn : Type 0 where
  pub now : String
  pub request_id : String
  pub actor : ControlActor
  pub request : PlaneRequest

abbrev served :
    (environment now request_id : String)
    → ControlActor
    → PlaneRequest
    → Repository
    → Repository × Result Sent
served env now rid actor (posts_change uuid body) repo =
    post_change env now rid actor uuid body repo
served env now rid actor (posts_validate id state) repo =
    post_validate env now rid actor id state repo
served env now rid actor (posts_plan id) repo = post_plan env now rid actor id repo
served env now rid actor (posts_approve id) repo = post_approve env now rid actor id repo
served env now rid actor (posts_apply id) repo = post_apply env now rid actor id repo
served env now rid actor (posts_rollback id) repo = post_rollback env now rid actor id repo
served env now rid actor (posts_activate version) repo =
    post_activate env now rid actor version repo

abbrev pub fresh : Repository
fresh = record { changes = []; configs = []; audit = [] }

-- The repository after the requests.
unfoldable pub all_served : (environment : String) → List PlaneTurn → Repository → Repository
all_served env [] repo = repo
all_served env (t ∷ ts) repo =
    all_served env ts (served env t.now t.request_id t.actor t.request repo).0

-- A body that does not name a status, as its type says.
abbrev pub HasNoStatus : PlaneRequest → Type 0
HasNoStatus (posts_change uuid body) = body.extra.status ≡ none
HasNoStatus _ = Unit

abbrev Staged : Repository → Type 0
Staged repo = Values IsStaged repo.changes

of_change-repo : (x : Repository × Result PlatformChange) → (of_change x).0 ≡ x.0
of_change-repo (repo, throw e) = refl
of_change-repo (repo, ok c) = refl

of_activation-repo : (x : Repository × Result (Unit {0})) → (of_activation x).0 ≡ x.0
of_activation-repo (repo, throw e) = refl
of_activation-repo (repo, ok u) = refl

move_found-Staged :
    (id now : String) (next : ChangeState) (actor rid : String) (repo : Repository)
    (o : Option PlatformChange)
    → IsRouted next
    → get id repo.changes ≡ o
    → Staged repo
    → Staged (move_found id now next actor rid repo o).0
unfolding append_audit save_platform_change
move_found-Staged id now next actor rid repo none r e h = h
move_found-Staged id now next actor rid repo (some c) r e h =
    elim (Bool-cases (has (transitions c.status) next)) [
      | inr bad ↦ rw bad h
      | inl good ↦
          elim (Bool-cases
            (is next approved && c.environment === "production" && actor === c.requested_by)) [
              | inl self ↦ rw (good, self) h
              | inr other ↦
                  rw (good, other)
                    (set-Values IsStaged (moved now c next actor).change_id (moved now c next actor)
                      repo.changes h
                      (moved-IsStaged now c next actor r good other
                        (get-Values IsStaged id repo.changes h e)))
            ]
    ]

moved_to-Staged :
    (env now rid : String) (actor : ControlActor) (id : String) (next : ChangeState)
    (repo : Repository)
    → IsRouted next
    → Staged repo
    → Staged (moved_to env now rid actor id next repo).0
unfolding move_change
moved_to-Staged env now rid actor id next repo r h =
    subst Staged (sym (of_change-repo (move_change id now next actor.user_id rid repo)))
      (move_found-Staged id now next actor.user_id rid repo (get id repo.changes) r refl h)

created-Staged :
    (uuid now : String) (input : PlatformInput) (repo : Repository)
    → input.extra.status ≡ none
    → Staged repo
    → Staged (create_platform_change uuid now input repo).0
unfolding create_platform_change append_audit save_platform_change new_change
created-Staged uuid now input repo plain h = elim (Bool-cases (is_locked input.risk_level)) [
  | inl e ↦ rw e h
  | inr e ↦ rw e (
      set-Values IsStaged (new_change uuid now input).change_id (new_change uuid now input)
        repo.changes h
        (subst (λ st. StagedAt (given st draft) (new_change uuid now input)) (sym plain) tt))
]

activated-changes :
    (now env : String) (version : ℕ) (actor rid : String) (repo : Repository)
    → (activate_config now env version actor rid repo).0.changes ≡ repo.changes
unfolding activate_config activate_config_version append_audit
activated-changes now env version actor rid repo =
    elim (Bool-cases (any (λ x. x.environment === env && x.version == version) repo.configs)) [
      | inl e ↦ rw e refl
      | inr e ↦ rw e refl
    ]

served-Staged :
    (env now rid : String) (actor : ControlActor) (r : PlaneRequest) (repo : Repository)
    → HasNoStatus r
    → Staged repo
    → Staged (served env now rid actor r repo).0
unfolding post_change post_validate post_plan post_approve post_apply post_rollback post_activate
served-Staged env now rid actor (posts_change uuid body) repo plain h =
    subst Staged (sym (of_change-repo (create_platform_change uuid now _ repo)))
      (created-Staged uuid now _ repo plain h)
served-Staged env now rid actor (posts_validate id none) repo plain h =
    moved_to-Staged env now rid actor id validating repo tt h
served-Staged env now rid actor (posts_validate id (some state)) repo plain h =
    elim (Bool-cases (is_truthy state && not (validate_platform_state state env).valid)) [
      | inl e ↦ rw e h
      | inr e ↦ rw e (moved_to-Staged env now rid actor id validating repo tt h)
    ]
served-Staged env now rid actor (posts_plan id) repo plain h =
    moved_to-Staged env now rid actor id impact_analysis repo tt h
served-Staged env now rid actor (posts_approve id) repo plain h = by_found (get id repo.changes)
  where
    by_found : (o : Option PlatformChange) → Staged (approve_found env now rid actor id repo o).0
    by_found none = h
    by_found (some c) = elim (Bool-cases (not (approval_verdict env actor c).allowed)) [
      | inl e ↦ rw e h
      | inr e ↦ rw e (moved_to-Staged env now rid actor id approved repo tt h)
    ]
served-Staged env now rid actor (posts_apply id) repo plain h =
    moved_to-Staged env now rid actor id provisioning repo tt h
served-Staged env now rid actor (posts_rollback id) repo plain h =
    moved_to-Staged env now rid actor id rolling_back repo tt h
served-Staged env now rid actor (posts_activate version) repo plain h =
    subst Staged (sym (of_activation-repo (activate_config now env version actor.user_id rid repo)))
      (subst (Values IsStaged) (sym (activated-changes now env version actor.user_id rid repo)) h)

all_served-Staged :
    (env : String) (ts : List PlaneTurn) (repo : Repository)
    → All (λ t. HasNoStatus t.request) ts
    → Staged repo
    → Staged (all_served env ts repo)
unfolding all_served
all_served-Staged env [] repo plain h = h
all_served-Staged env (t ∷ ts) repo (first, plain) h =
    all_served-Staged env ts (served env t.now t.request_id t.actor t.request repo).0 plain
      (served-Staged env t.now t.request_id t.actor t.request repo first h)

-- From an empty repository, after any requests to the routes whose bodies do not name a status: every
-- change is in draft, validating, impact analysis, approved or provisioning; one that is approved or
-- provisioning was approved by somebody, in production by another user than the requestor that it
-- names; and a request to roll a change back is refused, since no route makes one fail.
pub all_served-IsStaged :
    (env : String) (ts : List PlaneTurn)
    → All (λ t. HasNoStatus t.request) ts
    → Values IsStaged (all_served env ts fresh).changes
      × ((id now rid : String) (actor : ControlActor)
          → (e : Failure) × ((post_rollback env now rid actor id (all_served env ts fresh)).1
              ≡ throw e))
unfolding post_rollback move_change
all_served-IsStaged env ts plain =
    let staged = all_served-Staged env ts fresh plain tt in
    (
      staged,
      λ id now rid actor.
          not_found id now rid actor (all_served env ts fresh)
            (get id (all_served env ts fresh).changes) refl staged,
    )
  where
    not_found :
        (id now rid : String) (actor : ControlActor) (repo : Repository) (o : Option PlatformChange)
        → get id repo.changes ≡ o
        → Staged repo
        → (e : Failure) × ((of_change (move_found id now rolling_back actor.user_id rid repo o)).1
            ≡ throw e)
    not_found id now rid actor repo none found staged = (_, refl)
    not_found id now rid actor repo (some c) found staged =
        elim (Bool-cases (has (transitions c.status) rolling_back)) [
          | inr bad ↦ rw bad (_, refl)
          | inl good ↦ absurd (
              rolling_back-impossible c.status c good
                (get-Values IsStaged id repo.changes staged found))
        ]
