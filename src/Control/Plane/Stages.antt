-- ===== src/Control/Plane/Stages.antt =====
-- Which stages a change of the second service reaches through its routes
-- (apps/platform-control-api/src/section19/routes.ts).
use aws_architecture.Base.{String, true, false, ◌&&◌, some, ◌≡◌, ◌≢◌, refl, arith, eq_iff, ◌===◌}
use aws_architecture.Control.Machine.{
  ChangeState, draft, validating, impact_analysis, approved, provisioning, rolling_back, is, has,
  ChangeState-discrete,
}
use aws_architecture.Control.Plane.Types.{PlatformChange}
use aws_architecture.Control.Plane.{transitions, moved}

-- An approved change: somebody approved it, in production another than its requestor.
abbrev pub IsApproved : PlatformChange → Type 0
IsApproved c =
    (approver : String) × (c.approved_by ≡ some approver)
    × (c.environment ≡ "production" → approver ≢ c.requested_by)

-- What holds of a change with this status.
abbrev pub StagedAt : ChangeState → PlatformChange → Type 0
StagedAt draft c = Unit
StagedAt validating c = Unit
StagedAt impact_analysis c = Unit
StagedAt approved c = IsApproved c
StagedAt provisioning c = IsApproved c
StagedAt _ c = ⊥

abbrev pub IsStaged : PlatformChange → Type 0
IsStaged c = StagedAt c.status c

-- The states that the routes move a change to.
abbrev pub IsRouted : ChangeState → Type 0
IsRouted validating = Unit
IsRouted impact_analysis = Unit
IsRouted approved = Unit
IsRouted provisioning = Unit
IsRouted rolling_back = Unit
IsRouted _ = ⊥

provisioning-IsApproved :
    (s : ChangeState) (c : PlatformChange)
    → has (transitions s) provisioning ≡ true
    → StagedAt s c
    → IsApproved c
unfolding transitions ChangeState-discrete
provisioning-IsApproved approved c h staged = staged
provisioning-IsApproved provisioning c h staged = staged
provisioning-IsApproved draft c h staged = cc
provisioning-IsApproved validating c h staged = cc
provisioning-IsApproved impact_analysis c h staged = cc
provisioning-IsApproved _ c h staged = absurd staged

pub rolling_back-impossible :
    (s : ChangeState) (c : PlatformChange)
    → has (transitions s) rolling_back ≡ true
    → ¬ StagedAt s c
unfolding transitions ChangeState-discrete
rolling_back-impossible draft c h staged = cc
rolling_back-impossible validating c h staged = cc
rolling_back-impossible impact_analysis c h staged = cc
rolling_back-impossible approved c h staged = cc
rolling_back-impossible provisioning c h staged = cc
rolling_back-impossible _ c h staged = staged

pub moved-IsStaged :
    (now : String) (c : PlatformChange) (next : ChangeState) (actor : String)
    → IsRouted next
    → has (transitions c.status) next ≡ true
    → (is next approved && c.environment === "production" && actor === c.requested_by) ≡ false
    → IsStaged c
    → IsStaged (moved now c next actor)
unfolding moved ChangeState-discrete
moved-IsStaged now c validating actor r h g staged = tt
moved-IsStaged now c impact_analysis actor r h g staged = tt
moved-IsStaged now c approved actor r h g staged = (
  actor,
  refl,
  λ p s. ground (arith, eq_iff c.environment "production", eq_iff actor c.requested_by),
)
moved-IsStaged now c provisioning actor r h g staged = provisioning-IsApproved c.status c h staged
moved-IsStaged now c rolling_back actor r h g staged =
    absurd (rolling_back-impossible c.status c h staged)
moved-IsStaged now c _ actor r h g staged = absurd r
