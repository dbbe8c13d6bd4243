-- ===== src/Control/Plane/Moves.antt =====
-- The steps of a change of the second change service, and what one writes
-- (apps/platform-control-api/src/section19/service.ts).
use aws_architecture.Base.{
  String, true, ◌&&◌, some, List, [], ◌∷◌, ◌≡◌, ◌≢◌, ◌⊎◌, inl, inr, refl, arith, eq_iff, ◌===◌,
  Bool-cases, All, ◌++◌,
}
use Prim.Native.String
use aws_architecture.Base.Text.{codes, lower}
use aws_architecture.Base.{subst, sym, Option, some, false, if◌then◌else◌}
use aws_architecture.Control.Machine.{
  ChangeState, draft, validating, impact_analysis, waiting_approval, approved, provisioning,
  deploying, verifying, stabilizing, completed, failed, rolling_back, rolled_back, is, has,
  ChangeState-discrete, state_name,
}
use aws_architecture.Control.Plane.Types.{change_shown, PlatformChange, AuditEvent}
use aws_architecture.Control.Plane.{action_name, transitions, moved}

-- The steps that the service promises: the stages in their order, with WAITING_APPROVAL and
-- PROVISIONING optional, a failure from each of them but DRAFT, and the roll-back of a failure.
pub data Follows : ChangeState → ChangeState → Type 0 where
  validates : Follows draft validating
  analyses : Follows validating impact_analysis
  waits : Follows impact_analysis waiting_approval
  approves_at_once : Follows impact_analysis approved
  approves : Follows waiting_approval approved
  provisions : Follows approved provisioning
  deploys_at_once : Follows approved deploying
  deploys : Follows provisioning deploying
  verifies : Follows deploying verifying
  stabilizes : Follows verifying stabilizing
  completes : Follows stabilizing completed
  fails_valid : Follows validating failed
  fails_analysis : Follows impact_analysis failed
  fails_waiting : Follows waiting_approval failed
  fails_approved : Follows approved failed
  fails_provisioning : Follows provisioning failed
  fails_deploying : Follows deploying failed
  fails_verifying : Follows verifying failed
  fails_stabilizing : Follows stabilizing failed
  rolls_back : Follows failed rolling_back
  rolled : Follows rolling_back rolled_back

-- What the service writes of a moved change. Nothing else of it differs.
pub record IsMovedOn (now actor : String) (next : ChangeState) (c m : PlatformChange) : Type 0 where
  pub status : m.status ≡ next
  pub approver : next ≡ approved → m.approved_by ≡ some actor
  pub kept_approver : next ≢ approved → m.approved_by ≡ c.approved_by
  pub start : (next ≡ provisioning) ⊎ (next ≡ deploying) → m.started_at ≡ some now
  pub kept_start : next ≢ provisioning → next ≢ deploying → m.started_at ≡ c.started_at
  pub completion : (next ≡ completed) ⊎ (next ≡ rolled_back) → m.completed_at ≡ some now
  pub kept_completion : next ≢ completed → next ≢ rolled_back → m.completed_at ≡ c.completed_at
  pub who :
      (m.change_id ≡ c.change_id)
      × (m.requested_by ≡ c.requested_by)
      × (m.requested_at ≡ c.requested_at)
  pub what :
      (m.environment ≡ c.environment)
      × (m.capability ≡ c.capability)
      × (m.old_state ≡ c.old_state)
      × (m.desired_state ≡ c.desired_state)
      × (m.risk_level ≡ c.risk_level)
      × (m.impact ≡ c.impact)
      × (m.rollback_change_id ≡ c.rollback_change_id)

-- The audit event of a move: who moved which change, from what to what, and when.
pub record IsEvent (id now actor correlation_id : String) (next : ChangeState)
    (c m : PlatformChange) (e : AuditEvent) : Type 0 where
  pub actor_named : e.actor ≡ actor
  pub action : codes e.action ≡ codes "change." ++ lower (codes (state_name next))
  pub resource : e.resource ≡ id
  pub values : (e.old_value ≡ some (change_shown c)) × (e.new_value ≡ some (change_shown m))
  pub environment : e.environment ≡ c.environment
  pub at : (e.timestamp ≡ now) × (e.correlation_id ≡ correlation_id)
  pub success : e.result ≡ "SUCCESS"

is-eq : (a b : ChangeState) → is a b ≡ true → b ≡ a
is-eq a b h =
    elim (ChangeState-discrete a b)
        as (λ d. (elim d [ yes _ ↦ true | no _ ↦ false ]) ≡ true → b ≡ a) [
          | yes e ↦ λ h. sym e
          | no n ↦ λ h. cc
        ]
      h

has_cases :
    (x : ChangeState) (xs : List ChangeState) (s : ChangeState)
    → has (x ∷ xs) s ≡ true
    → (s ≡ x) ⊎ (has xs s ≡ true)
has_cases x xs s h = elim (Bool-cases (is x s)) [
  | inl e ↦ inl (is-eq x s e)
  | inr e ↦ inr (rw e at h)
]

-- What holds of each state of a list holds of every state that it has.
pub has_all :
    (P : ChangeState → Type 0) (xs : List ChangeState) (s : ChangeState)
    → All P xs
    → has xs s ≡ true
    → P s
has_all P [] s p h = cc
has_all P (x ∷ xs) s (p, ps) h = elim (has_cases x xs s h) [
  | inl e ↦ subst P (sym e) p
  | inr k ↦ has_all P xs s ps k
]

pub transitions_follow : (s : ChangeState) → All (Follows s) (transitions s)
unfolding transitions
transitions_follow draft = (validates, tt)
transitions_follow validating = (analyses, (fails_valid, tt))
transitions_follow impact_analysis = (waits, (approves_at_once, (fails_analysis, tt)))
transitions_follow waiting_approval = (approves, (fails_waiting, tt))
transitions_follow approved = (provisions, (deploys_at_once, (fails_approved, tt)))
transitions_follow provisioning = (deploys, (fails_provisioning, tt))
transitions_follow deploying = (verifies, (fails_deploying, tt))
transitions_follow verifying = (stabilizes, (fails_verifying, tt))
transitions_follow stabilizing = (completes, (fails_stabilizing, tt))
transitions_follow failed = (rolls_back, tt)
transitions_follow rolling_back = (rolled, tt)
transitions_follow completed = tt
transitions_follow rolled_back = tt

pub moved-IsMovedOn :
    (now actor : String) (next : ChangeState) (c : PlatformChange)
    → IsMovedOn now actor next c (moved now c next actor)
unfolding moved ChangeState-discrete
moved-IsMovedOn now actor next c = record {
  status = refl;
  approver = λ e. rw e refl;
  kept_approver = λ n. elim (Bool-cases (is next approved)) [
    | inl e ↦ absurd (n (sym (is-eq next approved e)))
    | inr e ↦ rw e refl
  ];
  start = λ e. elim e [ inl p ↦ rw p refl | inr d ↦ rw d refl ];
  kept_start = λ p d. kept provisioning deploying next _ _ p d;
  completion = λ e. elim e [ inl p ↦ rw p refl | inr d ↦ rw d refl ];
  kept_completion = λ p d. kept completed rolled_back next _ _ p d;
  who = (refl, refl, refl);
  what = (refl, refl, refl, refl, refl, refl, refl);
}
  where
    kept :
        (a b s : ChangeState) (x y : Option String)
        → s ≢ a
        → s ≢ b
        → (if has (a ∷ b ∷ []) s then x else y) ≡ y
    kept a b s x y p d = elim (Bool-cases (is a s)) [
      | inl e ↦ absurd (p (is-eq a s e))
      | inr e ↦ elim (Bool-cases (is b s)) [
        | inl k ↦ absurd (d (is-eq b s k))
        | inr k ↦ rw (e, k) refl
      ]
    ]

pub action_codes :
    (s : ChangeState)
    → codes (String.◌++◌ "change." (action_name s))
      ≡ codes "change." ++ lower (codes (state_name s))
unfolding lower state_name
action_codes draft = refl
action_codes validating = refl
action_codes impact_analysis = refl
action_codes waiting_approval = refl
action_codes approved = refl
action_codes provisioning = refl
action_codes deploying = refl
action_codes verifying = refl
action_codes stabilizing = refl
action_codes completed = refl
action_codes failed = refl
action_codes rolling_back = refl
action_codes rolled_back = refl

-- An approval in production that is not refused is another user's.
pub another :
    (c : PlatformChange) (next : ChangeState) (actor : String)
    → (is next approved && c.environment === "production" && actor === c.requested_by) ≡ false
    → next ≡ approved
    → c.environment ≡ "production"
    → actor ≢ c.requested_by
unfolding ChangeState-discrete
another c next actor h e p =
    let k : (is approved approved && c.environment === "production" && actor === c.requested_by)
        ≡ false =
      subst
        (λ n. (is n approved && c.environment === "production" && actor === c.requested_by) ≡ false)
        e h in
    λ same. ground (arith, eq_iff c.environment "production", eq_iff actor c.requested_by)
