-- ===== src/Control/Plane/Oversight.antt =====
-- What the second change service promises (apps/platform-control-api/src/section19/service.ts).
use aws_architecture.Base.{
  String, ◌&&◌, some, [], ◌∷◌, ◌≡◌, ◌≢◌, ◌⊎◌, inl, inr, refl, arith, eq_iff, ◌===◌, Bool-cases,
  Option-cases, Result, ok, throw, Failure, ◌++◌,
}
use aws_architecture.Base.Map.{get, get-set, get-set_self}
use aws_architecture.Control.Machine.{ChangeState, approved, is, has}
use aws_architecture.Control.Plane.Types.{PlatformChange, AuditEvent, Repository}
use aws_architecture.Control.Plane.{
  transitions, moved, move_change, save_platform_change, append_audit,
}
use aws_architecture.Control.Plane.Moves.{
  Follows, IsMovedOn, IsEvent, has_all, transitions_follow, moved-IsMovedOn, action_codes, another,
}

-- A change that was moved on: a step of the promised ones, approved in production only by another than
-- its requestor, stored under its identifier beside the others, and recorded.
pub record IsMoved (id now : String) (next : ChangeState) (actor correlation_id : String)
    (before : Repository) (outcome : Repository × Result PlatformChange) (c m : PlatformChange)
    : Type 0 where
  pub found : get id before.changes ≡ some c
  pub allowed : Follows c.status next
  pub other_approver : next ≡ approved → c.environment ≡ "production" → actor ≢ c.requested_by
  pub moved_on : IsMovedOn now actor next c m
  pub result : outcome.1 ≡ ok m
  pub stored : get c.change_id outcome.0.changes ≡ some m
  pub others : (j : String) → j ≢ c.change_id → get j outcome.0.changes ≡ get j before.changes
  pub configs : outcome.0.configs ≡ before.configs
  pub event : AuditEvent
  pub recorded : outcome.0.audit ≡ before.audit ++ event ∷ []
  pub described : IsEvent id now actor correlation_id next c m event

-- An outcome that leaves the repository as it was.
abbrev pub IsRefused : Repository → Repository × Result PlatformChange → Type 0
IsRefused before outcome = (outcome.0 ≡ before) × ((e : Failure) × (outcome.1 ≡ throw e))

-- A move is refused and changes nothing, or the change was found and the move is a promised step, with
-- an approval in production by another user than the requestor; then the change stands anew under its
-- identifier with its next status, approver and times, and nothing else of it or of other changes and
-- configurations differs, and one audit event names the actor, the change before and after, and the time.
pub move_change-outcome :
    (id now : String) (next : ChangeState) (actor correlation_id : String) (repo : Repository)
    → IsRefused repo (move_change id now next actor correlation_id repo)
      ⊎ ((c : PlatformChange) × (m : PlatformChange) × IsMoved id now next actor correlation_id repo
            (move_change id now next actor correlation_id repo)
            c
            m)
unfolding move_change append_audit save_platform_change moved
move_change-outcome id now next actor correlation_id repo =
    elim (Option-cases (get id repo.changes)) [
      | inl e ↦ rw e (inl (refl, (_, refl)))
      | inr (c, e) ↦ elim (Bool-cases (has (transitions c.status) next)) [
        | inr bad ↦ rw (e, bad) (inl (refl, (_, refl)))
        | inl good ↦
            elim (Bool-cases
              (is next approved && c.environment === "production" && actor === c.requested_by)) [
                | inl self ↦ rw (e, good, self) (inl (refl, (_, refl)))
                | inr other ↦
                    rw (e, good, other)
                      (inr (
                        c,
                        moved now c next actor,
                        record {
                          found = e;
                          allowed =
                              has_all (Follows c.status) (transitions c.status) next
                                (transitions_follow c.status) good;
                          moved_on = moved-IsMovedOn now actor next c;
                          configs = refl;
                          other_approver = λ a p s. another c next actor other a p s;
                          result = refl;
                          stored = get-set_self c.change_id _ repo.changes;
                          others = λ j d. ground (
                            arith,
                            get-set c.change_id j (moved now c next actor) repo.changes,
                            eq_iff c.change_id j,
                          );
                          event = _;
                          recorded = refl;
                          described = record {
                            actor_named = refl;
                            action = action_codes next;
                            resource = refl;
                            values = (refl, refl);
                            environment = refl;
                            at = (refl, refl);
                            success = refl;
                          };
                        },
                      ))
              ]
      ]
    ]
