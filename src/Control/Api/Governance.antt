-- ===== src/Control/Api/Governance.antt =====
-- The two-person rule of production changes: the invariant of a change (server.ts).
use aws_architecture.Base.{
  ℕ, String, true, false, ◌&&◌, Option, none, some, List, [], ◌∷◌, ◌++◌, ◌≡◌, ◌≢◌, ◌===◌, refl,
  if◌then◌else◌, arith, eq_iff, subst, sym, Bool-cases, inl, inr,
}
use aws_architecture.Control.Reply.{sent}
use aws_architecture.Control.Machine.{
  ChangeState, impact_analysis, approved, is, has, forward, AuditEntry, ChangeRequest, create,
  advance, ChangeState-discrete,
}
use aws_architecture.Control.Machine.Trail.{Trail, Trail-concat}
use aws_architecture.Control.Api.Changes.{
  Request, NewChange, created, approve, decide, is_destruction, is_shutdown,
}
use aws_architecture.Policy.{is_locked_production_capability}

-- A step of a change that keeps the rule: it is allowed by the state machine, and an approval in
-- production comes after WAITING_APPROVAL, from another actor than the requestor.
pub record Governed (environment requestor : String) (s : ChangeState) (e : AuditEntry)
    : Type 0 where
  pub allowed : has (forward s) e.state ≡ true
  pub staged : environment ≡ "production" → e.state ≡ approved → s ≢ impact_analysis
  pub separate : environment ≡ "production" → e.state ≡ approved → e.actor_id ≢ requestor

-- Who approved last, by the audit trail.
abbrev pub approver_from : Option String → List AuditEntry → Option String
approver_from who [] = who
approver_from who (e ∷ es) = approver_from (if is e.state approved then some e.actor_id else who) es

approver_from-concat :
    (who : Option String) (es : List AuditEntry) (e : AuditEntry)
    → approver_from who (es ++ e ∷ [])
      ≡ (if is e.state approved then some e.actor_id else approver_from who es)
approver_from-concat who [] e = refl
approver_from-concat who (x ∷ es) e =
    approver_from-concat (if is x.state approved then some x.actor_id else who) es e

-- A change that the API may hold: it destroys nothing, and in production it neither disables nor stops
-- a locked capability; its trail is its history, and its approver the last of the trail.
pub record IsGoverned (c : ChangeRequest) : Type 0 where
  pub kept : is_destruction c.operation ≡ false
  pub unlocked :
      (c.environment === "production"
        && is_shutdown c.operation
        && is_locked_production_capability c.capability)
      ≡ false
  pub trail : Trail (Governed c.environment c.actor_id) c.audit c.state
  pub approver : c.approved_by ≡ approver_from none c.audit

pub created-IsGoverned :
    (environment : String) (r : Request) (body : NewChange)
    → is_destruction body.operation ≡ false
    → (environment === "production"
        && is_shutdown body.operation
        && is_locked_production_capability body.capability)
      ≡ false
    → IsGoverned (created environment r body)
unfolding create ChangeState-discrete
created-IsGoverned environment r body h k = record {
  kept = h;
  unlocked = k;
  trail = (refl, refl);
  approver = refl;
}

-- What `decide` sends: the advanced change, with every guard passed.
decide-sent :
    (r : Request) (next : ChangeState) (remark : Option String) (current : ChangeRequest) {n : ℕ}
    {c : ChangeRequest}
    → decide r next remark current ≡ sent n c
    → (has (forward current.state) next ≡ true)
      × ((current.environment === "production"
            && is current.state impact_analysis
            && is next approved)
          ≡ false)
      × ((current.environment === "production"
            && is next approved
            && current.actor_id === r.operator.user_id)
          ≡ false)
      × (approve
            (advance (r.clock 0) current next r.operator.user_id remark)
            next
            r.operator.user_id
          ≡ c)
unfolding decide
decide-sent r next remark current h = ground arith

-- The guards of `decide`, read as facts on the step.
Governed-of_guards :
    (env requestor actor at : String) (remark : Option String) (s t : ChangeState)
    → has (forward s) t ≡ true
    → (env === "production" && is s impact_analysis && is t approved) ≡ false
    → (env === "production" && is t approved && requestor === actor) ≡ false
    → Governed env requestor s (record { state = t; at = at; actor_id = actor; note = remark })
Governed-of_guards env requestor actor at remark s t step first second = record {
  allowed = step;
  staged = λ p q. ground (arith, eq_iff env "production");
  separate = λ p q. ground (arith, eq_iff env "production", eq_iff requestor actor);
}

approve-IsGoverned :
    (r : Request) (next : ChangeState) (remark : Option String) (c : ChangeRequest)
    → IsGoverned c
    → Governed c.environment c.actor_id c.state
        (record { state = next; at = r.clock 0; actor_id = r.operator.user_id; note = remark })
    → IsGoverned
        (approve (advance (r.clock 0) c next r.operator.user_id remark) next r.operator.user_id)
approve-IsGoverned r next remark c g step = elim (Bool-cases (is next approved)) [
  | inl e ↦ rw e (record {
    kept = g.kept;
    unlocked = g.unlocked;
    trail = Trail-concat (Governed c.environment c.actor_id) c.state c.audit _ g.trail step;
    approver = sym (rw (approver_from-concat, e) refl);
  })
  | inr e ↦ rw e (record {
    kept = g.kept;
    unlocked = g.unlocked;
    trail = Trail-concat (Governed c.environment c.actor_id) c.state c.audit _ g.trail step;
    approver = sym (rw (approver_from-concat, e) (sym g.approver));
  })
]

-- Deciding on a governed change sends a governed one.
pub decide-IsGoverned :
    (r : Request) (next : ChangeState) (remark : Option String) (current : ChangeRequest) {n : ℕ}
    {c : ChangeRequest}
    → IsGoverned current
    → decide r next remark current ≡ sent n c
    → IsGoverned c
decide-IsGoverned r next remark current g h =
    let (step, first, second, same) = decide-sent r next remark current h in
    subst IsGoverned same (
      approve-IsGoverned r next remark current g (
        Governed-of_guards current.environment current.actor_id r.operator.user_id (r.clock 0)
          remark current.state next step first second))
