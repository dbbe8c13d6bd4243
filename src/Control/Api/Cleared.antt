-- ===== src/Control/Api/Cleared.antt =====
-- What a request to set the desired state of production has passed (server.ts,
-- `PUT /v1/control/desired-state`).
use aws_architecture.Base.{
  String, true, Option, none, some, ◌≡◌, ◌≢◌, inl, inr, refl, truthy, Result, ok, throw, arith,
  eq_iff, subst, List, [], ◌∷◌, All, Bool-cases, Option-cases,
}
use mathlib.Core.Bool.{false≢true}
use aws_architecture.Base.Json.{Json}
use aws_architecture.Base.Map.{get-Values}
use aws_architecture.Config.Locked.{FullValidationResult, validate_platform_state}
use aws_architecture.Control.Reply.{Reply}
use aws_architecture.Control.Machine.{waiting_approval, has, ChangeRequest}
use aws_architecture.Control.Machine.Trail.{visits}
use aws_architecture.Control.Store.{Store, get_change}
use aws_architecture.Control.Api.Changes.{Request, require_control_write}
use aws_architecture.Control.Api.States.{
  PutReply, check_permitted, check_valid, check_change, check_desired_state, Checked, rejected,
  cleared, licenses, named_change, approved_mutation_states,
}
use aws_architecture.Control.Api.Governance.{IsGoverned}
use aws_architecture.Control.Api.Approval.{approved_by-separate}
use aws_architecture.Control.Api.Steps.{
  Pending, moves, sets, notes, switches, logs, System, Step, Reach,
}
use aws_architecture.Control.Api.System.{Reach-IsGoverned}

-- A production change of a store that an operator other than its requestor has approved, in a state
-- that lets it be applied.
pub record Licence (s : Store) (header : Option String) (c : ChangeRequest) : Type 0 where
  pub found : named_change header s ≡ some c
  pub production : c.environment ≡ "production"
  pub approver : String
  pub approved : c.approved_by ≡ some approver
  pub separate : approver ≢ c.actor_id
  pub waited : visits waiting_approval c.audit ≡ true
  pub active : has approved_mutation_states c.state ≡ true

named_change-IsGoverned :
    {environment : String} {y : System} (header : Option String) {c : ChangeRequest}
    → Reach environment y
    → named_change header y.store ≡ some c
    → IsGoverned c
unfolding get_change
named_change-IsGoverned none r e = cc
named_change-IsGoverned {y = y} (some id) r e = elim (Bool-cases (truthy id)) [
  | inl t ↦ get-Values IsGoverned id y.store.changes (Reach-IsGoverned r).stored (ground arith)
  | inr t ↦ absurd (ground arith)
]

Licence-of_licenses :
    {y : System} (header : Option String) (c : ChangeRequest)
    → Reach "production" y
    → named_change header y.store ≡ some c
    → licenses (some c) ≡ true
    → Licence y.store header c
Licence-of_licenses header c r e h = elim (Option-cases c.approved_by) [
  | inl a ↦ absurd (ground (arith, eq_iff c.environment "production"))
  | inr (u, a) ↦
      let env : c.environment ≡ "production" = ground (arith, eq_iff c.environment "production") in
      let (separate, waited) = approved_by-separate c (named_change-IsGoverned header r e) env a in
      record {
        found = e;
        production = env;
        approver = u;
        approved = a;
        separate = separate;
        waited = waited;
        active = ground arith;
      }
]

licensed :
    {y : System} (header : Option String)
    → Reach "production" y
    → licenses (named_change header y.store) ≡ true
    → (c : ChangeRequest) × Licence y.store header c
licensed {y = y} header r h = elim (Option-cases (named_change header y.store)) [
  | inl e ↦ absurd (no_licence (rw e at h))
  | inr (c, e) ↦ (c, Licence-of_licenses header c r e (rw e at h))
]
  where
    no_licence : licenses none ≡ true → ⊥
    no_licence k = false≢true k

cleared_injective : {a b : Option String} → cleared a ≡ cleared b → a ≡ b
cleared_injective h = cc

-- A request that is cleared has passed the three tests, and is cleared for the change that it named.
check_change-cleared :
    (r : Request) (header id : Option String) (s : Store)
    → check_change "production" r header s ≡ cleared id
    → (licenses (named_change header s) ≡ true) × (header ≡ id)
check_change-cleared r header id s h = elim (Bool-cases (licenses (named_change header s))) [
  | inl e ↦ (e, cleared_injective (rw e at h))
  | inr e ↦ absurd (not_cleared (rw e at h))
]
  where
    not_cleared : {a : Reply PutReply} → rejected a ≡ cleared id → ⊥
    not_cleared k = cc

check_valid-cleared :
    (r : Request) (header id : Option String) (result : FullValidationResult) (s : Store)
    → check_valid "production" r header result s ≡ cleared id
    → (result.valid ≡ true) × (check_change "production" r header s ≡ cleared id)
check_valid-cleared r header id result s h = ground arith

check_permitted-cleared :
    (g : Result (Unit {0})) (rest : Checked) (id : Option String)
    → check_permitted g rest ≡ cleared id
    → (g ≡ ok tt) × (rest ≡ cleared id)
check_permitted-cleared (ok _) rest id h = (refl, h)
check_permitted-cleared (throw e) rest id h = cc

-- One state after another, by any steps.
pub data Later (environment : String) (x : System) : System → Type 0 where
  here : Later environment x x
  after : {y z : System} → Later environment x y → Step environment y z → Later environment x z

-- A request to set the state of production as it was tested, in an earlier state of the system.
pub record IsCleared (y : System) (r : Request) (body : Json) (change_id : Option String)
    : Type 0 where
  pub permitted : require_control_write r.operator ≡ ok tt
  pub valid : (validate_platform_state body "production").valid ≡ true
  pub earlier : System
  pub reached : Reach "production" earlier
  pub later : Later "production" earlier y
  pub change : ChangeRequest
  pub licence : Licence earlier.store change_id change

pub check_desired_state-IsCleared :
    (y : System) (r : Request) (header : Option String) (body : Json) (id : Option String)
    → Reach "production" y
    → check_desired_state "production" r header body y.store ≡ cleared id
    → IsCleared y r body id
unfolding check_desired_state
check_desired_state-IsCleared y r header body id reached h =
    let (permitted, h₁) = check_permitted-cleared _ _ id h in
    let (valid, h₂) = check_valid-cleared r header id _ y.store h₁ in
    let (l, same) = check_change-cleared r header id y.store h₂ in
    let (c, licence) = licensed header reached l in
    record {
      permitted = permitted;
      valid = valid;
      earlier = y;
      reached = reached;
      later = here;
      change = c;
      licence = subst (λ i. Licence y.store i c) same licence;
    }

abbrev pub IsClearedPending : System → Pending → Type 0
IsClearedPending y (sets r body id) = IsCleared y r body id
IsClearedPending y _ = Unit

IsCleared-later :
    {y z : System} (p : Pending)
    → Step "production" y z
    → IsClearedPending y p
    → IsClearedPending z p
IsCleared-later (sets r body id) st h = record {
  permitted = h.permitted;
  valid = h.valid;
  earlier = h.earlier;
  reached = h.reached;
  later = after h.later st;
  change = h.change;
  licence = h.licence;
}
IsCleared-later (moves r reply) st h = tt
IsCleared-later (notes r id) st h = tt
IsCleared-later (switches r next) st h = tt
IsCleared-later (logs r next) st h = tt

pub AllCleared-later :
    {y z : System} (ps : List Pending)
    → Step "production" y z
    → All (IsClearedPending y) ps
    → All (IsClearedPending z) ps
AllCleared-later [] st h = tt
AllCleared-later (p ∷ ps) st h = (IsCleared-later p st h.0, AllCleared-later ps st h.1)
