-- ===== src/Control/Machine/Completion.antt =====
-- The histories that end in COMPLETED, and the way on from every other state (change-machine.ts).
use aws_architecture.Base.{
  ℕ, String, Bool, true, false, List, [], ◌∷◌, ◌≡◌, ◌⊎◌, inl, inr, refl, if◌then◌else◌, map, ok,
  arith, subst, sym, ap, ◌∙◌, Bool-cases, ◌+◌, ◌≤◌, ◌<◌, zero, suc,
}
use mathlib.Core.Bool.{false≢true}
use mathlib.Core.Option.{none}
use aws_architecture.Control.Machine.{
  ChangeState, draft, validating, impact_analysis, waiting_approval, approved, provisioning,
  deploying, verifying, stabilizing, completed, failed, rolling_back, rolled_back, is, has, forward,
  AuditEntry, ChangeRequest, ChangeInput, create, advance, transition, ChangeState-discrete,
}
use aws_architecture.Control.Machine.Trail.{
  Chain, Trail, Forward, rank, rank-lt_of_forward, rank-le,
}
use aws_architecture.Control.Machine.History.{Move, run, run-create}

abbrev lost : ChangeState → Bool
lost failed = true
lost rolling_back = true
lost rolled_back = true
lost _ = false

lost-closed : (s t : ChangeState) → lost s ≡ true → has (forward s) t ≡ true → lost t ≡ true
unfolding forward ChangeState-discrete
lost-closed failed t l h = ground arith
lost-closed _ t l h = ground arith

-- A change that has failed never completes.
lost-not-completed :
    (s : ChangeState) (es : List AuditEntry) → lost s ≡ true → Chain Forward s es completed → ⊥
lost-not-completed s [] l h = false≢true (ap lost (sym h) ∙ l)
lost-not-completed s (e ∷ es) l (q, h) = lost-not-completed e.state es (lost-closed s e.state l q) h

-- The states after `s` of a change that completes; `w`: approval was waited for, `p`: infrastructure
-- was provisioned.
abbrev from_provisioning : List ChangeState
from_provisioning = deploying ∷ verifying ∷ stabilizing ∷ completed ∷ []

abbrev from_approved : Bool → List ChangeState
from_approved p = if p then provisioning ∷ from_provisioning else from_provisioning

abbrev from_impact : Bool → Bool → List ChangeState
from_impact w p =
    if w then waiting_approval ∷ approved ∷ from_approved p else approved ∷ from_approved p

abbrev pub route : (w p : Bool) → ChangeState → List ChangeState
route w p draft = validating ∷ impact_analysis ∷ from_impact w p
route w p validating = impact_analysis ∷ from_impact w p
route w p impact_analysis = from_impact w p
route w p waiting_approval = approved ∷ from_approved p
route w p approved = from_approved p
route w p provisioning = from_provisioning
route w p deploying = verifying ∷ stabilizing ∷ completed ∷ []
route w p verifying = stabilizing ∷ completed ∷ []
route w p stabilizing = completed ∷ []
route w p _ = []

waits : ChangeState → ChangeState → Bool → Bool
waits impact_analysis waiting_approval w = true
waits impact_analysis approved w = false
waits s t w = w

provisions : ChangeState → ChangeState → Bool → Bool
provisions approved provisioning p = true
provisions approved deploying p = false
provisions s t p = p

route-step :
    (s t : ChangeState) (w p : Bool)
    → has (forward s) t ≡ true
    → lost t ≡ false
    → t ∷ route w p t ≡ route (waits s t w) (provisions s t p) s
unfolding forward waits provisions ChangeState-discrete
route-step draft t w p h l = ground arith
route-step _ t w p h l = ground arith

completed_from :
    (s : ChangeState) (es : List AuditEntry)
    → Chain Forward s es completed
    → (w : Bool) × (p : Bool) × (map (λ e. e.state) es ≡ route w p s)
completed_from s [] h = (true, true, subst (λ x. [] ≡ route true true x) (sym h) refl)
completed_from s (e ∷ es) (q, h) = elim (Bool-cases (lost e.state)) [
  | inl l ↦ absurd (lost-not-completed e.state es l h)
  | inr l ↦
      let (w, p, rest) = completed_from e.state es h in
      (
        waits s e.state w,
        provisions s e.state p,
        ap (◌∷◌ e.state) rest ∙ route-step s e.state w p q l,
      )
]

completed-Trail :
    (es : List AuditEntry)
    → Trail Forward es completed
    → (w : Bool) × (p : Bool) × (map (λ e. e.state) es ≡ draft ∷ route w p draft)
completed-Trail [] h = absurd h
completed-Trail (e ∷ es) (first, h) =
    let (w, p, rest) = completed_from e.state es h in
    (
      w,
      p,
      subst (λ s. e.state ∷ map (λ x. x.state) es ≡ s ∷ route w p s) first (ap (◌∷◌ e.state) rest),
    )

-- However a fresh change comes to be COMPLETED, its audit trail holds, in this order and nothing
-- else: DRAFT, VALIDATING, IMPACT_ANALYSIS, WAITING_APPROVAL or not, APPROVED, PROVISIONING or not,
-- DEPLOYING, VERIFYING, STABILIZING, COMPLETED. So no change completes unapproved, undeployed or
-- unverified, and none that has failed completes.
pub run-completed :
    (uuid now : String) (input : ChangeInput) (ms : List Move) {c : ChangeRequest}
    → run (create uuid now input) ms ≡ ok c
    → c.state ≡ completed
    → (w : Bool) × (p : Bool) × (map (λ e. e.state) c.audit ≡ draft ∷ route w p draft)
run-completed uuid now input ms {c} e done =
    completed-Trail c.audit (subst (Trail Forward c.audit) done (run-create uuid now input ms e).0)

is_self : (s : ChangeState) → is s s ≡ true
is_self s = ground arith

-- The first move that the table of a state allows leads on.
transition-head :
    (c : ChangeRequest) (now actor : String) (x : ChangeState) (xs : List ChangeState)
    → forward c.state ≡ x ∷ xs
    → transition now c x actor none ≡ ok (advance now c x actor none)
unfolding transition
transition-head c now actor x xs e = rw (e, is_self x) refl

cases :
    (xs : List ChangeState)
    → (xs ≡ []) ⊎ ((x : ChangeState) × (r : List ChangeState) × (xs ≡ x ∷ r))
cases [] = inl refl
cases (x ∷ r) = inr (x, r, refl)

head-rank-lt : (s x : ChangeState) (r : List ChangeState) → forward s ≡ x ∷ r → rank s < rank x
head-rank-lt s x r e = rank-lt_of_forward s x (rw (e, is_self x) refl)

finish :
    (now actor : String) (n : ℕ) (c : ChangeRequest)
    → 11 ≤ n + rank c.state
    → (ms : List Move) × (c' : ChangeRequest) × (run c ms ≡ ok c') × (forward c'.state ≡ [])
finish now actor zero c h = elim (cases (forward c.state)) [
  | inl stop ↦ ([], c, refl, stop)
  | inr (x, r, e) ↦ absurd (omega (arith, head-rank-lt c.state x r e, rank-le x))
]
finish now actor (suc n) c h = elim (cases (forward c.state)) [
  | inl stop ↦ ([], c, refl, stop)
  | inr (x, r, e) ↦
      let d = advance now c x actor none in
      let (ms, c', ran, stop) = finish now actor n d (omega (arith, head-rank-lt c.state x r e)) in
      let m : Move = record { now = now; next = x; actor = actor; note = none } in
      (m ∷ ms, c', rw (transition-head c now actor x r e) ran, stop)
]

forward-nil : (s : ChangeState) → forward s ≡ [] → (s ≡ completed) ⊎ (s ≡ rolled_back)
unfolding forward
forward-nil draft h = ground arith
forward-nil _ h = ground arith

-- No change is stuck: whatever state a change is in, some moves are accepted one after the other and
-- bring it to COMPLETED or ROLLED_BACK.
pub run-finishes :
    (c : ChangeRequest) (now actor : String)
    → (ms : List Move) × (c' : ChangeRequest) × (run c ms ≡ ok c')
      × ((c'.state ≡ completed) ⊎ (c'.state ≡ rolled_back))
run-finishes c now actor =
    let (ms, c', ran, stop) = finish now actor 11 c (omega arith) in
    (ms, c', ran, forward-nil c'.state stop)
