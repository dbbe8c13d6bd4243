-- ===== src/Control/Api/Approval.antt =====
-- What an approval of a production change proves of its history (server.ts).
use aws_architecture.Base.{
  String, Bool, true, false, Option, none, some, List, [], ◌∷◌, ◌≡◌, ◌≢◌, ◌⊎◌, inl, inr, refl,
  if◌then◌else◌, arith, subst, sym, ◌∙◌,
}
use mathlib.Core.Bool.{or-true}
use aws_architecture.Control.Machine.{
  ChangeState, draft, validating, impact_analysis, waiting_approval, approved, failed, rolling_back,
  rolled_back, is, forward, AuditEntry, ChangeRequest, ChangeState-discrete,
}
use aws_architecture.Control.Machine.Trail.{Chain, Trail, visits}
use aws_architecture.Control.Api.Governance.{Governed, IsGoverned, approver_from}

abbrev pub NotBy : String → Option String → Type 0
NotBy requestor none = Unit
NotBy requestor (some u) = u ≢ requestor

approver-NotBy :
    (requestor : String) (s t : ChangeState) (who : Option String) (es : List AuditEntry)
    → NotBy requestor who
    → Chain (Governed "production" requestor) s es t
    → NotBy requestor (approver_from who es)
approver-NotBy requestor s t who [] h c = h
approver-NotBy requestor s t who (e ∷ es) h (g, c) =
    approver-NotBy requestor e.state t (if is e.state approved then some e.actor_id else who) es
      (now g) c
  where
    now :
        Governed "production" requestor s e
        → NotBy requestor (if is e.state approved then some e.actor_id else who)
    now k = ground (arith, k.separate refl)

-- The states of a production change that has not yet waited for approval.
abbrev early : ChangeState → Bool
early draft = true
early validating = true
early impact_analysis = true
early failed = true
early rolling_back = true
early rolled_back = true
early _ = false

early-step :
    (requestor : String) (s : ChangeState) (e : AuditEntry)
    → early s ≡ true
    → Governed "production" requestor s e
    → ((early e.state ≡ true) × (is e.state approved ≡ false))
      ⊎ (is e.state waiting_approval ≡ true)
unfolding forward ChangeState-discrete
early-step requestor draft e h g = ground (arith, g.staged refl, g.allowed)
early-step requestor _ e h g = ground (arith, g.staged refl, g.allowed)

waited :
    (requestor : String) (s t : ChangeState) (es : List AuditEntry) {u : String}
    → early s ≡ true
    → approver_from none es ≡ some u
    → Chain (Governed "production" requestor) s es t
    → visits waiting_approval es ≡ true
waited requestor s t [] h e c = cc
waited requestor s t (x ∷ es) {u} h e (g, c) = elim (early-step requestor s x h g) [
  | inl (still, plain) ↦
      rw
        (waited requestor x.state t es still
          (subst (λ b. approver_from (if b then some x.actor_id else none) es ≡ some u) plain e) c)
        (or-true (is x.state waiting_approval))
  | inr there ↦ rw there refl
]

Trail-approved_by :
    (requestor : String) (t : ChangeState) (es : List AuditEntry) {u : String}
    → Trail (Governed "production" requestor) es t
    → approver_from none es ≡ some u
    → (u ≢ requestor) × (visits waiting_approval es ≡ true)
unfolding ChangeState-discrete
Trail-approved_by requestor t [] h e = absurd h
Trail-approved_by requestor t (x ∷ es) {u} (first, c) e =
    let plain : is x.state approved ≡ false = rw first refl in
    let later : approver_from none es ≡ some u =
      subst (λ b. approver_from (if b then some x.actor_id else none) es ≡ some u) plain e in
    (
      subst (NotBy requestor) later (approver-NotBy requestor x.state t none es tt c),
      rw (waited requestor x.state t es (rw first refl) later c)
          (or-true (is x.state waiting_approval)),
    )

-- An approval recorded on a governed production change was given by another user than the change's
-- requestor, after the change had been in WAITING_APPROVAL.
pub approved_by-separate :
    (c : ChangeRequest) {u : String}
    → IsGoverned c
    → c.environment ≡ "production"
    → c.approved_by ≡ some u
    → (u ≢ c.actor_id) × (visits waiting_approval c.audit ≡ true)
approved_by-separate c {u} g p a =
    Trail-approved_by c.actor_id c.state c.audit
      (subst (λ v. Trail (Governed v c.actor_id) c.audit c.state) p g.trail) (sym g.approver ∙ a)
