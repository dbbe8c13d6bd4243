-- ===== src/Control/Machine/Trail.antt =====
-- What the audit trail of a change says of its history (change-machine.ts).
use aws_architecture.Base.{
  ℕ, ◌+◌, ◌≤◌, ◌<◌, Bool, true, false, List, [], ◌∷◌, ◌++◌, ◌≡◌, ◌⊎◌, inl, inr, refl, length, any,
  arith, subst, sym, ap, ◌∙◌,
}
use mathlib.Core.Bool.{false≢true, or-true}
use aws_architecture.Control.Machine.{
  ChangeState, draft, validating, impact_analysis, waiting_approval, approved, provisioning,
  deploying, verifying, stabilizing, completed, failed, rolling_back, rolled_back, is, has, forward,
  AuditEntry, ChangeRequest, ChangeState-discrete,
}

-- A walk from one state to another along the entries of a trail, each step in the relation.
module _ (R : ChangeState → AuditEntry → Type 0) where
  abbrev pub Chain : ChangeState → List AuditEntry → ChangeState → Type 0
  Chain s [] t = s ≡ t
  Chain s (e ∷ es) t = R s e × Chain e.state es t

  -- The trail of a change: it begins in DRAFT and ends in the change's state.
  abbrev pub Trail : List AuditEntry → ChangeState → Type 0
  Trail [] t = ⊥
  Trail (e ∷ es) t = (e.state ≡ draft) × Chain e.state es t

  pub Chain-concat :
      (s t : ChangeState) (es : List AuditEntry) (e : AuditEntry)
      → Chain s es t
      → R t e
      → Chain s (es ++ e ∷ []) e.state
  Chain-concat s t [] e h r = (subst (λ x. R x e) (sym h) r, refl)
  Chain-concat s t (x ∷ es) e (q, h) r = (q, Chain-concat x.state t es e h r)

  pub Trail-concat :
      (t : ChangeState) (es : List AuditEntry) (e : AuditEntry)
      → Trail es t
      → R t e
      → Trail (es ++ e ∷ []) e.state
  Trail-concat t [] e h r = absurd h
  Trail-concat t (x ∷ es) e (q, h) r = (q, Chain-concat x.state t es e h r)

abbrev pub Forward : ChangeState → AuditEntry → Type 0
Forward s e = has (forward s) e.state ≡ true

-- The trail tells every state that the change was in, in order, each allowed after the last.
abbrev pub IsTrail : ChangeRequest → Type 0
IsTrail c = Trail Forward c.audit c.state

abbrev pub visits : ChangeState → List AuditEntry → Bool
visits s = any (λ e. is e.state s)

-- How far along a state is; every allowed step goes up.
pub rank : ChangeState → ℕ
rank draft = 0
rank validating = 1
rank impact_analysis = 2
rank waiting_approval = 3
rank approved = 4
rank provisioning = 5
rank deploying = 6
rank verifying = 7
rank stabilizing = 8
rank completed = 9
rank failed = 9
rank rolling_back = 10
rank rolled_back = 11

pub rank-lt_of_forward : (s t : ChangeState) → has (forward s) t ≡ true → rank s < rank t
unfolding rank forward ChangeState-discrete
rank-lt_of_forward draft t h = ground arith
rank-lt_of_forward validating t h = ground arith
rank-lt_of_forward impact_analysis t h = ground arith
rank-lt_of_forward waiting_approval t h = ground arith
rank-lt_of_forward approved t h = ground arith
rank-lt_of_forward provisioning t h = ground arith
rank-lt_of_forward deploying t h = ground arith
rank-lt_of_forward verifying t h = ground arith
rank-lt_of_forward stabilizing t h = ground arith
rank-lt_of_forward failed t h = ground arith
rank-lt_of_forward rolling_back t h = ground arith
rank-lt_of_forward completed t h = ground arith
rank-lt_of_forward rolled_back t h = ground arith

pub rank-le : (s : ChangeState) → rank s ≤ 11
unfolding rank
rank-le draft = omega arith
rank-le _ = omega arith

pub Chain-rank-le :
    (s t : ChangeState) (es : List AuditEntry) → Chain Forward s es t → length es + rank s ≤ rank t
Chain-rank-le s t [] h = subst (λ x. 0 + rank s ≤ rank x) h (omega arith)
Chain-rank-le s t (e ∷ es) (q, h) =
    omega (arith, Chain-rank-le e.state t es h, rank-lt_of_forward s e.state q)

-- A walk out of a region that can only be left through a gate passes the gate.
pub Chain-visits :
    (inside : ChangeState → Bool) (gate : ChangeState)
    → ((s t : ChangeState)
        → inside s ≡ true
        → has (forward s) t ≡ true
        → (inside t ≡ true) ⊎ (is t gate ≡ true))
    → (s t : ChangeState) (es : List AuditEntry) → inside s ≡ true
    → inside t ≡ false
    → Chain Forward s es t
    → visits gate es ≡ true
Chain-visits inside gate closed s t [] hs ht e =
    absurd (false≢true (sym ht ∙ (ap inside (sym e) ∙ hs)))
Chain-visits inside gate closed s t (e ∷ es) hs ht (q, h) = elim (closed s e.state hs q) [
  | inl still ↦
      rw (Chain-visits inside gate closed e.state t es still ht h) (or-true (is e.state gate))
  | inr through ↦ rw through refl
]
