-- ===== src/Control/Machine/History.antt =====
-- The life of a change: every run of transitions from a fresh change (change-machine.ts).
use aws_architecture.Base.{
  ◌+◌, ◌≤◌, String, true, Option, List, [], ◌∷◌, ◌≡◌, refl, length, length-append, Result, ok,
  ◌>>=◌, ok-injective, >>=-eq-ok, arith, subst,
}
use aws_architecture.Control.Machine.{
  ChangeState, has, forward, AuditEntry, ChangeRequest, ChangeInput, create, advance, transition,
}
use aws_architecture.Control.Machine.Trail.{
  Trail, Forward, IsTrail, Trail-concat, Chain-rank-le, rank-le,
}

-- The arguments of one call of `transition`, with the time at which it is made.
pub record Move : Type 0 where
  pub now : String
  pub next : ChangeState
  pub actor : String
  pub note : Option String

abbrev pub run : ChangeRequest → List Move → Result ChangeRequest
run c [] = ok c
run c (m ∷ ms) = do c' ← transition m.now c m.next m.actor m.note; run c' ms

transition-ok :
    (c : ChangeRequest) (m : Move) {c' : ChangeRequest}
    → transition m.now c m.next m.actor m.note ≡ ok c'
    → (has (forward c.state) m.next ≡ true) × (advance m.now c m.next m.actor m.note ≡ c')
unfolding transition
transition-ok c m h = ground arith

transition-IsTrail :
    (c : ChangeRequest) (m : Move) {c' : ChangeRequest}
    → IsTrail c
    → transition m.now c m.next m.actor m.note ≡ ok c'
    → IsTrail c' × (length c'.audit ≡ length c.audit + 1)
transition-IsTrail c m h e =
    let (step, same) = transition-ok c m e in
    subst (λ x. IsTrail x × (length x.audit ≡ length c.audit + 1)) same
      (Trail-concat Forward c.state c.audit _ h step, length-append {0} c.audit _)

run-IsTrail :
    (c c' : ChangeRequest) (ms : List Move)
    → IsTrail c
    → run c ms ≡ ok c'
    → IsTrail c' × (length c'.audit ≡ length c.audit + length ms)
run-IsTrail c c' [] h e =
    subst (λ x. IsTrail x × (length x.audit ≡ length c.audit + 0)) (ok-injective e) (h, omega arith)
run-IsTrail c c' (m ∷ ms) h e =
    let (d, first, rest) = >>=-eq-ok (transition m.now c m.next m.actor m.note) (λ x. run x ms) e in
    let (valid, grown) = transition-IsTrail c m h first in
    let (last, total) = run-IsTrail d c' ms valid rest in (last, omega arith)

create-IsTrail : (uuid now : String) (input : ChangeInput) → IsTrail (create uuid now input)
unfolding create
create-IsTrail uuid now input = (refl, refl)

Trail-length-le : (c : ChangeRequest) → IsTrail c → length c.audit ≤ 12
Trail-length-le c h = go c.audit h
  where
    go : (es : List AuditEntry) → Trail Forward es c.state → length es ≤ 12
    go [] g = omega arith
    go (e ∷ es) (_, g) = omega (arith, Chain-rank-le e.state c.state es g, rank-le c.state)

-- Whatever moves are tried on a fresh change, at most eleven are accepted: no change goes round in a
-- circle, and the audit trail of each is the whole history, one entry for the creation and one for
-- each move, in an allowed order from DRAFT to the present state.
pub run-create :
    (uuid now : String) (input : ChangeInput) (ms : List Move) {c : ChangeRequest}
    → run (create uuid now input) ms ≡ ok c
    → IsTrail c × (length c.audit ≡ length ms + 1) × (length ms ≤ 11)
unfolding create
run-create uuid now input ms {c} e =
    let (valid, total) = run-IsTrail _ c ms (create-IsTrail uuid now input) e in
    (valid, omega arith, omega (arith, Trail-length-le c valid))
