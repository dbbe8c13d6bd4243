-- ===== src/Control/Api/System.antt =====
-- Every change that the control API reaches keeps the rule of two persons (server.ts, store.ts).
use aws_architecture.Base.{
  ℕ, String, ◌&&◌, Option, List, [], ◌∷◌, ◌++◌, ◌≡◌, ◌===◌, refl, subst, sym, Bool-cases,
  Option-cases, inl, inr, All, All-append, All-middle, All-insert,
}
use aws_architecture.Base.Map.{get, Values, set-Values, get-Values}
use aws_architecture.Policy.{is_locked_production_capability}
use aws_architecture.Control.Reply.{Reply, sent, refused, thrown, guarded_state, if_state}
use aws_architecture.Control.Machine.{ChangeState, ChangeRequest}
use aws_architecture.Control.Store.{Store, save_change, get_change}
use aws_architecture.Control.Api.Changes.{
  Request, NewChange, created, create_change, create_checked, is_shutdown, decide, decide_found,
  commit, require_control_write, mismatched, is_destruction,
}
use aws_architecture.Control.Api.Governance.{IsGoverned, created-IsGoverned, decide-IsGoverned}
use aws_architecture.Control.Api.Steps.{
  Pending, moves, sets, notes, switches, logs, System, Step, creates, reads, saves, checks_state,
  sets_state, notes_change, puts_page, reads_emergency, sets_emergency, notes_emergency, observes,
  Reach, start, step,
}
use aws_architecture.Control.Api.Keeps.{
  Keeps, Keeps-refl, set_page-Keeps, put_page-Keeps, set_desired_state-Keeps, note_change-Keeps,
  set_emergency-Keeps, note_emergency-Keeps,
}

abbrev pub IsGovernedStore : Store → Type 0
IsGovernedStore s = Values IsGoverned s.changes

abbrev pub IsGovernedReply : Reply ChangeRequest → Type 0
IsGovernedReply (sent n c) = IsGoverned c
IsGovernedReply (refused n code message id) = Unit
IsGovernedReply (thrown e) = Unit

abbrev pub IsGovernedPending : Pending → Type 0
IsGovernedPending (moves r reply) = IsGovernedReply reply
IsGovernedPending (sets r body change_id) = Unit
IsGovernedPending (notes r change_id) = Unit
IsGovernedPending (switches r next) = Unit
IsGovernedPending (logs r next) = Unit

pub record IsGovernedSystem (y : System) : Type 0 where
  pub stored : IsGovernedStore y.store
  pub waiting : All IsGovernedPending y.pending

save_change-IsGoverned :
    (now : String) (c : ChangeRequest) (s : Store)
    → IsGoverned c
    → IsGovernedStore s
    → IsGovernedStore (save_change now c s)
unfolding save_change
save_change-IsGoverned now c s g h = set-Values IsGoverned c.id c s.changes h g

create_checked-IsGoverned :
    (environment : String) (r : Request) (body : NewChange) (s : Store)
    → IsGovernedStore s
    → IsGovernedStore (create_checked environment r body s).0
create_checked-IsGoverned environment r body s h =
    if_state IsGovernedStore (mismatched body.environment environment) _ _ h
      (elim (Bool-cases (is_destruction body.operation)) [
        | inl e ↦ rw e h
        | inr e ↦
            rw e
              (elim (Bool-cases (
                environment === "production"
                && is_shutdown body.operation
                && is_locked_production_capability body.capability)) [
                  | inl k ↦ rw k h
                  | inr k ↦ rw k (
                      save_change-IsGoverned (r.clock 1) (created environment r body) s
                        (created-IsGoverned environment r body e k) h)
                ])
      ])

create_change-IsGoverned :
    (environment : String) (r : Request) (body : NewChange) (s : Store)
    → IsGovernedStore s
    → IsGovernedStore (create_change environment r body s).0
unfolding create_change
create_change-IsGoverned environment r body s h =
    guarded_state IsGovernedStore (require_control_write r.operator) s _ h
      (create_checked-IsGoverned environment r body s h)

commit-IsGoverned :
    (r : Request) (reply : Reply ChangeRequest) (s : Store)
    → IsGovernedReply reply
    → IsGovernedStore s
    → IsGovernedStore (commit r reply s).0
unfolding commit
commit-IsGoverned r (sent n c) s g h = save_change-IsGoverned (r.clock 1) c s g h
commit-IsGoverned r (refused n code message id) s g h = h
commit-IsGoverned r (thrown e) s g h = h

reply_cases :
    (reply : Reply ChangeRequest)
    → ((n : ℕ) (c : ChangeRequest) → reply ≡ sent n c → IsGoverned c)
    → IsGovernedReply reply
reply_cases (sent n c) h = h n c refl
reply_cases (refused n code message id) h = tt
reply_cases (thrown e) h = tt

decide_found-IsGoverned :
    (r : Request) (id : String) (next : ChangeState) (remark : Option String) (s : Store)
    → IsGovernedStore s
    → IsGovernedReply (decide_found r next remark (get_change id s))
unfolding get_change
decide_found-IsGoverned r id next remark s h = elim (Option-cases (get id s.changes)) [
  | inl e ↦ rw e tt
  | inr (current, e) ↦ rw e (
      reply_cases (decide r next remark current)
        (λ n c. decide-IsGoverned r next remark current (get-Values IsGoverned id s.changes h e)))
]

IsGoverned_of_Keeps : (s t : Store) → Keeps s t → IsGovernedStore s → IsGovernedStore t
unfolding Keeps
IsGoverned_of_Keeps s t k h = subst (Values IsGoverned) (sym k) h

-- A write of something pending that leaves the changes.
write-IsGovernedSystem :
    (s t : Store) (before after rest : List Pending) (p : Pending)
    → Keeps s t
    → (All IsGovernedPending (before ++ after) → All IsGovernedPending rest)
    → IsGovernedSystem (record { store = s; pending = before ++ p ∷ after })
    → IsGovernedSystem (record { store = t; pending = rest })
write-IsGovernedSystem s t before after rest p k waits h = record {
  stored = IsGoverned_of_Keeps s t k h.stored;
  waiting = waits (All-middle IsGovernedPending before p after h.waiting).1;
}

read-IsGovernedSystem :
    (y : System) (p : Pending)
    → IsGovernedPending p
    → IsGovernedSystem y
    → IsGovernedSystem (record y { pending = y.pending ++ p ∷ [] })
read-IsGovernedSystem y p g h = record {
  stored = h.stored;
  waiting = All-append IsGovernedPending y.pending _ h.waiting (g, tt);
}

-- Each step keeps the rule, in the store and in what waits to be saved.
Step-IsGoverned :
    {environment : String} {y z : System}
    → Step environment y z
    → IsGovernedSystem y
    → IsGovernedSystem z
Step-IsGoverned {environment} (creates y r body) h = record {
  stored = create_change-IsGoverned environment r body y.store h.stored;
  waiting = h.waiting;
}
Step-IsGoverned (reads y r id next remark _) h =
    read-IsGovernedSystem y _ (decide_found-IsGoverned r id next remark y.store h.stored) h
Step-IsGoverned (saves s before after r reply) h =
    let (good, rest) = All-middle IsGovernedPending before (moves r reply) after h.waiting in
    record { stored = commit-IsGoverned r reply s good h.stored; waiting = rest }
Step-IsGoverned (checks_state y r header body id _) h =
    read-IsGovernedSystem y (sets r body id) tt h
Step-IsGoverned (sets_state s before after r body id) h =
    write-IsGovernedSystem s _ before after _ (sets r body id)
      (set_desired_state-Keeps (r.clock 0) body r.operator.user_id s)
      (All-insert IsGovernedPending (notes r id) before after tt) h
Step-IsGoverned (notes_change s before after r id) h =
    write-IsGovernedSystem s _ before after _ (notes r id) (note_change-Keeps r id s) (λ k. k) h
Step-IsGoverned (puts_page y r name body) h = record {
  stored = IsGoverned_of_Keeps _ _ (put_page-Keeps r name body y.store) h.stored;
  waiting = h.waiting;
}
Step-IsGoverned (reads_emergency y r body next _) h = read-IsGovernedSystem y (switches r next) tt h
Step-IsGoverned (sets_emergency s before after r next) h =
    write-IsGovernedSystem s _ before after _ (switches r next) (set_emergency-Keeps r next s)
      (All-insert IsGovernedPending (logs r next) before after tt) h
Step-IsGoverned (notes_emergency s before after r next) h =
    write-IsGovernedSystem s _ before after _ (logs r next) (note_emergency-Keeps r next s) (λ k. k)
      h
Step-IsGoverned (observes y now later page contents actor) h = record {
  stored =
      IsGoverned_of_Keeps _ _
        (set_page-Keeps now later page contents actor y.store y.store (Keeps-refl y.store))
        h.stored;
  waiting = h.waiting;
}

-- In every state that the control API reaches from a store without changes, with any requests
-- overlapping in any order, each stored change keeps the rule: its trail is its history from DRAFT on in
-- allowed steps, and `approvedBy` is the last approver of the trail. An approval of a production change
-- comes after WAITING_APPROVAL and from another user than the requestor.
pub Reach-IsGoverned :
    {environment : String} {y : System} → Reach environment y → IsGovernedSystem y
Reach-IsGoverned (start s e) = record { stored = rw e tt; waiting = tt }
Reach-IsGoverned (step r st) = Step-IsGoverned st (Reach-IsGoverned r)
