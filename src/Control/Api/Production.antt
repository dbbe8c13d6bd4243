-- ===== src/Control/Api/Production.antt =====
-- Who can change the desired state of production (server.ts, `PUT /v1/control/desired-state`).
use aws_architecture.Base.{
  ◌+◌, String, Option, none, some, ◌≡◌, ◌⊎◌, inl, inr, refl, arith, All, All-append, All-middle,
  All-insert,
}
use aws_architecture.Base.Json.{Json}
use aws_architecture.Control.Reply.{Reply}
use aws_architecture.Control.Machine.{ChangeRequest}
use aws_architecture.Control.Store.{Store}
use aws_architecture.Control.Api.Changes.{Request, require_control_write}
use aws_architecture.Control.Store.{set_desired_state, set_page, save_change}
use aws_architecture.Control.Api.States.{
  note_change, put_page, set_emergency, note_emergency, put_found, page_guard, find_page,
}
use aws_architecture.Control.Api.Steps.{
  notes, logs, System, Step, creates, reads, saves, checks_state, sets_state, notes_change,
  puts_page, reads_emergency, sets_emergency, notes_emergency, observes, Reach, start, step,
}
use aws_architecture.Control.Api.Cleared.{
  IsCleared, IsClearedPending, AllCleared-later, check_desired_state-IsCleared,
}
use aws_architecture.Control.Pages.{ControlPage, all_pages}
use aws_architecture.Control.Reply.{sent, refused, thrown, guarded_state, if_state}
use aws_architecture.Control.Api.Changes.{
  NewChange, created, create_change, is_shutdown, commit, mismatched, is_destruction,
}
use aws_architecture.Base.{String, ◌&&◌, ◌===◌}
use aws_architecture.Policy.{is_locked_production_capability}

-- The state and its version stay.
abbrev pub KeepsState : Store → Store → Type 0
KeepsState s t = (t.desired_state ≡ s.desired_state) × (t.config_version ≡ s.config_version)

save_change-KeepsState :
    (now : String) (c : ChangeRequest) (s : Store) → KeepsState s (save_change now c s)
unfolding save_change
save_change-KeepsState now c s = (refl, refl)

create_change-KeepsState :
    (environment : String) (r : Request) (body : NewChange) (s : Store)
    → KeepsState s (create_change environment r body s).0
unfolding create_change
create_change-KeepsState environment r body s =
    guarded_state (KeepsState s) (require_control_write r.operator) s _ (refl, refl)
      (if_state (KeepsState s) (mismatched body.environment environment) _ _ (refl, refl)
        (if_state (KeepsState s) (is_destruction body.operation) _ _ (refl, refl)
          (if_state (KeepsState s)
            (environment === "production"
              && is_shutdown body.operation
              && is_locked_production_capability body.capability)
            _ _ (refl, refl) (save_change-KeepsState (r.clock 1) (created environment r body) s))))

commit-KeepsState :
    (r : Request) (reply : Reply ChangeRequest) (s : Store) → KeepsState s (commit r reply s).0
unfolding commit
commit-KeepsState r (sent n c) s = save_change-KeepsState (r.clock 1) c s
commit-KeepsState r (refused n code message id) s = (refl, refl)
commit-KeepsState r (thrown e) s = (refl, refl)

set_page-KeepsState :
    (now later : String) (page : ControlPage) (contents : Json) (actor : String) (s : Store)
    → KeepsState s (set_page now later page contents actor s)
unfolding set_page
set_page-KeepsState now later page contents actor s = (refl, refl)

put_found-KeepsState :
    (r : Request) (body : Json) (s : Store) (page : Option ControlPage)
    → KeepsState s (put_found r body s page).0
put_found-KeepsState r body s none = (refl, refl)
put_found-KeepsState r body s (some page) =
    guarded_state (KeepsState s) (page_guard page body) s _ (refl, refl)
      (set_page-KeepsState (r.clock 0) (r.clock 1) page body r.operator.user_id s)

put_page-KeepsState :
    (r : Request) (name : String) (body : Json) (s : Store)
    → KeepsState s (put_page r name body s).0
unfolding put_page
put_page-KeepsState r name body s =
    guarded_state (KeepsState s) (require_control_write r.operator) s _ (refl, refl)
      (put_found-KeepsState r body s (find_page name all_pages))

note_change-KeepsState :
    (r : Request) (id : Option String) (s : Store) → KeepsState s (note_change r id s)
unfolding note_change
note_change-KeepsState r none s = (refl, refl)
note_change-KeepsState r (some id) s = (ground arith, ground arith)

emergency-KeepsState :
    (r : Request) (next : Json) (s : Store)
    → KeepsState s (set_emergency r next s) × KeepsState s (note_emergency r next s)
unfolding set_emergency note_emergency
emergency-KeepsState r next s = ((refl, refl), (refl, refl))

set_desired_state_lem :
    (now : String) (body : Json) (actor : String) (s : Store)
    → ((set_desired_state now body actor s).desired_state ≡ body)
      × ((set_desired_state now body actor s).config_version ≡ s.config_version + 1)
unfolding set_desired_state
set_desired_state_lem now body actor s = (refl, refl)

-- All that waits to set the state of production has been cleared.
abbrev AllCleared : System → Type 0
AllCleared y = All (IsClearedPending y) y.pending

-- What is pending after a step had been cleared before it: it waited already, or is cleared now.
cleared_before :
    {y z : System}
    → Reach "production" y
    → Step "production" y z
    → AllCleared y
    → All (IsClearedPending y) z.pending
cleared_before reached (creates y r body) h = h
cleared_before reached (reads y r id next remark _) h =
    All-append (IsClearedPending y) y.pending _ h (tt, tt)
cleared_before reached (saves s before after r reply) h =
    (All-middle (IsClearedPending _) before _ after h).1
cleared_before reached (checks_state y r header body id e) h =
    All-append (IsClearedPending y) y.pending _ h
      (check_desired_state-IsCleared y r header body id reached e, tt)
cleared_before reached (sets_state s before after r body id) h =
    All-insert (IsClearedPending _) (notes r id) before after tt
      (All-middle (IsClearedPending _) before _ after h).1
cleared_before reached (notes_change s before after r id) h =
    (All-middle (IsClearedPending _) before _ after h).1
cleared_before reached (puts_page y r name body) h = h
cleared_before reached (reads_emergency y r body next _) h =
    All-append (IsClearedPending y) y.pending _ h (tt, tt)
cleared_before reached (sets_emergency s before after r next) h =
    All-insert (IsClearedPending _) (logs r next) before after tt
      (All-middle (IsClearedPending _) before _ after h).1
cleared_before reached (notes_emergency s before after r next) h =
    (All-middle (IsClearedPending _) before _ after h).1
cleared_before reached (observes y now later page contents actor) h = h

Reach-AllCleared : {y : System} → Reach "production" y → AllCleared y
Reach-AllCleared (start s e) = tt
Reach-AllCleared (step {z = z} reached st) =
    AllCleared-later z.pending st (cleared_before reached st (Reach-AllCleared reached))

-- A step that stores the state which a cleared request asked for, under the next version number.
pub record SetsState (y z : System) : Type 0 where
  pub request : Request
  pub body : Json
  pub change_id : Option String
  pub is_cleared : IsCleared y request body change_id
  pub stored : z.store.desired_state ≡ body
  pub version : z.store.config_version ≡ y.store.config_version + 1

-- In production, with any requests overlapping, a step of the control API leaves the desired state and
-- its version as they were, or it stores the state that a request asked for under the next version
-- number, and that request was cleared: its operator may write, the state is valid, and in some earlier
-- or the same state of the system the request named a stored production change in one of the states from
-- APPROVED to COMPLETED, which had waited for approval and had another user than its requestor as its
-- approver.
pub put_desired_state-production :
    {y z : System}
    → Reach "production" y
    → Step "production" y z
    → KeepsState y.store z.store ⊎ SetsState y z
put_desired_state-production reached (creates y r body) =
    inl (create_change-KeepsState "production" r body y.store)
put_desired_state-production reached (reads y r id next remark _) = inl (refl, refl)
put_desired_state-production reached (saves s before after r reply) =
    inl (commit-KeepsState r reply s)
put_desired_state-production reached (checks_state y r header body id _) = inl (refl, refl)
put_desired_state-production reached (sets_state s before after r body id) =
    let (stored, version) = set_desired_state_lem (r.clock 0) body r.operator.user_id s in
    inr (record {
      request = r;
      body = body;
      change_id = id;
      is_cleared = (All-middle (IsClearedPending _) before _ after (Reach-AllCleared reached)).0;
      stored = stored;
      version = version;
    })
put_desired_state-production reached (notes_change s before after r id) =
    inl (note_change-KeepsState r id s)
put_desired_state-production reached (puts_page y r name body) =
    inl (put_page-KeepsState r name body y.store)
put_desired_state-production reached (reads_emergency y r body next _) = inl (refl, refl)
put_desired_state-production reached (sets_emergency s before after r next) =
    inl (emergency-KeepsState r next s).0
put_desired_state-production reached (notes_emergency s before after r next) =
    inl (emergency-KeepsState r next s).1
put_desired_state-production reached (observes y now later page contents actor) =
    inl (set_page-KeepsState now later page contents actor y.store)
