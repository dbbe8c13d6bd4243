-- ===== src/Control/Api/Steps.antt =====
-- The control API under concurrent requests (server.ts, store.ts): each write of a handler is a step of
-- its own, and what a handler decides from a read waits in `pending` until its write.
use aws_architecture.Base.{String, Option, List, [], ◌∷◌, ◌++◌, ◌≡◌, ok}
use aws_architecture.Base.Json.{Json}
use aws_architecture.Control.Pages.{ControlPage}
use aws_architecture.Control.Reply.{Reply}
use aws_architecture.Control.Machine.{ChangeState, ChangeRequest}
use aws_architecture.Control.Store.{Store, get_change, set_page, set_desired_state}
use aws_architecture.Control.Api.Changes.{
  Request, NewChange, create_change, decide_found, commit, require_control_write,
}
use aws_architecture.Control.Api.States.{
  check_desired_state, cleared, note_change, put_page, EmergencyBody, read_emergency, set_emergency,
  note_emergency,
}

-- What a handler has decided and not yet written: the change of a transition, the desired state and
-- then the note on its change, the emergency page and then the note on it.
pub data Pending : Type 0 where
  moves : Request → Reply ChangeRequest → Pending
  sets : Request → Json → (change_id : Option String) → Pending
  notes : Request → (change_id : Option String) → Pending
  switches : Request → (next : Json) → Pending
  logs : Request → (next : Json) → Pending

pub record System : Type 0 where
  pub store : Store
  pub pending : List Pending

-- What may happen next. A handler that reads and later writes does so in steps of its own, with any
-- other steps between; what is pending is written in any order, or never. A read that only makes an
-- answer is no step.
pub data Step (environment : String) : System → System → Type 0 where
  creates :
      (y : System) (r : Request) (body : NewChange)
      → Step environment y (record y { store = (create_change environment r body y.store).0 })
  reads :
      (y : System) (r : Request) (id : String) (next : ChangeState) (remark : Option String)
      → require_control_write r.operator ≡ ok tt
      → Step environment y (record y {
        pending = y.pending ++ moves r (decide_found r next remark (get_change id y.store)) ∷ [];
      })
  saves :
      (s : Store) (before after : List Pending) (r : Request) (reply : Reply ChangeRequest)
      → Step environment
          (record { store = s; pending = before ++ moves r reply ∷ after })
          (record { store = (commit r reply s).0; pending = before ++ after })
  checks_state :
      (y : System) (r : Request) (header : Option String) (body : Json) (change_id : Option String)
      → check_desired_state environment r header body y.store ≡ cleared change_id
      → Step environment y (record y { pending = y.pending ++ sets r body change_id ∷ [] })
  sets_state :
      (s : Store) (before after : List Pending) (r : Request) (body : Json)
      (change_id : Option String)
      → Step environment
          (record { store = s; pending = before ++ sets r body change_id ∷ after })
          (record {
            store = set_desired_state (r.clock 0) body r.operator.user_id s;
            pending = before ++ notes r change_id ∷ after;
          })
  notes_change :
      (s : Store) (before after : List Pending) (r : Request) (change_id : Option String)
      → Step environment
          (record { store = s; pending = before ++ notes r change_id ∷ after })
          (record { store = note_change r change_id s; pending = before ++ after })
  puts_page :
      (y : System) (r : Request) (name : String) (body : Json)
      → Step environment y (record y { store = (put_page r name body y.store).0 })
  reads_emergency :
      (y : System) (r : Request) (body : EmergencyBody) (next : Json)
      → read_emergency r body y.store ≡ ok next
      → Step environment y (record y { pending = y.pending ++ switches r next ∷ [] })
  sets_emergency :
      (s : Store) (before after : List Pending) (r : Request) (next : Json)
      → Step environment
          (record { store = s; pending = before ++ switches r next ∷ after })
          (record { store = set_emergency r next s; pending = before ++ logs r next ∷ after })
  notes_emergency :
      (s : Store) (before after : List Pending) (r : Request) (next : Json)
      → Step environment
          (record { store = s; pending = before ++ logs r next ∷ after })
          (record { store = note_emergency r next s; pending = before ++ after })
  observes :
      (y : System) (now later : String) (page : ControlPage) (contents : Json) (actor : String)
      → Step environment y (record y { store = set_page now later page contents actor y.store })

-- The states that are reached from a store without changes, whatever else it holds.
pub data Reach (environment : String) : System → Type 0 where
  start : (s : Store) → s.changes ≡ [] → Reach environment (record { store = s; pending = [] })
  step : {y z : System} → Reach environment y → Step environment y z → Reach environment z
