-- ===== src/Control/Api/Keeps.antt =====
-- What the writes that are not about changes leave as it is (server.ts, store.ts).
use aws_architecture.Base.{String, Option, none, some, ◌≡◌, refl, arith}
use aws_architecture.Base.Json.{Json, Fields}
use aws_architecture.Control.Pages.{ControlPage, all_pages}
use aws_architecture.Control.Reply.{guarded_state}
use aws_architecture.Control.Store.{Store, set_page, set_desired_state, record_audit}
use aws_architecture.Control.Api.Changes.{Request, require_control_write}
use aws_architecture.Control.Api.States.{
  note_change, put_page, set_emergency, note_emergency, find_page, put_found, page_guard,
}

-- The other operations leave the changes as they are.
unfoldable pub Keeps : Store → Store → Type 0
Keeps s t = t.changes ≡ s.changes

pub Keeps-refl : (s : Store) → Keeps s s
unfolding Keeps
Keeps-refl s = refl

pub set_page-Keeps :
    (now later : String) (page : ControlPage) (contents : Json) (actor : String) (s t : Store)
    → Keeps s t
    → Keeps s (set_page now later page contents actor t)
unfolding Keeps set_page
set_page-Keeps now later page contents actor s t h = h

record_audit-Keeps :
    (now : String) (e : Fields) (s t : Store) → Keeps s t → Keeps s (record_audit now e t)
unfolding Keeps record_audit
record_audit-Keeps now e s t h = h

put_found-Keeps :
    (r : Request) (body : Json) (s : Store) (page : Option ControlPage)
    → Keeps s (put_found r body s page).0
put_found-Keeps r body s none = Keeps-refl s
put_found-Keeps r body s (some page) =
    guarded_state (Keeps s) (page_guard page body) s _ (Keeps-refl s)
      (set_page-Keeps (r.clock 0) (r.clock 1) page body r.operator.user_id s s (Keeps-refl s))

pub put_page-Keeps :
    (r : Request) (name : String) (body : Json) (s : Store) → Keeps s (put_page r name body s).0
unfolding put_page
put_page-Keeps r name body s =
    guarded_state (Keeps s) (require_control_write r.operator) s _ (Keeps-refl s)
      (put_found-Keeps r body s (find_page name all_pages))

pub set_desired_state-Keeps :
    (now : String) (body : Json) (actor : String) (s : Store)
    → Keeps s (set_desired_state now body actor s)
unfolding Keeps set_desired_state
set_desired_state-Keeps now body actor s = refl

pub note_change-Keeps :
    (r : Request) (id : Option String) (s : Store) → Keeps s (note_change r id s)
unfolding Keeps note_change
note_change-Keeps r none s = refl
note_change-Keeps r (some id) s = ground arith

pub set_emergency-Keeps : (r : Request) (next : Json) (s : Store) → Keeps s (set_emergency r next s)
unfolding Keeps set_emergency
set_emergency-Keeps r next s = refl

pub note_emergency-Keeps :
    (r : Request) (next : Json) (s : Store) → Keeps s (note_emergency r next s)
unfolding Keeps note_emergency
note_emergency-Keeps r next s = refl
