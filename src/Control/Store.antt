-- ===== src/Control/Store.antt =====
-- The in-memory store of the control API (apps/platform-control-api/src/store.ts). A method returns
-- the new store; each reading of the clock is an argument.
use aws_architecture.Base.{ℕ, ◌+◌, String, List, [], ◌∷◌, ◌++◌, Option, none, some}
use Prim.Native.String
use aws_architecture.Base.Map.{get, set}
use aws_architecture.Base.Json.{Json, num, str, obj, Fields, end, field, set_field}
use aws_architecture.Control.Machine.{ChangeRequest, state_name}
use aws_architecture.Control.Pages.{ControlPage, page_name, initial_page, all_pages}

pub record Snapshot : Type 0 where
  pub updated_at : String
  pub contents : Json

pub record Store : Type 0 where
  pub desired_state : Json
  pub actual_state : Json
  pub changes : List (String × ChangeRequest)
  pub audit : List Fields
  pub pages : List (String × Snapshot)
  pub config_version : ℕ

-- The constructor's loop over the pages.
fill_pages : (now : String) → List ControlPage → List (String × Snapshot) → List (String × Snapshot)
fill_pages now [] m = m
fill_pages now (p ∷ ps) m =
    fill_pages now ps
      (set (page_name p) (record { updated_at = now; contents = obj (initial_page p) }) m)

unfoldable pub init : (now : String) → Store
unfolding fill_pages
init now = record {
  desired_state = obj end;
  actual_state = obj end;
  changes = [];
  audit = [];
  pages = fill_pages now all_pages [];
  config_version = 1;
}

unfoldable pub record_audit : (now : String) → Fields → Store → Store
record_audit now entry s = record s { audit = s.audit ++ set_field "at" (str now) entry ∷ [] }

unfoldable pub set_desired_state : (now : String) → Json → (actor : String) → Store → Store
unfolding record_audit
set_desired_state now value actor s =
    let t = record s { desired_state = value; config_version = s.config_version + 1 } in
    record_audit now
      (field "type" (str "desired-state.updated")
        (field "actorId" (str actor) (field "configVersion" (num t.config_version) end)))
      t

unfoldable pub set_actual_state : (now : String) → Json → (actor : String) → Store → Store
unfolding record_audit
set_actual_state now value actor s =
    record_audit now (field "type" (str "actual-state.observed") (field "actorId" (str actor) end))
      (record s { actual_state = value })

-- The first time is the page's, the second the audit entry's.
unfoldable pub set_page :
    (now later : String) → ControlPage → Json → (actor : String) → Store → Store
unfolding record_audit
set_page now later page contents actor s =
    record_audit later
      (field "type" (str (String.◌++◌ "control-page." (String.◌++◌ (page_name page) ".updated")))
        (field "actorId" (str actor) end))
      (record s {
        pages = set (page_name page) (record { updated_at = now; contents = contents }) s.pages;
      })

-- `new Date(0).toISOString()`.
abbrev epoch : String
epoch = "1970-01-01T00:00:00.000Z"

unfoldable pub get_page : ControlPage → Store → Snapshot
get_page page s = elim (get (page_name page) s.pages) [
  | some snapshot ↦ snapshot
  | none ↦ record { updated_at = epoch; contents = obj (initial_page page) }
]

unfoldable pub save_change : (now : String) → ChangeRequest → Store → Store
unfolding record_audit
save_change now change s =
    record_audit now
      (field "type" (str "change.saved") (
        field "changeId" (str change.id) (
          field "actorId" (str change.actor_id)
            (field "state" (str (state_name change.state)) end))))
      (record s { changes = set change.id change s.changes })

unfoldable pub get_change : String → Store → Option ChangeRequest
get_change id s = get id s.changes
