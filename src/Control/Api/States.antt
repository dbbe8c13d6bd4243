-- ===== src/Control/Api/States.antt =====
-- The desired state, the pages and the emergency controls (server.ts).
use aws_architecture.Base.{
  ℕ, String, Bool, false, ◌&&◌, Option, none, some, List, [], ◌∷◌, ◌===◌, if◌then◌else◌, present,
  truthy, Result, ok, throw, error, ◌>>◌,
}
use aws_architecture.Base.Json.{
  Json, null, bool, str, obj, Fields, end, field, get_field, set_field, member, entries,
}
use aws_architecture.Config.Locked.{FullValidationResult, validate_platform_state}
use aws_architecture.Control.Reply.{Reply, sent, refused, thrown, guarded}
use aws_architecture.Control.Machine.{
  ChangeState, approved, provisioning, deploying, verifying, stabilizing, completed, has,
  ChangeRequest,
}
use aws_architecture.Control.Pages.{ControlPage, secrets, emergency, page_name, all_pages}
use aws_architecture.Control.Secrets.{assert_secret_metadata_only, redact_secret_material}
use aws_architecture.Control.Store.{Store, Snapshot, record_audit, set_page, get_page, get_change}
use aws_architecture.Control.Api.Changes.{Request, require_control_write}

abbrev pub approved_mutation_states : List ChangeState
approved_mutation_states =
    approved ∷ provisioning ∷ deploying ∷ verifying ∷ stabilizing ∷ completed ∷ []

-- Whether a change lets the desired state of production be set.
abbrev pub licenses : Option ChangeRequest → Bool
licenses none = false
licenses (some c) =
    c.environment === "production" && present c.approved_by && has approved_mutation_states c.state

-- `changeId ? await store.getChange(changeId) : undefined`.
abbrev pub named_change : Option String → Store → Option ChangeRequest
named_change none s = none
named_change (some id) s = if truthy id then get_change id s else none

pub record DesiredStateReply : Type 0 where
  pub config_version : ℕ
  pub desired_state : Json

pub data PutReply : Type 0 where
  accepted : DesiredStateReply → PutReply
  invalid : FullValidationResult → PutReply

-- `if (changeId) await store.recordAudit(...)`.
unfoldable pub note_change : Request → Option String → Store → Store
unfolding record_audit
note_change r none s = s
note_change r (some id) s =
    if truthy id
    then record_audit (r.clock 1)
        (field "type" (str "desired-state.applied-from-change")
          (field "changeId" (str id) (field "actorId" (str r.operator.user_id) end)))
        s
    else s

-- What the request may do after its tests: nothing more than to answer, or to write, and then to note
-- the change that it named.
pub data Checked : Type 0 where
  rejected : Reply PutReply → Checked
  cleared : (change_id : Option String) → Checked

abbrev pub check_change :
    (environment : String) → Request → (header : Option String) → Store → Checked
check_change environment r header s =
    if environment === "production"
    then (if licenses (named_change header s)
        then cleared header
        else rejected (
            refused 409 "APPROVED_PRODUCTION_CHANGE_REQUIRED"
              "Production desired-state changes require an approved control-plane change request."
              r.id))
    else cleared none

abbrev pub check_valid :
    (environment : String)
    → Request
    → (header : Option String) → FullValidationResult
    → Store
    → Checked
check_valid environment r header result s =
    if result.valid
    then check_change environment r header s
    else rejected (sent 409 (invalid result))

abbrev pub check_permitted : Result (Unit {0}) → Checked → Checked
check_permitted (ok _) rest = rest
check_permitted (throw e) rest = rejected (thrown e)

-- `PUT /v1/control/desired-state` up to its first write. `header` is `x-control-change-id`, its first
-- value if it is repeated; it is read in production alone. The store is the one that the change is
-- looked up in. The writes that follow are `set_desired_state` and `note_change`.
unfoldable pub check_desired_state :
    (environment : String) → Request → (header : Option String) → Json → Store → Checked
check_desired_state environment r header body s =
    check_permitted (require_control_write r.operator)
      (check_valid environment r header (validate_platform_state body environment) s)

-- The answer: the version and the state are read one after the other.
unfoldable pub answer_desired_state : (versions states : Store) → Reply PutReply
answer_desired_state versions states = sent 200 (
    accepted
      (record { config_version = versions.config_version; desired_state = states.desired_state }))

-- `pages.has(name)`: the page of that name.
unfoldable pub find_page : String → List ControlPage → Option ControlPage
unfolding page_name
find_page name [] = none
find_page name (p ∷ ps) = if page_name p === name then some p else find_page name ps

-- A page as it is shown: the secrets redacted.
unfoldable pub shown : ControlPage → Snapshot → Snapshot
unfolding redact_secret_material
shown secrets snapshot = record snapshot { contents = redact_secret_material snapshot.contents }
shown _ snapshot = snapshot

abbrev pub page_not_found : {A : Type 0} → Request → Reply A
page_not_found r = refused 404 "CONTROL_PAGE_NOT_FOUND" "Unknown control-center page" r.id

-- `GET /v1/control/pages/:page`.
unfoldable pub show_page : Request → (name : String) → Store → Reply Snapshot
unfolding find_page shown get_page all_pages
show_page r name s = elim (find_page name all_pages) [
  | none ↦ page_not_found r
  | some page ↦ sent 200 (shown page (get_page page s))
]

abbrev pub page_guard : ControlPage → Json → Result (Unit {0})
page_guard secrets body = assert_secret_metadata_only body
page_guard _ body = ok tt

abbrev pub put_found : Request → Json → Store → Option ControlPage → Store × Reply Snapshot
put_found r body s none = (s, page_not_found r)
put_found r body s (some page) = guarded (page_guard page body) s (
    let t = set_page (r.clock 0) (r.clock 1) page body r.operator.user_id s in
    (t, sent 200 (shown page (get_page page t))))

-- `PUT /v1/control/pages/:page`.
unfoldable pub put_page : Request → (name : String) → Json → Store → Store × Reply Snapshot
unfolding find_page shown get_page set_page all_pages
put_page r name body s =
    guarded (require_control_write r.operator) s (put_found r body s (find_page name all_pages))

-- `{ ...v }`.
abbrev spread_list : List (String × Json) → Fields
spread_list [] = end
spread_list ((k, v) ∷ rest) = field k v (spread_list rest)

abbrev pub spread : Option Json → Fields
spread none = end
spread (some v) = spread_list (entries v)

pub record EmergencyBody : Type 0 where
  pub maintenance_mode : Option Bool
  pub kill_switch : Option String
  pub enabled : Option Bool

-- `Boolean(request.body.enabled)`.
abbrev flag : Option Bool → Bool
flag none = false
flag (some b) = b

-- `??`: the first value that is neither null nor undefined.
abbrev or_else : Option Json → Json → Json
or_else none d = d
or_else (some v) d = elim v [ null ↦ d | w ↦ w ]

abbrev asked : Option Bool → Option Json → Json
asked (some b) current = bool b
asked none current = or_else current (bool false)

abbrev switched : EmergencyBody → Fields → Fields
switched body ks = elim body.kill_switch [
  | none ↦ ks
  | some name ↦ if truthy name then set_field name (bool (flag body.enabled)) ks else ks
]

unfoldable pub emergency_contents : EmergencyBody → Json → Fields
unfolding set_field get_field member entries
emergency_contents body current =
    set_field "killSwitches" (obj (switched body (spread (member "killSwitches" current)))) (
      set_field "maintenanceMode" (asked body.maintenance_mode (member "maintenanceMode" current))
        (spread (some current)))

-- `current.killSwitches` throws if the page holds null.
abbrev pub readable : Json → Result (Unit {0})
readable v = elim v [
  | null ↦ throw (error "Cannot read properties of null (reading 'killSwitches')")
  | _ ↦ ok tt
]

-- `POST /v1/control/emergency` up to its first write: the contents that it will store.
unfoldable pub read_emergency : Request → EmergencyBody → Store → Result Json
unfolding emergency_contents get_page
read_emergency r body s = do
  require_control_write r.operator
  readable (get_page emergency s).contents
  ok (obj (emergency_contents body (get_page emergency s).contents))

-- Its two writes.
unfoldable pub set_emergency : Request → Json → Store → Store
unfolding set_page
set_emergency r next s = set_page (r.clock 0) (r.clock 1) emergency next r.operator.user_id s

unfoldable pub note_emergency : Request → Json → Store → Store
unfolding record_audit
note_emergency r next s =
    record_audit (r.clock 2)
      (field "type" (str "emergency.desired-state.updated")
        (field "actorId" (str r.operator.user_id) (field "data" next end)))
      s
