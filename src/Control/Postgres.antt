-- ===== src/Control/Postgres.antt =====
-- The PostgreSQL store of the control API (`PostgresControlStore` of
-- apps/platform-control-api/src/store.ts): the SQL texts that each method sends, with their values, and
-- what it makes of the rows. The driver is a parameter. A big integer that it gives as text is its number
-- here, and the blanks of an SQL text are one blank each.
use aws_architecture.Base.{
  ℕ, String, List, [], ◌∷◌, Option, none, some, map, Result, ok, throw, ◌>>=◌,
}
use Prim.Native.String
use aws_architecture.Base.Json.{Json, num, str, obj, Fields, end, field, set_field}
use aws_architecture.Control.Machine.{ChangeRequest, state_name}
use aws_architecture.Control.Pages.{ControlPage, page_name, initial_page}
use aws_architecture.Control.Store.{Snapshot}

pub record RuntimeStateRow : Type 0 where
  pub config_version : ℕ
  pub desired_state : Json
  pub actual_state : Json

pub record PageRow : Type 0 where
  pub contents : Json
  pub updated_at : String

pub record ChangeRow : Type 0 where
  pub payload : ChangeRequest

pub record AuditRow : Type 0 where
  pub payload : Fields
  pub created_at : String

-- A value that stands for `$1`, `$2` and so on.
pub data SqlValue : Type 0 where
  text : String → SqlValue
  json : Json → SqlValue
  payload : ChangeRequest → SqlValue
  entry : Fields → SqlValue

-- `query`, for each type of rows that the class asks for.
pub record SqlExecutor (Db : Type 0) : Type 0 where
  pub query : String → List SqlValue → Db → Db × Result (Unit {0})
  pub query_versions : String → List SqlValue → Db → Db × Result (List ℕ)
  pub query_states : String → List SqlValue → Db → Db × Result (List RuntimeStateRow)
  pub query_pages : String → List SqlValue → Db → Db × Result (List PageRow)
  pub query_changes : String → List SqlValue → Db → Db × Result (List ChangeRow)
  pub query_audit : String → List SqlValue → Db → Db × Result (List AuditRow)

-- The SQL texts.
abbrev select_state : String
select_state =
    String.◌++◌ "SELECT config_version, desired_state, actual_state FROM control_runtime_state "
      "WHERE environment = $1"

abbrev insert_audit : String
insert_audit =
    String.◌++◌ "INSERT INTO control_audit_runtime(environment, payload, created_at) VALUES($1,"
      " $2, now())"

abbrev upsert_desired : String
upsert_desired =
    String.◌++◌ "INSERT INTO control_runtime_state( environment, config_version, desired_state," (
      String.◌++◌ " actual_state, updated_at ) VALUES($1, 2, $2, '{}'::jsonb, now()) ON " (
        String.◌++◌ "CONFLICT(environment) DO UPDATE SET desired_state = EXCLUDED.desired_state, " (
          String.◌++◌
            "config_version = control_runtime_state.config_version + 1, updated_at = now() "
            "RETURNING config_version")))

abbrev upsert_actual : String
upsert_actual =
    String.◌++◌ "INSERT INTO control_runtime_state( environment, config_version, desired_state," (
      String.◌++◌ " actual_state, updated_at ) VALUES($1, 1, '{}'::jsonb, $2, now()) ON " (
        String.◌++◌ "CONFLICT(environment) DO UPDATE SET actual_state = EXCLUDED.actual_state, "
          "updated_at = now()"))

abbrev upsert_page : String
upsert_page = String.◌++◌ "INSERT INTO control_page_runtime(environment, page, data, updated_at) " (
    String.◌++◌ "VALUES($1, $2, $3, now()) ON CONFLICT(environment, page) DO UPDATE SET data = "
      "EXCLUDED.data, updated_at = now()")

abbrev select_page : String
select_page =
    String.◌++◌ "SELECT data, updated_at FROM control_page_runtime WHERE environment = $1 AND "
      "page = $2"

abbrev upsert_change : String
upsert_change =
    String.◌++◌ "INSERT INTO control_change_request_runtime( environment, change_id, payload, " (
      String.◌++◌ "created_at, updated_at ) VALUES($1, $2, $3, $4, now()) ON " (
        String.◌++◌ "CONFLICT(environment, change_id) DO UPDATE SET payload = EXCLUDED.payload, "
          "updated_at = now()"))

abbrev select_change : String
select_change =
    String.◌++◌ "SELECT payload FROM control_change_request_runtime WHERE environment = $1 AND "
      "change_id = $2"

abbrev select_changes : String
select_changes =
    String.◌++◌ "SELECT payload FROM control_change_request_runtime WHERE environment = $1 "
      "ORDER BY updated_at DESC LIMIT 500"

abbrev select_audit : String
select_audit =
    String.◌++◌ "SELECT payload, created_at FROM control_audit_runtime WHERE environment = $1 "
      "ORDER BY created_at DESC LIMIT 1000"

-- `rows[0]`.
abbrev pub first_row {ℓ} : {A : Type ℓ} → List A → Option A
first_row [] = none
first_row (x ∷ xs) = some x

-- `rows[0]?.config_version ?? 1`.
abbrev pub or_one : Option ℕ → ℕ
or_one none = 1
or_one (some n) = n

abbrev pub desired_of : Option RuntimeStateRow → Json
desired_of none = obj end
desired_of (some row) = row.desired_state

abbrev pub actual_of : Option RuntimeStateRow → Json
actual_of none = obj end
actual_of (some row) = row.actual_state

abbrev pub version_of : Option RuntimeStateRow → ℕ
version_of none = 1
version_of (some row) = row.config_version

-- `new Date(0).toISOString()`.
abbrev epoch : String
epoch = "1970-01-01T00:00:00.000Z"

abbrev pub snapshot_of : ControlPage → Option PageRow → Snapshot
snapshot_of page none = record { updated_at = epoch; contents = obj (initial_page page) }
snapshot_of page (some row) = record { updated_at = row.updated_at; contents = row.contents }

abbrev pub payload_of : Option ChangeRow → Option ChangeRequest
payload_of none = none
payload_of (some row) = some row.payload

-- An awaited statement, then the rest.
abbrev pub after_query {ℓ} :
    {Db : Type 0} {A : Type ℓ}
    → Db × Result A
    → (A → Db → Db × Result (Unit {0}))
    → Db × Result (Unit {0})
after_query (d, throw e) rest = (d, throw e)
after_query (d, ok x) rest = rest x d

module _ {Db : Type 0} (db : SqlExecutor Db) (environment : String) where
  -- `runtimeState`.
  unfoldable pub runtime_state : Db → Result (Option RuntimeStateRow)
  runtime_state d = do
    rows ← (db.query_states select_state (text environment ∷ []) d).1
    ok (first_row rows)

  unfoldable pub get_desired_state : Db → Result Json
  get_desired_state d = do state ← runtime_state d; ok (desired_of state)

  unfoldable pub get_actual_state : Db → Result Json
  get_actual_state d = do state ← runtime_state d; ok (actual_of state)

  unfoldable pub get_config_version : Db → Result ℕ
  get_config_version d = do state ← runtime_state d; ok (version_of state)

  -- `recordAudit`.
  unfoldable pub insert_entry : Fields → Db → Db × Result (Unit {0})
  insert_entry new d = db.query insert_audit (text environment ∷ entry new ∷ []) d

  unfoldable pub write_desired_state : Json → (actor : String) → Db → Db × Result (Unit {0})
  write_desired_state value actor d =
      after_query (db.query_versions upsert_desired (text environment ∷ json value ∷ []) d)
        (λ versions. insert_entry (
          field "type" (str "desired-state.updated") (
            field "actorId" (str actor)
              (field "configVersion" (num (or_one (first_row versions))) end))))

  unfoldable pub write_actual_state : Json → (actor : String) → Db → Db × Result (Unit {0})
  write_actual_state value actor d =
      after_query (db.query upsert_actual (text environment ∷ json value ∷ []) d) (λ u.
        insert_entry (field "type" (str "actual-state.observed") (field "actorId" (str actor) end)))

  unfoldable pub write_page : ControlPage → Json → (actor : String) → Db → Db × Result (Unit {0})
  write_page page value actor d =
      after_query
        (db.query upsert_page (text environment ∷ text (page_name page) ∷ json value ∷ []) d)
        (λ u. insert_entry (
          field "type" (str (String.◌++◌ "control-page." (String.◌++◌ (page_name page) ".updated")))
            (field "actorId" (str actor) end)))

  unfoldable pub read_page : ControlPage → Db → Result Snapshot
  read_page page d = do
    rows ← (db.query_pages select_page (text environment ∷ text (page_name page) ∷ []) d).1
    ok (snapshot_of page (first_row rows))

  unfoldable pub write_change : ChangeRequest → Db → Db × Result (Unit {0})
  write_change change d =
      after_query
        (db.query upsert_change
          (text environment ∷ text change.id ∷ payload change ∷ text change.created_at ∷ []) d)
        (λ u. insert_entry (
          field "type" (str "change.saved") (
            field "changeId" (str change.id) (
              field "actorId" (str change.actor_id)
                (field "state" (str (state_name change.state)) end)))))

  unfoldable pub read_change : (id : String) → Db → Result (Option ChangeRequest)
  read_change id d = do
    rows ← (db.query_changes select_change (text environment ∷ text id ∷ []) d).1
    ok (payload_of (first_row rows))

  unfoldable pub list_changes : Db → Result (List ChangeRequest)
  list_changes d = do
    rows ← (db.query_changes select_changes (text environment ∷ []) d).1
    ok (map (λ row. row.payload) rows)

  unfoldable pub audit_history : Db → Result (List Fields)
  audit_history d = do
    rows ← (db.query_audit select_audit (text environment ∷ []) d).1
    ok (map (λ row. set_field "at" (str row.created_at) row.payload) rows)
